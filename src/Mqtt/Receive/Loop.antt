-- ===== src/Mqtt/Receive/Loop.antt =====
-- What the handler of a received message leaves: the next receive, and the watchdogs.
use mqtt_sentry.Base.{
  String, ◌≡◌, ◌≢◌, ◌⊎◌, inl, inr, refl, Option, none, some, List, [], ◌∷◌, arith, ◌==◌, string_eq,
  eq_iff, if◌then◌else◌, out_of_range, Outcome, ok, throw, undefined, get_elem?, Bool-cases,
  if_rule, ◌&&◌,
}
use mqtt_sentry.Json.{JsonLib}
use mqtt_sentry.Settings.{ConfigManager}
use mqtt_sentry.Types.Messages.{MachineAlarmKod}
use mqtt_sentry.Utils.{split}
use mqtt_sentry.Watchdog.{TopicWatchdog, pet}
use mqtt_sentry.Mqtt.{MqttService, Callbacks}
use mqtt_sentry.Mqtt.Receive.{
  Next, receive_again, crashed, escaped, find_watchdog, put_watchdog, deliver, deliver_alarm,
  pet_watchdog, dispatch, route, on_message,
}

-- A new receive follows, unless the behaviour is undefined.
abbrev pub Continues : Next → Type 0
Continues next = (next ≡ receive_again) ⊎ (next ≡ crashed)

deliver-Continues :
    {S A : Type 0} (cm : ConfigManager) (callbacks : Callbacks S) (callback : A → S → S)
    (o : Outcome A) (s : S)
    → Continues (deliver cm callbacks callback o s).1
unfolding deliver
deliver-Continues cm callbacks callback (ok a) s = inl refl
deliver-Continues cm callbacks callback (throw e) s = inl refl
deliver-Continues cm callbacks callback undefined s = inr refl

find-put :
    (id : String) (w : TopicWatchdog) (ws : List TopicWatchdog) (other : String)
    → w.hmi_id ≡ id
    → other ≢ id
    → find_watchdog other (put_watchdog id w ws) ≡ find_watchdog other ws
unfolding find_watchdog put_watchdog
find-put id w [] other e ne = refl
find-put id w (x ∷ ws) other e ne = ground (
  arith,
  find-put id w ws other e ne,
  eq_iff x.hmi_id id,
  eq_iff x.hmi_id other,
  eq_iff w.hmi_id other,
)

find-put_self :
    (id : String) (w old : TopicWatchdog) (ws : List TopicWatchdog)
    → w.hmi_id ≡ id
    → find_watchdog id ws ≡ some old
    → find_watchdog id (put_watchdog id w ws) ≡ some w
unfolding find_watchdog put_watchdog
find-put_self id w old [] e f = cc
find-put_self id w old (x ∷ ws) e f =
    ground (arith, find-put_self id w old ws e, eq_iff w.hmi_id id)

pub find-hmi_id :
    (id : String) (ws : List TopicWatchdog) (w : TopicWatchdog)
    → find_watchdog id ws ≡ some w
    → w.hmi_id ≡ id
unfolding find_watchdog
find-hmi_id id [] w f = cc
find-hmi_id id (x ∷ ws) w f = ground (arith, find-hmi_id id ws w, eq_iff x.hmi_id id)

alarm-Continues :
    {S : Type 0} (cm : ConfigManager) (callbacks : Callbacks S) (id : String)
    (o : Outcome MachineAlarmKod) (s : S)
    → Continues (deliver_alarm cm callbacks id o s).1
unfolding deliver_alarm
alarm-Continues cm callbacks id (ok a) s = inl refl
alarm-Continues cm callbacks id (throw out_of_range) s = inl refl
alarm-Continues cm callbacks id (throw e) s = inl refl
alarm-Continues cm callbacks id undefined s = inr refl

module _ ⦃J : JsonLib⦄ {S : Type 0} (cm : ConfigManager) (callbacks : Callbacks S) where
  dispatch-Continues :
      (id theme payload : String) (w : TopicWatchdog) (ms : MqttService × S)
      → Continues (dispatch cm callbacks id theme payload w ms).2
  unfolding dispatch
  dispatch-Continues id theme payload w (m, s) =
      let P = λ (r : MqttService × S × Next). Continues r.2 in
      if_rule P (theme == "state") (deliver-Continues cm callbacks _ _ _) (
        if_rule P (theme == "time_light_ECO") (deliver-Continues cm callbacks _ _ _) (
          if_rule P (theme == "in_not_fil") (deliver-Continues cm callbacks _ _ _) (
            if_rule P (theme == "in_filter") (deliver-Continues cm callbacks _ _ _) (
              if_rule P (theme == "out") (deliver-Continues cm callbacks _ _ _) (
                if_rule P (theme == "alarm_kod") (alarm-Continues cm callbacks id _ _)
                  (inl refl))))))

  route-Continues :
      (id theme payload : String) (found : Option TopicWatchdog) (ms : MqttService × S)
      → Continues (route cm callbacks id theme payload found ms).2
  unfolding route
  route-Continues id theme payload none ms = inl refl
  route-Continues id theme payload (some w) ms = dispatch-Continues id theme payload w ms

  -- A message whose topic has three segments or more leads to a new receive, whatever its payload
  -- and whatever exception its parsing throws, unless the JSON library runs into undefined
  -- behaviour; from a topic of fewer segments an exception leaves the handler, with no new receive
  -- and nothing changed.
  pub on_message-Continues :
      (full_topic payload : String) (m : MqttService) (s : S)
      → ((get_elem? (split "/" full_topic) 2 ≢ none)
          × Continues (on_message cm callbacks full_topic payload (m, s)).2)
        ⊎ ((get_elem? (split "/" full_topic) 2 ≡ none)
            × (on_message cm callbacks full_topic payload (m, s) ≡ (m, s, escaped out_of_range)))
  unfolding on_message
  on_message-Continues full_topic payload m s = go (split "/" full_topic)
    where
      handled : List String → MqttService × S × Next
      handled topics = elim (get_elem? topics 1) [
        | none ↦ (m, s, escaped out_of_range)
        | some id ↦ elim (get_elem? topics 2) [
          | none ↦ (m, s, escaped out_of_range)
          | some theme ↦ route cm callbacks id theme payload (find_watchdog id m.watchdogs) (m, s)
        ]
      ]

      go :
          (topics : List String)
          → ((get_elem? topics 2 ≢ none) × Continues (handled topics).2)
            ⊎ ((get_elem? topics 2 ≡ none) × (handled topics ≡ (m, s, escaped out_of_range)))
      go [] = inr (refl, refl)
      go (x ∷ []) = inr (refl, refl)
      go (x ∷ id ∷ []) = inr (refl, refl)
      go (x ∷ id ∷ theme ∷ rest) =
          inl (λ e. cc, route-Continues id theme payload (find_watchdog id m.watchdogs) (m, s))

  pet_watchdog_other :
      (id other : String) (w : TopicWatchdog) (m : MqttService) (s : S)
      → find_watchdog id m.watchdogs ≡ some w
      → other ≢ id
      → find_watchdog other (pet_watchdog cm callbacks id w (m, s)).0.watchdogs
        ≡ find_watchdog other m.watchdogs
  unfolding pet_watchdog pet
  pet_watchdog_other id other w m s f ne =
      find-put id _ m.watchdogs other (find-hmi_id id m.watchdogs w f) ne

  pet_watchdog_self :
      (id : String) (w : TopicWatchdog) (m : MqttService) (s : S)
      → find_watchdog id m.watchdogs ≡ some w
      → find_watchdog id (pet_watchdog cm callbacks id w (m, s)).0.watchdogs
        ≡ some (record { hmi_id = id; timeouts = 0; timer = some cm.logic.timeout })
  unfolding pet_watchdog pet
  pet_watchdog_self id w m s f =
      let e = find-hmi_id id m.watchdogs w f in
      rw (
        find-put_self id (record w { timeouts = 0; timer = some cm.logic.timeout }) w m.watchdogs e
            f,
        e,
      )

  -- A message whose machine has a watchdog leaves that of every other machine as it is; a "state"
  -- message sets its own back to no timeouts and a full wait, whether or not it can be parsed, and
  -- no other message touches it.
  pub dispatch-watchdogs :
      (id other theme payload : String) (w : TopicWatchdog) (m : MqttService) (s : S)
      → find_watchdog id m.watchdogs ≡ some w
      → find_watchdog other (dispatch cm callbacks id theme payload w (m, s)).0.watchdogs ≡ (
          if theme == "state" && other == id
          then some (record { hmi_id = id; timeouts = 0; timer = some cm.logic.timeout })
          else find_watchdog other m.watchdogs)
  unfolding dispatch
  dispatch-watchdogs id other theme payload w m s f = elim (Bool-cases (theme == "state")) [
    | inl state ↦ rw state (elim (Bool-cases (other == id)) [
      | inl mine ↦
          rw ((eq_iff other id).0 mine, (eq_iff id id).1 refl) (pet_watchdog_self id w m s f)
      | inr its_own ↦
          rw its_own (pet_watchdog_other id other w m s f (λ e. ground (arith, eq_iff other id)))
    ])
    | inr not_state ↦
        let P = λ (r : MqttService × S × Next).
          find_watchdog other r.0.watchdogs ≡ find_watchdog other m.watchdogs in
        rw not_state (
          if_rule P (theme == "time_light_ECO") refl (
            if_rule P (theme == "in_not_fil") refl (
              if_rule P (theme == "in_filter") refl
                (if_rule P (theme == "out") refl (if_rule P (theme == "alarm_kod") refl refl)))))
  ]
