-- ===== src/Mqtt/System/Watchdogs.antt =====
-- The watchdogs of src/mqttService.cpp on the event loop.
use mqtt_sentry.Base.{
  Bool-cases, sym, ◌∙◌, ℕ, zero, suc, ◌+◌, ◌≤◌, ◌<◌, ◌^◌, String, ◌≡◌, ◌⊎◌, inl, inr, refl, Bool,
  true, false, Option, none, some, List, [], ◌∷◌, ℤ, ok, map, arith, ◌==◌, string_eq, eq_iff,
}
use mqtt_sentry.Json.{JsonLib}
use mqtt_sentry.Settings.{ConfigManager, Logic}
use mqtt_sentry.Watchdog.{TopicWatchdog, WatchdogEvents, pet, expire}
use mqtt_sentry.Mqtt.{MqttService, Callbacks, create}
use mqtt_sentry.Mqtt.Subscribe.{topic_hmi_id}
use mqtt_sentry.Mqtt.Topics.{start-each_topic, subscribe-each, waiting}
use mqtt_sentry.Mqtt.Receive.{
  put_watchdog, receive, ReceiveError, Next, receive_again, retry_in_10s, finished, crashed,
  escaped,
}
use mqtt_sentry.Mqtt.Receive.Loop.{find-hmi_id}
use mqtt_sentry.Mqtt.Receive.Rule.{receive-rule}
use mqtt_sentry.Mqtt.Ping.{expired, aborted, timer_error}
use mqtt_sentry.Mqtt.Ping.Connection.{
  PingEvent, ping_timer, response_timer, published, handle as ping_handle,
}
use mqtt_sentry.Mqtt.System.{
  System, Event, received, retried, timed_out, pinged, follow, handle, expire_at, begin, run,
}

-- A watchdog waits and has counted as many timeouts as the limit at most, or has counted one more
-- and waits for nothing.
abbrev pub IsTimed : Logic → TopicWatchdog → Type 0
IsTimed logic w =
    ((w.timer ≡ some logic.timeout) × (w.timeouts ≤ logic.timeout_limit))
    ⊎ ((w.timer ≡ none) × (w.timeouts ≡ logic.timeout_limit + 1))

expire-IsTimed :
    {S : Type 0} (callback : WatchdogEvents → S → S) (logic : Logic) (connected : Bool)
    (w : TopicWatchdog) (s : S)
    → logic.timeout_limit + 1 < 2 ^ 32
    → IsTimed logic w
    → IsTimed logic (expire callback logic connected (w, s)).0
unfolding expire
expire-IsTimed callback logic true w s h (inl (t, n)) = simp t (ground arith)
expire-IsTimed callback logic false w s h (inl (t, n)) = simp t (inl (refl, n))
expire-IsTimed callback logic connected w s h (inr (t, n)) = simp t (inr (refl, n))

expire-hmi_id :
    {S : Type 0} (callback : WatchdogEvents → S → S) (logic : Logic) (connected : Bool)
    (timer : Option ℤ) (w : TopicWatchdog) (s : S)
    → w.timer ≡ timer
    → (expire callback logic connected (w, s)).0.hmi_id ≡ w.hmi_id
unfolding expire
expire-hmi_id callback logic connected none w s e = rw e
expire-hmi_id callback logic true (some t) w s e = rw e (ground arith)
expire-hmi_id callback logic false (some t) w s e = rw e

-- One watchdog for each ID, in order, and all of them set.
abbrev pub Watch : Logic → List String → List TopicWatchdog → Type 0
Watch logic [] [] = Unit
Watch logic (id ∷ ids) (w ∷ ws) = (w.hmi_id ≡ id) × IsTimed logic w × Watch logic ids ws
Watch logic _ _ = ⊥

put-Watch :
    (logic : Logic) (id : String) (new : TopicWatchdog) (ids : List String)
    (ws : List TopicWatchdog)
    → new.hmi_id ≡ id
    → IsTimed logic new
    → Watch logic ids ws
    → Watch logic ids (put_watchdog id new ws)
unfolding put_watchdog
put-Watch logic id new [] [] e i w = tt
put-Watch logic id new [] (x ∷ ws) e i w = elim w [ ]
put-Watch logic id new (k ∷ ids) [] e i w = elim w [ ]
put-Watch logic id new (k ∷ ids) (x ∷ ws) e i (m, a, v) = elim (Bool-cases (x.hmi_id == id)) [
  | inl hit ↦ rw hit (e ∙ sym ((eq_iff x.hmi_id id).0 hit) ∙ m, i, v)
  | inr miss ↦ rw miss (m, a, put-Watch logic id new ids ws e i v)
]

waiting-Watch : (cm : ConfigManager) (ids : List String) → Watch cm.logic ids (map (waiting cm) ids)
waiting-Watch cm [] = tt
waiting-Watch cm (id ∷ ids) = (refl, inl (refl, omega arith), waiting-Watch cm ids)

module _ {S : Type 0} (cm : ConfigManager) (callbacks : Callbacks S)
    (limit : cm.logic.timeout_limit + 1 < 2 ^ 32) where
  expire_at-Watch :
      (i : ℕ) (connected : Bool) (ids : List String) (ws : List TopicWatchdog) (s : S)
      → Watch cm.logic ids ws
      → Watch cm.logic ids (expire_at cm callbacks i connected (ws, s)).0
  unfolding expire_at
  expire_at-Watch i connected [] [] s w = tt
  expire_at-Watch i connected [] (x ∷ ws) s w = elim w [ ]
  expire_at-Watch zero connected (k ∷ ids) [] s w = elim w [ ]
  expire_at-Watch (suc i) connected (k ∷ ids) [] s w = elim w [ ]
  expire_at-Watch zero connected (k ∷ ids) (x ∷ ws) s (m, a, v) = (
    expire-hmi_id _ cm.logic connected _ x s refl ∙ m,
    expire-IsTimed _ cm.logic connected x s limit a,
    v,
  )
  expire_at-Watch (suc i) connected (k ∷ ids) (x ∷ ws) s (m, a, v) =
      (m, a, expire_at-Watch i connected ids ws s v)

  ping-watchdogs :
      (e : PingEvent) (m : MqttService) (s : S)
      → (ping_handle callbacks e (m, s)).0.watchdogs ≡ m.watchdogs
  unfolding ping_handle
  ping-watchdogs (ping_timer expired) m s = ground arith
  ping-watchdogs (ping_timer aborted) m s = refl
  ping-watchdogs (ping_timer timer_error) m s = refl
  ping-watchdogs (response_timer expired) m s = ground arith
  ping-watchdogs (response_timer aborted) m s = ground arith
  ping-watchdogs (response_timer timer_error) m s = ground arith
  ping-watchdogs (published status) m s = refl

  module _ ⦃J : JsonLib⦄ (ids : List String)
      (topics : map topic_hmi_id cm.mqtt.topic ≡ map ok ids) where
    follow-watchdogs :
        (next : Next) (s : System S) → (follow next s).mqtt.watchdogs ≡ s.mqtt.watchdogs
    unfolding follow
    follow-watchdogs receive_again s = refl
    follow-watchdogs retry_in_10s s = refl
    follow-watchdogs finished s = refl
    follow-watchdogs crashed s = refl
    follow-watchdogs (escaped e) s = refl

    receive-Watch :
        (ec : ReceiveError) (full_topic payload : String) (m : MqttService) (s : S)
        → Watch cm.logic ids m.watchdogs
        → Watch cm.logic ids (receive cm callbacks ec full_topic payload (m, s)).0.watchdogs
    unfolding pet
    receive-Watch ec full_topic payload m s v =
        receive-rule cm callbacks (λ m. Watch cm.logic ids m.watchdogs) m s v
          (λ id w f.
            put-Watch cm.logic id _ ids m.watchdogs (find-hmi_id id m.watchdogs w f)
              (inl (refl, omega arith)) v)
          ec full_topic payload (rw (subscribe-each cm ids m topics) (waiting-Watch cm ids))

    handle-Watch :
        (e : Event) (s : System S)
        → Watch cm.logic ids s.mqtt.watchdogs
        → Watch cm.logic ids (handle cm callbacks e s).mqtt.watchdogs
    unfolding handle
    handle-Watch (received ec full_topic payload) s v =
        rw follow-watchdogs (receive-Watch ec full_topic payload s.mqtt s.user v)
    handle-Watch (retried true) s v = v
    handle-Watch (retried false) s v = v
    handle-Watch (timed_out i) s v =
        expire_at-Watch i s.mqtt.is_connected ids s.mqtt.watchdogs s.user v
    handle-Watch (pinged e) s v = rw ping-watchdogs v

    run-Watch :
        (es : List Event) (s : System S)
        → Watch cm.logic ids s.mqtt.watchdogs
        → Watch cm.logic ids (run cm callbacks es s).mqtt.watchdogs
    run-Watch [] s v = v
    run-Watch (e ∷ es) s v = run-Watch es (handle cm callbacks e s) (handle-Watch e s v)

    -- Where every topic of the configuration has a second segment and the limit is below 2^32 - 1:
    -- after start() and whatever events, where the handler of a wait that has ended runs before
    -- any other, there is one watchdog for each topic, in order, and each of them waits with at
    -- most as many timeouts counted as the limit, or has counted one more and waits for nothing.
    pub run-Watch_from_start :
        (es : List Event) (user : S)
        → Watch cm.logic ids (run cm callbacks es (begin cm user)).mqtt.watchdogs
    unfolding begin
    run-Watch_from_start es user =
        rw (start-each_topic cm ids create topics) (run-Watch es _ (waiting-Watch cm ids))
