-- ===== src/Mqtt/System/Alive.antt =====
-- How long src/mqttService.cpp hears its machines: the receive loop among the other handlers.
use mqtt_sentry.Base.{
  ℕ, suc, String, ◌≡◌, ◌≢◌, ◌⊎◌, inl, inr, refl, true, none, List, [], ◌∷◌, ok, get_elem?, All, map,
  out_of_range, arith,
}
use mqtt_sentry.Json.{JsonLib}
use mqtt_sentry.Settings.{ConfigManager}
use mqtt_sentry.Utils.{split}
use mqtt_sentry.Watchdog.{TopicWatchdog}
use mqtt_sentry.Mqtt.{MqttService, Callbacks, create}
use mqtt_sentry.Mqtt.Subscribe.{topic_hmi_id}
use mqtt_sentry.Mqtt.Topics.{start-each_topic, subscribe-each, waiting}
use mqtt_sentry.Mqtt.Ping.Connection.{IsLive, handle-IsLive}
use mqtt_sentry.Mqtt.Receive.{
  ReceiveError, success, operation_aborted, session_expired, other_error, Next, receive_again,
  retry_in_10s, crashed, escaped, receive, on_message,
}
use mqtt_sentry.Mqtt.Receive.Loop.{on_message-Continues}
use mqtt_sentry.Mqtt.Receive.Rule.{receive-rule}
use mqtt_sentry.Mqtt.System.{
  System, Event, received, retried, timed_out, pinged, idle, in_start, in_run, broken, follow,
  handle, IsEnabled, begin, AllEnabled, run,
}

-- An event that ends no loop: a message whose topic has a third segment, an error of the client but
-- that of a disconnection, and waits that end by themselves.
abbrev pub IsBenign : Event → Type 0
IsBenign (received success full_topic payload) = get_elem? (split "/" full_topic) 2 ≢ none
IsBenign (received operation_aborted full_topic payload) = ⊥
IsBenign (retried expired) = expired ≡ true
IsBenign _ = Unit

-- The receive loop and the ping loop go on, or the behaviour is undefined.
abbrev pub IsAlive : {S : Type 0} → System S → Type 0
IsAlive s = ((s.receiving ≢ idle) × (s.runner ≡ in_start) × IsLive s.mqtt) ⊎ (s.runner ≡ broken)

watchdogs-IsLive :
    (m : MqttService) (ws : List TopicWatchdog) → IsLive m → IsLive (record m { watchdogs = ws })
watchdogs-IsLive m ws v = record { idle = v.idle; awaiting = v.awaiting; once = v.once }

follow-IsAlive :
    {S : Type 0} (next : Next) (s : System S)
    → (next ≡ receive_again) ⊎ ((next ≡ crashed) ⊎ (next ≡ retry_in_10s))
    → s.runner ≡ in_start
    → IsLive s.mqtt
    → IsAlive (follow next s)
unfolding follow
follow-IsAlive next s (inl e) r v = rw e (inl (λ i. cc, r, v))
follow-IsAlive next s (inr (inl e)) r v = rw e (inr refl)
follow-IsAlive next s (inr (inr e)) r v = rw e (inl (λ i. cc, r, v))

module _ ⦃J : JsonLib⦄ {S : Type 0} (cm : ConfigManager) (callbacks : Callbacks S)
    (ids : List String) (topics : map topic_hmi_id cm.mqtt.topic ≡ map ok ids) where
  receive-IsLive :
      (ec : ReceiveError) (full_topic payload : String) (m : MqttService) (s : S)
      → IsLive m
      → IsLive (receive cm callbacks ec full_topic payload (m, s)).0
  receive-IsLive ec full_topic payload m s v =
      receive-rule cm callbacks IsLive m s v (λ id w f. watchdogs-IsLive m _ v) ec full_topic
        payload (rw (subscribe-each cm ids m topics) (watchdogs-IsLive m _ v))

  receive-next :
      (ec : ReceiveError) (full_topic payload : String) (m : MqttService) (s : S)
      → IsBenign (received ec full_topic payload)
      → let next = (receive cm callbacks ec full_topic payload (m, s)).2 in
        (next ≡ receive_again) ⊎ ((next ≡ crashed) ⊎ (next ≡ retry_in_10s))
  unfolding receive
  receive-next success full_topic payload m s b =
      elim (on_message-Continues cm callbacks full_topic payload m s) [
        | inl (_, inl again) ↦ inl again
        | inl (_, inr crash) ↦ inr (inl crash)
        | inr (short, _) ↦ absurd (b short)
      ]
  receive-next operation_aborted full_topic payload m s b = absurd b
  receive-next session_expired full_topic payload m s b =
      rw (subscribe-each cm ids m topics) (inr (inr refl))
  receive-next other_error full_topic payload m s b = inr (inr refl)

  handle-IsAlive :
      (e : Event) (s : System S)
      → IsEnabled e s
      → IsBenign e
      → IsAlive s
      → IsAlive (handle cm callbacks e s)
  unfolding handle
  handle-IsAlive e s i b (inr d) = absurd (ground arith)
  handle-IsAlive (received ec full_topic payload) s i b (inl (a, r, v)) =
      follow-IsAlive _ _ (receive-next ec full_topic payload s.mqtt s.user b) r
        (receive-IsLive ec full_topic payload s.mqtt s.user v)
  handle-IsAlive (retried expired) s i b (inl (a, r, v)) = rw b (inl (λ i. cc, r, v))
  handle-IsAlive (timed_out k) s i b (inl (a, r, v)) = inl (a, r, watchdogs-IsLive s.mqtt _ v)
  handle-IsAlive (pinged e) s i b (inl (a, r, v)) =
      inl (a, r, handle-IsLive callbacks e s.mqtt s.user i.1 v)

  run-IsAlive :
      (es : List Event) (s : System S)
      → AllEnabled cm callbacks es s
      → All IsBenign es
      → IsAlive s
      → IsAlive (run cm callbacks es s)
  run-IsAlive [] s i b a = a
  run-IsAlive (e ∷ es) s i b a =
      run-IsAlive es (handle cm callbacks e s) i.1 b.1 (handle-IsAlive e s i.0 b.0 a)

  begin-IsAlive : (user : S) → IsAlive (begin cm user)
  unfolding begin create
  begin-IsAlive user =
      let live : IsLive (record create { watchdogs = map (waiting cm) ids; ping_timer = true }) =
        ground arith in
      rw (start-each_topic cm ids create topics) (inl (λ i. cc, refl, live))

  -- Where every topic of the configuration has a second segment: after start() and any events that
  -- the event loop can run, the receive loop and the ping loop go on, as long as every message has
  -- a topic of three segments or more, the client is not disconnected, the waits between two
  -- attempts end by themselves and the JSON library runs into no undefined behaviour.
  pub run-IsAlive_from_start :
      (es : List Event) (user : S)
      → AllEnabled cm callbacks es (begin cm user)
      → All IsBenign es
      → IsAlive (run cm callbacks es (begin cm user))
  run-IsAlive_from_start es user i b = run-IsAlive es (begin cm user) i b (begin-IsAlive user)

-- The messages and errors that the receive loop has handled.
abbrev pub heard : List Event → ℕ
heard [] = 0
heard (received ec full_topic payload ∷ es) = suc (heard es)
heard (_ ∷ es) = heard es

module _ ⦃J : JsonLib⦄ {S : Type 0} (cm : ConfigManager) (callbacks : Callbacks S) where
  idle_stays :
      (es : List Event) (s : System S)
      → s.receiving ≡ idle
      → AllEnabled cm callbacks es s
      → ((run cm callbacks es s).receiving ≡ idle) × (heard es ≡ 0)
  unfolding handle
  idle_stays [] s i a = (i, refl)
  idle_stays (received ec full_topic payload ∷ es) s i a = absurd (ground arith)
  idle_stays (retried expired ∷ es) s i a = absurd (ground arith)
  idle_stays (timed_out k ∷ es) s i a = idle_stays es (handle cm callbacks (timed_out k) s) i a.1
  idle_stays (pinged e ∷ es) s i a = idle_stays es (handle cm callbacks (pinged e) s) i a.1

  receive_success :
      (full_topic payload : String) (ms : MqttService × S)
      → receive cm callbacks success full_topic payload ms
        ≡ on_message cm callbacks full_topic payload ms
  unfolding receive
  receive_success full_topic payload ms = refl

  escapes :
      (full_topic payload : String) (s : System S)
      → on_message cm callbacks full_topic payload (s.mqtt, s.user)
        ≡ (s.mqtt, s.user, escaped out_of_range)
      → s.runner ≡ in_start
      → handle cm callbacks (received success full_topic payload) s
        ≡ record s { receiving = idle; runner = in_run }
  unfolding handle follow
  escapes full_topic payload s e r = rw (receive_success, e, r)

  deafened :
      (full_topic payload : String) (s : System S)
      → s.runner ≡ in_start
      → get_elem? (split "/" full_topic) 2 ≡ none
      → handle cm callbacks (received success full_topic payload) s
        ≡ record s { receiving = idle; runner = in_run }
  deafened full_topic payload s r short =
      elim (on_message-Continues cm callbacks full_topic payload s.mqtt s.user) [
        | inl (long, _) ↦ absurd (long short)
        | inr (_, e) ↦ escapes full_topic payload s e r
      ]

  -- A message whose topic has fewer than three segments ends the receive loop for good: whatever
  -- the event loop runs after it, no other message is handled; the exception only ends start(),
  -- and the event loop goes on in Application::run.
  pub short_topic_deafens :
      (full_topic payload : String) (es : List Event) (s : System S)
      → s.runner ≡ in_start
      → get_elem? (split "/" full_topic) 2 ≡ none
      → AllEnabled cm callbacks (received success full_topic payload ∷ es) s
      → let deaf = handle cm callbacks (received success full_topic payload) s in
        (deaf.runner ≡ in_run) × ((run cm callbacks es deaf).receiving ≡ idle) × (heard es ≡ 0)
  short_topic_deafens full_topic payload es s r short a =
      let deaf = deafened full_topic payload s r short in
      let after = rw deaf at a.1 in
      let silent = idle_stays es (record s { receiving = idle; runner = in_run }) refl after in
      rw deaf (refl, silent.0, silent.1)
