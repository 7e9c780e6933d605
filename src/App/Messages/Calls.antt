-- ===== src/App/Messages/Calls.antt =====
-- The events of src/mqttService.cpp change the application of src/application.cpp by the calls
-- that they mean, and by nothing else.
use mqtt_sentry.Base.{
  ◌>>=◌, ℤ, ℕ, String, ◌≡◌, refl, ap, sym, ◌∙◌, zero, suc, Bool, true, false, Option, none, some,
  List, [], ◌∷◌, ◌++◌, arith, ◌==◌, nat_eq, string_eq, if◌then◌else◌, Outcome, ok, throw, undefined,
  out_of_range, get_elem?, if_rule2,
}
use mqtt_sentry.Json.{JsonLib}
use mqtt_sentry.Types.Messages.{MachineAlarmKod, machine_state_from_json}
use mqtt_sentry.Settings.{ConfigManager}
use mqtt_sentry.Utils.{TimeZone, split}
use mqtt_sentry.Tg.{Api}
use mqtt_sentry.Watchdog.{TopicWatchdog, pet, expire, on_timeout}
use mqtt_sentry.Mqtt.{MqttService}
use mqtt_sentry.Mqtt.Subscribe.{watchdog_callback}
use mqtt_sentry.Mqtt.Ping.{TimerEnd, expired, aborted, timer_error, on_response_timer, on_published}
use mqtt_sentry.Mqtt.Ping.Connection.{
  PingEvent, published, response_timer, ping_timer, notified, handle as ping_handle,
}
use mqtt_sentry.Mqtt.Receive.{
  Next, receive_again, retry_in_10s, finished, crashed, escaped, operation_aborted, session_expired,
  other_error, resubscribed, pet_watchdog, success, deliver, deliver_alarm, dispatch, route,
  on_message, receive,
}
use mqtt_sentry.Mqtt.System.{
  Event, received, retried, timed_out, pinged, System, handle, run, follow, expire_at,
}
use mqtt_sentry.App.{Application, callbacks}
use mqtt_sentry.App.Threads.{
  Callback, state_came, in_came, in_filter_came, out_came, light_came, call,
}
use mqtt_sentry.App.Messages.{
  read_as, alarm_calls, back_calls, silent_calls, theme_calls, message_calls, broker_calls,
  event_calls, calls, all_calls,
}

module _ ⦃J : JsonLib⦄ ⦃z : TimeZone⦄ ⦃api : Api⦄ (cm : ConfigManager) where
  calls-append :
      (cs ds : List Callback) (app : Application)
      → calls cm (cs ++ ds) app ≡ calls cm ds (calls cm cs app)
  calls-append [] ds app = refl
  calls-append (c ∷ cs) ds app = calls-append cs ds (call cm c app)

  deliver-calls :
      {A : Type 0} (callback : A → Application → Application) (came : A → Callback) (o : Outcome A)
      (app : Application)
      → ((a : A) (app : Application) → callback a app ≡ call cm (came a) app)
      → (deliver cm (callbacks cm) callback o app).0 ≡ calls cm (read_as came o) app
  unfolding deliver
  deliver-calls callback came (ok a) app h = h a app
  deliver-calls callback came (throw e) app h = refl
  deliver-calls callback came undefined app h = refl

  alarm-calls :
      (id : String) (o : Outcome MachineAlarmKod) (app : Application)
      → (deliver_alarm cm (callbacks cm) id o app).0 ≡ calls cm (alarm_calls cm id o) app
  unfolding deliver_alarm callbacks call
  alarm-calls id (ok mk) app = ground arith
  alarm-calls id (throw out_of_range) app = refl
  alarm-calls id (throw e) app = refl
  alarm-calls id undefined app = refl

  pet-calls :
      (w : TopicWatchdog) (app : Application)
      → (pet (watchdog_callback cm (callbacks cm) w.hmi_id) cm.logic (w, app)).1
        ≡ calls cm (back_calls cm w) app
  unfolding pet watchdog_callback callbacks call
  pet-calls w app = ground arith

  theme-calls :
      (id theme payload : String) (w : TopicWatchdog) (m : MqttService) (app : Application)
      → (dispatch cm (callbacks cm) id theme payload w (m, app)).1
        ≡ calls cm (theme_calls cm id theme payload w) app
  unfolding dispatch pet_watchdog callbacks call
  theme-calls id theme payload w m app =
      let P =
        λ (r : MqttService × Application × Next) (cs : List Callback). r.1 ≡ calls cm cs app in
      if_rule2 P (theme == "state")
        (rw (calls-append (back_calls cm w), ← pet-calls w app)
          (deliver-calls _ (state_came id) (do j ← J.parse payload; machine_state_from_json j)
            (pet_watchdog cm (callbacks cm) id w (m, app)).1 (λ a s. refl)))
        (if_rule2 P (theme == "time_light_ECO")
          (deliver-calls _ (light_came id) _ app (λ a s. refl))
          (if_rule2 P (theme == "in_not_fil") (deliver-calls _ (in_came id) _ app (λ a s. refl)) (
            if_rule2 P (theme == "in_filter")
              (deliver-calls _ (in_filter_came id) _ app (λ a s. refl))
              (if_rule2 P (theme == "out") (deliver-calls _ (out_came id) _ app (λ a s. refl))
                (if_rule2 P (theme == "alarm_kod") (alarm-calls id _ app) refl)))))

  route-calls :
      (id theme payload : String) (found : Option TopicWatchdog) (m : MqttService)
      (app : Application)
      → (route cm (callbacks cm) id theme payload found (m, app)).1
        ≡ calls cm (elim found [ none ↦ [] | some w ↦ theme_calls cm id theme payload w ]) app
  unfolding route
  route-calls id theme payload none m app = refl
  route-calls id theme payload (some w) m app = theme-calls id theme payload w m app

  message-calls :
      (full_topic payload : String) (topics : List String) (m : MqttService) (app : Application)
      → split "/" full_topic ≡ topics
      → (on_message cm (callbacks cm) full_topic payload (m, app)).1
        ≡ calls cm (message_calls cm topics payload m.watchdogs) app
  unfolding on_message
  message-calls full_topic payload [] m app t = rw (on_message, t) refl
  message-calls full_topic payload (first ∷ []) m app t = rw (on_message, t) refl
  message-calls full_topic payload (first ∷ id ∷ []) m app t = rw (on_message, t, t) refl
  message-calls full_topic payload (first ∷ id ∷ theme ∷ rest) m app t =
      rw (on_message, t, t) (route-calls id theme payload _ m app)

  resubscribed-calls :
      (topics : Outcome (List String)) (m : MqttService) (app : Application)
      → (resubscribed cm (callbacks cm) (m, topics) app).1 ≡ app
  unfolding resubscribed
  resubscribed-calls (ok topics) m app = refl
  resubscribed-calls (throw e) m app = refl
  resubscribed-calls undefined m app = refl

  silent-calls :
      (reachable : Bool) (wait : Option ℤ) (w : TopicWatchdog) (app : Application)
      → w.timer ≡ wait
      → (expire (watchdog_callback cm (callbacks cm) w.hmi_id) cm.logic reachable (w, app)).1
        ≡ calls cm (silent_calls cm reachable w) app
  unfolding expire on_timeout watchdog_callback callbacks call
  silent-calls reachable none w app e = rw e refl
  silent-calls true (some t) w app e = rw e (ground arith)
  silent-calls false (some t) w app e = rw e refl

  expire-calls :
      (i : ℕ) (reachable : Bool) (ws : List TopicWatchdog) (app : Application)
      → (expire_at cm (callbacks cm) i reachable (ws, app)).1
        ≡ calls cm (elim (get_elem? ws i) [ none ↦ [] | some w ↦ silent_calls cm reachable w ]) app
  unfolding expire_at
  expire-calls i reachable [] app = refl
  expire-calls zero reachable (w ∷ ws) app = silent-calls reachable w.timer w app refl
  expire-calls (suc i) reachable (w ∷ ws) app = expire-calls i reachable ws app

  broker-calls :
      (old new : Bool) (app : Application)
      → notified (callbacks cm) old new app ≡ calls cm (broker_calls cm old new) app
  unfolding callbacks call
  broker-calls old new app = ground arith

  lose-calls :
      (how : TimerEnd) (m : MqttService) (app : Application)
      → (on_response_timer (callbacks cm) how (m, app)).1
        ≡ calls cm
            (if m.is_waiting_for_response then broker_calls cm m.is_connected false else [])
            app
  unfolding on_response_timer callbacks call
  lose-calls expired m app = ground arith
  lose-calls aborted m app = ground arith
  lose-calls timer_error m app = ground arith

  pinged-calls :
      (e : PingEvent) (s : System Application)
      → (ping_handle (callbacks cm) e (s.mqtt, s.user)).1
        ≡ calls cm (event_calls cm (pinged e) s) s.user
  unfolding ping_handle on_published
  pinged-calls (ping_timer how) s = refl
  pinged-calls (response_timer how) s = lose-calls how s.mqtt s.user
  pinged-calls (published reached) s = broker-calls s.mqtt.is_connected reached s.user

  follow-user : (next : Next) (s : System Application) → (follow next s).user ≡ s.user
  unfolding follow
  follow-user receive_again s = refl
  follow-user retry_in_10s s = refl
  follow-user finished s = refl
  follow-user crashed s = refl
  follow-user (escaped e) s = refl

  pub handle-calls :
      (e : Event) (s : System Application)
      → (handle cm (callbacks cm) e s).user ≡ calls cm (event_calls cm e s) s.user
  unfolding handle receive follow
  handle-calls (received success full_topic payload) s =
      follow-user _ _ ∙ message-calls full_topic payload _ s.mqtt s.user refl
  handle-calls (received operation_aborted full_topic payload) s = refl
  handle-calls (received session_expired full_topic payload) s =
      follow-user _ _ ∙ resubscribed-calls _ _ s.user
  handle-calls (received other_error full_topic payload) s = refl
  handle-calls (retried true) s = refl
  handle-calls (retried false) s = refl
  handle-calls (timed_out i) s = expire-calls i s.mqtt.is_connected s.mqtt.watchdogs s.user
  handle-calls (pinged e) s = pinged-calls e s

  -- Whatever events the event loop of the MQTT service handles, they change the application
  -- exactly by the calls that they mean, in order: a message of a machine that has a watchdog, if
  -- it can be read, by the call for its theme and, for an alarm, by the alert of its code unless
  -- that is disabled, or by that of an unknown code if reading it throws std::out_of_range; a
  -- state after silence, and a silence within the limit, by the alert of the watchdog; a change of
  -- the connection by its notice.
  pub run-calls :
      (es : List Event) (s : System Application)
      → (run cm (callbacks cm) es s).user ≡ calls cm (all_calls cm es s) s.user
  run-calls [] s = refl
  run-calls (e ∷ es) s =
      run-calls es (handle cm (callbacks cm) e s)
      ∙ ap (calls cm (all_calls cm es (handle cm (callbacks cm) e s))) (handle-calls e s)
      ∙ sym (calls-append (event_calls cm e s) _ s.user)
