-- ===== src/Mqtt/Ping/Connection.antt =====
-- The ping loop of src/mqttService.cpp, run by the event loop: what it tells the application, and
-- that it never stops.
use mqtt_sentry.Base.{◌<◌, ◌≡◌, refl, Bool, true, false, not, List, [], ◌∷◌, arith, if◌then◌else◌}
use mqtt_sentry.Mqtt.{MqttService, Callbacks, create}
use mqtt_sentry.Mqtt.Ping.{
  TimerEnd, expired, aborted, timer_error, differ, ping_loop, on_ping_timer, on_response_timer,
  on_published,
}

-- A handler of the ping loop that the event loop runs.
pub data PingEvent : Type 0 where
  ping_timer response_timer : TimerEnd → PingEvent
  published : Bool → PingEvent

module _ {S : Type 0} (callbacks : Callbacks S) where
  unfoldable pub handle : PingEvent → MqttService × S → MqttService × S
  unfolding on_ping_timer on_response_timer on_published
  handle (ping_timer how) (m, s) = (on_ping_timer how m, s)
  handle (response_timer how) ms = on_response_timer callbacks how ms
  handle (published status) ms = on_published callbacks status ms

  -- The callback for a change of the connection from `old` to `new`.
  abbrev pub notified : Bool → Bool → S → S
  notified old new s =
      if differ new old
      then (if new then callbacks.on_connection s else callbacks.on_disconnection s)
      else s

  -- Every handler calls on_connection exactly when the connection comes back, on_disconnection
  -- exactly when it is lost, and no callback otherwise.
  pub handle-notified :
      (e : PingEvent) (m : MqttService) (s : S)
      → (handle e (m, s)).1 ≡ notified m.is_connected (handle e (m, s)).0.is_connected s
  unfolding handle
  handle-notified (ping_timer expired) m s = ground arith
  handle-notified (ping_timer aborted) m s = ground arith
  handle-notified (ping_timer timer_error) m s = ground arith
  handle-notified (response_timer expired) m s = ground arith
  handle-notified (response_timer aborted) m s = ground arith
  handle-notified (response_timer timer_error) m s = ground arith
  handle-notified (published status) m s = ground arith

  unfoldable pub run : List PingEvent → MqttService × S → MqttService × S
  run [] ms = ms
  run (e ∷ es) ms = run es (handle e ms)

-- Callbacks that write down the changes, the last one first.
abbrev pub recorder : Callbacks (List Bool)
recorder = record {
  on_alert = λ a s. s;
  on_ms = λ id ms s. s;
  on_min = λ id ms s. s;
  on_minf = λ id ms s. s;
  on_mout = λ id ms s. s;
  on_mlight = λ id ms s. s;
  on_malarm = λ id ms s. s;
  on_connection = λ s. true ∷ s;
  on_disconnection = λ s. false ∷ s;
}

-- The changes that were told alternate, the first one was a loss, and the last is the present state.
abbrev pub Alternates : Bool → List Bool → Type 0
Alternates now [] = now ≡ true
Alternates now (b ∷ before) = (b ≡ now) × Alternates (not b) before

notified-Alternates :
    (old new : Bool) (s : List Bool)
    → Alternates old s
    → Alternates new (notified recorder old new s)
notified-Alternates true true s h = h
notified-Alternates true false s h = (refl, h)
notified-Alternates false true s h = (refl, h)
notified-Alternates false false s h = h

handle-Alternates :
    (e : PingEvent) (m : MqttService) (s : List Bool)
    → Alternates m.is_connected s
    → Alternates (handle recorder e (m, s)).0.is_connected (handle recorder e (m, s)).1
handle-Alternates e m s h =
    rw (handle-notified recorder e m s)
      (notified-Alternates m.is_connected (handle recorder e (m, s)).0.is_connected s h)

run-Alternates_from :
    (es : List PingEvent) (m : MqttService) (s : List Bool)
    → Alternates m.is_connected s
    → Alternates (run recorder es (m, s)).0.is_connected (run recorder es (m, s)).1
unfolding run
run-Alternates_from [] m s h = h
run-Alternates_from (e ∷ es) m s h =
    run-Alternates_from es (handle recorder e (m, s)).0 (handle recorder e (m, s)).1
      (handle-Alternates e m s h)

-- Whatever handlers of the ping loop run after start(), and in whatever order, the application is
-- told of losses and returns of the broker in turn, of a loss first, and the last one told is the
-- present state.
pub run-Alternates :
    (es : List PingEvent)
    → Alternates
        (run recorder es (ping_loop create, [])).0.is_connected
        (run recorder es (ping_loop create, [])).1
run-Alternates es = run-Alternates_from es (ping_loop create) [] (unfold ping_loop create in refl)

-- What the event loop can run in a state: the handler of a wait that is pending or was aborted,
-- and that of a publish under way.
abbrev pub IsPending : PingEvent → MqttService → Type 0
IsPending (ping_timer aborted) m = Unit
IsPending (ping_timer _) m = m.ping_timer ≡ true
IsPending (response_timer aborted) m = Unit
IsPending (response_timer _) m = m.response_timer ≡ true
IsPending (published _) m = 0 < m.publishes

-- Either the ping timer runs, or the response timer while a ping is awaited.
pub record IsLive (m : MqttService) : Type 0 where
  pub idle : m.is_waiting_for_response ≡ false → m.ping_timer ≡ true
  pub awaiting : m.is_waiting_for_response ≡ true → m.response_timer ≡ true
  pub once : m.is_waiting_for_response ≡ true → m.ping_timer ≡ false

pub handle-IsLive :
    {S : Type 0} (callbacks : Callbacks S) (e : PingEvent) (m : MqttService) (s : S)
    → IsPending e m
    → IsLive m
    → IsLive (handle callbacks e (m, s)).0
unfolding handle
handle-IsLive callbacks (ping_timer expired) m s p v = ground arith
handle-IsLive callbacks (ping_timer aborted) m s p v = ground arith
handle-IsLive callbacks (ping_timer timer_error) m s p v = ground arith
handle-IsLive callbacks (response_timer expired) m s p v = ground arith
handle-IsLive callbacks (response_timer aborted) m s p v = ground arith
handle-IsLive callbacks (response_timer timer_error) m s p v = ground arith
handle-IsLive callbacks (published status) m s p v = ground arith

-- The states that the event loop can reach after start().
pub data Reach {S : Type 0} (callbacks : Callbacks S) (s : S) : MqttService × S → Type 0 where
  started : {ms : MqttService × S} → ms ≡ (ping_loop create, s) → Reach callbacks s ms
  next :
      {ms ms' : MqttService × S} (e : PingEvent)
      → Reach callbacks s ms
      → IsPending e ms.0
      → ms' ≡ handle callbacks e ms
      → Reach callbacks s ms'

-- In every state that the event loop reaches after start(), a wait is pending that continues the
-- ping loop: that of the ping timer if no ping is awaited, and that of the response timer if one
-- is.
pub Reach-IsLive :
    {S : Type 0} {callbacks : Callbacks S} {s : S} {ms : MqttService × S}
    → Reach callbacks s ms
    → IsLive ms.0
unfolding ping_loop create
Reach-IsLive (started e) = ground arith
Reach-IsLive {callbacks = callbacks} (next {ms = ms} e r p q) =
    rw q (handle-IsLive callbacks e ms.0 ms.1 p (Reach-IsLive r))
