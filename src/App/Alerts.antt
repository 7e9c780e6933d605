-- ===== src/App/Alerts.antt =====
-- Which alerts the application puts into the queue of the worker.
use mqtt_sentry.Base.{
  String, ◌≡◌, ◌≢◌, Bool, true, false, Option, none, some, List, [], ◌∷◌, ◌++◌, arith, ◌==◌,
  string_eq, eq_iff, lookup, if◌then◌else◌, keep, inl, inr, Bool-cases, ap,
}
use mathlib.Core.List.{append_assoc, append-nil}
use mqtt_sentry.Types.{AlertEvents, AlertState, state_beq_iff}
use mqtt_sentry.Types.ThreadSafeQueue.{push}
use mqtt_sentry.Types.ThreadSafeMap.{get, get-set}
use mqtt_sentry.App.{Application, is_news, on_alert}

-- The callback on a sequence of alerts.
unfoldable pub on_alerts : List AlertEvents → Application → Application
on_alerts [] app = app
on_alerts (a ∷ rest) app = on_alerts rest (on_alert a app)

-- The last alert of a machine in a history, newest first.
unfoldable pub latest : String → List AlertEvents → Option AlertEvents
latest id [] = none
latest id (a ∷ seen) = if a.machine_id == id then some a else latest id seen

-- The alerts of a sequence that change the state of their machine, after a history.
unfoldable pub changes : List AlertEvents → List AlertEvents → List AlertEvents
changes seen [] = []
changes seen (a ∷ rest) =
    let later = changes (a ∷ seen) rest in
    if is_news (latest a.machine_id seen) a then a ∷ later else later

-- The map holds the last alert of every machine.
pub record Remembers (seen : List AlertEvents) (app : Application) : Type 0 where
  pub at : (id : String) → get id app.alert_map ≡ latest id seen

pub on_alert-map :
    (a : AlertEvents) (app : Application) (id : String)
    → get id (on_alert a app).alert_map
      ≡ (if a.machine_id == id then some a else get id app.alert_map)
unfolding on_alert
on_alert-map a app id = ground (arith, get-set a.machine_id id a app.alert_map)

on_alert-Remembers :
    (a : AlertEvents) (seen : List AlertEvents) (app : Application)
    → Remembers seen app
    → Remembers (a ∷ seen) (on_alert a app)
unfolding latest
on_alert-Remembers a seen app r = record {
  at = λ id. ground (arith, on_alert-map a app id, r.at id);
}

on_alert-queue :
    (a : AlertEvents) (seen : List AlertEvents) (app : Application)
    → Remembers seen app
    → (on_alert a app).alert_queue.items ≡ (
        if is_news (latest a.machine_id seen) a
        then app.alert_queue.items ++ a ∷ []
        else app.alert_queue.items)
unfolding on_alert push
on_alert-queue a seen app r = rw (← r.at a.machine_id) (ground arith)

-- Where the alert map holds the last alert of every machine, a sequence of alerts extends the
-- queue of the worker by exactly those that change the state of their machine, in order.
pub on_alerts-queue :
    (alerts seen : List AlertEvents) (app : Application)
    → Remembers seen app
    → (on_alerts alerts app).alert_queue.items ≡ app.alert_queue.items ++ changes seen alerts
unfolding on_alerts changes
on_alerts-queue [] seen app r = rw append-nil
on_alerts-queue (a ∷ rest) seen app r =
    rw (on_alerts-queue rest (a ∷ seen) (on_alert a app) (on_alert-Remembers a seen app r)) (
      rw (on_alert-queue a seen app r) (elim (Bool-cases (is_news (latest a.machine_id seen) a)) [
        | inl news ↦ rw (news, append_assoc)
        | inr old ↦ rw old
      ]))

-- Successive alerts have different states, and so has the first of them from `before`.
abbrev pub NoRepeat : Option AlertState → List AlertEvents → Type 0
NoRepeat before [] = Unit {0}
NoRepeat before (a ∷ rest) = (before ≢ some a.state) × NoRepeat (some a.state) rest

abbrev pub of_machine : String → List AlertEvents → List AlertEvents
of_machine id = keep λ a. a.machine_id == id

abbrev pub state_of : Option AlertEvents → Option AlertState
state_of none = none
state_of (some a) = some a.state

not_news :
    (a : AlertEvents) (before : Option AlertEvents)
    → is_news before a ≡ false
    → state_of before ≡ some a.state
unfolding is_news
not_news a none h = cc
not_news a (some prev) h = ap some ((state_beq_iff prev.state a.state).0 (ground arith))

news :
    (a : AlertEvents) (before : Option AlertEvents)
    → is_news before a ≡ true
    → state_of before ≢ some a.state
unfolding is_news
news a none h e = cc
news a (some prev) h e =
    let same : prev.state ≡ a.state = cc in
    ground (arith, (state_beq_iff prev.state a.state).1 same)

-- One alert in front of others, which come after it.
NoRepeat-next :
    (id : String) (a : AlertEvents) (before : Option AlertEvents) (later : List AlertEvents)
    → NoRepeat (state_of (if a.machine_id == id then some a else before)) (of_machine id later)
    → (added : Bool) → (a.machine_id ≡ id → is_news before a ≡ added)
    → NoRepeat (state_of before) (of_machine id (if added then a ∷ later else later))
NoRepeat-next id a before later ih true h = elim (Bool-cases (a.machine_id == id)) [
  | inl mine ↦ rw mine (news a before (h ((eq_iff a.machine_id id).0 mine)), rw mine at ih)
  | inr other ↦ rw other (rw other at ih)
]
NoRepeat-next id a before later ih false h = elim (Bool-cases (a.machine_id == id)) [
  | inl mine ↦ rw (not_news a before (h ((eq_iff a.machine_id id).0 mine))) (rw mine at ih)
  | inr other ↦ rw other at ih
]

changes-NoRepeat :
    (id : String) (alerts seen : List AlertEvents)
    → NoRepeat (state_of (latest id seen)) (of_machine id (changes seen alerts))
unfolding changes latest
changes-NoRepeat id [] seen = tt
changes-NoRepeat id (a ∷ rest) seen =
    NoRepeat-next id a (latest id seen) (changes (a ∷ seen) rest)
      (changes-NoRepeat id rest (a ∷ seen)) (is_news (latest a.machine_id seen) a) (λ e. rw e)

new-Remembers : (app : Application) → app.alert_map.entries ≡ [] → Remembers [] app
unfolding get lookup latest
new-Remembers app m = record { at = λ id. rw m }

-- Among the alerts of one machine that enter the queue of an application whose queue and alert map
-- are empty, no two successive ones have the same state.
pub on_alerts-NoRepeat :
    (alerts : List AlertEvents) (app : Application) (id : String)
    → app.alert_queue.items ≡ []
    → app.alert_map.entries ≡ []
    → NoRepeat none (of_machine id (on_alerts alerts app).alert_queue.items)
on_alerts-NoRepeat alerts app id q m =
    rw (on_alerts-queue alerts [] app (new-Remembers app m), q)
      (unfold latest in changes-NoRepeat id alerts [])
