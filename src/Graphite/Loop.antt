-- ===== src/Graphite/Loop.antt =====
-- The Graphite service run by the event loop: pushes, and the handlers of what it waits for.
use mqtt_sentry.Base.{String, ◌≡◌, ◌≢◌, Bool, true, Option, none, some, List, [], ◌∷◌, ◌++◌}
use mqtt_sentry.Types.{Metric}
use mqtt_sentry.Graphite.{
  GraphiteService, create, push, on_resolved, on_connected, on_retry, on_written,
}

pub data Event : Type 0 where
  pushed : Metric → Event
  resolved connected written : Bool → Event
  retried : Event

unfoldable pub handle : Event → GraphiteService → GraphiteService
unfolding push on_resolved on_connected on_retry on_written
handle (pushed m) g = push m g
handle (resolved success) g = on_resolved success g
handle (connected success) g = on_connected success g
handle (written success) g = on_written success g
handle retried g = on_retry g

-- The operation whose handler runs is under way. A wait of the timer that was aborted runs its
-- handler too.
abbrev pub IsPending : Event → GraphiteService → Type 0
IsPending (pushed m) g = Unit
IsPending (resolved _) g = g.resolve_op ≡ true
IsPending (connected _) g = g.connect_op ≡ true
IsPending (written _) g = g.write_op ≢ none
IsPending retried g = Unit

-- The writes that have ended, in order: whether they succeeded, and their text.
abbrev pub Log : Type 0
Log = List (Bool × String)

abbrev pub text_of : Option String → String
text_of none = ""
text_of (some text) = text

abbrev pub logged : Event → GraphiteService → Log
logged (written success) g = (success, text_of g.write_op) ∷ []
logged _ g = []

abbrev pub metrics : Event → List Metric
metrics (pushed m) = m ∷ []
metrics _ = []

-- The states that the event loop reaches from the constructor, with the metrics that were pushed
-- and the writes that ended on the way.
pub data Reach : List Metric → Log → GraphiteService → Type 0 where
  created : {g : GraphiteService} → g ≡ create → Reach [] [] g
  next :
      {ms : List Metric} {log : Log} {g : GraphiteService} (e : Event)
      → Reach ms log g
      → IsPending e g
      → (ms' : List Metric) (log' : Log) (g' : GraphiteService) → ms' ≡ ms ++ metrics e
      → log' ≡ log ++ logged e g
      → g' ≡ handle e g
      → Reach ms' log' g'
