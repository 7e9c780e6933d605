-- ===== src/Watchdog/Reports.antt =====
-- The order of the reports of a watchdog.
use mqtt_sentry.Base.{
  ℕ, String, zero, suc, ◌+◌, ◌≤◌, ◌<◌, ◌^◌, ◌≡◌, ◌≢◌, Bool, true, false, none, List, [], ◌∷◌, arith,
}
use mqtt_sentry.Settings.{Logic}
use mqtt_sentry.Watchdog.{
  TopicWatchdog, WatchdogEvents, online, offline, create, start_timer, pet, expire,
}

-- A message of the machine, or the end of the wait, with or without the broker.
pub data Input : Type 0 where
  petted : Input
  expired : Bool → Input

-- The reports, the last one first.
abbrev pub report : WatchdogEvents → List WatchdogEvents → List WatchdogEvents
report e s = e ∷ s

unfoldable pub step :
    Logic → Input → TopicWatchdog × List WatchdogEvents → TopicWatchdog × List WatchdogEvents
unfolding pet expire
step logic petted ws = pet report logic ws
step logic (expired connected) ws = expire report logic connected ws

unfoldable pub run :
    Logic → List Input → TopicWatchdog × List WatchdogEvents → TopicWatchdog × List WatchdogEvents
run logic [] ws = ws
run logic (i ∷ rest) ws = run logic rest (step logic i ws)

-- A machine counts as online before the first report.
abbrev pub last : List WatchdogEvents → WatchdogEvents
last [] = online
last (e ∷ s) = e

-- Every Online comes right after an Offline.
abbrev pub IsPaired : List WatchdogEvents → Type 0
IsPaired [] = Unit {0}
IsPaired (online ∷ s) = (last s ≡ offline) × IsPaired s
IsPaired (offline ∷ s) = IsPaired s

abbrev status : ℕ → WatchdogEvents
status zero = online
status (suc n) = offline

-- `limit` timeouts are reported; the wait is pending until one more.
pub record Inv (limit : ℕ) (w : TopicWatchdog) (s : List WatchdogEvents) : Type 0 where
  pub counted : w.timeouts ≤ limit + 1
  pub waits : w.timer ≢ none → w.timeouts ≤ limit
  pub armed : w.timeouts ≤ limit → w.timer ≢ none
  pub told : last s ≡ status w.timeouts
  pub paired : IsPaired s

step-Inv :
    (logic : Logic) (i : Input) (w : TopicWatchdog) (s : List WatchdogEvents)
    → 0 < logic.timeout_limit
    → logic.timeout_limit + 1 < 2 ^ 32
    → Inv logic.timeout_limit w s
    → Inv logic.timeout_limit (step logic i (w, s)).0 (step logic i (w, s)).1
unfolding step
step-Inv logic petted w s p h v = ground arith
step-Inv logic (expired true) w s p h v = ground arith
step-Inv logic (expired false) w s p h v = ground arith

run-Inv :
    (logic : Logic) (inputs : List Input) (w : TopicWatchdog) (s : List WatchdogEvents)
    → 0 < logic.timeout_limit
    → logic.timeout_limit + 1 < 2 ^ 32
    → Inv logic.timeout_limit w s
    → Inv logic.timeout_limit (run logic inputs (w, s)).0 (run logic inputs (w, s)).1
unfolding run
run-Inv logic [] w s p h v = v
run-Inv logic (i ∷ rest) w s p h v =
    run-Inv logic rest (step logic i (w, s)).0 (step logic i (w, s)).1 p h
      (step-Inv logic i w s p h v)

-- With a timeout limit of at least one and below 2^32 - 1, whatever messages and timeouts a new
-- watchdog meets, where the handler of a wait that has ended runs before any other, every Online
-- it reports comes right after an Offline, its last report is Offline exactly while it has counted
-- a timeout, and it waits exactly until it has counted one timeout more than the limit.
pub run-Inv_new :
    (logic : Logic) (inputs : List Input) (hmi_id : String)
    → 0 < logic.timeout_limit
    → logic.timeout_limit + 1 < 2 ^ 32
    → let (w, s) = run logic inputs (start_timer logic (create hmi_id), []) in
      Inv logic.timeout_limit w s
run-Inv_new logic inputs hmi_id p h =
    run-Inv logic inputs (start_timer logic (create hmi_id)) [] p h
      (unfold create start_timer in ground arith)
