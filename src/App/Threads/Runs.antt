-- ===== src/App/Threads/Runs.antt =====
-- The steps of the threads of src/application.cpp as a list, and what they raise, take and tell.
use mathlib.Core.List.{append_assoc, append-nil}
use mqtt_sentry.Base.{ℕ, String, Bool, ◌≡◌, refl, List, [], ◌∷◌, ◌++◌}
use mqtt_sentry.Utils.{TimeZone}
use mqtt_sentry.Types.{AlertEvents}
use mqtt_sentry.Settings.{ConfigManager}
use mqtt_sentry.Tg.{Api}
use mqtt_sentry.App.Threads.{
  Event, System, handle, raised, taken, told, begin, AllEnabled, handle_all, Reach, started, next,
}
use mqtt_sentry.App.Threads.Order.{Reach-queue}
use mqtt_sentry.App.Threads.Stopping.{taken_all}

module _ ⦃z : TimeZone⦄ ⦃api : Api⦄ where
  abbrev pub raised_all : List Event → System → List AlertEvents
  raised_all [] s = []
  raised_all (e ∷ rest) s = raised e s ++ raised_all rest (handle e s)

  abbrev pub told_all : List Event → System → List (ℕ × String)
  told_all [] s = []
  told_all (e ∷ rest) s = told e s ++ told_all rest (handle e s)

  handle_all-Reach :
      (es : List Event) (rs ts : List AlertEvents) (os : List (ℕ × String)) (s : System)
      → Reach rs ts os s
      → AllEnabled es s
      → Reach (rs ++ raised_all es s) (ts ++ taken_all es s) (os ++ told_all es s) (handle_all es s)
  handle_all-Reach [] rs ts os s r a = rw (append-nil rs, append-nil ts, append-nil os) r
  handle_all-Reach (e ∷ es) rs ts os s r a =
      let s' = handle e s in
      rw
        (
          ← append_assoc rs (raised e s) (raised_all es s'),
          ← append_assoc ts (taken e s) (taken_all es s'),
          ← append_assoc os (told e s) (told_all es s'),
        )
        (handle_all-Reach es _ _ _ s' (next e r a.0 _ _ _ _ refl refl refl refl) a.1)

  pub handle_all-queue :
      (es : List Event) (cm : ConfigManager) (exit : Bool)
      → AllEnabled es (begin cm exit)
      → let s = begin cm exit in
        (raised_all es s ≡ taken_all es s ++ (handle_all es s).app.alert_queue.items)
        × ((handle_all es s).app.tg.sent ≡ told_all es s)
  handle_all-queue es cm exit a =
      Reach-queue _ _ _ _ (handle_all-Reach es [] [] [] _ (started cm exit refl) a)
