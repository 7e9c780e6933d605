-- ===== src/Admin/Keeps.antt =====
-- What holds before a message to the bot and after it, whichever way the handler of
-- src/adminController.cpp takes.
pub mod Messages
use mqtt_sentry.Base.{
  ℕ, ◌≡◌, false, List, nat_eq, string_eq, ok, throw, undefined, Outcome, insert, erase,
}
use mqtt_sentry.Settings.{ConfigManager}
use mqtt_sentry.Admin.{too_small}
use mqtt_sentry.Admin.Effects.{Output, AdminController, PendingAction, Act, ◌>>=◌, proceed, handled}

-- A change of the configuration that leaves the timeout as it is or makes it large enough.
pub record IsAllowed (cm cm' : ConfigManager) : Type 0 where
  pub timeout : too_small cm.logic.timeout ≡ false → too_small cm'.logic.timeout ≡ false

same_timeout : {cm cm' : ConfigManager} → cm'.logic.timeout ≡ cm.logic.timeout → IsAllowed cm cm'
same_timeout e = record { timeout = λ h. rw e h }

-- A property of the controller that survives its single changes.
pub record IsStable (from : ℕ) (P : AdminController → Type 0) : Type 1 where
  pub sending : (s : AdminController) (sent : List Output) → P s → P (record s { sent = sent })
  pub putting :
      (s : AdminController) (a : PendingAction)
      → P s
      → P (record s { awaiting_input = insert from a s.awaiting_input })
  pub ending :
      (s : AdminController) → P s → P (record s { awaiting_input = erase from s.awaiting_input })
  pub changing :
      (s : AdminController) (cm : ConfigManager)
      → IsAllowed s.cm cm
      → P s
      → P (record s { cm = cm })

module _ (P : AdminController → Type 0) where
  abbrev pub Keeps : {A : Type 0} → Act A → Type 0
  Keeps act = (s : AdminController) → P s → P (act s).0

  pub proceed-Keeps :
      {A B : Type 0} (next : A → Act B) (r : AdminController × Outcome A)
      → ((a : A) → Keeps (next a))
      → P r.0
      → P (proceed r next).0
  proceed-Keeps next (s, ok a) n p = n a s p
  proceed-Keeps next (s, throw e) n p = p
  proceed-Keeps next (s, undefined) n p = p

  pub bind-Keeps :
      {A B : Type 0} (first : Act A) (next : A → Act B)
      → Keeps first
      → ((a : A) → Keeps (next a))
      → Keeps (first >>= next)
  bind-Keeps first next f n s p = proceed-Keeps next (first s) n (f s p)

  pub handled-Keeps :
      {A : Type 0} (handler : Act A) (r : AdminController × Outcome A)
      → Keeps handler
      → P r.0
      → P (handled handler r).0
  handled-Keeps handler (s, ok a) h p = p
  handled-Keeps handler (s, throw e) h p = h s p
  handled-Keeps handler (s, undefined) h p = p
