-- ===== src/Admin/Dialogue.antt =====
-- The dialogues of _onAnyMessage in src/adminController.cpp.
use mqtt_sentry.Base.{
  ℕ, String, Assoc, ◌≡◌, ◌≢◌, refl, Bool, true, false, none, some, [], ◌∷◌, ◌++◌, arith, nat_eq,
  string_eq, nat_beq_iff, if◌then◌else◌, Exception, throw, ok, insert, erase, lookup, lookup-insert,
  lookup-erase,
}
use mqtt_sentry.Json.{JsonLib}
use mqtt_sentry.Tg.{Api}
use mqtt_sentry.Utils.Scan.{stoul}
use mqtt_sentry.Settings.{ConfigManager}
use mqtt_sentry.Settings.Manager.{add_machine}
use mqtt_sentry.Admin.{is_admin, too_small, is_cancel, on_any_message, apply, show_admin_pannel}
use mqtt_sentry.Admin.Effects.{message, AdminController, PendingAction}
use mqtt_sentry.Admin.Keeps.Messages.{on_any_message-Keeps}

-- The second step of adding a machine.
abbrev pub pseudo_action : String → PendingAction
pseudo_action id = record { key = "machines.add.pseudo"; param = id }

-- A dialogue that a success ends.
pub ended :
    (from : ℕ) (success : Bool) (awaiting : Assoc ℕ PendingAction) (action : PendingAction)
    → lookup from awaiting ≡ some action
    → lookup from (if success then erase from awaiting else awaiting)
      ≡ (if success then none else some action)
ended from true awaiting action e = ground (arith, lookup-erase from from awaiting)
ended from false awaiting action e = e

module _ ⦃J : JsonLib⦄ ⦃api : Api⦄ where
  -- No message of any user, whatever happens on the way, makes a timeout of at least 5 seconds
  -- smaller than that.
  pub on_any_message-timeout :
      (from chat : ℕ) (text : String) (s : AdminController)
      → too_small s.cm.logic.timeout ≡ false
      → too_small (on_any_message from chat text s).0.cm.logic.timeout ≡ false
  on_any_message-timeout from chat text s h =
      on_any_message-Keeps from (λ s. too_small s.cm.logic.timeout ≡ false)
        (record {
          sending = λ s sent p. p;
          putting = λ s a p. p;
          ending = λ s p. p;
          changing = λ s cm allowed p. allowed.timeout p;
        })
        chat text s h

  -- A message of one user leaves the dialogue of every other user where it is.
  pub on_any_message-others :
      (from other chat : ℕ) (text : String) (s : AdminController)
      → other ≢ from
      → lookup other (on_any_message from chat text s).0.awaiting_input
        ≡ lookup other s.awaiting_input
  on_any_message-others from other chat text s ne =
      on_any_message-Keeps from
        (λ s'. lookup other s'.awaiting_input ≡ lookup other s.awaiting_input)
        (record {
          sending = λ s' sent p. p;
          putting = λ s' a p.
              ground (arith, lookup-insert from other a s'.awaiting_input, nat_beq_iff from other);
          ending = λ s' p.
              ground (arith, lookup-erase from other s'.awaiting_input, nat_beq_iff from other);
          changing = λ s' cm allowed p. p;
        })
        chat text s refl

  module _ (from chat : ℕ) (open_chat : (text : String) → api.accepts chat text ≡ true) where
    asked :
        (id param : String) (s : AdminController)
        → is_admin from s.cm ≡ true
        → lookup from s.awaiting_input ≡ some (record { key = "machines.add.id"; param = param })
        → is_cancel id ≡ false
        → (on_any_message from chat id s).0 ≡ record s {
          awaiting_input =
              insert from (record { key = "machines.add.pseudo"; param = id }) s.awaiting_input;
          sent = s.sent ++ message chat "📝 Введіть <b>Підпис машини</b>:" [] ∷ [];
        }
    unfolding on_any_message apply
    asked id param s admin awaited c = simp (admin, awaited, c, open_chat)

    added :
        (id pseudo : String) (cm' : ConfigManager) (success : Bool) (s : AdminController)
        → is_admin from s.cm ≡ true
        → lookup from s.awaiting_input ≡ some (record { key = "machines.add.pseudo"; param = id })
        → is_cancel pseudo ≡ false
        → add_machine id pseudo s.cm ≡ ok (cm', success)
        → let s' = (on_any_message from chat pseudo s).0 in
          (s'.cm ≡ cm')
          × (s'.awaiting_input
              ≡ (if success then erase from s.awaiting_input else s.awaiting_input))
    unfolding on_any_message apply show_admin_pannel
    added id pseudo cm' true s admin awaited d e =
        simp (admin, awaited, d, e, open_chat) (refl, refl)
    added id pseudo cm' false s admin awaited d e = simp (admin, awaited, d, e) (refl, refl)

    -- An administrator whose ID of a new machine is awaited sends it and then a pseudonym, neither
    -- of them the word that cancels. If Telegram accepts the answers and addMachine does not run
    -- into undefined behaviour, it is called with both texts, and the dialogue ends exactly if it
    -- succeeds; otherwise it awaits another pseudonym.
    pub add_machine_dialogue :
        (id pseudo param : String) (cm' : ConfigManager) (success : Bool) (s : AdminController)
        → is_admin from s.cm ≡ true
        → lookup from s.awaiting_input ≡ some (record { key = "machines.add.id"; param = param })
        → is_cancel id ≡ false
        → is_cancel pseudo ≡ false
        → add_machine id pseudo s.cm ≡ ok (cm', success)
        → let s' = (on_any_message from chat pseudo (on_any_message from chat id s).0).0 in
          (s'.cm ≡ cm')
          × (lookup from s'.awaiting_input ≡ (
              if success then none else some (record { key = "machines.add.pseudo"; param = id })))
    add_machine_dialogue id pseudo param cm' success s admin awaited c d e =
        let action = pseudo_action id in
        let asking = record s {
          awaiting_input = insert from action s.awaiting_input;
          sent = s.sent ++ message chat "📝 Введіть <b>Підпис машини</b>:" [] ∷ [];
        } in
        let kept : lookup from asking.awaiting_input ≡ some action =
          ground (arith, lookup-insert from from action s.awaiting_input) in
        let (config, dialogue) = added id pseudo cm' success asking admin kept d e in
        rw (asked id param s admin awaited c)
          (config, rw dialogue (ended from success asking.awaiting_input action kept))

    -- Once the code of a new error is not a number, its dialogue goes nowhere, if Telegram accepts
    -- the answer: no description other than the word that cancels changes the configuration, and
    -- the dialogue stays.
    pub add_error_stuck :
        (text param : String) (e : Exception) (s : AdminController)
        → is_admin from s.cm ≡ true
        → lookup from s.awaiting_input ≡ some (record { key = "errors.add.des"; param = param })
        → is_cancel text ≡ false
        → stoul param ≡ throw e
        → let s' = (on_any_message from chat text s).0 in
          (s'.cm ≡ s.cm) × (s'.awaiting_input ≡ s.awaiting_input)
    unfolding on_any_message apply
    add_error_stuck text param e s admin awaited c bad =
        simp (admin, awaited, c, bad, open_chat) (refl, refl)
