-- ===== src/Examples/Admin.antt =====
-- The theorems on src/adminController.cpp at concrete inputs.
use mqtt_sentry.Base.{
  List, String, ◌≡◌, refl, true, false, none, some, [], ◌∷◌, arith, throw, invalid_argument, lookup,
  keep, nat_eq, string_eq,
}
use mqtt_sentry.Utils.Scan.{stoul}
use mqtt_sentry.Tg.{Api}
use mqtt_sentry.Admin.{is_admin, too_small, on_any_message}
use mqtt_sentry.Admin.Effects.{AdminController}
use mqtt_sentry.Admin.Dialogue.{add_machine_dialogue, add_error_stuck}
use mqtt_sentry.App.{no_state, no_light}
use mqtt_sentry.Types.Messages.{MachineState, MachineTimeLightEco}
use mqtt_sentry.Admin.Updates.{
  Update, wrote, pressed, start_command, stateof_command, handle_all, handle_all-timeout,
  handle_all-others, strangers_change_nothing,
}
use mqtt_sentry.Admin.Search.{search_loop, articles, take, is_match, search_loop-take}
use mqtt_sentry.Examples.Data.{json_lib, cm}
use mqtt_sentry.Examples.Settings.{with_b, b_added}

-- Telegram accepts everything.
instance abbrev open_api : Api
open_api = record { accepts = λ user text. true; answers = λ query. true }

abbrev controller : String → String → AdminController
controller key param = record {
  awaiting_input = (7, record { key = key; param = param }) ∷ [];
  cm = cm;
  sent = [];
}

seven_is_admin : is_admin 7 cm ≡ true
unfolding is_admin
seven_is_admin = refl

id_awaited :
    lookup 7 (controller "machines.add.id" "").awaiting_input
    ≡ some (record { key = "machines.add.id"; param = "" })
unfolding lookup
id_awaited = refl

add_machine_dialogue_example :
    ((on_any_message 7 7 "Freezer"
        (on_any_message 7 7 "B" (controller "machines.add.id" "")).0).0.cm
      ≡ with_b)
    × (lookup 7
          (on_any_message 7 7 "Freezer"
            (on_any_message 7 7 "B" (controller "machines.add.id" "")).0).0.awaiting_input
        ≡ none)
add_machine_dialogue_example =
    add_machine_dialogue 7 7 (λ text. refl) "B" "Freezer" "" with_b true
      (controller "machines.add.id" "") seven_is_admin id_awaited refl refl b_added

des_awaited :
    lookup 7 (controller "errors.add.des" "x").awaiting_input
    ≡ some (record { key = "errors.add.des"; param = "x" })
unfolding lookup
des_awaited = refl

no_number : stoul "x" ≡ throw invalid_argument
unfolding stoul
no_number = refl

add_error_stuck_example :
    ((on_any_message 7 7 "Hot" (controller "errors.add.des" "x")).0.cm ≡ cm)
    × ((on_any_message 7 7 "Hot" (controller "errors.add.des" "x")).0.awaiting_input
        ≡ (controller "errors.add.des" "x").awaiting_input)
add_error_stuck_example =
    add_error_stuck 7 7 (λ text. refl) "Hot" "x" invalid_argument (controller "errors.add.des" "x")
      seven_is_admin des_awaited refl no_number

search_loop-take_example :
    search_loop "A" 0 [] (("A", "Cooler") ∷ ("B", "Freezer") ∷ [])
    ≡ articles 0 (take 21 (keep (is_match "A") (("A", "Cooler") ∷ ("B", "Freezer") ∷ [])))
search_loop-take_example = search_loop-take "A" (("A", "Cooler") ∷ ("B", "Freezer") ∷ [])

abbrev state_of : String → MachineState
state_of id = no_state

abbrev light_of : String → MachineTimeLightEco
light_of id = no_light

-- Of a user who is no administrator.
abbrev strange_updates : List Update
strange_updates =
    wrote 8 8 "90" ∷ pressed 8 8 1 "q" "admin_ex_add" ∷ stateof_command 8 "/stateof A" ∷ []

abbrev own_updates : List Update
own_updates = wrote 7 7 "3" ∷ pressed 7 7 1 "q" "admin_ex_add" ∷ start_command 7 ∷ []

handle_all-timeout_example :
    too_small
      (handle_all state_of light_of own_updates (controller "logic.timeout" "")).cm.logic.timeout
    ≡ false
handle_all-timeout_example =
    handle_all-timeout state_of light_of own_updates (controller "logic.timeout" "") refl

handle_all-others_example :
    lookup 7
      (handle_all state_of light_of strange_updates (controller "logic.timeout" "")).awaiting_input
    ≡ lookup 7 (controller "logic.timeout" "").awaiting_input
handle_all-others_example =
    handle_all-others state_of light_of strange_updates 7 (controller "logic.timeout" "")
      (omega arith, (omega arith, (omega arith, tt)))

eight_is_none : is_admin 8 cm ≡ false
unfolding is_admin
eight_is_none = refl

strangers_change_nothing_example :
    ((handle_all state_of light_of strange_updates (controller "logic.timeout" "")).cm ≡ cm)
    × ((handle_all state_of light_of strange_updates (controller "logic.timeout" "")).awaiting_input
        ≡ (controller "logic.timeout" "").awaiting_input)
strangers_change_nothing_example =
    strangers_change_nothing state_of light_of strange_updates (controller "logic.timeout" "")
      (eight_is_none, (eight_is_none, (eight_is_none, tt)))
