-- ===== src/Examples/History.antt =====
-- The theorems on sequences of changes of src/settings.cpp at concrete inputs.
use mqtt_sentry.Base.{◌≡◌, refl, some, List, [], ◌∷◌, arith, ok, string_eq, nat_eq, insert, All}
use mqtt_sentry.Json.{JsonLib}
use mqtt_sentry.Utils.{split}
use mqtt_sentry.Settings.{ConfigManager, topic_exists, machine_topic}
use mqtt_sentry.Settings.Manager.{
  config_json, construct, write, add_user, add_machine, add_ex, update_both, update_tg_config,
  update_logic_config, update_mqtt_config,
}
use mqtt_sentry.Settings.Format.{tg_to_json, mqtt_to_json, logic_to_json, graphite_to_json}
use mqtt_sentry.Settings.Persist.{InRange}
use mqtt_sentry.Settings.View.{Change, user_added, machine_added, code_disabled, view, revise_all}
use mqtt_sentry.Settings.History.{perform, perform_all, Saved, DoesAll, perform_all-view}
use mqtt_sentry.Settings.Ranges.{Fits}
use mqtt_sentry.Settings.Restart.{restart-view}
use mqtt_sentry.Examples.Toy.{json_of, json_of-JsonLaws}
use mqtt_sentry.Examples.Data.{json_lib, cm}

abbrev changes : List Change
changes = user_added 9 ∷ machine_added "B" "Freezer" ∷ code_disabled 7 ∷ []

-- The configuration is in the file.
abbrev saved_cm : ConfigManager
saved_cm = record cm { file = some "{…}" }

abbrev changed_cm : ConfigManager
changed_cm = record saved_cm {
  tg = record cm.tg { users = 7 ∷ 13 ∷ 8 ∷ 9 ∷ [] };
  logic = record cm.logic {
    machines = insert "B" "Freezer" cm.logic.machines;
    disabled_codes = 0 ∷ 7 ∷ [];
  };
  mqtt = record cm.mqtt { topic = "NordFrost/A/#" ∷ "NordFrost/B/#" ∷ [] };
}

-- A library whose one document is the changed configuration.
abbrev stored : JsonLib
stored = json_of (config_json changed_cm)

saved : Saved ⦃J = stored⦄ saved_cm
saved = record { file = refl; succeed = refl }

in_range : InRange saved_cm
in_range = record {
  users = (omega arith, (omega arith, (omega arith, tt)));
  admins = (omega arith, tt);
  mqtt_port = omega arith;
  graphite_port = omega arith;
  timeout = omega arith;
  timeout_limit = omega arith;
  disabled_codes = (omega arith, tt);
  code = (omega arith, (omega arith, tt));
  poses = (omega arith, tt);
}

fitting : All Fits changes
fitting = (omega arith, (tt, (omega arith, tt)))

performed : perform_all ⦃J = stored⦄ changes saved_cm ≡ ok changed_cm
unfolding perform_all perform add_user add_machine add_ex topic_exists split update_both
    update_tg_config update_logic_config update_mqtt_config write machine_topic
performed = refl

parsed :
    stored.parse (stored.dump (config_json ⦃J = stored⦄ changed_cm))
    ≡ ok (config_json ⦃J = stored⦄ changed_cm)
unfolding config_json tg_to_json mqtt_to_json logic_to_json graphite_to_json
parsed = refl

perform_all-view_example :
    DoesAll ⦃J = stored⦄
      (revise_all changes (view saved_cm))
      (perform_all ⦃J = stored⦄ changes saved_cm)
perform_all-view_example = perform_all-view ⦃J = stored⦄ changes saved_cm saved

restart-view_example :
    (cm' : ConfigManager) × (construct ⦃J = stored⦄
        (record { dns = ""; port = 0 })
        changed_cm.file
        []
      ≡ ok cm')
    × (revise_all changes (view saved_cm) ≡ ok (view cm'))
restart-view_example =
    restart-view ⦃J = stored⦄ (json_of-JsonLaws (config_json changed_cm)) changes saved_cm
      changed_cm (record { dns = ""; port = 0 }) [] saved in_range fitting performed parsed refl
