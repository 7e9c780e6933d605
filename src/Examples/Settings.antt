-- ===== src/Examples/Settings.antt =====
-- The theorems on src/settings.cpp at concrete inputs.
use mqtt_sentry.Base.{
  ◌≡◌, refl, Bool, true, false, none, some, [], ◌∷◌, nat_eq, arith, ok, lookup, insert, erase, All,
  string_eq,
}
use mqtt_sentry.Utils.{split}
use mqtt_sentry.Settings.{
  ConfigManager, cannot_open, topic_id, topic_exists, other_topics, machine_topic,
}
use mqtt_sentry.Settings.Manager.{
  add_machine, remove_machine, write, update_both, update_logic_config, update_mqtt_config,
}
use mqtt_sentry.Settings.Topics.{HasId}
use mqtt_sentry.Settings.Machines.{add_machine-total, add_machine_torn, remove-add_machine}
use mqtt_sentry.Examples.Data.{json_lib, cm}

topics-HasId : All HasId cm.mqtt.topic
unfolding topic_id split
topics-HasId = (("A", refl), tt)

add_machine-total_example :
    (cm' : ConfigManager) × (b : Bool) × (add_machine "B" "Freezer" cm ≡ ok (cm', b))
    × All HasId cm'.mqtt.topic
add_machine-total_example = add_machine-total "B" cm "Freezer" topics-HasId

abbrev pub with_b : ConfigManager
with_b = record cm {
  logic = record cm.logic { machines = insert "B" "Freezer" cm.logic.machines };
  mqtt = record cm.mqtt { topic = "NordFrost/A/#" ∷ "NordFrost/B/#" ∷ [] };
  file = some "{…}";
}

pub b_added : add_machine "B" "Freezer" cm ≡ ok (with_b, true)
unfolding add_machine topic_exists insert split update_both update_logic_config update_mqtt_config
    write machine_topic
b_added = refl

topics_without_b : topic_exists "B" cm.mqtt.topic ≡ ok false
unfolding topic_exists split
topics_without_b = refl

b_removed :
    remove_machine "B" with_b
    ≡ ok (
      record cm {
        logic = record cm.logic { machines = erase "B" (insert "B" "Freezer" cm.logic.machines) };
        file = some "{…}";
      },
      true,
    )
unfolding remove_machine other_topics split update_both update_logic_config update_mqtt_config write
    machine_topic
b_removed = refl

remove-add_machine_example :
    (cm.mqtt.topic ≡ cm.mqtt.topic)
    × (lookup "B" (erase "B" (insert "B" "Freezer" cm.logic.machines)) ≡ none)
remove-add_machine_example =
    remove-add_machine "B" "Freezer" cm with_b _ (ground arith) b_added b_removed

add_machine_torn_example :
    (cm' : ConfigManager) × (add_machine "B" "Freezer" (record cm { writes = cannot_open ∷ [] })
      ≡ ok (cm', false))
    × (lookup "B" cm'.logic.machines ≡ some "Freezer")
    × (cm'.mqtt.topic ≡ cm.mqtt.topic)
add_machine_torn_example =
    add_machine_torn "B" (record cm { writes = cannot_open ∷ [] }) "Freezer" [] topics_without_b
      refl
