-- ===== src/Settings/Manager.antt =====
-- The methods of ConfigManager that read and write its file or change it. A method returns the
-- manager and its result. Each update is made under the lock.
use mqtt_sentry.Base.{
  ℕ, String, Bool, true, false, not, Option, none, some, List, [], ◌∷◌, ◌++◌, ◌==◌, nat_eq,
  string_eq, if◌then◌else◌, Outcome, ok, throw, undefined, parse_error, ◌>>=◌, keep, contains,
  lookup, insert, erase,
}
use mqtt_sentry.Json.{JsonLib}
use mqtt_sentry.Settings.{
  Tg, Mqtt, Logic, Graphite, ConfigManager, WriteResult, written, cannot_open, failed, default_tg,
  default_mqtt, default_logic, topic_exists, other_topics, machine_topic,
}
use mqtt_sentry.Settings.Format.{
  tg_to_json, tg_from_json, mqtt_to_json, mqtt_from_json, logic_to_json, logic_from_json,
  graphite_to_json, graphite_from_json,
}

-- The members as the class initialises them, before the constructor's body.
abbrev pub initial : Graphite → Option String → List WriteResult → ConfigManager
initial graphite file writes = record {
  loaded = false;
  tg = default_tg;
  mqtt = default_mqtt;
  logic = default_logic;
  graphite = graphite;
  file = file;
  writes = writes;
}

module _ ⦃J : JsonLib⦄ where
  unfoldable pub config_json : ConfigManager → J.Json
  config_json cm = J.object (
      ("tg", tg_to_json cm.tg)
      ∷ ("mqtt", mqtt_to_json cm.mqtt)
      ∷ ("logic", logic_to_json cm.logic)
      ∷ ("graphite", graphite_to_json cm.graphite)
      ∷ [])

  -- Opening for writing empties the file, so a failed write loses what it held.
  write_with : WriteResult → ConfigManager → ConfigManager × Bool
  write_with cannot_open cm = (cm, false)
  write_with (failed text) cm = (record cm { file = some text }, false)
  write_with written cm = (record cm { file = some (J.dump (config_json cm)) }, true)

  write_next : List WriteResult → ConfigManager → ConfigManager × Bool
  unfolding write_with
  write_next [] cm = write_with written cm
  write_next (r ∷ rest) cm = write_with r (record cm { writes = rest })

  -- _write
  unfoldable pub write : ConfigManager → ConfigManager × Bool
  unfolding write_next
  write cm = write_next cm.writes cm

  -- if (data.contains(key)) field = data.at(key).get<T>()
  section : {A : Type 0} → (J.Json → Outcome A) → J.Json → String → A → Outcome A
  section from_json data_json key old =
      if J.has_key data_json key then (do v ← J.at data_json key; from_json v) else ok old

  load_json : J.Json → ConfigManager → Outcome (ConfigManager × Bool)
  unfolding section
  load_json data_json cm = do
    tg ← section tg_from_json data_json "tg" cm.tg
    mqtt ← section mqtt_from_json data_json "mqtt" cm.mqtt
    logic ← section logic_from_json data_json "logic" cm.logic
    graphite ← section graphite_from_json data_json "graphite" cm.graphite
    ok (record cm { tg = tg; mqtt = mqtt; logic = logic; graphite = graphite; loaded = true }, true)

  -- Only a parse_error is caught.
  load_parsed : Outcome J.Json → ConfigManager → Outcome (ConfigManager × Bool)
  unfolding load_json
  load_parsed (ok data_json) cm = load_json data_json cm
  load_parsed (throw parse_error) cm = ok (cm, false)
  load_parsed (throw e) cm = throw e
  load_parsed undefined cm = undefined

  create_default : ConfigManager → ConfigManager × Bool
  create_default cm = let (cm', success) = write cm in (record cm' { loaded = success }, success)

  load_file : Option String → ConfigManager → Outcome (ConfigManager × Bool)
  unfolding load_parsed create_default
  load_file none cm = ok (create_default cm)
  load_file (some text) cm =
      if text == "" then ok (create_default cm) else load_parsed (J.parse text) cm

  -- _load
  unfoldable pub load : ConfigManager → Outcome (ConfigManager × Bool)
  unfolding load_file
  load cm = if cm.loaded then ok (cm, true) else load_file cm.file cm

  -- The constructor. It leaves `_graphite` without values; here they are given.
  unfoldable pub construct : Graphite → Option String → List WriteResult → Outcome ConfigManager
  construct graphite file writes = do (cm, _) ← load (initial graphite file writes); ok cm

  unfoldable pub update_tg_config : Tg → ConfigManager → ConfigManager × Bool
  update_tg_config t cm = write (record cm { tg = t })

  unfoldable pub update_mqtt_config : Mqtt → ConfigManager → ConfigManager × Bool
  update_mqtt_config m cm = write (record cm { mqtt = m })

  unfoldable pub update_logic_config : Logic → ConfigManager → ConfigManager × Bool
  update_logic_config l cm = write (record cm { logic = l })

  unfoldable pub update_graphite_config : Graphite → ConfigManager → ConfigManager × Bool
  update_graphite_config g cm = write (record cm { graphite = g })

  unfoldable pub add_user : ℕ → ConfigManager → ConfigManager × Bool
  add_user u cm =
      if contains u cm.tg.users
      then (cm, true)
      else update_tg_config (record cm.tg { users = cm.tg.users ++ u ∷ [] }) cm

  unfoldable pub remove_user : ℕ → ConfigManager → ConfigManager × Bool
  remove_user u cm = elim cm.tg.users [
    | [] ↦ (cm, true)
    | v ∷ vs ↦ update_tg_config (record cm.tg { users = keep (λ it. not (it == u)) (v ∷ vs) }) cm
  ]

  -- updateLogicConfig(logic) && updateMqttConfig(mqtt)
  unfoldable pub update_both : Logic → Mqtt → ConfigManager → ConfigManager × Bool
  update_both logic mqtt cm =
      let (cm', success) = update_logic_config logic cm in
      if success then update_mqtt_config mqtt cm' else (cm', false)

  unfoldable pub add_machine : String → String → ConfigManager → Outcome (ConfigManager × Bool)
  add_machine mid pseudo cm = do
    exist ← topic_exists mid cm.mqtt.topic
    ok (
        if exist
        then (cm, false)
        else update_both (record cm.logic { machines = insert mid pseudo cm.logic.machines })
            (record cm.mqtt { topic = cm.mqtt.topic ++ machine_topic mid ∷ [] }) cm)

  unfoldable pub remove_machine : String → ConfigManager → Outcome (ConfigManager × Bool)
  remove_machine mid cm = do
    temp ← other_topics mid cm.mqtt.topic
    ok (
        update_both (record cm.logic { machines = erase mid cm.logic.machines })
          (record cm.mqtt { topic = temp }) cm)

  unfoldable pub add_error : ℕ → String → ConfigManager → ConfigManager × Bool
  add_error code des cm = elim (lookup code cm.logic.code) [
    | some _ ↦ (cm, false)
    | none ↦ update_logic_config (record cm.logic { code = insert code des cm.logic.code }) cm
  ]

  unfoldable pub rem_error : ℕ → ConfigManager → ConfigManager × Bool
  rem_error code cm =
      update_logic_config
        (record cm.logic { code = keep (λ each. not (each.0 == code)) cm.logic.code }) cm

  unfoldable pub add_ex : ℕ → ConfigManager → ConfigManager × Bool
  add_ex code cm =
      update_logic_config
        (record cm.logic { disabled_codes = cm.logic.disabled_codes ++ code ∷ [] }) cm

  unfoldable pub rem_ex : ℕ → ConfigManager → ConfigManager × Bool
  rem_ex code cm =
      update_logic_config
        (record cm.logic {
          disabled_codes = keep (λ each. not (each == code)) cm.logic.disabled_codes;
        })
        cm
