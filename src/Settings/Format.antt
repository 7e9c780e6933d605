-- ===== src/Settings/Format.antt =====
-- The JSON forms of the four parts of the configuration: `to_json` and `from_json` of
-- src/settings.cpp.
use mqtt_sentry.Base.{[], ◌∷◌, Outcome, ok, ◌>>=◌}
use mqtt_sentry.Json.{JsonLib, value_uints, get_to}
use mqtt_sentry.Settings.{Tg, Mqtt, Logic, Graphite, default_mqtt, default_logic}

module _ ⦃J : JsonLib⦄ where
  unfoldable pub tg_to_json : Tg → J.Json
  tg_to_json t = J.object (
      ("token", J.of_string t.token)
      ∷ ("users", J.of_uints t.users)
      ∷ ("admins", J.of_uints t.admins)
      ∷ [])

  unfoldable pub tg_from_json : J.Json → Outcome Tg
  tg_from_json j = do
    v ← J.field j "token"
    token ← J.get_string v
    users ← value_uints j "users" []
    admins ← value_uints j "admins" []
    ok (record { token = token; users = users; admins = admins })

  unfoldable pub mqtt_to_json : Mqtt → J.Json
  mqtt_to_json m = J.object (
      ("broker", J.of_string m.broker)
      ∷ ("port", J.of_uint m.port)
      ∷ ("client_id", J.of_string m.client_id)
      ∷ ("client_name", J.of_string m.client_name)
      ∷ ("pwd", J.of_string m.pwd)
      ∷ ("topic", J.of_strings m.topic)
      ∷ [])

  unfoldable pub mqtt_from_json : J.Json → Outcome Mqtt
  mqtt_from_json j = do
    broker ← get_to J.get_string j "broker" default_mqtt.broker
    port ← get_to (J.get_uint 16) j "port" default_mqtt.port
    client_id ← get_to J.get_string j "client_id" default_mqtt.client_id
    client_name ← get_to J.get_string j "client_name" default_mqtt.client_name
    pwd ← get_to J.get_string j "pwd" default_mqtt.pwd
    topic ← get_to J.get_strings j "topic" default_mqtt.topic
    ok (record {
      broker = broker;
      port = port;
      client_id = client_id;
      client_name = client_name;
      pwd = pwd;
      topic = topic;
    })

  unfoldable pub logic_to_json : Logic → J.Json
  logic_to_json l = J.object (
      ("timeout", J.of_time l.timeout)
      ∷ ("timeout_limit", J.of_uint l.timeout_limit)
      ∷ ("disabled_codes", J.of_uints l.disabled_codes)
      ∷ ("code", J.of_codes l.code)
      ∷ ("machines", J.of_names l.machines)
      ∷ ("poses", J.of_codes l.poses)
      ∷ [])

  unfoldable pub logic_from_json : J.Json → Outcome Logic
  logic_from_json j = do
    timeout ← get_to J.get_time j "timeout" default_logic.timeout
    code ← get_to J.get_codes j "code" default_logic.code
    disabled_codes ← get_to (J.get_uints 32) j "disabled_codes" default_logic.disabled_codes
    timeout_limit ← get_to (J.get_uint 32) j "timeout_limit" default_logic.timeout_limit
    machines ← get_to J.get_names j "machines" default_logic.machines
    poses ← get_to J.get_codes j "poses" default_logic.poses
    ok (record {
      timeout = timeout;
      timeout_limit = timeout_limit;
      disabled_codes = disabled_codes;
      code = code;
      machines = machines;
      poses = poses;
    })

  unfoldable pub graphite_to_json : Graphite → J.Json
  graphite_to_json g = J.object (("dns", J.of_string g.dns) ∷ ("port", J.of_uint g.port) ∷ [])

  unfoldable pub graphite_from_json : J.Json → Outcome Graphite
  graphite_from_json j = do
    d ← J.field j "dns"
    dns ← J.get_string d
    p ← J.field j "port"
    port ← J.get_uint 16 p
    ok (record { dns = dns; port = port })
