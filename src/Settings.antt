-- ===== src/Settings.antt =====
-- include/settings.hpp and src/settings.cpp: the configuration and its manager.
pub mod Format
pub mod Manager
pub mod Writes
pub mod Topics
pub mod Machines
pub mod Users
pub mod Branches
pub mod Persist
pub mod View
pub mod Owners
pub mod History
pub mod Restart
pub mod Ranges
use mqtt_sentry.Base.{
  ℕ, String, Bool, true, false, Option, none, some, List, [], ◌∷◌, Assoc, ℤ, pos, ◌==◌, nat_eq,
  string_eq, if◌then◌else◌, ◌<>◌, Outcome, ok, ◌>>=◌, or_undefined, get_elem?, contains, lookup,
}
use mqtt_sentry.Utils.{split}

-- tg
pub record Tg : Type 0 where
  pub token : String
  pub users : List ℕ
  pub admins : List ℕ

-- mqtt
pub record Mqtt : Type 0 where
  pub broker : String
  pub port : ℕ
  pub client_id : String
  pub client_name : String
  pub pwd : String
  pub topic : List String

-- logic
pub record Logic : Type 0 where
  pub timeout : ℤ
  pub timeout_limit : ℕ
  pub disabled_codes : List ℕ
  pub code : Assoc ℕ String
  pub machines : Assoc String String
  pub poses : Assoc ℕ String

-- graphite
pub record Graphite : Type 0 where
  pub dns : String
  pub port : ℕ

abbrev pub default_tg : Tg
default_tg = record { token = ""; users = []; admins = [] }

abbrev pub default_mqtt : Mqtt
default_mqtt = record {
  broker = "localhost";
  port = 1883;
  client_id = "cpp_client";
  client_name = "";
  pwd = "";
  topic = "topic" ∷ [];
}

abbrev pub default_logic : Logic
default_logic = record {
  timeout = pos 60;
  timeout_limit = 3;
  disabled_codes = 0 ∷ [];
  code = (0, "FINE") ∷ (100, "WE COOKED") ∷ [];
  machines = ("B83DF67CE1D5", "Testing Machine") ∷ [];
  poses = (0, "IDLE") ∷ [];
}

-- How the next `_write` fares: the file cannot be opened, or the stream fails and leaves some text.
pub data WriteResult : Type 0 where
  written cannot_open : WriteResult
  failed : String → WriteResult

-- ConfigManager, with the contents of its file (`none`: there is no file to open) and the results
-- of the coming writes, which succeed where none is listed.
pub record ConfigManager : Type 0 where
  pub loaded : Bool
  pub tg : Tg
  pub mqtt : Mqtt
  pub logic : Logic
  pub graphite : Graphite
  pub file : Option String
  pub writes : List WriteResult

-- resolveHmiName
unfoldable pub resolve_hmi_name : ConfigManager → String → String
resolve_hmi_name cm hmi_id = elim (lookup hmi_id cm.logic.machines) [
  | some name ↦ "<code>" <> name <> "</code>"
  | none ↦ "<code>" <> hmi_id <> "</code>"
]

-- resolvePath
unfoldable pub resolve_path : ConfigManager → String → String
resolve_path cm hmi_id = elim (lookup hmi_id cm.logic.machines) [ some name ↦ name | none ↦ hmi_id ]

-- userExist
unfoldable pub user_exist : ℕ → ConfigManager → Bool
user_exist u cm = contains u cm.tg.users

-- split(topic, '/')[1]
unfoldable pub topic_id : String → Outcome String
topic_id topic = or_undefined (get_elem? (split "/" topic) 1)

-- The loop of addMachine: whether a topic is that of the machine.
unfoldable pub topic_exists : String → List String → Outcome Bool
unfolding topic_id
topic_exists mid [] = ok false
topic_exists mid (each ∷ rest) = do
  id ← topic_id each
  elim (id == mid) [ true ↦ ok true | false ↦ topic_exists mid rest ]

-- The loop of removeMachine: the topics of the other machines.
unfoldable pub other_topics : String → List String → Outcome (List String)
unfolding topic_id
other_topics mid [] = ok []
other_topics mid (each ∷ rest) = do
  id ← topic_id each
  temp ← other_topics mid rest
  ok (if id == mid then temp else each ∷ temp)

unfoldable pub machine_topic : String → String
machine_topic mid = "NordFrost/" <> mid <> "/#"
