-- ===== src/Admin/Texts.antt =====
-- The lists that the buttons of src/adminController.cpp show.
use mqtt_sentry.Base.{
  ℕ, String, none, some, List, [], ◌∷◌, nat_eq, string_eq, ◌<>◌, to_string, Outcome, ok, ◌>>=◌,
  Assoc, lookup,
}
use mqtt_sentry.Settings.{topic_id}

-- The loops that list the users, the machines, the codes and the disabled codes.
unfoldable pub users_text : List ℕ → String
users_text [] = ""
users_text (user ∷ rest) = "<code>" <> to_string user <> "</code>\n" <> users_text rest

machine_line : Assoc String String → String → String
machine_line machines id = elim (lookup id machines) [
  | some name ↦ "<code>" <> id <> "</code> : " <> name <> "\n"
  | none ↦ "<code>" <> id <> "</code>\n"
]

-- The `catch` is for std::out_of_range, which operator[] does not throw.
unfoldable pub machines_text : Assoc String String → List String → Outcome String
unfolding machine_line
machines_text machines [] = ok ""
machines_text machines (topic ∷ rest) = do
  id ← topic_id topic
  later ← machines_text machines rest
  ok (machine_line machines id <> later)

unfoldable pub errors_text : Assoc ℕ String → String
errors_text [] = ""
errors_text ((code, des) ∷ rest) =
    "<code>" <> to_string code <> "</code>:\t<code>" <> des <> "</code>\n" <> errors_text rest

ex_line : Assoc ℕ String → ℕ → String
ex_line code each = elim (lookup each code) [
  | some des ↦ "<code>" <> to_string each <> "</code>:\t<code>" <> des <> "</code>\n"
  | none ↦ "<code>" <> to_string each <> "</code>\n"
]

unfoldable pub ex_text : Assoc ℕ String → List ℕ → String
unfolding ex_line
ex_text code [] = ""
ex_text code (each ∷ rest) = ex_line code each <> ex_text code rest
