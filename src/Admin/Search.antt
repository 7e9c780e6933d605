-- ===== src/Admin/Search.antt =====
-- registerInlineSearch of src/adminController.cpp.
pub mod Sending
use Prim.Native.String.{[], ◌∷◌}
use text.Mathlib.Text.{starts_with}
use mathlib.Core.List.{append_assoc, append-nil}
use mqtt_sentry.Base.{
  ℕ, zero, suc, ◌+◌, ◌≤◌, String, ◌≡◌, refl, ap, ◌∙◌, Bool, true, false, ◌||◌, List, ◌++◌, arith,
  ◌==◌, string_eq, ltb, if◌then◌else◌, ◌<>◌, to_string, Assoc, length, length-append, keep,
  Bool-cases, inl, inr,
}
use mqtt_sentry.Tg.{Api}
use mqtt_sentry.Utils.{split}
use mqtt_sentry.Settings.{user_exist}
use mqtt_sentry.Admin.Effects.{Article, Act, done, answer_inline_query, catch_all}

-- s.find(t) != npos
holds : String → String → Bool
holds [] t = starts_with [] t
holds (c ∷ s) t = starts_with (c ∷ s) t || holds s t

unfoldable pub is_match : String → String × String → Bool
unfolding holds
is_match s_id (m_id, name) = s_id == "" || holds m_id s_id || holds name s_id

abbrev pub article : ℕ → String × String → Article
article id (m_id, name) = record {
  id = to_string id;
  title = name;
  description = "ID: " <> m_id;
  message_text = "/stateof " <> m_id;
}

-- The loop over the machines, with the next id and the results so far.
unfoldable pub search_loop : String → ℕ → List Article → Assoc String String → List Article
search_loop s_id id results List.[] = results
search_loop s_id id results (List.◌∷◌ machine rest) =
    let hit = is_match s_id machine in
    let found = if hit then results ++ List.◌∷◌ (article id machine) List.[] else results in
    let later = search_loop s_id (if hit then suc id else id) found rest in
    if ltb 20 (length found) then found else later

module _ ⦃api : Api⦄ where
  -- The branches on the tokens of the query.
  reply : String → Assoc String String → List String → Act Unit
  unfolding search_loop
  reply query machines List.[] = answer_inline_query query List.[]
  reply query machines (List.◌∷◌ command List.[]) =
      if command == "stateof"
      then answer_inline_query query (search_loop "" 0 List.[] machines)
      else answer_inline_query query List.[]
  reply query machines (List.◌∷◌ command (List.◌∷◌ s_id List.[])) =
      if command == "stateof"
      then answer_inline_query query (search_loop s_id 0 List.[] machines)
      else answer_inline_query query List.[]
  reply query machines _ = answer_inline_query query List.[]

  unfoldable pub on_inline_query : ℕ → String → String → Act Unit
  unfolding reply
  on_inline_query from query text s =
      if user_exist from s.cm
      then catch_all (reply query s.cm.logic.machines (split " " text)) (done tt) s
      else done tt s

-- The first elements of a list, at most so many.
unfoldable pub take {ℓ} : {A : Type ℓ} → ℕ → List A → List A
take zero xs = List.[]
take (suc n) List.[] = List.[]
take (suc n) (List.◌∷◌ x xs) = List.◌∷◌ x (take n xs)

-- The articles of machines, numbered from `id`.
unfoldable pub articles : ℕ → Assoc String String → List Article
articles id List.[] = List.[]
articles id (List.◌∷◌ machine rest) = List.◌∷◌ (article id machine) (articles (suc id) rest)

-- A machine that does not match, with room for results.
search_miss :
    (s_id : String) (id : ℕ) (results : List Article) (machine : String × String)
    (rest : Assoc String String)
    → is_match s_id machine ≡ false
    → length results ≤ 20
    → search_loop s_id id results (List.◌∷◌ machine rest) ≡ search_loop s_id id results rest
unfolding search_loop
search_miss s_id id results machine rest miss l =
    let more : ltb 20 (length results) ≡ false = ground arith in rw miss (rw more)

search_hit :
    (s_id : String) (id : ℕ) (results : List Article) (machine : String × String)
    (rest : Assoc String String)
    → is_match s_id machine ≡ true
    → let found = results ++ List.◌∷◌ (article id machine) List.[] in
      search_loop s_id id results (List.◌∷◌ machine rest)
      ≡ (if ltb 20 (length found) then found else search_loop s_id (suc id) found rest)
unfolding search_loop
search_hit s_id id results machine rest hit = rw hit

length-found :
    (results : List Article) (a : Article)
    → length (results ++ List.◌∷◌ a List.[]) ≡ suc (length results)
length-found results a = omega (arith, length-append results (List.◌∷◌ a List.[]))

search_from :
    (s_id : String) (room id : ℕ) (results : List Article) (machines : Assoc String String)
    → length results ≡ id
    → id + suc room ≡ 21
    → search_loop s_id id results machines
      ≡ results ++ articles id (take (suc room) (keep (is_match s_id) machines))
unfolding take articles
search_from s_id room id results List.[] l r = unfold search_loop in rw append-nil
search_from s_id room id results (List.◌∷◌ machine rest) l r =
    elim (Bool-cases (is_match s_id machine)) [
      | inl hit ↦
          rw (search_hit s_id id results machine rest hit, hit)
            (found room r (λ room' r'. search_from s_id room' (suc id) after rest longer r'))
      | inr miss ↦
          rw (search_miss s_id id results machine rest miss (omega arith), miss)
            (search_from s_id room id results rest l r)
    ]
  where
    after : List Article
    after = results ++ List.◌∷◌ (article id machine) List.[]

    longer : length after ≡ suc id
    longer = length-found results (article id machine) ∙ ap suc l

    found :
        (room : ℕ)
        → id + suc room ≡ 21
        → ((room' : ℕ)
            → suc id + suc room' ≡ 21
            → search_loop s_id (suc id) after rest
              ≡ after ++ articles (suc id) (take (suc room') (keep (is_match s_id) rest)))
        → (if ltb 20 (length after) then after else search_loop s_id (suc id) after rest)
          ≡ results
            ++ List.◌∷◌
                (article id machine)
                (articles (suc id) (take room (keep (is_match s_id) rest)))
    found zero r ih = let full : ltb 20 (length after) ≡ true = ground (arith, longer) in rw full
    found (suc room) r ih =
        let more : ltb 20 (length after) ≡ false = ground (arith, longer) in
        rw (more, ih room (omega arith))
          (append_assoc results (List.◌∷◌ (article id machine) List.[])
            (articles (suc id) (take (suc room) (keep (is_match s_id) rest))))

-- The results of the inline search are the machines that match, numbered from 0 in the order of
-- iteration, and only the first 21 of them.
pub search_loop-take :
    (s_id : String) (machines : Assoc String String)
    → search_loop s_id 0 List.[] machines ≡ articles 0 (take 21 (keep (is_match s_id) machines))
search_loop-take s_id machines = search_from s_id 20 0 List.[] machines refl refl
