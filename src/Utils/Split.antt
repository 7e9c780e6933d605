-- ===== src/Utils/Split.antt =====
-- `split` of include/utils.hpp against the joining of tokens.
use Prim.Native.Char.{Char, code}
use Prim.Native.String.append
use Prim.Native.String.{[], ◌∷◌}
use text.Mathlib.TextLemmas.{nil-append}
use mqtt_sentry.Base.{String, ◌≡◌, ◌≢◌, refl, List, ◌==◌, nat_eq, ◌<>◌, All, arith, false}
use mqtt_sentry.Utils.{token, split}

-- The text does not hold the delimiter.
abbrev pub Lacks : Char → String → Type 0
Lacks d [] = Unit {0}
Lacks d (c ∷ s) = ((code c == code d) ≡ false) × Lacks d s

-- A token and what comes after the delimiter behind it.
token-append :
    (d : Char) (s : String)
    → Lacks d s
    → (rest : String) → token d (s <> d ∷ rest) ≡ (s, split d rest)
unfolding split
token-append d [] l [] = rw nil-append (ground arith)
token-append d [] l (c ∷ rest) = rw nil-append (ground arith)
token-append d (c ∷ s) l rest =
    rw (append.cons c s (d ∷ rest)) (ground (arith, token-append d s l.1 rest))

-- A token at the end of the text.
token_last : (d : Char) (s : String) → Lacks d s → token d s ≡ (s, List.[])
unfolding split
token_last d [] l = refl
token_last d (c ∷ s) l = ground (arith, token_last d s l.1)

split-token :
    (d c : Char) (s : String) → split d (c ∷ s) ≡ List.◌∷◌ (token d (c ∷ s)).0 (token d (c ∷ s)).1
unfolding split
split-token d c s = refl

-- A text that is not empty has a first token.
pub split_head :
    (d c : Char) (s : String)
    → (t : String) × (ts : List String) × (split d (c ∷ s) ≡ List.◌∷◌ t ts)
split_head d c s = ((token d (c ∷ s)).0, (token d (c ∷ s)).1, split-token d c s)

-- The text before the first delimiter is the first token, and the others are those of the text
-- after it.
pub split-append :
    (d : Char) (s : String)
    → Lacks d s
    → (rest : String) → split d (s <> d ∷ rest) ≡ List.◌∷◌ s (split d rest)
split-append d [] l rest =
    let t = token-append d [] l rest in
    rw nil-append (rw (split-token d d rest, rw nil-append at t))
split-append d (c ∷ s) l rest =
    let t = token-append d (c ∷ s) l rest in
    rw (append.cons c s (d ∷ rest))
      (rw (split-token d c (s <> d ∷ rest), rw (append.cons c s (d ∷ rest)) at t))

-- A text with no delimiter is one token.
pub split_last : (d : Char) (s : String) → s ≢ [] → Lacks d s → split d s ≡ List.◌∷◌ s List.[]
split_last d [] ne l = absurd (ne refl)
split_last d (c ∷ s) ne l = rw (split-token d c s, token_last d (c ∷ s) l)

-- The tokens with the delimiter between them.
unfoldable pub join : Char → String → List String → String
join d t List.[] = t
join d t (List.◌∷◌ u ts) = t <> d ∷ join d u ts

abbrev pub final : String → List String → String
final t List.[] = t
final t (List.◌∷◌ u ts) = final u ts

-- Splitting gives back the tokens that were joined by the delimiter, if none of them holds it and
-- the last one is not empty.
pub split-join :
    (d : Char) (t : String) (ts : List String)
    → Lacks d t
    → All (Lacks d) ts
    → final t ts ≢ []
    → split d (join d t ts) ≡ List.◌∷◌ t ts
unfolding join
split-join d t List.[] l ls ne = split_last d t ne l
split-join d t (List.◌∷◌ u ts) l ls ne =
    rw (split-append d t l (join d u ts), split-join d u ts ls.0 ls.1 ne)
