-- ===== src/Settings/Topics.antt =====
-- The topics of the machines in src/settings.cpp: the loops of addMachine and removeMachine over
-- them.
use Prim.Native.String.append
use Prim.Native.String.{[] as nil, ◌∷◌ as cons}
use text.Mathlib.TextLemmas.{nil-append, append_assoc, cons≢nil}
use mqtt_sentry.Base.{
  String, ◌≡◌, refl, ap, ◌∙◌, Bool, true, false, List, [], ◌∷◌, ◌++◌, arith, ◌==◌, string_eq,
  eq_iff, ◌<>◌, ok, undefined, >>=-eq-ok, All, Bool-cases, inl, inr,
}
use mqtt_sentry.Utils.{split}
use mqtt_sentry.Utils.Split.{Lacks, split-append, split_head, split_last}
use mqtt_sentry.Settings.{topic_id, topic_exists, other_topics, machine_topic}

-- The text of a topic from its second segment on.
topic_tail : String → String
topic_tail mid = mid <> "/#"

machine_topic-split : (mid : String) → machine_topic mid ≡ "NordFrost" <> cons "/" (topic_tail mid)
unfolding machine_topic topic_tail
machine_topic-split mid =
    append_assoc "NordFrost" "/" (mid <> "/#")
    ∙ ap (λ t. "NordFrost" <> t)
        (append.cons "/" nil (mid <> "/#") ∙ ap (λ t. cons "/" t) (nil-append (mid <> "/#")))

-- The topic that addMachine makes for an ID without a slash is that of the ID.
pub topic_id-machine_topic : (mid : String) → Lacks "/" mid → topic_id (machine_topic mid) ≡ ok mid
unfolding topic_id topic_tail
topic_id-machine_topic mid l = rw (
  machine_topic-split mid,
  split-append "/" "NordFrost" (ground arith) (mid <> "/#"),
  split-append "/" mid l "#",
)

-- A topic with a second segment, which the code reads without a test.
abbrev pub HasId : String → Type 0
HasId t = (id : String) × (topic_id t ≡ ok id)

pub exists-total :
    (mid : String) (ts : List String) → All HasId ts → (b : Bool) × (topic_exists mid ts ≡ ok b)
unfolding topic_exists
exists-total mid [] a = (false, refl)
exists-total mid (t ∷ ts) a = elim (Bool-cases (a.0.0 == mid)) [
  | inl hit ↦ (true, rw a.0.1 (ground arith))
  | inr miss ↦ let (b, e) = exists-total mid ts a.1 in (b, rw a.0.1 (ground arith))
]

-- The search fails over the topics, and the new topic is found behind them.
pub exists-append :
    (mid : String) (ts : List String)
    → Lacks "/" mid
    → topic_exists mid ts ≡ ok false
    → topic_exists mid (ts ++ machine_topic mid ∷ []) ≡ ok true
unfolding topic_exists
exists-append mid [] l h = rw (topic_id-machine_topic mid l) (ground (arith, eq_iff mid mid))
exists-append mid (t ∷ ts) l h = ground (arith, exists-append mid ts l)

pub other-append :
    (mid : String) (ts : List String)
    → Lacks "/" mid
    → topic_exists mid ts ≡ ok false
    → other_topics mid (ts ++ machine_topic mid ∷ []) ≡ ok ts
unfolding topic_exists other_topics
other-append mid [] l h = rw (topic_id-machine_topic mid l) (ground (arith, eq_iff mid mid))
other-append mid (t ∷ ts) l h = ground (arith, other-append mid ts l)

pub exists-other :
    (mid : String) (ts temp : List String)
    → other_topics mid ts ≡ ok temp
    → topic_exists mid temp ≡ ok false
unfolding topic_exists other_topics
exists-other mid [] temp h = ground arith
exists-other mid (t ∷ ts) temp h =
    let (id, e, rest) = >>=-eq-ok (topic_id t) _ h in
    let (others, f, last) = >>=-eq-ok (other_topics mid ts) _ rest in
    let ih = exists-other mid ts others f in
    elim (Bool-cases (id == mid)) [
      | inl mine ↦ let same : others ≡ temp = ground arith in rw (← same) ih
      | inr other ↦ let same : t ∷ others ≡ temp = ground arith in rw (← same) (rw e (ground arith))
    ]

second_segment :
    (mid t : String) (ts : List String)
    → split "/" (topic_tail mid) ≡ t ∷ ts
    → topic_id (machine_topic mid) ≡ ok t
unfolding topic_id
second_segment mid t ts e =
    rw (machine_topic-split mid, split-append "/" "NordFrost" (ground arith) (topic_tail mid), e)

-- Whatever the ID, the topic that addMachine makes has a second segment.
pub machine_topic-HasId : (mid : String) → HasId (machine_topic mid)
unfolding topic_tail
machine_topic-HasId nil = ("", topic_id-machine_topic nil tt)
machine_topic-HasId (cons c s) =
    let (t, ts, e) = split_head "/" c (s <> "/#") in
    (t, second_segment (cons c s) t ts (rw (topic_tail, append.cons c s "/#") e))

-- A topic without a slash has no second segment, and the code reads past the end.
pub topic_id_undefined : (t : String) → Lacks "/" t → topic_id t ≡ undefined
unfolding topic_id
topic_id_undefined nil l = unfold split in refl
topic_id_undefined (cons c s) l = rw (split_last "/" (cons c s) (λ e. cons≢nil e) l)
