-- ===== src/Reputation/History.antt =====
-- The store of reputation.py after a sequence of calls.
use kemi.Prelude.{
  ℕ, ◌+◌, ◌*◌, ◌≤◌, String, ◌≡◌, refl, sym, ◌∙◌, ap, true, false, ◌&&◌, ◌||◌, List, [], ◌∷◌, arith,
  ltb, leb, str_eq, eq_iff, if◌then◌else◌, Bool-cases, inl, inr, any, length,
}
use kemi.Prelude.Int.{ℤ, pos, negsuc}
use native.Mathlib.Nat.{mul-le-mul_left, mul-le-mul_right}
use kemi.Prelude.Sums.{sum_by}
use kemi.Prelude.Assoc.{find}
use kemi.Reputation.{
  Event, double_spend, Evidence, Store, new_store, weights, add_event, record_event, fade, clamp,
  decay, evidence_banned, evidence_score, is_banned, condemns, no_evidence,
}
use kemi.Reputation.Rows.{evidence_of, is_banned-evidence, evidence-record, evidence-decay}

pub data Call : Type 0 where
  noted : String → Event → Call
  faded : ℤ → ℕ → Call

unfoldable pub step : Store → Call → Store
unfolding record_event decay
step s (noted node_id event) = record_event s node_id event
step s (faded n d) = decay s n d

unfoldable pub run : Store → List Call → Store
unfolding step
run s [] = s
run s (c ∷ cs) = run (step s c) cs

-- ------------------------------------------------------------ condemnation

condemned-step :
    (s : Store) (c : Call) (n : String)
    → (evidence_of s n).condemned ≡ true
    → (evidence_of (step s c) n).condemned ≡ true
unfolding step add_event
condemned-step s (noted k event) n h =
    rw (evidence-record s k n event) (elim (Bool-cases (str_eq k n)) [
      | inl same ↦ rw same (ground arith)
      | inr other ↦ rw other h
    ])
condemned-step s (faded z d) n h = rw (evidence-decay s z d n) (unfold fade in h)

condemned-run :
    (cs : List Call) (s : Store) (n : String)
    → (evidence_of s n).condemned ≡ true
    → (evidence_of (run s cs) n).condemned ≡ true
unfolding run
condemned-run [] s n h = h
condemned-run (c ∷ cs) s n h = condemned-run cs (step s c) n (condemned-step s c n h)

-- A node recorded for a double spend is banned after every further sequence of records and decays.
pub double_spend-banned :
    (s : Store) (n : String) (cs : List Call)
    → is_banned (run (record_event s n double_spend) cs) n ≡ true
unfolding evidence_banned
double_spend-banned s n cs =
    let t = record_event s n double_spend in
    let self = (eq_iff n n).1 refl in
    let first : (evidence_of t n).condemned ≡ true =
      rw (evidence-record s n n double_spend, self) (unfold add_event in ground arith) in
    let last = condemned-run cs t n first in is_banned-evidence (run t cs) n ∙ (rw last refl)

-- ------------------------------------------------------------ the evidence is a count

unfoldable pub record_all : Store → List (String × Event) → Store
record_all s [] = s
record_all s ((k, event) ∷ es) = record_all (record_event s k event) es

abbrev pub events_of : String → List (String × Event) → List Event
events_of n [] = []
events_of n ((k, event) ∷ es) =
    let rest = events_of n es in if str_eq k n then event ∷ rest else rest

abbrev add_events : ℕ → Evidence → List Event → Evidence
add_events scale e [] = e
add_events scale e (x ∷ xs) = add_events scale (add_event scale x e) xs

scale-record : (s : Store) (k : String) (event : Event) → (record_event s k event).scale ≡ s.scale
unfolding record_event
scale-record s k event = refl

evidence-record_all :
    (es : List (String × Event)) (s : Store) (n : String)
    → evidence_of (record_all s es) n ≡ add_events s.scale (evidence_of s n) (events_of n es)
unfolding record_all record_event
evidence-record_all [] s n = refl
evidence-record_all ((k, event) ∷ es) s n =
    evidence-record_all es (record_event s k event) n
    ∙ ap (λ e. add_events s.scale e (events_of n es)) (evidence-record s k n event)
    ∙ (elim (Bool-cases (str_eq k n)) [ inl same ↦ rw same refl | inr other ↦ rw other refl ])

scale-record_all : (es : List (String × Event)) (s : Store) → (record_all s es).scale ≡ s.scale
unfolding record_all
scale-record_all [] s = refl
scale-record_all ((k, event) ∷ es) s =
    scale-record_all es (record_event s k event) ∙ scale-record s k event

abbrev pub good_marks : List Event → ℕ
good_marks = sum_by (λ x. (weights x).0)

abbrev pub bad_marks : List Event → ℕ
bad_marks = sum_by (λ x. (weights x).1)

-- the counts that the evidence of a store without decay amounts to
record IsCount (xs : List Event) (e f : Evidence) : Type 0 where
  good_is : f.good ≡ e.good + good_marks xs
  bad_is : f.bad ≡ e.bad + bad_marks xs
  events_is : f.events ≡ e.events + length xs
  condemned_is : f.condemned ≡ (e.condemned || any condemns xs)

add_events-IsCount : (xs : List Event) (e : Evidence) → IsCount xs e (add_events 1 e xs)
add_events-IsCount [] e = record {
  good_is = omega arith;
  bad_is = omega arith;
  events_is = omega arith;
  condemned_is = ground arith;
}
add_events-IsCount (x ∷ xs) e =
    let rest = add_events-IsCount xs (add_event 1 x e) in
    record {
      good_is = rest.good_is ∙ unfold add_event in omega arith;
      bad_is = rest.bad_is ∙ unfold add_event in omega arith;
      events_is = rest.events_is ∙ unfold add_event in omega arith;
      condemned_is = rest.condemned_is ∙ unfold add_event in ground arith;
    }

banned_by_counts :
    (xs : List Event) (f : Evidence)
    → IsCount xs no_evidence f
    → evidence_banned 1 f
      ≡ (any condemns xs || (leb 3 (length xs) && ltb (4 * good_marks xs + 3) (bad_marks xs)))
unfolding evidence_banned evidence_score
banned_by_counts xs f c = rw (c.good_is, c.bad_is, c.events_is, c.condemned_is) (ground arith)

-- Without decay, a node is banned exactly if it has double spent, or has at least three events of
-- which the bad marks exceed four times the good ones by more than three.
pub is_banned-history :
    (es : List (String × Event)) (n : String)
    → is_banned (record_all new_store es) n ≡ (
        any condemns (events_of n es)
        || (leb 3 (length (events_of n es))
            && ltb (4 * good_marks (events_of n es) + 3) (bad_marks (events_of n es))))
unfolding new_store find
is_banned-history es n =
    is_banned-evidence (record_all new_store es) n
    ∙ (rw (scale-record_all es new_store, evidence-record_all es new_store n)
        (banned_by_counts (events_of n es) _ (add_events-IsCount (events_of n es) no_evidence)))

-- ------------------------------------------------------------ decay

clamp-le : (z : ℤ) (d : ℕ) → clamp z d ≤ d
unfolding clamp
clamp-le (pos n) d = omega arith
clamp-le (negsuc n) d = omega arith

fade-forgives :
    (scale c d : ℕ) (e : Evidence)
    → c ≤ d
    → evidence_banned scale e ≡ false
    → evidence_banned (scale * d) (fade c e) ≡ false
unfolding evidence_banned evidence_score fade
fade-forgives scale c d e le h =
    elim (Bool-cases (ltb (5 * (e.good + scale)) (e.good + e.bad + 2 * scale))) [
      | inl low ↦ ground arith
      | inr high ↦
          let weighed : e.good + e.bad + 2 * scale ≤ 5 * (e.good + scale) = ground arith in
          let faded = mul-le-mul_right c weighed in
          let scaled = mul-le-mul_left scale le in
          let test : ltb (5 * (e.good * c + scale * d)) (e.good * c + e.bad * c + 2 * (scale * d))
              ≡ false =
            ground arith in
          ground arith
    ]

-- A decay by a fraction n / d bans no node that was not banned before.
pub decay-forgives :
    (s : Store) (z : ℤ) (d : ℕ) (n : String)
    → is_banned s n ≡ false
    → is_banned (decay s z d) n ≡ false
unfolding decay
decay-forgives s z d n h =
    is_banned-evidence (decay s z d) n
    ∙ (rw (evidence-decay s z d n) (
        fade-forgives s.scale (clamp z d) d (evidence_of s n) (clamp-le z d)
          (sym (is_banned-evidence s n) ∙ h)))
