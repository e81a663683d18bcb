-- ===== src/Scheduler/Lists.antt =====
-- The lists that a chunk of consumer.py keeps: who works on it, and the results by provider.
use kemi.Prelude.{
  ◌+◌, ◌≤◌, String, ◌≡◌, refl, ◌∙◌, true, false, not, ◌&&◌, List, [], ◌∷◌, ◌++◌, arith, str_eq,
  eq_iff, any-append, keep, length, Bool-cases, inl, inr,
}
use kemi.Prelude.Assoc.{find, upsert, has_key}
use kemi.Scheduler.{in_list}

abbrev pub DistinctTexts : List String → Type 0
DistinctTexts [] = Unit {0}
DistinctTexts (p ∷ ps) = (in_list p ps ≡ false) × DistinctTexts ps

pub DistinctTexts-snoc :
    (p : String) (ps : List String)
    → DistinctTexts ps
    → in_list p ps ≡ false
    → DistinctTexts (ps ++ p ∷ [])
DistinctTexts-snoc p [] d h = (refl, tt)
DistinctTexts-snoc p (q ∷ ps) d h =
    let split = any-append (λ r. str_eq r q) ps (p ∷ []) in
    (ground (arith, eq_iff p q, eq_iff q p), DistinctTexts-snoc p ps d.1 (ground arith))

pub in_list-keep :
    (p q : String) (ps : List String)
    → in_list q (keep (λ r. not (str_eq r p)) ps) ≡ (not (str_eq q p) && in_list q ps)
in_list-keep p q [] = ground arith
in_list-keep p q (r ∷ ps) = ground (arith, in_list-keep p q ps, eq_iff r p, eq_iff r q, eq_iff q p)

pub DistinctTexts-keep :
    (p : String) (ps : List String)
    → DistinctTexts ps
    → DistinctTexts (keep (λ r. not (str_eq r p)) ps)
DistinctTexts-keep p [] d = tt
DistinctTexts-keep p (r ∷ ps) d = elim (Bool-cases (str_eq r p)) [
  | inl x ↦ rw x (DistinctTexts-keep p ps d.1)
  | inr x ↦ rw x (in_list-keep p r ps ∙ (rw (x, d.0) refl), DistinctTexts-keep p ps d.1)
]

pub keep-le : (p : String) (ps : List String) → length (keep (λ r. not (str_eq r p)) ps) ≤ length ps
keep-le p [] = omega arith
keep-le p (r ∷ ps) = ground (arith, keep-le p ps)

pub keep-lt :
    (p : String) (ps : List String)
    → in_list p ps ≡ true
    → length (keep (λ r. not (str_eq r p)) ps) + 1 ≤ length ps
keep-lt p [] h = cc
keep-lt p (r ∷ ps) h = elim (Bool-cases (str_eq r p)) [
  | inl x ↦ let rest = keep-le p ps in ground arith
  | inr x ↦ let rest = keep-lt p ps (ground arith) in ground arith
]

pub length-upsert {ℓ} :
    {W : Type ℓ} (p : String) (r : W) (m : List (String × W))
    → has_key p m ≡ false
    → length (upsert p r m) ≡ length m + 1
unfolding upsert find
length-upsert p r [] h = refl
length-upsert p r ((k, v) ∷ m) h = ground (arith, length-upsert p r m)
