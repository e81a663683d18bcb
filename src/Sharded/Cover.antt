-- ===== src/Sharded/Cover.antt =====
-- The slices that plan_shards of sharded.py gives.
use native.Mathlib.Nat.{mod-lt, mod-eq_of_lt, div-add-mod}
use kemi.Prelude.{
  ℕ, zero, suc, ◌+◌, ◌-◌, ◌*◌, ◌/◌, ◌%◌, ◌≤◌, ◌<◌, min, ◌≡◌, refl, sym, ◌∙◌, ap, ap₂, subst, Option,
  none, some, List, [], ◌∷◌, map, arith, ltb, length, take, drop, get_elem?, or_else, if◌then◌else◌,
  All,
}
use kemi.Prelude.Int.{ℤ, pos, negsuc}
use kemi.Result.{ok}
use kemi.Sharded.{Slice, limit_stages, provider_at, assign, plan_stages, plan_shards}

-- slices that follow one another from one layer to another
abbrev pub Covers {ℓ} : {A : Type ℓ} → ℕ → List (Slice A) → ℕ → Type 0
Covers from [] to = from ≡ to
Covers from (s ∷ ss) to = (s.start ≡ from) × Covers s.end ss to

-- a slice holds base layers, or one more
abbrev pub IsEven {ℓ} : {A : Type ℓ} → ℕ → Slice A → Type 0
IsEven base s = (s.start + base ≤ s.end) × (s.end ≤ s.start + base + 1)

module _ {ℓ} {A : Type ℓ} where
  drop_at :
      (d : A) (xs : List A) (i : ℕ)
      → i < length xs
      → drop i xs ≡ or_else (get_elem? xs i) d ∷ drop (suc i) xs
  drop_at d [] i h = absurd (omega arith)
  drop_at d (x ∷ xs) zero h = refl
  drop_at d (x ∷ xs) (suc i) h = drop_at d xs i (omega arith)

module _ {ℓ} {A : Type ℓ} (p : A) (ps : List A) (base extra : ℕ) where
  assign-Covers :
      (left i layer : ℕ)
      → Covers layer
          (assign p ps base extra left i layer)
          (layer + left * base + (min extra (i + left) - min extra i))
  unfolding assign
  assign-Covers zero i layer = omega arith
  assign-Covers (suc left) i layer = (
    refl,
    subst
        (Covers _
          (assign p ps base extra left (i + 1) (layer + (base + (if ltb i extra then 1 else 0)))))
        (ground arith)
        (assign-Covers left (i + 1) (layer + (base + (if ltb i extra then 1 else 0)))),
  )

  assign-IsEven : (left i layer : ℕ) → All (IsEven base) (assign p ps base extra left i layer)
  unfolding assign
  assign-IsEven zero i layer = tt
  assign-IsEven (suc left) i layer = ((ground arith, ground arith), assign-IsEven left (i + 1) _)

  assign_providers :
      (left i layer : ℕ)
      → i + left ≤ length (p ∷ ps)
      → map (λ (s : Slice A). s.provider) (assign p ps base extra left i layer)
        ≡ take left (drop i (p ∷ ps))
  unfolding assign provider_at
  assign_providers zero i layer h = refl
  assign_providers (suc left) i layer h =
      let within : i < length (p ∷ ps) = omega arith in
      let index : i % length (p ∷ ps) ≡ i = mod-eq_of_lt within in
      let next : i + 1 ≡ suc i = omega arith in
      let here = drop_at p (p ∷ ps) i within in
      let rest =
        assign_providers left (i + 1) (layer + (base + (if ltb i extra then 1 else 0)))
          (omega arith) in
      ap₂ ◌∷◌ (ap (λ j. or_else (get_elem? (p ∷ ps) j) p) index)
        (rest ∙ ap (λ j. take left (drop j (p ∷ ps))) next)
      ∙ sym (ap (take (suc left)) here)

-- a plan for n layers over the first of the providers
pub record IsPlan {ℓ} {A : Type ℓ} (n stages : ℕ) (providers : List A) (plan : List (Slice A))
    : Type ℓ where
  pub covers : Covers 0 plan n
  pub even : All (IsEven (n / stages)) plan
  pub distinct : map (λ (s : Slice A). s.provider) plan ≡ take stages providers

limit_stages-le : (m : ℕ) (limit : Option ℤ) (k : ℕ) → limit_stages m limit ≡ pos k → k ≤ m
unfolding limit_stages
limit_stages-le m none k h = pos-le k m h
  where
    pos-le : (a b : ℕ) → pos b ≡ pos a → a ≤ b
    pos-le a b q = ground arith
limit_stages-le m (some (negsuc n)) k h = cc
limit_stages-le m (some (pos zero)) k h = ground arith
limit_stages-le m (some (pos (suc n))) k h = ground arith

-- If the layers, the providers and the limit leave a positive number of stages, the plan gives
-- consecutive runs of layers, together the whole model, to that many first providers, one run each,
-- and the lengths of two runs differ by at most one.
pub plan_shards-IsPlan {ℓ} :
    {A : Type ℓ} (n stages : ℕ) (p : A) (ps : List A) (limit : Option ℤ)
    → limit_stages (min n (length (p ∷ ps))) limit ≡ pos stages
    → 0 < stages
    → (plan : List (Slice A)) × (plan_shards n (p ∷ ps) limit ≡ ok plan)
      × IsPlan n stages (p ∷ ps) plan
unfolding plan_shards plan_stages
plan_shards-IsPlan n zero p ps limit h k = absurd (omega arith)
plan_shards-IsPlan n (suc m) p ps limit h k =
    let few = limit_stages-le (min n (length (p ∷ ps))) limit (suc m) h in
    let plan = assign p ps (n / suc m) (n % suc m) (suc m) 0 0 in
    let rest = mod-lt n k in
    let whole = div-add-mod n (suc m) in
    (
      plan,
      rw h refl,
      record {
        covers =
            subst (Covers 0 plan) (omega arith)
              (assign-Covers p ps (n / suc m) (n % suc m) (suc m) 0 0);
        even = assign-IsEven p ps (n / suc m) (n % suc m) (suc m) 0 0;
        distinct = assign_providers p ps (n / suc m) (n % suc m) (suc m) 0 0 (omega arith);
      },
    )
