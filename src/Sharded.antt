-- ===== src/Sharded.antt =====
-- kemi/sharded.py: plan_shards, which gives each ship a run of the model's layers.
pub mod Cover
mod Tests
use kemi.Prelude.{
  ℕ, zero, suc, ◌+◌, ◌-◌, ◌/◌, ◌%◌, min, Bool, true, false, Option, none, some, List, [], ◌∷◌, ltb,
  length, get_elem?, or_else, if◌then◌else◌,
}
use kemi.Prelude.Int.{ℤ, pos, negsuc}
use kemi.Result.{Result, ok, raise, job_error, zero_division_error, ◌>>=◌}

-- a provider's record, with the start and the end of its layers
pub record Slice {ℓ} (A : Type ℓ) : Type ℓ where
  pub provider : A
  pub start : ℕ
  pub end : ℕ

-- min(stages, max_stages), unless max_stages is None or 0
unfoldable pub limit_stages : ℕ → Option ℤ → ℤ
limit_stages stages none = pos stages
limit_stages stages (some (negsuc n)) = negsuc n
limit_stages stages (some (pos zero)) = pos stages
limit_stages stages (some (pos (suc n))) = pos (min stages (suc n))

module _ {ℓ} {A : Type ℓ} where
  -- providers[i % len(providers)], of providers that start with p
  unfoldable pub provider_at : A → List A → ℕ → A
  provider_at p ps i = or_else (get_elem? (p ∷ ps) (i % length (p ∷ ps))) p

  -- the rounds of the loop that are left, from round i on
  unfoldable pub assign : A → List A → ℕ → ℕ → ℕ → ℕ → ℕ → List (Slice A)
  assign p ps base extra zero i layer = []
  assign p ps base extra (suc left) i layer =
      let width = base + (if ltb i extra then 1 else 0) in
      record { provider = provider_at p ps i; start = layer; end = layer + width }
      ∷ assign p ps base extra left (i + 1) (layer + width)

  -- divmod by a number below 0 gives no round, and by 0 it raises
  unfoldable pub plan_stages : ℕ → A → List A → ℤ → Result (List (Slice A))
  plan_stages n_layers p ps (pos zero) = raise zero_division_error
  plan_stages n_layers p ps (pos (suc k)) =
      ok (assign p ps (n_layers / suc k) (n_layers % suc k) (suc k) 0 0)
  plan_stages n_layers p ps (negsuc n) = ok []

  unfoldable pub plan_shards : ℕ → List A → Option ℤ → Result (List (Slice A))
  plan_shards n_layers [] max_stages = raise job_error
  plan_shards n_layers (p ∷ ps) max_stages =
      plan_stages n_layers p ps (limit_stages (min n_layers (length (p ∷ ps))) max_stages)
