-- ===== src/Sharded/Tests.antt =====
-- Plans for a model of seven layers.
use kemi.Prelude.{ℕ, ◌≡◌, refl, none, List, [], ◌∷◌, arith}
use kemi.Prelude.Int.{pos}
use kemi.Result.{ok}
use kemi.Sharded.{Slice, plan_shards, limit_stages}
use kemi.Sharded.Cover.{IsPlan, plan_shards-IsPlan}

seven_on_three : limit_stages 3 none ≡ pos 3
unfolding limit_stages
seven_on_three = refl

plan_shards-IsPlan_example :
    (plan : List (Slice ℕ)) × (plan_shards 7 (10 ∷ 11 ∷ 12 ∷ []) none ≡ ok plan)
    × IsPlan 7 3 (10 ∷ 11 ∷ 12 ∷ []) plan
plan_shards-IsPlan_example =
    plan_shards-IsPlan 7 3 10 (11 ∷ 12 ∷ []) none seven_on_three (omega arith)
