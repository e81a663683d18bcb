-- ===== src/Scheduler/Tests.antt =====
-- A chunk computed by three providers, one of which errs.
use kemi.Prelude.{ℕ, refl, List, [], ◌∷◌}
use kemi.Prelude.Assoc.{find, upsert}
use kemi.Prelude.Sums.{sum_by}
use kemi.Scheduler.{
  Chunk, new_chunk, is_skipped, assign_to, acquire, complete, winner, fingerprints, groups_from,
  add_group, losers, first_result, widen,
}
use kemi.Scheduler.Safety.{Reaches, taken, answered, here, onward, IsSound, reached-IsSound}

abbrev total : List ℕ → ℕ
total = sum_by (λ (n : ℕ). n)

rules : Unit {0}
unfolding new_chunk is_skipped assign_to acquire complete winner fingerprints groups_from add_group
    losers first_result widen find upsert
rules = tt

abbrev given : Chunk ℕ
given = assign_to "ben" (assign_to "ann" (new_chunk 2 (1 ∷ 2 ∷ [])))

abbrev answered_once : Chunk ℕ
answered_once = (complete total 2 given "ann" (10 ∷ [])).1

path : Reaches total 2 (new_chunk 2 (1 ∷ 2 ∷ [])) answered_once
unfolding rules
path =
    onward (onward (onward here (taken _ "ann" refl)) (taken _ "ben" refl))
      (answered _ "ann" (10 ∷ []) refl)

reached-IsSound_example : IsSound total 2 answered_once
reached-IsSound_example = reached-IsSound total 2 (1 ∷ 2 ∷ []) path
