-- ===== src/Consumer/Job/Steady.antt =====
-- What holds between the workers' turns: sizes, waits and the chunks in flight.
use kemi.Prelude.{
  ℕ, zero, suc, ◌+◌, ◌*◌, ◌/◌, ◌≤◌, String, ◌≡◌, refl, sym, ap, subst, ◌&&◌, Option, none, some,
  List, [], ◌∷◌, arith, length, All, if_both, not, ◌==◌, str_eq,
}
use kemi.Prelude.Sums.{sum_by}
use kemi.Json.{Value}
use kemi.Scheduler.{Chunk, fail, complete, decide, winner, widen, fingerprints, record_result}
use kemi.Consumer.Job.{Pending, Job, on_chunk, without_wait, items_at}
use kemi.Consumer.Job.Flights.{Flights, IsBelow}
use kemi.Consumer.Job.Turns.{drop_id}

abbrev pub total_due : List Pending → ℕ
total_due = sum_by (λ (x : Pending). x.amount)

-- every chunk has at most so many items
abbrev pub HasSizes : ℕ → List (Chunk Value) → Type 0
HasSizes size = All (λ (c : Chunk Value). length c.items ≤ size)

-- the providers in flight are those whose replies are awaited, and an awaited reply costs no more than
-- a chunk can
pub record IsSteady (max_price size : ℕ) (chunks : List (Chunk Value)) (pending : List Pending)
    : Type 0 where
  pub flights : Flights 0 chunks pending
  pub below : All (IsBelow (max_price * size) (length chunks)) pending
  pub sizes : HasSizes size chunks

abbrev pub IsRunning : ℕ → ℕ → Job → Type 0
IsRunning max_price size j = IsSteady max_price size j.chunks j.pending

pub length-on_chunk :
    (i : ℕ) (g : Chunk Value → Chunk Value) (cs : List (Chunk Value))
    → length (on_chunk i g cs) ≡ length cs
unfolding on_chunk
length-on_chunk i g [] = refl
length-on_chunk zero g (c ∷ cs) = refl
length-on_chunk (suc i) g (c ∷ cs) = ap (λ (n : ℕ). suc n) (length-on_chunk i g cs)

pub on_chunk-HasSizes :
    (size i : ℕ) (g : Chunk Value → Chunk Value) (cs : List (Chunk Value))
    → ((c : Chunk Value) → (g c).items ≡ c.items)
    → HasSizes size cs
    → HasSizes size (on_chunk i g cs)
unfolding on_chunk
on_chunk-HasSizes size i g [] same h = tt
on_chunk-HasSizes size zero g (c ∷ cs) same (h, hs) = (rw (same c) h, hs)
on_chunk-HasSizes size (suc i) g (c ∷ cs) same (h, hs) = (h, on_chunk-HasSizes size i g cs same hs)

pub length-items_at-le :
    (size i : ℕ) (cs : List (Chunk Value)) → HasSizes size cs → length (items_at i cs) ≤ size
length-items_at-le size i [] h = omega arith
length-items_at-le size zero (c ∷ cs) h = h.0
length-items_at-le size (suc i) (c ∷ cs) h = length-items_at-le size i cs h.1

pub All-keep_waits :
    (P : Pending → Type 0) (id : String) (i : ℕ) (ps : List Pending)
    → All P ps
    → All P (without_wait id i ps)
All-keep_waits P id i [] h = tt
All-keep_waits P id i (x ∷ ps) (h, hs) =
    if_both (All P) (not (x.index == i && str_eq x.provider id)) _ _
      (h, All-keep_waits P id i ps hs) (All-keep_waits P id i ps hs)

-- a chunk with the provider out of flight and the items of another
abbrev pub Takes : String → Chunk Value → Chunk Value → Type 0
Takes id c c' = (c'.in_flight ≡ drop_id id c.in_flight) × (c'.items ≡ c.items)

-- complete takes the provider out of flight and leaves the items
pub complete-Takes :
    (fingerprint : List Value → ℕ) (redundancy : ℕ) (id : String) (results : List Value)
    (c : Chunk Value)
    → Takes id c (complete fingerprint redundancy c id results).1
unfolding complete widen
complete-Takes fingerprint redundancy id results c = decided (
    winner (redundancy / 2 + 1) (fingerprints fingerprint (record_result fingerprint c id results)))
  where
    decided :
        (o : Option (ℕ × List String))
        → Takes id c (decide fingerprint redundancy (record_result fingerprint c id results) o).1
    decided (some (fp, ps)) = (refl, refl)
    decided none = if_both (Takes id c) _ _ _ (refl, refl) (refl, refl)

pub fail-Takes : (id : String) (c : Chunk Value) → Takes id c (fail id c)
unfolding fail
fail-Takes id c = (refl, refl)

pub on_chunk-IsBelow :
    (bound i : ℕ) (g : Chunk Value → Chunk Value) (cs : List (Chunk Value)) (ps : List Pending)
    → All (IsBelow bound (length cs)) ps
    → All (IsBelow bound (length (on_chunk i g cs))) ps
on_chunk-IsBelow bound i g cs ps h =
    subst (λ n. All (IsBelow bound n) ps) (sym (length-on_chunk i g cs)) h
