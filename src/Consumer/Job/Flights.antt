-- ===== src/Consumer/Job/Flights.antt =====
-- The providers in flight on a chunk are those whose replies are awaited for it, and what is awaited
-- costs at most the margin that run_job keeps for the chunks in flight.
use kemi.Prelude.{
  ℕ, suc, ◌+◌, ◌*◌, ◌≤◌, ◌<◌, String, ◌≡◌, inl, inr, ◌&&◌, List, [], ◌∷◌, arith, length, ltb, leb,
  ◌==◌, All, if◌then◌else◌, Bool-cases,
}
use native.Mathlib.Nat.{add-mul}
use kemi.Prelude.Sums.{sum_by}
use kemi.Json.{Value}
use kemi.Scheduler.{Chunk}
use kemi.Consumer.Job.{Pending, in_flight_total}

-- the providers whose replies are awaited for the chunk at k
abbrev pub flying : ℕ → List Pending → List String
flying k [] = []
flying k (x ∷ ps) = if x.index == k then x.provider ∷ flying k ps else flying k ps

abbrev pub Flights : ℕ → List (Chunk Value) → List Pending → Type 0
Flights k [] ps = Unit {0}
Flights k (c ∷ cs) ps = (c.in_flight ≡ flying k ps) × Flights (suc k) cs ps

-- what is awaited for the chunk at k
abbrev pub due : ℕ → List Pending → ℕ
due k = sum_by (λ (x : Pending). if x.index == k then x.amount else 0)

abbrev due_from : ℕ → List (Chunk Value) → List Pending → ℕ
due_from k [] ps = 0
due_from k (c ∷ cs) ps = due k ps + due_from (suc k) cs ps

abbrev pub IsBelow : ℕ → ℕ → Pending → Type 0
IsBelow bound n x = (x.amount ≤ bound) × (x.index < n)

due-le :
    (bound n k : ℕ) (ps : List Pending)
    → All (IsBelow bound n) ps
    → due k ps ≤ length (flying k ps) * bound
due-le bound n k [] h = omega arith
due-le bound n k (x ∷ ps) ((small, _), h) = elim (Bool-cases (x.index == k)) [
  | inl here ↦ rw here (grind (arith, due-le bound n k ps h))
  | inr away ↦ rw away (omega (arith, due-le bound n k ps h))
]

due_from-le :
    (bound n k : ℕ) (cs : List (Chunk Value)) (ps : List Pending)
    → All (IsBelow bound n) ps
    → Flights k cs ps
    → due_from k cs ps ≤ in_flight_total cs * bound
due_from-le bound n k [] ps h f = omega arith
due_from-le bound n k (c ∷ cs) ps h (here, f) =
    let first : due k ps ≤ length c.in_flight * bound = rw here (due-le bound n k ps h) in
    let others = due_from-le bound n (suc k) cs ps h f in
    omega (arith, first, others, add-mul (length c.in_flight) (in_flight_total cs) bound)

-- one more wait is due at its chunk, if that is among those from k on
due_from-cons :
    (k : ℕ) (cs : List (Chunk Value)) (x : Pending) (ps : List Pending)
    → due_from k cs (x ∷ ps)
      ≡ (if leb k x.index && ltb x.index (k + length cs) then x.amount else 0) + due_from k cs ps
due_from-cons k [] x ps = ground arith
due_from-cons k (c ∷ cs) x ps = ground (arith, due_from-cons (suc k) cs x ps)

total_due-le :
    (bound : ℕ) (cs : List (Chunk Value)) (ps : List Pending)
    → All (IsBelow bound (length cs)) ps
    → sum_by (λ (x : Pending). x.amount) ps ≤ due_from 0 cs ps
total_due-le bound cs [] h = omega arith
total_due-le bound cs (x ∷ ps) ((small, within), h) =
    ground (arith, due_from-cons 0 cs x ps, total_due-le bound cs ps h)

-- all that is awaited costs at most the bound for each provider in flight
pub pending-le :
    (bound : ℕ) (cs : List (Chunk Value)) (ps : List Pending)
    → All (IsBelow bound (length cs)) ps
    → Flights 0 cs ps
    → sum_by (λ (x : Pending). x.amount) ps ≤ in_flight_total cs * bound
pending-le bound cs ps h f =
    omega (arith, total_due-le bound cs ps h, due_from-le bound (length cs) 0 cs ps h f)
