-- ===== src/Consumer/Job/Turns.antt =====
-- How the turns of run_job's workers keep chunks in flight and awaited replies together.
use kemi.Prelude.{
  ℕ, zero, suc, ◌+◌, ◌<◌, String, ◌≡◌, inl, inr, refl, sym, ap, subst, ◌∙◌, true, false, not,
  Option, none, some, List, [], ◌∷◌, ◌++◌, arith, keep, length, ◌==◌, str_eq, str_eq_self,
  if◌then◌else◌, Bool-cases,
}
use kemi.Json.{Value}
use kemi.Scheduler.{Chunk, in_list, assign_to, is_skipped, acquire, fail}
use kemi.Consumer.Job.{Pending, on_chunk, without_wait}
use kemi.Consumer.Job.Flights.{flying, Flights}

flying-append :
    (k : ℕ) (ps : List Pending) (x : Pending)
    → flying k (ps ++ x ∷ []) ≡ flying k ps ++ (if x.index == k then x.provider ∷ [] else [])
flying-append k [] x = ground arith
flying-append k (y ∷ ps) x = ground (arith, flying-append k ps x)

append-nil' : (xs : List String) → xs ++ [] ≡ xs
append-nil' [] = refl
append-nil' (x ∷ xs) = ap (◌∷◌ x) (append-nil' xs)

flying_other :
    (k : ℕ) (ps : List Pending) (x : Pending)
    → (x.index == k) ≡ false
    → flying k (ps ++ x ∷ []) ≡ flying k ps
flying_other k ps x h = flying-append k ps x ∙ rw h (append-nil' (flying k ps))

-- a wait for an earlier chunk does not count
Flights-earlier :
    (k : ℕ) (cs : List (Chunk Value)) (ps : List Pending) (x : Pending)
    → x.index < k
    → Flights k cs ps
    → Flights k cs (ps ++ x ∷ [])
Flights-earlier k [] ps x h f = tt
Flights-earlier k (c ∷ cs) ps x h (here, f) = (
  here ∙ sym (flying_other k ps x (ground arith)),
  Flights-earlier (suc k) cs ps x (omega arith) f,
)

pub Flights-assign :
    (k i : ℕ) (cs : List (Chunk Value)) (ps : List Pending) (x : Pending)
    → x.index ≡ k + i
    → i < length cs
    → Flights k cs ps
    → Flights k (on_chunk i (assign_to x.provider) cs) (ps ++ x ∷ [])
unfolding on_chunk assign_to
Flights-assign k i [] ps x e h f = absurd (omega arith)
Flights-assign k zero (c ∷ cs) ps x e h (here, f) =
    let at_k : (x.index == k) ≡ true = ground arith in
    (rw (flying-append k ps x, at_k, here) refl, Flights-earlier (suc k) cs ps x (omega arith) f)
Flights-assign k (suc i) (c ∷ cs) ps x e h (here, f) = (
  here ∙ sym (flying_other k ps x (ground arith)),
  Flights-assign (suc k) i cs ps x (omega arith) (omega arith) f,
)

abbrev pub drop_id : String → List String → List String
drop_id id = keep (λ q. not (str_eq q id))

flying-without_wait :
    (k m : ℕ) (id : String) (ps : List Pending)
    → flying k (without_wait id m ps) ≡ (if m == k then drop_id id (flying k ps) else flying k ps)
flying-without_wait k m id [] = ground arith
flying-without_wait k m id (x ∷ ps) = ground (arith, flying-without_wait k m id ps)

Flights-without_earlier :
    (k m : ℕ) (id : String) (cs : List (Chunk Value)) (ps : List Pending)
    → m < k
    → Flights k cs ps
    → Flights k cs (without_wait id m ps)
Flights-without_earlier k m id [] ps h f = tt
Flights-without_earlier k m id (c ∷ cs) ps h (here, f) =
    let apart : (m == k) ≡ false = ground arith in
    (
      rw (flying-without_wait k m id ps, apart) here,
      Flights-without_earlier (suc k) m id cs ps (omega arith) f,
    )

-- a change of a chunk that takes a provider out of flight
pub Flights-without_wait :
    (g : Chunk Value → Chunk Value) (id : String) (k i : ℕ) (cs : List (Chunk Value))
    (ps : List Pending)
    → ((c : Chunk Value) → (g c).in_flight ≡ drop_id id c.in_flight)
    → Flights k cs ps
    → Flights k (on_chunk i g cs) (without_wait id (k + i) ps)
unfolding on_chunk
Flights-without_wait g id k i [] ps takes f = tt
Flights-without_wait g id k zero (c ∷ cs) ps takes (here, f) =
    let at_k : (k + 0 == k) ≡ true = ground arith in
    (
      takes c ∙ ap (drop_id id) here ∙ rw (flying-without_wait k (k + 0) id ps, at_k) refl,
      Flights-without_earlier (suc k) (k + 0) id cs ps (omega arith) f,
    )
Flights-without_wait g id k (suc i) (c ∷ cs) ps takes (here, f) =
    let apart : (k + suc i == k) ≡ false = ground arith in
    let step : k + suc i ≡ suc k + i = omega arith in
    (
      rw (flying-without_wait k (k + suc i) id ps, apart) here,
      subst (λ m. Flights (suc k) (on_chunk i g cs) (without_wait id m ps)) (sym step)
          (Flights-without_wait g id (suc k) i cs ps takes f),
    )

-- ------------------------------------------------------------ chunks that are acquired

-- the provider is not in flight on the chunk at i
abbrev pub IsFree : String → ℕ → List (Chunk Value) → Type 0
IsFree id i [] = ⊥
IsFree id zero (c ∷ cs) = in_list id c.in_flight ≡ false
IsFree id (suc i) (c ∷ cs) = IsFree id i cs

drop_id_free :
    (id : String) (xs : List String) → in_list id xs ≡ false → drop_id id (xs ++ id ∷ []) ≡ xs
drop_id_free id [] h = rw (str_eq_self id) refl
drop_id_free id (x ∷ xs) h =
    let apart : str_eq x id ≡ false = ground arith in
    rw apart (ap (◌∷◌ x) (drop_id_free id xs (ground arith)))

-- taking the chunk and giving it up leaves what is in flight
pub Flights-given_up :
    (id : String) (k i : ℕ) (cs : List (Chunk Value)) (ps : List Pending)
    → IsFree id i cs
    → Flights k cs ps
    → Flights k (on_chunk i (fail id) (on_chunk i (assign_to id) cs)) ps
unfolding on_chunk assign_to fail
Flights-given_up id k i [] ps free f = tt
Flights-given_up id k zero (c ∷ cs) ps free (here, f) = (drop_id_free id c.in_flight free ∙ here, f)
Flights-given_up id k (suc i) (c ∷ cs) ps free (here, f) =
    (here, Flights-given_up id (suc k) i cs ps free f)

-- what acquire gives: a chunk that the provider is not in flight on, and is put on
abbrev pub IsTaken : String → List (Chunk Value) → Option ℕ × List (Chunk Value) → Type 0
IsTaken id cs (none, cs') = Unit {0}
IsTaken id cs (some i, cs') =
    (cs' ≡ on_chunk i (assign_to id) cs) × (i < length cs) × IsFree id i cs

pub acquire-IsTaken : (id : String) (cs : List (Chunk Value)) → IsTaken id cs (acquire id cs)
unfolding acquire on_chunk is_skipped
acquire-IsTaken id [] = tt
acquire-IsTaken id (c ∷ cs) = elim (Bool-cases (is_skipped id c)) [
  | inl skip ↦ rw skip (later (acquire id cs) (acquire-IsTaken id cs))
  | inr take_it ↦ rw take_it (refl, omega arith, ground arith)
]
  where
    later :
        (rest : Option ℕ × List (Chunk Value))
        → IsTaken id cs rest
        → IsTaken id (c ∷ cs) (elim rest.0 [ none ↦ none | some i ↦ some (suc i) ], c ∷ rest.1)
    later (none, r) h = tt
    later (some i, r) (is, below, free) = (ap (◌∷◌ c) is, omega arith, free)
