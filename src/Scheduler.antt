-- ===== src/Scheduler.antt =====
-- kemi/consumer.py: _ChunkState and _Scheduler, which hand chunks to providers and vote on results.
-- A chunk is named by its position; the fingerprint of a result list is a parameter.
pub mod Vote
pub mod Lists
pub mod Safety
pub mod Answers
mod Tests
use kemi.Prelude.{
  ℕ, zero, suc, ◌+◌, ◌-◌, ◌/◌, ◌<◌, String, ◌≡◌, Bool, true, false, not, ◌&&◌, ◌||◌, Option, none,
  some, List, [], ◌∷◌, ◌++◌, ltb, leb, ◌==◌, str_eq, if◌then◌else◌, any, all, keep, length, or_else,
  is_some,
}
use kemi.Prelude.Assoc.{find, upsert, has_key}

abbrev pub max_attempts_per_provider : ℕ
max_attempts_per_provider = 2

abbrev pub max_extra_rounds : ℕ
max_extra_rounds = 2

-- _ChunkState: its dictionaries keep the order of insertion
pub record Chunk (V : Type 0) : Type 0 where
  pub items : List V
  pub needed : ℕ
  pub results : List (String × List V)
  pub in_flight : List String
  pub attempts : List (String × ℕ)
  pub accepted : Option (List V)

abbrev pub Groups : Type 0
Groups = List (ℕ × List String)

-- groups.setdefault(fingerprint, []).append(provider_id)
unfoldable pub add_group : ℕ → String → Groups → Groups
add_group fp p [] = (fp, p ∷ []) ∷ []
add_group fp p ((g, ps) ∷ gs) =
    if g == fp then (g, ps ++ p ∷ []) ∷ gs else (g, ps) ∷ add_group fp p gs

-- the first group with so many providers
unfoldable pub winner : ℕ → Groups → Option (ℕ × List String)
winner majority [] = none
winner majority ((g, ps) ∷ gs) =
    if leb majority (length ps) then some (g, ps) else winner majority gs

unfoldable pub losers : ℕ → Groups → List String
losers fp [] = []
losers fp ((g, ps) ∷ gs) = if g == fp then losers fp gs else ps ++ losers fp gs

abbrev pub in_list : String → List String → Bool
in_list p = any (λ q. str_eq q p)

module _ {V : Type 0} where
  unfoldable pub new_chunk : ℕ → List V → Chunk V
  new_chunk redundancy items = record {
    items = items;
    needed = redundancy;
    results = [];
    in_flight = [];
    attempts = [];
    accepted = none;
  }

  abbrev pub done : Chunk V → Bool
  done c = is_some c.accepted

  abbrev pub tries : Chunk V → String → ℕ
  tries c p = or_else (find p c.attempts) 0

  -- the conditions of acquire that pass a chunk over
  unfoldable pub is_skipped : String → Chunk V → Bool
  is_skipped p c =
      done c
      || (in_list p c.in_flight
          || (has_key p c.results
              || (leb max_attempts_per_provider (tries c p)
                  || leb c.needed (length c.results + length c.in_flight))))

  unfoldable pub assign_to : String → Chunk V → Chunk V
  assign_to p c = record c {
    in_flight = c.in_flight ++ p ∷ [];
    attempts = upsert p (tries c p + 1) c.attempts;
  }

  -- the position of the acquired chunk, and the chunks afterwards
  unfoldable pub acquire : String → List (Chunk V) → Option ℕ × List (Chunk V)
  acquire p [] = (none, [])
  acquire p (c ∷ cs) =
      let (found, cs') = acquire p cs in
      if is_skipped p c
      then (elim found [ none ↦ none | some i ↦ some (suc i) ], c ∷ cs')
      else (some 0, assign_to p c ∷ cs)

  abbrev pub discard : String → Chunk V → Chunk V
  discard p c = record c { in_flight = keep (λ q. not (str_eq q p)) c.in_flight }

  -- chunk.results_by_provider[providers[0]]
  unfoldable pub first_result : List String → List (String × List V) → Option (List V)
  first_result [] m = none
  first_result (p ∷ ps) m = find p m

  unfoldable pub widen : ℕ → Chunk V → Chunk V
  widen redundancy c =
      if leb c.needed (length c.results) && ltb c.needed (redundancy + max_extra_rounds)
      then record c { needed = c.needed + 1 }
      else c

  unfoldable pub fail : String → Chunk V → Chunk V
  fail p c = discard p c

  module _ (fingerprint : List V → ℕ) where
    unfoldable pub groups_from : Groups → List (String × List V) → Groups
    groups_from gs [] = gs
    groups_from gs ((p, r) ∷ m) = groups_from (add_group (fingerprint r) p gs) m

    -- fingerprints()
    unfoldable pub fingerprints : Chunk V → Groups
    fingerprints c = groups_from [] c.results

    abbrev pub record_result : Chunk V → String → List V → Chunk V
    record_result c p r = record (discard p c) { results = upsert p r c.results }

    abbrev pub decide : ℕ → Chunk V → Option (ℕ × List String) → List String × Chunk V
    decide redundancy c (some (fp, ps)) =
        (losers fp (fingerprints c), record c { accepted = first_result ps c.results })
    decide redundancy c none = ([], widen redundancy c)

    unfoldable pub complete : ℕ → Chunk V → String → List V → List String × Chunk V
    complete redundancy c p r =
        let c' = record_result c p r in
        decide redundancy c' (winner (redundancy / 2 + 1) (fingerprints c'))
