-- ===== src/Scheduler/Safety.antt =====
-- A chunk of consumer.py through assignments, results and failures.
use kemi.Prelude.{
  ℕ, ◌+◌, ◌/◌, ◌≤◌, String, ◌≡◌, refl, ◌∙◌, ap, subst, true, false, ◌&&◌, Option, none, some, List,
  [], ◌∷◌, arith, ltb, leb, str_eq, str_eq_sym, eq_iff, any-append, length, length-append,
  Bool-cases, inl, inr,
}
use kemi.Prelude.Assoc.{
  find, upsert, has_key, has_key-upsert, find-upsert, DistinctKeys, upsert-DistinctKeys,
}
use kemi.Scheduler.{
  Chunk, new_chunk, is_skipped, assign_to, fail, widen, winner, in_list, tries, fingerprints,
  record_result, decide, complete,
}
use kemi.Scheduler.Vote.{votes, majority_result}
use kemi.Scheduler.Lists.{
  DistinctTexts, DistinctTexts-snoc, in_list-keep, DistinctTexts-keep, keep-le, keep-lt,
  length-upsert,
}

-- what a worker does to a chunk: a provider completes or fails only what it was assigned
pub data Step {V : Type 0} (fingerprint : List V → ℕ) (redundancy : ℕ)
    : Chunk V → Chunk V → Type 0 where
  taken :
      (c : Chunk V) (p : String)
      → is_skipped p c ≡ false
      → Step fingerprint redundancy c (assign_to p c)
  answered :
      (c : Chunk V) (p : String) (r : List V)
      → in_list p c.in_flight ≡ true
      → Step fingerprint redundancy c (complete fingerprint redundancy c p r).1
  failed : (c : Chunk V) (p : String) → Step fingerprint redundancy c (fail p c)

pub data Reaches {V : Type 0} (fingerprint : List V → ℕ) (redundancy : ℕ) (c : Chunk V)
    : Chunk V → Type 0 where
  here : Reaches fingerprint redundancy c c
  onward :
      {d e : Chunk V}
      → Reaches fingerprint redundancy c d
      → Step fingerprint redundancy d e
      → Reaches fingerprint redundancy c e

module _ {V : Type 0} (fingerprint : List V → ℕ) (redundancy : ℕ) where
  pub record IsSound (c : Chunk V) : Type 0 where
    pub slots : length c.results + length c.in_flight ≤ c.needed
    pub widened : c.needed ≤ redundancy + 2
    pub distinct : DistinctKeys c.results
    pub flight : DistinctTexts c.in_flight
    pub apart : (q : String) → in_list q c.in_flight ≡ true → has_key q c.results ≡ false
    pub tried : (q : String) → tries c q ≤ 2
    pub majority :
        (v : List V)
        → c.accepted ≡ some v
        → redundancy / 2 + 1 ≤ votes fingerprint (fingerprint v) c.results

module _ {V : Type 0} (fingerprint : List V → ℕ) (redundancy : ℕ) where
  votes-upsert :
      (fp : ℕ) (p : String) (r : List V) (m : List (String × List V))
      → has_key p m ≡ false
      → votes fingerprint fp m ≤ votes fingerprint fp (upsert p r m)
  unfolding upsert find
  votes-upsert fp p r [] h = omega arith
  votes-upsert fp p r ((k, v) ∷ m) h = ground (arith, votes-upsert fp p r m)

  new_chunk-IsSound : (items : List V) → IsSound fingerprint redundancy (new_chunk redundancy items)
  unfolding new_chunk find
  new_chunk-IsSound items = record {
    slots = omega arith;
    widened = omega arith;
    distinct = tt;
    flight = tt;
    apart = λ q h. refl;
    tried = λ q. omega arith;
    majority = λ v h. cc;
  }

  taken-IsSound :
      (c : Chunk V) (p : String)
      → is_skipped p c ≡ false
      → IsSound fingerprint redundancy c
      → IsSound fingerprint redundancy (assign_to p c)
  unfolding is_skipped assign_to
  taken-IsSound c p free s = record {
    slots = let sum = length-append c.in_flight (p ∷ []) in let old = s.slots in ground arith;
    widened = s.widened;
    distinct = s.distinct;
    flight = DistinctTexts-snoc p c.in_flight s.flight (ground arith);
    apart = λ q h.
        let split = any-append (λ r. str_eq r q) c.in_flight (p ∷ []) in
        elim (Bool-cases (str_eq p q)) [
          | inl x ↦ subst (λ r. has_key r c.results ≡ false) ((eq_iff p q).0 x) (ground arith)
          | inr x ↦ s.apart q (ground arith)
        ];
    tried = λ q.
        rw (find-upsert p q (tries c p + 1) c.attempts) (elim (Bool-cases (str_eq p q)) [
          | inl x ↦ rw x (ground arith)
          | inr x ↦ rw x (s.tried q)
        ]);
    majority = s.majority;
  }

  fail-IsSound :
      (c : Chunk V) (p : String)
      → IsSound fingerprint redundancy c
      → IsSound fingerprint redundancy (fail p c)
  unfolding fail
  fail-IsSound c p s = record {
    slots = omega (arith, s.slots, keep-le p c.in_flight);
    widened = s.widened;
    distinct = s.distinct;
    flight = DistinctTexts-keep p c.in_flight s.flight;
    apart = λ q h. s.apart q (let k = in_list-keep p q c.in_flight in ground arith);
    tried = s.tried;
    majority = s.majority;
  }

  pub recorded-IsSound :
      (c : Chunk V) (p : String) (r : List V)
      → in_list p c.in_flight ≡ true
      → IsSound fingerprint redundancy c
      → IsSound fingerprint redundancy (record_result fingerprint c p r)
  recorded-IsSound c p r mine s =
      let fresh = s.apart p mine in
      record {
        slots =
            omega (arith, s.slots, keep-lt p c.in_flight mine, length-upsert p r c.results fresh);
        widened = s.widened;
        distinct = upsert-DistinctKeys p r c.results s.distinct;
        flight = DistinctTexts-keep p c.in_flight s.flight;
        apart = λ q h.
            let k = in_list-keep p q c.in_flight in
            let sym_test = str_eq_sym p q in
            let old = s.apart q (ground arith) in has_key-upsert p q r c.results ∙ ground arith;
        tried = s.tried;
        majority = λ v h.
            let old = s.majority v h in
            omega (arith, votes-upsert (fingerprint v) p r c.results fresh);
      }

  widen-IsSound :
      (c : Chunk V)
      → IsSound fingerprint redundancy c
      → IsSound fingerprint redundancy (widen redundancy c)
  unfolding widen
  widen-IsSound c s =
      elim (Bool-cases (leb c.needed (length c.results) && ltb c.needed (redundancy + 2))) [
        | inl more ↦
            rw (more, widen)
              (record {
                slots = omega (arith, s.slots);
                widened = ground arith;
                distinct = s.distinct;
                flight = s.flight;
                apart = s.apart;
                tried = s.tried;
                majority = s.majority;
              })
        | inr enough ↦ rw (enough, widen) s
      ]

  decide-IsSound :
      (c : Chunk V) (o : Option (ℕ × List String))
      → winner (redundancy / 2 + 1) (fingerprints fingerprint c) ≡ o
      → IsSound fingerprint redundancy c
      → IsSound fingerprint redundancy (decide fingerprint redundancy c o).1
  decide-IsSound c none q s = widen-IsSound c s
  decide-IsSound c (some (fp, ps)) q s =
      let (v, found, same, le) =
        majority_result fingerprint (redundancy / 2 + 1) fp ps c s.distinct (omega arith) q in
      record {
        slots = s.slots;
        widened = s.widened;
        distinct = s.distinct;
        flight = s.flight;
        apart = s.apart;
        tried = s.tried;
        majority = λ w h.
            let agree : w ≡ v = cc (h, found) in
            let print : fingerprint w ≡ fp = ap fingerprint agree ∙ same in rw print le;
      }

  Step-IsSound :
      {c d : Chunk V}
      → Step fingerprint redundancy c d
      → IsSound fingerprint redundancy c
      → IsSound fingerprint redundancy d
  unfolding complete
  Step-IsSound (taken c p free) s = taken-IsSound c p free s
  Step-IsSound (answered c p r mine) s =
      decide-IsSound (record_result fingerprint c p r) _ refl (recorded-IsSound c p r mine s)
  Step-IsSound (failed c p) s = fail-IsSound c p s

  -- However a chunk is assigned, answered and failed: its results come from distinct providers, none
  -- of which still works on it or was assigned it more than twice; results and assignments never
  -- exceed the wanted number, which grows by two at most; and an accepted result has the fingerprint
  -- of the results of more than half as many providers as the redundancy asks for.
  pub reached-IsSound :
      (items : List V) {c : Chunk V}
      → Reaches fingerprint redundancy (new_chunk redundancy items) c
      → IsSound fingerprint redundancy c
  reached-IsSound items here = new_chunk-IsSound items
  reached-IsSound items (onward before step) = Step-IsSound step (reached-IsSound items before)
