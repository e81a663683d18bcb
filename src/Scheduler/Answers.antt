-- ===== src/Scheduler/Answers.antt =====
-- What acquire and complete of consumer.py return.
use kemi.Prelude.{
  ℕ, suc, ◌+◌, ◌/◌, String, ◌≡◌, ◌≢◌, refl, sym, ◌∙◌, ap, true, false, Option, none, some, List, [],
  ◌∷◌, ◌++◌, arith, ◌==◌, ==_iff, all, length, All, Bool-cases, inl, inr, ◌⊎◌,
}
use kemi.Prelude.Assoc.{find, DistinctKeys}
use kemi.Scheduler.{
  Chunk, Groups, is_skipped, assign_to, acquire, winner, losers, in_list, fingerprints,
  record_result, decide, complete, first_result,
}
use kemi.Scheduler.Vote.{AllGroups, Returned, fingerprints-Returned, majority_result}
use kemi.Scheduler.Safety.{IsSound, recorded-IsSound}

-- the chunks before the acquired one, that one, and those after it
pub record IsAcquired {V : Type 0} (p : String) (cs : List (Chunk V)) (i : ℕ) (cs' : List (Chunk V))
    : Type 0 where
  pub before : List (Chunk V)
  pub chunk : Chunk V
  pub later : List (Chunk V)
  pub was : cs ≡ before ++ chunk ∷ later
  pub becomes : cs' ≡ before ++ assign_to p chunk ∷ later
  pub position : i ≡ length before
  pub passed : all (is_skipped p) before ≡ true
  pub free : is_skipped p chunk ≡ false

module _ {V : Type 0} where
  IsAcquired-cons :
      (p : String) (c : Chunk V) (cs cs' : List (Chunk V)) (i : ℕ)
      → is_skipped p c ≡ true
      → IsAcquired p cs i cs'
      → IsAcquired p (c ∷ cs) (suc i) (c ∷ cs')
  IsAcquired-cons p c cs cs' i skip a = record {
    before = c ∷ a.before;
    chunk = a.chunk;
    later = a.later;
    was = ap (◌∷◌ c) a.was;
    becomes = ap (◌∷◌ c) a.becomes;
    position = ap suc a.position;
    passed = rw (skip, a.passed) refl;
    free = a.free;
  }

  -- acquire assigns the first chunk that no condition passes over and leaves the others alone; if
  -- all are passed over, it returns None and changes nothing.
  pub acquire-IsAcquired :
      (p : String) (cs : List (Chunk V))
      → ((acquire p cs ≡ (none, cs)) × (all (is_skipped p) cs ≡ true))
        ⊎ ((i : ℕ) × ((acquire p cs).0 ≡ some i) × IsAcquired p cs i (acquire p cs).1)
  unfolding acquire
  acquire-IsAcquired p [] = inl (refl, refl)
  acquire-IsAcquired p (c ∷ cs) = elim (Bool-cases (is_skipped p c)) [
    | inr x ↦ inr (
      0,
      rw (x, acquire) refl,
      rw (x, acquire)
          (record {
            before = [];
            chunk = c;
            later = cs;
            was = refl;
            becomes = refl;
            position = refl;
            passed = refl;
            free = x;
          }),
    )
    | inl x ↦ elim (acquire-IsAcquired p cs) [
      | inl (same, skipped) ↦ inl (rw (same, x, acquire) refl, rw (x, skipped) refl)
      | inr (i, found, a) ↦
          inr (suc i, rw (found, x, acquire) refl, rw (x, acquire) (IsAcquired-cons p c cs _ i x a))
    ]
  ]

  module _ (fingerprint : List V → ℕ) where
    -- a provider with another result than the accepted one
    abbrev pub Lost : Chunk V → String → Type 0
    Lost c q =
        (r : List V) × (find q c.results ≡ some r)
        × ((v : List V) → c.accepted ≡ some v → fingerprint r ≢ fingerprint v)

    join :
        (m : List (String × List V)) (fp g : ℕ) (ps qs : List String)
        → g ≢ fp
        → All (Returned fingerprint m g) ps
        → All (λ q. (r : List V) × (find q m ≡ some r) × (fingerprint r ≢ fp)) qs
        → All (λ q. (r : List V) × (find q m ≡ some r) × (fingerprint r ≢ fp)) (ps ++ qs)
    join m fp g [] qs other h k = k
    join m fp g (p ∷ ps) qs other h k =
        let (r, found, same) = h.0 in
        ((r, found, λ e. other (sym same ∙ e)), join m fp g ps qs other h.1 k)

    losers_lem :
        (m : List (String × List V)) (fp : ℕ) (gs : Groups)
        → AllGroups (Returned fingerprint m) gs
        → All (λ q. (r : List V) × (find q m ≡ some r) × (fingerprint r ≢ fp)) (losers fp gs)
    unfolding losers
    losers_lem m fp [] h = tt
    losers_lem m fp ((g, ps) ∷ gs) h = elim (Bool-cases (g == fp)) [
      | inl x ↦ rw x (losers_lem m fp gs h.1)
      | inr x ↦ rw x (
          join m fp g ps (losers fp gs) (λ e. cc ((==_iff g fp).1 e, x)) h.0
            (losers_lem m fp gs h.1))
    ]

    decide-Lost :
        (redundancy : ℕ) (c : Chunk V) (o : Option (ℕ × List String))
        → winner (redundancy / 2 + 1) (fingerprints fingerprint c) ≡ o
        → DistinctKeys c.results
        → All (Lost (decide fingerprint redundancy c o).1) (decide fingerprint redundancy c o).0
    decide-Lost redundancy c none q d = tt
    decide-Lost redundancy c (some (fp, ps)) q d =
        let (v, found, same, le) =
          majority_result fingerprint (redundancy / 2 + 1) fp ps c d (omega arith) q in
        accepted_is (losers fp (fingerprints fingerprint c)) v found same (
          losers_lem c.results fp (fingerprints fingerprint c)
            (fingerprints-Returned fingerprint c d))
      where
        same_value : (w v : List V) → ◌≡◌ {A = Option (List V)} (some w) (some v) → w ≡ v
        same_value w v h = cc

        accepted_is :
            (qs : List String) (v : List V)
            → first_result ps c.results ≡ some v
            → fingerprint v ≡ fp
            → All (λ q. (r : List V) × (find q c.results ≡ some r) × (fingerprint r ≢ fp)) qs
            → All (Lost (record c { accepted = first_result ps c.results })) qs
        accepted_is [] v found same h = tt
        accepted_is (q ∷ qs) v found same h =
            let (r, stored, other) = h.0 in
            (
              (
                r,
                stored,
                λ w is e. other (e ∙ ap fingerprint (same_value w v (sym is ∙ found)) ∙ same),
              ),
              accepted_is qs v found same h.1,
            )

    -- Each provider that complete returns has stored a result whose fingerprint is not that of the
    -- accepted result.
    pub complete-Lost :
        (redundancy : ℕ) (c : Chunk V) (p : String) (r : List V)
        → IsSound fingerprint redundancy c
        → in_list p c.in_flight ≡ true
        → All
            (Lost (complete fingerprint redundancy c p r).1)
            (complete fingerprint redundancy c p r).0
    unfolding complete
    complete-Lost redundancy c p r s mine =
        decide-Lost redundancy (record_result fingerprint c p r) _ refl
          (recorded-IsSound fingerprint redundancy c p r mine s).distinct
