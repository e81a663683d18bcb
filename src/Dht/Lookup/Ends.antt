-- ===== src/Dht/Lookup/Ends.antt =====
-- The lookup ends: every round asks an id that was not asked before.
use kemi.Prelude.{
  ℕ, zero, suc, ◌≤◌, ◌<◌, String, ◌≡◌, ◌⊎◌, inl, inr, refl, sym, ap, subst, ◌∙◌, true, false, not,
  Option, none, some, List, [], ◌∷◌, ◌++◌, arith, keep, length, str_eq, str_eq_self, eq_iff,
  Bool-cases, any-append,
}
use kemi.Prelude.Int.{ℤ}
use kemi.Json.{Value, Fields}
use kemi.Result.{Result-cases, Result, ok, raise, >>=-eq-ok, ok-injective}
use kemi.Dht.Contacts.{Contact, alpha, bucket_size, has_id, ranked}
use kemi.Dht.Contacts.Ranking.{any_of_ranked, nil_of_ranked}
use kemi.Dht.Routing.{RoutingTable, closest, all_contacts}
use kemi.Dht.Lookup.{member, ids, unqueried, absorb_answers, round, step, search_from, lookup}
use kemi.Dht.Lookup.Steps.{Names, steps_within}

-- how many ids of u are not queried yet
abbrev missing : List String → List String → ℕ
missing u queried = length (keep (λ j. not (member j queried)) u)

missing_all : (xs : List String) → missing xs [] ≡ length xs
missing_all [] = refl
missing_all (x ∷ xs) = ap (λ (n : ℕ). suc n) (missing_all xs)

missing-le : (q extra u : List String) → missing u (q ++ extra) ≤ missing u q
missing-le q extra [] = omega arith
missing-le q extra (x ∷ u) =
    ground (arith, missing-le q extra u, any-append (λ j. str_eq j x) q extra)

missing-lt :
    (q extra u : List String) (j : String)
    → member j u ≡ true
    → member j q ≡ false
    → member j extra ≡ true
    → missing u (q ++ extra) < missing u q
missing-lt q extra [] j m old new = cc
missing-lt q extra (x ∷ u) j m old new = elim (Bool-cases (str_eq x j)) [
  | inl here ↦
      let same : x ≡ j = (eq_iff x j).0 here in
      rw (same, any-append (λ i. str_eq i j) q extra, old, new)
        (omega (arith, missing-le q extra u))
  | inr later ↦
      ground (
        arith,
        missing-lt q extra u j (rw later at m) old new,
        any-append (λ i. str_eq i x) q extra,
      )
]

-- an id of an unqueried contact
unqueried_id :
    (id : String) (queried : List String) (cs : List Contact)
    → has_id id (unqueried queried cs) ≡ true
    → (has_id id cs ≡ true) × (member id queried ≡ false)
unqueried_id id queried [] h = cc
unqueried_id id queried (c ∷ cs) h = elim (Bool-cases (member c.node_id queried)) [
  | inl asked ↦
      let (there, fresh) = unqueried_id id queried cs (rw asked at h) in (ground arith, fresh)
  | inr free ↦ elim (Bool-cases (str_eq c.node_id id)) [
    | inl here ↦ (rw here refl, subst (λ j. member j queried ≡ false) ((eq_iff _ _).0 here) free)
    | inr later ↦
        let (there, fresh) = unqueried_id id queried cs (rw (free, later) at h) in
        (ground arith, fresh)
  ]
]

module _ (int16 : String → Result ℤ) (show : Value → String) (to_int : Value → Option ℤ)
    (answers : String → Option Fields) (own target : String) where
  abbrev pub next : List Contact → List String → Result (Option (List Contact × List String))
  next = step int16 show to_int answers own target

  -- a round that goes on: its first candidate was not asked before
  pub record IsRound (shortlist : List Contact) (queried : List String) (s : List Contact)
      (q : List String) : Type 0 where
    pub first : Contact
    pub others : List Contact
    pub fresh : has_id first.node_id (unqueried queried shortlist) ≡ true
    pub absorbs : absorb_answers int16 show to_int answers own (first ∷ others) shortlist ≡ ok s
    pub asks : q ≡ queried ++ ids (first ∷ others)

  round-cases :
      (shortlist : List Contact) (queried : List String) (o : Option (List Contact × List String))
      → (candidates : List Contact)
      → ranked int16 target alpha (unqueried queried shortlist) ≡ ok candidates
      → round int16 show to_int answers own shortlist queried candidates ≡ ok o
      → ((o ≡ none) × (unqueried queried shortlist ≡ []))
        ⊎ ((s : List Contact) × (q : List String) × (o ≡ some (s, q))
            × IsRound shortlist queried s q)
  unfolding round
  round-cases shortlist queried o [] hr h =
      inl (sym (ok-injective h), nil_of_ranked int16 target alpha _ hr refl (omega arith))
  round-cases shortlist queried o (c ∷ cs) hr h =
      let (s, hs, h') =
        >>=-eq-ok (absorb_answers int16 show to_int answers own (c ∷ cs) shortlist) _ h in
      inr (
        s,
        queried ++ ids (c ∷ cs),
        sym (ok-injective h'),
        record {
          first = c;
          others = cs;
          fresh =
              any_of_ranked int16 target alpha _ hr (λ (d : Contact). str_eq d.node_id c.node_id)
                (rw (str_eq_self c.node_id) refl);
          absorbs = hs;
          asks = refl;
        },
      )

  pub step-cases :
      (shortlist : List Contact) (queried : List String) (o : Option (List Contact × List String))
      → next shortlist queried ≡ ok o
      → ((o ≡ none) × (unqueried queried shortlist ≡ []))
        ⊎ ((s : List Contact) × (q : List String) × (o ≡ some (s, q))
            × IsRound shortlist queried s q)
  unfolding step
  step-cases shortlist queried o h =
      let (candidates, hr, h') =
        >>=-eq-ok (ranked int16 target alpha (unqueried queried shortlist)) _ h in
      round-cases shortlist queried o candidates hr h'

  -- every id that is known or named is one of u
  module _ (u : List String)
      (closed : (id j : String) → Names int16 show to_int answers id j → member j u ≡ true) where
    abbrev Within : List Contact → Type 0
    Within shortlist = (j : String) → has_id j shortlist ≡ true → member j u ≡ true

    search_from_total :
        (fuel : ℕ) (shortlist : List Contact) (queried : List String)
        → Within shortlist
        → missing u queried < fuel
        → (r : Result (List Contact)) × (search_from int16 show to_int answers own target fuel
              shortlist queried
            ≡ some r)
    unfolding search_from
    search_from_total zero shortlist queried within enough = absurd (omega arith)
    search_from_total (suc fuel) shortlist queried within enough =
        elim (Result-cases (next shortlist queried)) [
          | inl (e, raises) ↦ (raise e, rw (raises, search_from) refl)
          | inr (o, goes) ↦ elim (step-cases shortlist queried o goes) [
            | inl (done, _) ↦ (
              ranked int16 target bucket_size shortlist,
              rw (goes ∙ ap (λ (x : Option (List Contact × List String)). ok x) done, search_from)
                  refl,
            )
            | inr (s, q, on, r) ↦
                let (there, fresh) = unqueried_id r.first.node_id queried shortlist r.fresh in
                let less : missing u q < missing u queried = rw r.asks (
                  missing-lt queried (ids (r.first ∷ r.others)) u r.first.node_id
                    (within r.first.node_id there) fresh (rw (str_eq_self r.first.node_id) refl)) in
                let (found, ends) =
                  search_from_total fuel s q
                    (steps_within int16 show to_int answers own u closed (r.first ∷ r.others)
                      shortlist r.absorbs within)
                    (omega arith) in
                (
                  found,
                  rw (goes ∙ ap (λ (x : Option (List Contact × List String)). ok x) on, search_from)
                      ends,
                )
          ]
        ]

-- Where the table and all answers name only ids of a list u, a lookup ends within as many rounds as u
-- is long and one more, with a result or an exception.
pub lookup_total :
    (int16 : String → Result ℤ) (show : Value → String) (to_int : Value → Option ℤ)
    (answers : String → Option Fields) (t : RoutingTable) (target : String) (u : List String)
    → ((id j : String) → Names int16 show to_int answers id j → member j u ≡ true)
    → ((j : String) → has_id j (all_contacts t.buckets) ≡ true → member j u ≡ true)
    → (r : Result (List Contact)) × (lookup int16 show to_int answers t target (suc (length u))
        ≡ some r)
unfolding lookup closest
lookup_total int16 show to_int answers t target u closed within =
    elim (Result-cases (closest int16 t target bucket_size)) [
      | inl (e, raises) ↦ (raise e, rw (raises, lookup) refl)
      | inr (shortlist, goes) ↦
          let (r, ends) =
            search_from_total int16 show to_int answers t.own_id target u closed (suc (length u))
              shortlist []
              (λ j there. within j (
                any_of_ranked int16 target bucket_size _ goes (λ (c : Contact). str_eq c.node_id j)
                  there))
              (omega (arith, missing_all u)) in
          (r, rw (goes, lookup) ends)
    ]
