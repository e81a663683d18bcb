-- ===== src/Dht/Lookup/Closest.antt =====
-- What a lookup finds: the nearest of all ids that can be reached through answers.
use kemi.Prelude.{
  ℕ, zero, suc, String, ◌≡◌, ◌⊎◌, inl, inr, sym, ap, ◌∙◌, Bool, true, false, ◌||◌, Option, some,
  List, [], ◌∷◌, All, length, str_eq, eq_iff, Bool-cases, any-append,
}
use kemi.Prelude.Int.{ℤ}
use kemi.Json.{Value, Fields}
use kemi.Result.{Result-cases, Result, ok}
use kemi.Dht.Contacts.{Contact, bucket_size, has_id, ranked}
use kemi.Dht.Contacts.Ranking.{IsNearer, ranked_or_beyond}
use kemi.Dht.Routing.{RoutingTable, closest}
use kemi.Dht.Lookup.{member, ids, unqueried, search_from, lookup}
use kemi.Dht.Lookup.Steps.{Names, steps_keep, steps_add}
use kemi.Dht.Lookup.Ends.{IsRound, step-cases, next}

-- the ids that the lookup may come to know: those of its first contacts, and those that the answers of
-- such ids name, but for the own id
pub data Reached (N : String → String → Type 0) (own : String) (start : List Contact)
    : String → Type 0 where
  known : (id : String) → has_id id start ≡ true → Reached N own start id
  through :
      (id j : String)
      → Reached N own start id
      → N id j
      → str_eq j own ≡ false
      → Reached N own start j

all_queried :
    (id : String) (queried : List String) (cs : List Contact)
    → unqueried queried cs ≡ []
    → has_id id cs ≡ true
    → member id queried ≡ true
all_queried id queried [] h there = cc
all_queried id queried (c ∷ cs) h there = elim (Bool-cases (member c.node_id queried)) [
  | inr fresh ↦ absurd (not_nil c (unqueried queried cs) (rw fresh at h))
  | inl asked ↦ elim (Bool-cases (str_eq c.node_id id)) [
    | inl here ↦ ap (λ j. member j queried) (sym ((eq_iff _ _).0 here)) ∙ asked
    | inr later ↦ all_queried id queried cs (rw asked at h) (rw later at there)
  ]
]
  where
    not_nil : (x : Contact) (xs : List Contact) → x ∷ xs ≡ [] → ⊥
    not_nil x xs e = cc

module _ (int16 : String → Result ℤ) (show : Value → String) (to_int : Value → Option ℤ)
    (answers : String → Option Fields) (own target : String) where
  abbrev N : String → String → Type 0
  N = Names int16 show to_int answers

  -- what the answers of the queried ids name is known
  abbrev IsClosed : (String → Bool) → List Contact → Type 0
  IsClosed asked shortlist =
      (id j : String) → asked id ≡ true → N id j → str_eq j own ≡ false → has_id j shortlist ≡ true

  round-IsClosed :
      (shortlist : List Contact) (queried : List String) {s : List Contact} {q : List String}
      → IsRound int16 show to_int answers own target shortlist queried s q
      → IsClosed (λ id. member id queried) shortlist
      → IsClosed (λ id. member id q) s
  round-IsClosed shortlist queried {s} {q} r h id j asked names other =
      let either : (member id queried || member id (ids (r.first ∷ r.others))) ≡ true =
        sym (any-append (λ i. str_eq i id) queried (ids (r.first ∷ r.others)))
        ∙ ap (member id) (sym r.asks)
        ∙ asked in
      elim (Bool-cases (member id queried)) [
        | inl before ↦
            steps_keep int16 show to_int answers own j (r.first ∷ r.others) shortlist r.absorbs
              (h id j before names other)
        | inr now ↦
            steps_add int16 show to_int answers own id j (r.first ∷ r.others) shortlist r.absorbs
              (rw now at either) names other
      ]

  -- the last shortlist is ranked, has all that was known, and all that its own ids' answers name
  abbrev IsExplored : List Contact → List Contact → List Contact → Type 0
  IsExplored shortlist found final =
      (ranked int16 target bucket_size final ≡ ok found)
      × ((j : String) → has_id j shortlist ≡ true → has_id j final ≡ true)
      × IsClosed (λ id. has_id id final) final

  search_from-IsExplored :
      (fuel : ℕ) (shortlist : List Contact) (queried : List String) {found : List Contact}
      → IsClosed (λ id. member id queried) shortlist
      → search_from int16 show to_int answers own target fuel shortlist queried ≡ some (ok found)
      → (final : List Contact) × IsExplored shortlist found final
  unfolding search_from
  search_from-IsExplored zero shortlist queried closed h = cc
  search_from-IsExplored (suc fuel) shortlist queried {found} closed h =
      elim (Result-cases (next int16 show to_int answers own target shortlist queried)) [
        | inl (e, raises) ↦ cc (rw (raises, search_from) at h)
        | inr (o, goes) ↦
            elim (step-cases int16 show to_int answers own target shortlist queried o goes) [
              | inl (done, all) ↦
                  let last : ranked int16 target bucket_size shortlist ≡ ok found = some_inj (
                    rw
                      (
                        goes ∙ ap (λ (x : Option (List Contact × List String)). ok x) done,
                        search_from,
                      )
                      at h) in
                  (
                    shortlist,
                    (
                      last,
                      λ j there. there,
                      λ id j there. closed id j (all_queried id queried shortlist all there),
                    ),
                  )
              | inr (s, q, on, r) ↦
                  let (final, explored) =
                    search_from-IsExplored fuel s q (round-IsClosed shortlist queried r closed) (
                      rw
                        (
                          goes ∙ ap (λ (x : Option (List Contact × List String)). ok x) on,
                          search_from,
                        )
                        at h) in
                  (
                    final,
                    (
                      explored.0,
                      λ j there. explored.1 j (
                          steps_keep int16 show to_int answers own j (r.first ∷ r.others) shortlist
                            r.absorbs there),
                      explored.2,
                    ),
                  )
            ]
      ]
    where
      some_inj :
          {a b : Result (List Contact)}
          → ◌≡◌ {A = Option (Result (List Contact))} (some a) (some b)
          → a ≡ b
      some_inj e = cc

  Reached-IsKnown :
      (start final : List Contact)
      → ((j : String) → has_id j start ≡ true → has_id j final ≡ true)
      → IsClosed (λ id. has_id id final) final
      → {id : String} → Reached N own start id
      → has_id id final ≡ true
  Reached-IsKnown start final keeps closed (known id h) = keeps id h
  Reached-IsKnown start final keeps closed (through id j r names other) =
      closed id j (Reached-IsKnown start final keeps closed r) names other

-- Where a lookup ends with a result, every id that can be reached from the table's nearest contacts is
-- in the result, or the result has 8 contacts and each is as near to the target or nearer.
pub lookup-IsNearest :
    (int16 : String → Result ℤ) (show : Value → String) (to_int : Value → Option ℤ)
    (answers : String → Option Fields) (t : RoutingTable) (target : String) (fuel : ℕ)
    {start found : List Contact}
    → closest int16 t target bucket_size ≡ ok start
    → lookup int16 show to_int answers t target fuel ≡ some (ok found)
    → (id : String) → Reached (Names int16 show to_int answers) t.own_id start id
    → (has_id id found ≡ true) ⊎ ((length found ≡ 8) × All (IsNearer int16 target id) found)
unfolding lookup
lookup-IsNearest int16 show to_int answers t target fuel {start} {found} begins ends id r =
    let (final, explored) =
      search_from-IsExplored int16 show to_int answers t.own_id target fuel start []
        (λ i j asked. cc) (rw (begins, lookup) at ends) in
    ranked_or_beyond int16 target bucket_size final explored.0 id (
      Reached-IsKnown int16 show to_int answers t.own_id target start final explored.1 explored.2 r)
