-- ===== src/Discovery/Table.antt =====
-- The table of find_providers: the latest record of each node, and what a further record changes.
use kemi.Prelude.{
  String, ◌≡◌, refl, sym, Option, none, some, List, [], ◌∷◌, ◌⊎◌, inl, inr, arith, All,
  Option-cases, Bool-cases, str_eq, str_eq_self, eq_iff, ◌∙◌,
}
use kemi.Prelude.Int.{ltb_ℤ, ◌≤ℤ◌}
use kemi.Prelude.Assoc.{find, upsert, find-upsert, DistinctKeys, upsert-DistinctKeys}
use kemi.Discovery.{Found, keep_latest}

abbrev pub Table : Type 0
Table = List (String × Found)

-- the table has a record of that node that is no older
abbrev pub HasAsNew : Table → Found → Type 0
HasAsNew fresh r = (s : Found) × (find r.node_id fresh ≡ some s) × (r.ts ≤ℤ s.ts)

upsert-HasAsNew : (r : Found) (fresh : Table) → HasAsNew (upsert r.node_id r fresh) r
upsert-HasAsNew r fresh =
    (r, rw (find-upsert r.node_id r.node_id r fresh, str_eq_self r.node_id) refl, omega arith)

-- the record replaces an older one or none, or the table has one that is no older
keep_latest-cases :
    (r : Found) (fresh : Table)
    → ((keep_latest (some r) fresh ≡ upsert r.node_id r fresh)
        × ((c : Found) → find r.node_id fresh ≡ some c → c.ts ≤ℤ r.ts))
      ⊎ ((keep_latest (some r) fresh ≡ fresh) × HasAsNew fresh r)
unfolding keep_latest
keep_latest-cases r fresh = elim (Option-cases (find r.node_id fresh)) [
  | inl new ↦ inl (rw (new, keep_latest) refl, λ c old. cc)
  | inr (c, old) ↦ elim (Bool-cases (ltb_ℤ c.ts r.ts)) [
    | inl later ↦ inl (
      rw (old, later, keep_latest) refl,
      λ d known. (let same : c ≡ d = some_is c d (sym old ∙ known) in rw (sym same) (ground arith)),
    )
    | inr sooner ↦ inr (rw (old, sooner, keep_latest) refl, (c, old, ground arith))
  ]
]
  where
    some_is : (c d : Found) → some c ≡ some d → c ≡ d
    some_is c d h = cc

pub keep_latest-none : (fresh : Table) → keep_latest none fresh ≡ fresh
unfolding keep_latest
keep_latest-none fresh = refl

pub keep_latest-has : (r : Found) (fresh : Table) → HasAsNew (keep_latest (some r) fresh) r
keep_latest-has r fresh = elim (keep_latest-cases r fresh) [
  | inl (replaced, older) ↦ rw replaced (upsert-HasAsNew r fresh)
  | inr (kept, has) ↦ rw kept has
]

pub keep_latest-keeps :
    (o : Option Found) (fresh : Table) (r : Found)
    → HasAsNew fresh r
    → HasAsNew (keep_latest o fresh) r
keep_latest-keeps none fresh r has = rw (keep_latest-none fresh) has
keep_latest-keeps (some x) fresh r (s, there, le) = elim (keep_latest-cases x fresh) [
  | inr (kept, has) ↦ rw kept (s, there, le)
  | inl (replaced, older) ↦ elim (Bool-cases (str_eq x.node_id r.node_id)) [
    | inr other ↦ rw replaced (s, rw (find-upsert x.node_id r.node_id x fresh, other) there, le)
    | inl same ↦ rw replaced (
      x,
      rw (find-upsert x.node_id r.node_id x fresh, same) refl,
      (let newer = older s (rw (sym ((eq_iff x.node_id r.node_id).0 same)) at there) in
          omega arith),
    )
  ]
]

module _ (Q : Found → Type 0) where
  abbrev pub Keyed : Table → Type 0
  Keyed = All (λ ((k, r) : String × Found). (k ≡ r.node_id) × Q r)

  upsert-Keyed : (r : Found) (fresh : Table) → Q r → Keyed fresh → Keyed (upsert r.node_id r fresh)
  unfolding upsert
  upsert-Keyed r [] q ks = ((refl, q), tt)
  upsert-Keyed r ((j, w) ∷ m) q ks = elim (Bool-cases (str_eq j r.node_id)) [
    | inl same ↦ rw same (((eq_iff j r.node_id).0 same, q), ks.1)
    | inr other ↦ rw other (ks.0, upsert-Keyed r m q ks.1)
  ]

  pub keep_latest-Keyed :
      (o : Option Found) (fresh : Table)
      → ((r : Found) → o ≡ some r → Q r)
      → Keyed fresh × DistinctKeys fresh
      → Keyed (keep_latest o fresh) × DistinctKeys (keep_latest o fresh)
  keep_latest-Keyed none fresh q (ks, d) = rw (keep_latest-none fresh) (ks, d)
  keep_latest-Keyed (some x) fresh q (ks, d) = elim (keep_latest-cases x fresh) [
    | inr (kept, has) ↦ rw kept (ks, d)
    | inl (replaced, older) ↦
        rw replaced (upsert-Keyed x fresh (q x refl) ks, upsert-DistinctKeys x.node_id x fresh d)
  ]
