-- ===== src/Ledger/Pulling.antt =====
-- Rounds of txs_after of gossip_ledger.py, each from where the last one ended.
use kemi.Prelude.{
  ℕ, zero, suc, ◌*◌, ◌≤◌, ◌≡◌, refl, sym, ◌∙◌, ap, true, false, List, [], ◌∷◌, ◌++◌, map, arith,
  ltb, leb, leb→le, length-append, length-take, keep, take, length, Bool-cases, inl, inr,
}
use mathlib.Core.List.{map-append}
use kemi.Json.{Value}
use kemi.Ledger.{Row, Ledger}
use kemi.Ledger.Tables.{Ascending, IsValid}
use kemi.Ledger.Replication.{rows_after, last_id, txs_after}

abbrev pub after : ℕ → List Row → List Row
after cursor = keep (λ (r : Row). ltb cursor r.rowid)

-- all of a run of rows lies beyond a cursor below it
after_all :
    (cursor low high : ℕ) (rs : List Row)
    → cursor ≤ low
    → Ascending low rs high
    → after cursor rs ≡ rs
after_all cursor low high [] h a = refl
after_all cursor low high (r ∷ rs) h a =
    let rest = after_all cursor r.rowid high rs (omega arith) a.1 in
    let test : ltb cursor r.rowid ≡ true = ground arith in rw (test, rest) refl

last_id-le :
    (low high n : ℕ) (rs : List Row) → Ascending low rs high → low ≤ last_id low (take n rs)
unfolding last_id
last_id-le low high zero rs a = omega arith
last_id-le low high (suc n) [] a = omega arith
last_id-le low high (suc n) (r ∷ rs) a = omega (arith, last_id-le r.rowid high n rs a.1)

-- a page of ascending rows, and what lies beyond its last rowid
page_splits :
    (limit cursor high : ℕ) (rs : List Row)
    → Ascending cursor rs high
    → take limit rs ++ after (last_id cursor (take limit rs)) rs ≡ rs
unfolding last_id
page_splits zero cursor high rs a = after_all cursor cursor high rs (omega arith) a
page_splits (suc n) cursor high [] a = refl
page_splits (suc n) cursor high (r ∷ rs) a =
    let beyond = last_id-le r.rowid high n rs a.1 in
    let test : ltb (last_id r.rowid (take n rs)) r.rowid ≡ false = ground arith in
    rw test (ap (◌∷◌ r) (page_splits n r.rowid high rs a.1))

-- rows beyond a cursor still ascend, and a later cursor may be asked for directly
after-Ascending :
    (cursor low high : ℕ) (rs : List Row)
    → Ascending low rs high
    → cursor ≤ high
    → Ascending cursor (after cursor rs) high
after-Ascending cursor low high [] a h = h
after-Ascending cursor low high (r ∷ rs) a h = elim (Bool-cases (ltb cursor r.rowid)) [
  | inl x ↦ rw (x, after_all cursor r.rowid high rs (ground arith) a.1) (ground arith, a.1)
  | inr x ↦ rw x (after-Ascending cursor r.rowid high rs a.1 h)
]

after-after : (c d : ℕ) (rs : List Row) → c ≤ d → after d (after c rs) ≡ after d rs
after-after c d [] h = refl
after-after c d (r ∷ rs) h = ground (arith, after-after c d rs h)

after_beyond :
    (cursor low high : ℕ) (rs : List Row)
    → Ascending low rs high
    → high ≤ cursor
    → after cursor rs ≡ []
after_beyond cursor low high [] a h = refl
after_beyond cursor low high (r ∷ rs) a h =
    let top = Ascending-le r.rowid high rs a.1 in
    let test : ltb cursor r.rowid ≡ false = ground arith in
    rw (test, after_beyond cursor r.rowid high rs a.1 h) refl
  where
    Ascending-le : (low high : ℕ) (rs : List Row) → Ascending low rs high → low ≤ high
    Ascending-le low high [] a = a
    Ascending-le low high (r ∷ rs) a = let t = Ascending-le r.rowid high rs a.1 in omega arith

take-nil {ℓ} : {A : Type ℓ} (n : ℕ) → take {A = A} n [] ≡ []
take-nil zero = refl
take-nil (suc n) = refl

-- a page, taken from what lies beyond the cursor
page_of :
    (limit cursor high : ℕ) (rs : List Row)
    → Ascending 0 rs high
    → let page = take limit (after cursor rs) in
      page ++ after (last_id cursor page) rs ≡ after cursor rs
page_of limit cursor high rs a = elim (Bool-cases (leb high cursor)) [
  | inl past ↦
      let gone = after_beyond cursor 0 high rs a (leb→le high cursor past) in
      rw (gone, take-nil limit) (unfold last_id in gone)
  | inr inside ↦
      let below : cursor ≤ high = ground arith in
      let b = after-Ascending cursor 0 high rs a below in
      ap (λ ys. take limit (after cursor rs) ++ ys)
        (sym (
          after-after cursor (last_id cursor (take limit (after cursor rs))) rs
            (last_id-le cursor high limit (after cursor rs) b)))
      ∙ page_splits limit cursor high (after cursor rs) b
]

module _ (l : Ledger) (v : IsValid l) (limit : ℕ) where
  abbrev pub next_cursor : ℕ → ℕ
  next_cursor cursor = last_id cursor (rows_after l cursor limit)

  pub pull_splits :
      (cursor : ℕ)
      → rows_after l cursor limit ++ after (next_cursor cursor) l.rows ≡ after cursor l.rows
  unfolding rows_after
  pull_splits cursor = page_of limit cursor l.last_rowid l.rows v.ascending

-- rounds of txs_after, each from the cursor that the last one returned
pub pulls : ℕ → Ledger → ℕ → ℕ → List Value
pulls zero l cursor limit = []
pulls (suc k) l cursor limit =
    let (envelopes, next) = txs_after l cursor limit in envelopes ++ pulls k l next limit

pub nil_of_length : (rs : List Row) → length rs ≤ 0 → rs ≡ []
nil_of_length [] h = refl
nil_of_length (r ∷ rs) h = absurd (omega arith)

pub shorter :
    (l : Ledger) (v : IsValid l) (limit k cursor : ℕ)
    → length (after cursor l.rows) ≤ suc k * limit
    → length (after (next_cursor l v limit cursor) l.rows) ≤ k * limit
unfolding rows_after
shorter l v limit k cursor h =
    let split = ap length (pull_splits l v limit cursor) in
    let sum =
      length-append (rows_after l cursor limit) (after (next_cursor l v limit cursor) l.rows) in
    let page = length-take limit (after cursor l.rows) in omega arith

-- From a well-formed table, rounds of txs_after that are long enough for the rows beyond the first
-- cursor return the envelopes of exactly these rows, in order, each once.
pub pulls_all :
    (k limit cursor : ℕ) (l : Ledger)
    → IsValid l
    → length (after cursor l.rows) ≤ k * limit
    → pulls k l cursor limit ≡ map (λ (r : Row). r.envelope) (after cursor l.rows)
unfolding pulls txs_after
pulls_all zero limit cursor l v h =
    ap (map (λ (r : Row). r.envelope)) (sym (nil_of_length (after cursor l.rows) (omega arith)))
pulls_all (suc k) limit cursor l v h =
    ap (λ ys. map (λ (r : Row). r.envelope) (rows_after l cursor limit) ++ ys)
      (pulls_all k limit (next_cursor l v limit cursor) l v (shorter l v limit k cursor h))
    ∙ sym (map-append (λ (r : Row). r.envelope) (rows_after l cursor limit) _)
    ∙ ap (map (λ (r : Row). r.envelope)) (pull_splits l v limit cursor)
