-- ===== src/Ledger/Tables.antt =====
-- The well-formedness of the tables of gossip_ledger.py, through sequences of calls.
use kemi.Prelude.{
  ℕ, ◌≤◌, ◌<◌, ◌≡◌, refl, Bool, true, false, List, [], ◌∷◌, ◌++◌, arith, if◌then◌else◌, any,
  any-append, Bool-cases, inl, inr, ◌==◌, ◌⊎◌, All,
}
use kemi.Prelude.Int.{ℤ}
use kemi.Json.{Value}
use kemi.Crypto.{Primitives}
use mathlib.Core.List.{Mem, mem-cons_self, mem-cons_of_mem}
use kemi.Crypto.Octets.{All-append}
use kemi.Result.{Result, Result-cases, ok, raise, value_error}
use kemi.Ledger.{
  Tx, Row, Ledger, Verdict, refuse, admit, txs, reserve_seq, store, enter, insert, judge, add_tx,
  empty,
}
use kemi.Ledger.Gossip.{txs-insert}
use kemi.Ledger.Checkpoint.{Snapshot, adopt_snapshot, install, prune}
use kemi.Ledger.History.{Call, add, reserve, adopt, checkpoint, step, run, state_of, state_of_add}

-- tx_id is UNIQUE
abbrev pub DistinctIds : List Tx → Type 0
DistinctIds [] = Unit {0}
DistinctIds (t ∷ ts) = (any (λ (s : Tx). s.tx_id == t.tx_id) ts ≡ false) × DistinctIds ts

-- the rows stand in the order of their rowids, between two bounds
abbrev pub Ascending : ℕ → List Row → ℕ → Type 0
Ascending low [] high = low ≤ high
Ascending low (r ∷ rs) high = (low < r.rowid) × Ascending r.rowid rs high

pub record IsValid (l : Ledger) : Type 0 where
  pub distinct : DistinctIds (txs l)
  pub ascending : Ascending 0 l.rows l.last_rowid

DistinctIds-append :
    (ts : List Tx) (t : Tx)
    → DistinctIds ts
    → any (λ (s : Tx). s.tx_id == t.tx_id) ts ≡ false
    → DistinctIds (ts ++ t ∷ [])
DistinctIds-append [] t d h = (refl, tt)
DistinctIds-append (s ∷ ss) t d h =
    let split = any-append (λ (r : Tx). r.tx_id == s.tx_id) ss (t ∷ []) in
    (ground arith, DistinctIds-append ss t d.1 (ground arith))

Ascending-append :
    (low : ℕ) (rs : List Row) (r : Row) (high : ℕ)
    → Ascending low rs high
    → high < r.rowid
    → Ascending low (rs ++ r ∷ []) r.rowid
Ascending-append low [] r high a h = omega arith
Ascending-append low (s ∷ ss) r high a h = (a.0, Ascending-append s.rowid ss r high a.1 h)

store-IsValid : (l : Ledger) (t : Tx) (e : Value) → IsValid l → IsValid (store l t e).1
unfolding store insert
store-IsValid l t e v = elim (Bool-cases (any (λ (s : Tx). s.tx_id == t.tx_id) (txs l))) [
  | inl old ↦ rw (old, store) v
  | inr fresh ↦
      rw (fresh, store)
        (record {
          distinct = rw (txs-insert l t e) (DistinctIds-append (txs l) t v.distinct fresh);
          ascending = Ascending-append 0 l.rows _ l.last_rowid v.ascending (omega arith);
        })
]

pub empty-IsValid : (difficulty : ℕ) → IsValid (empty difficulty)
unfolding empty
empty-IsValid difficulty = record { distinct = tt; ascending = omega arith }

adopt_cases :
    (P : Ledger → Type 0) (l m : Ledger) (c d : Bool)
    → P l
    → P m
    → P (state_of l (if c then raise value_error else if d then raise value_error else ok m))
adopt_cases P l m true d h k = h
adopt_cases P l m false true h k = h
adopt_cases P l m false false h k = k

-- what later calls leave of the rows and the counter of a ledger: no rowid is used again
pub record IsAfter (start l : Ledger) : Type 0 where
  pub counter : start.last_rowid ≤ l.last_rowid
  pub fresh : All (λ (r : Row). Mem r start.rows ⊎ (start.last_rowid < r.rowid)) l.rows

old_rows :
    (l : Ledger) (rows : List Row)
    → ((r : Row) → Mem r rows → Mem r l.rows)
    → All (λ (r : Row). Mem r l.rows ⊎ (l.last_rowid < r.rowid)) rows
old_rows l [] sub = tt
old_rows l (r ∷ rs) sub =
    (inl (sub r mem-cons_self), old_rows l rs (λ s m. sub s (mem-cons_of_mem r m)))

store-IsAfter :
    (start l : Ledger) (t : Tx) (e : Value) → IsAfter start l → IsAfter start (store l t e).1
unfolding store insert
store-IsAfter start l t e h = elim (Bool-cases (any (λ (s : Tx). s.tx_id == t.tx_id) (txs l))) [
  | inl old ↦ rw (old, store) h
  | inr new_id ↦
      rw (new_id, store)
        (record {
          counter = omega (arith, h.counter);
          fresh = All-append _ l.rows _ h.fresh (inr (omega (arith, h.counter)), tt);
        })
]

module _ (p : Primitives) where
  enter-IsValid : (l : Ledger) (e : Value) (v : Verdict) → IsValid l → IsValid (enter l e v).1
  unfolding enter
  enter-IsValid l e (refuse s) h = h
  enter-IsValid l e (admit t) h = store-IsValid l t e h

  add-IsValid :
      (now : ℤ) (l : Ledger) (e : Value) → IsValid l → IsValid (state_of_add l (add_tx p now l e))
  unfolding add_tx
  add-IsValid now l e h = go (judge p now l.base l.difficulty e) refl
    where
      go :
          (r : Result Verdict)
          → judge p now l.base l.difficulty e ≡ r
          → IsValid (state_of_add l (add_tx p now l e))
      go (ok v) q = rw (q, add_tx) (enter-IsValid l e v h)
      go (raise x) q = rw (q, add_tx) h

  adopt-IsValid :
      (l : Ledger) (snap : Snapshot) → IsValid l → IsValid (state_of l (adopt_snapshot l snap))
  unfolding adopt_snapshot
  adopt-IsValid l snap h =
      adopt_cases IsValid l _ _ _ h (record { distinct = h.distinct; ascending = h.ascending })

  run_valid : (l : Ledger) (cs : List Call) → IsValid l → IsValid (run p l cs)
  unfolding run step reserve_seq prune install
  run_valid l [] h = h
  run_valid l (add now e ∷ cs) h = run_valid (step p l (add now e)) cs (add-IsValid now l e h)
  run_valid l (reserve n ∷ cs) h =
      run_valid (step p l (reserve n)) cs
        (record { distinct = h.distinct; ascending = h.ascending })
  run_valid l (adopt snap ∷ cs) h = run_valid (step p l (adopt snap)) cs (adopt-IsValid l snap h)
  run_valid l (checkpoint ∷ cs) h =
      run_valid (step p l checkpoint) cs (record { distinct = tt; ascending = omega arith })

  enter-IsAfter :
      (start l : Ledger) (e : Value) (v : Verdict) → IsAfter start l → IsAfter start (enter l e v).1
  unfolding enter
  enter-IsAfter start l e (refuse s) h = h
  enter-IsAfter start l e (admit t) h = store-IsAfter start l t e h

  add-IsAfter :
      (now : ℤ) (start l : Ledger) (e : Value)
      → IsAfter start l
      → IsAfter start (state_of_add l (add_tx p now l e))
  unfolding add_tx
  add-IsAfter now start l e h = elim (Result-cases (judge p now l.base l.difficulty e)) [
    | inl (x, q) ↦ rw (q, add_tx) h
    | inr (v, q) ↦ rw (q, add_tx) (enter-IsAfter start l e v h)
  ]

  adopt-IsAfter :
      (start l : Ledger) (snap : Snapshot)
      → IsAfter start l
      → IsAfter start (state_of l (adopt_snapshot l snap))
  unfolding adopt_snapshot
  adopt-IsAfter start l snap h =
      adopt_cases (IsAfter start) l _ _ _ h (record { counter = h.counter; fresh = h.fresh })

  run-IsAfter : (start l : Ledger) (cs : List Call) → IsAfter start l → IsAfter start (run p l cs)
  unfolding run step reserve_seq prune install
  run-IsAfter start l [] h = h
  run-IsAfter start l (add now e ∷ cs) h =
      run-IsAfter start (step p l (add now e)) cs (add-IsAfter now start l e h)
  run-IsAfter start l (reserve n ∷ cs) h =
      run-IsAfter start (step p l (reserve n)) cs (record { counter = h.counter; fresh = h.fresh })
  run-IsAfter start l (adopt snap ∷ cs) h =
      run-IsAfter start (step p l (adopt snap)) cs (adopt-IsAfter start l snap h)
  run-IsAfter start l (checkpoint ∷ cs) h =
      run-IsAfter start (step p l checkpoint) cs (record { counter = h.counter; fresh = tt })

  -- Every call keeps the tables well formed: transfer ids are distinct, and rowids ascend up to the
  -- counter. No call lowers the counter, so that after any calls, prunes among them, a row is one of
  -- those at the start or has a rowid above the counter of then.
  pub run-IsValid :
      (l : Ledger) (cs : List Call) → IsValid l → IsValid (run p l cs) × IsAfter l (run p l cs)
  run-IsValid l cs h = (
    run_valid l cs h,
    run-IsAfter l l cs (record { counter = omega arith; fresh = old_rows l l.rows (λ r m. m) }),
  )
