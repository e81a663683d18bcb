-- ===== src/Ledger/Counting/OnePerSlot.antt =====
-- The view _COUNTED of gossip_ledger.py holds one transfer of each (sender, seq).
use mathlib.Core.List.{Mem, mem-cons, mem-cons_self, mem-cons_of_mem, not-mem-nil}
use mathlib.Core.Logic.Or
use kemi.Prelude.{
  ◌≤◌, ◌≡◌, refl, sym, ◌∙◌, ap, Bool, true, false, ◌&&◌, List, [], ◌∷◌, arith, any, keep, ◌==◌,
  ==_iff, Bool-cases, inl, inr, ℕ,
}
use kemi.Ledger.{Tx, same_slot}
use kemi.Ledger.Queries.{is_counted}
use kemi.Ledger.Tables.{DistinctIds}
use kemi.Ledger.Counting.{
  same_slot_lem, same_slot_of_eq, counted-le, slot_has_counted, counted_unique,
}

any_of_mem : (f : Tx → Bool) {x : Tx} (xs : List Tx) → Mem x xs → f x ≡ true → any f xs ≡ true
any_of_mem f [] m h = absurd (not-mem-nil m)
any_of_mem f {x} (y ∷ ys) m h =
    Or.elim bool_path (mem-cons.0 m)
      (λ (e : x ≡ y). let here : f y ≡ true = ap f (sym e) ∙ h in ground arith)
      (λ k. let rest = any_of_mem f ys k h in ground arith)
  where
    bool_path : IsProp (any f (y ∷ ys) ≡ true)
    bool_path = hlevel

-- no transfer passes a test that only the id k passes, where k is missing
keep_none :
    (f : Tx → Bool) (k : ℕ) (xs : List Tx)
    → any (λ (r : Tx). r.tx_id == k) xs ≡ false
    → ((r : Tx) → Mem r xs → f r ≡ true → r.tx_id ≡ k)
    → keep f xs ≡ []
keep_none f k [] missing only = refl
keep_none f k (x ∷ xs) missing only = elim (Bool-cases (f x)) [
  | inl x_passes ↦
      let here = (==_iff x.tx_id k).1 (only x mem-cons_self x_passes) in
      absurd (let off : true ≡ false = sym here ∙ ground arith in cc)
  | inr other ↦ rw other (keep_none f k xs (ground arith) (λ r m. only r (mem-cons_of_mem x m)))
]

-- a test that only the id k passes, and that some transfer passes, singles one out
keep_one :
    (f : Tx → Bool) (k : ℕ) (xs : List Tx)
    → DistinctIds xs
    → ((r : Tx) → Mem r xs → f r ≡ true → r.tx_id ≡ k)
    → any f xs ≡ true
    → (s : Tx) × (keep f xs ≡ s ∷ []) × Mem s xs × (f s ≡ true)
keep_one f k [] d only h = cc
keep_one f k (x ∷ xs) d only h = elim (Bool-cases (f x)) [
  | inl here ↦
      let same = only x mem-cons_self here in
      (
        x,
        rw here (
            ap (λ ys. x ∷ ys)
              (keep_none f x.tx_id xs d.0 (λ r m q. only r (mem-cons_of_mem x m) q ∙ sym same))),
        mem-cons_self,
        here,
      )
  | inr other ↦
      let (s, one, m, q) =
        keep_one f k xs d.1 (λ r m. only r (mem-cons_of_mem x m)) (ground arith) in
      (s, rw other one, mem-cons_of_mem x m, q)
]

same_slot_trans : (a b c : Tx) → same_slot a c ≡ true → same_slot b c ≡ true → same_slot a b ≡ true
same_slot_trans a b c h k =
    let (p, q) = same_slot_lem a c h in
    let (u, v) = same_slot_lem b c k in same_slot_of_eq a b (p ∙ sym u) (q ∙ sym v)

-- In a table of distinct ids, exactly one transfer counts among those of the (sender, seq) of a
-- transfer of the table, and its id is no greater than that of any other of them.
pub slot-counts_one :
    (ts : List Tx) (t r : Tx)
    → DistinctIds ts
    → Mem t ts
    → Mem r ts
    → same_slot r t ≡ true
    → (s : Tx) × (keep (λ x. same_slot x t && is_counted ts x) ts ≡ s ∷ [])
      × (same_slot s t ≡ true)
      × (s.tx_id ≤ r.tx_id)
slot-counts_one ts t r d mt mr near =
    let (w, mw, slot, counts) = slot_has_counted ts t mt in
    let f = λ (x : Tx). same_slot x t && is_counted ts x in
    let only : (x : Tx) → Mem x ts → f x ≡ true → x.tx_id ≡ w.tx_id = λ x m q.
      counted_unique ts x w m mw (same_slot_trans x w t (ground arith) slot) (ground arith)
        counts in
    let (s, one, ms, q) = keep_one f w.tx_id ts d only (any_of_mem f ts mw (ground arith)) in
    let mine : same_slot s t ≡ true = ground arith in
    (s, one, mine, counted-le ts s r (ground arith) mr (same_slot_trans r s t near mine))
