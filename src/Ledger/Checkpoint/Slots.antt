-- ===== src/Ledger/Checkpoint/Slots.antt =====
-- snapshot of gossip_ledger.py: what its accounts hold for one node.
use kemi.Prelude.{
  ℕ, max, String, ◌≡◌, refl, ◌∙◌, ap, true, none, some, List, [], ◌∷◌, arith, str_eq, eq_iff,
  if◌then◌else◌, Bool-cases, inl, inr,
}
use kemi.Prelude.Int.{pos, ◌+ℤ◌, int_laws, parts_of_eq}
use kemi.Prelude.Sums.{sum_by}
use text.Mathlib.TextPositions.{compare_refl}
use kemi.Ledger.{Tx, Base, Ledger, find, upsert, base_row, max_seq}
use kemi.Ledger.Checkpoint.{
  Accounts, slot, debit, credit, fold_tx, fold_txs, insert_key, sort_keys, text_le,
}

find-upsert {ℓ} :
    {V : Type ℓ} (k n : String) (v : V) (m : List (String × V))
    → find n (upsert k v m) ≡ (if str_eq k n then some v else find n m)
unfolding find upsert
find-upsert k n v [] = refl
find-upsert k n v ((j, w) ∷ m) =
    ground (arith, eq_iff j k, eq_iff j n, eq_iff k n, find-upsert k n v m)

text_le_self : (s : String) → text_le s s ≡ true
text_le_self s = rw (compare_refl s, text_le) refl

find-insert_key {ℓ} :
    {V : Type ℓ} (k n : String) (v : V) (m : List (String × V))
    → find n (insert_key k v m) ≡ (if str_eq k n then some v else find n m)
unfolding find insert_key
find-insert_key k n v [] = refl
find-insert_key k n v ((j, w) ∷ m) =
    ground (arith, eq_iff j n, eq_iff k n, text_le_self n, find-insert_key k n v m)

pub find-sort_keys {ℓ} :
    {V : Type ℓ} (n : String) (m : List (String × V)) → find n (sort_keys m) ≡ find n m
unfolding sort_keys find
find-sort_keys n [] = refl
find-sort_keys n ((k, v) ∷ m) =
    find-insert_key k n v (sort_keys m)
    ∙ ap (λ o. if str_eq k n then some v else o) (find-sort_keys n m)

-- the change that one transfer makes to the account of a node
abbrev pub effect : String → Tx → Base → Base
effect n t b =
    let paid = if str_eq t.sender n then debit t.amount t.seq b else b in
    if str_eq t.recipient n then credit t.amount paid else paid

abbrev pub effects : String → List Tx → Base → Base
effects n [] b = b
effects n (t ∷ ts) b = effects n ts (effect n t b)

module _ (l : Ledger) where
  slot-upsert :
      (k n : String) (v : Base) (m : Accounts)
      → slot l (upsert k v m) n ≡ (if str_eq k n then v else slot l m n)
  unfolding slot
  slot-upsert k n v m = rw (find-upsert k n v m) (ground arith)

  slot-upsert_with :
      (k n : String) (f : Base → Base) (m : Accounts)
      → slot l (upsert k (f (slot l m k)) m) n ≡ (if str_eq k n then f (slot l m n) else slot l m n)
  slot-upsert_with k n f m = slot-upsert k n (f (slot l m k)) m ∙ (elim (Bool-cases (str_eq k n)) [
    | inl same ↦ rw (same, (eq_iff k n).0 same) refl
    | inr other ↦ rw other refl
  ])

  slot-fold_tx :
      (m : Accounts) (t : Tx) (n : String) → slot l (fold_tx l m t) n ≡ effect n t (slot l m n)
  unfolding fold_tx
  slot-fold_tx m t n =
      slot-upsert_with t.recipient n (credit t.amount) _
      ∙ ap (λ b. if str_eq t.recipient n then credit t.amount b else b)
          (slot-upsert_with t.sender n (debit t.amount t.seq) m)

  pub slot-fold_txs :
      (m : Accounts) (ts : List Tx) (n : String)
      → slot l (fold_txs l m ts) n ≡ effects n ts (slot l m n)
  unfolding fold_txs
  slot-fold_txs m [] n = refl
  slot-fold_txs m (t ∷ ts) n =
      slot-fold_txs (fold_tx l m t) ts n ∙ ap (effects n ts) (slot-fold_tx m t n)

  pub slot-base : (n : String) → slot l l.base n ≡ base_row l.base n
  unfolding slot base_row
  slot-base n = ground arith

-- no account leaves the dictionary
find-none_of_upsert {ℓ} :
    {V : Type ℓ} (k n : String) (v : V) (m : List (String × V))
    → find n (upsert k v m) ≡ none
    → find n m ≡ none
find-none_of_upsert k n v m h = let e = find-upsert k n v m in ground arith

pub find-none_of_fold_txs :
    (l : Ledger) (n : String) (m : Accounts) (ts : List Tx)
    → find n (fold_txs l m ts) ≡ none
    → find n m ≡ none
unfolding fold_txs fold_tx
find-none_of_fold_txs l n m [] h = h
find-none_of_fold_txs l n m (t ∷ ts) h =
    find-none_of_upsert t.sender n _ m
      (find-none_of_upsert t.recipient n _ _ (find-none_of_fold_txs l n (fold_tx l m t) ts h))

-- ------------------------------------------------------------ the fields of the folded account

module _ (n : String) where
  abbrev pub sent_to : Tx → ℕ
  sent_to t = if str_eq t.recipient n then t.amount else 0

  abbrev pub sent_by : Tx → ℕ
  sent_by t = if str_eq t.sender n then t.amount else 0

  effect-balance :
      (t : Tx) (b : Base) → (effect n t b).balance +ℤ pos (sent_by t) ≡ b.balance +ℤ pos (sent_to t)
  effect-balance t b = elim (Bool-cases (str_eq t.sender n)) [
    | inl x ↦ elim (Bool-cases (str_eq t.recipient n)) [
      | inl y ↦ rw (x, y) (omega int_laws)
      | inr y ↦ rw (x, y) (omega int_laws)
    ]
    | inr x ↦ elim (Bool-cases (str_eq t.recipient n)) [
      | inl y ↦ rw (x, y) (omega int_laws)
      | inr y ↦ rw (x, y) (omega int_laws)
    ]
  ]

  effect-earned : (t : Tx) (b : Base) → (effect n t b).earned ≡ b.earned +ℤ pos (sent_to t)
  effect-earned t b = elim (Bool-cases (str_eq t.sender n)) [
    | inl x ↦ elim (Bool-cases (str_eq t.recipient n)) [
      | inl y ↦ rw (x, y) refl
      | inr y ↦ rw (x, y) (omega int_laws)
    ]
    | inr x ↦ elim (Bool-cases (str_eq t.recipient n)) [
      | inl y ↦ rw (x, y) refl
      | inr y ↦ rw (x, y) (omega int_laws)
    ]
  ]

  pub effects-balance :
      (ts : List Tx) (b : Base)
      → (effects n ts b).balance +ℤ pos (sum_by sent_by ts) ≡ b.balance +ℤ pos (sum_by sent_to ts)
  effects-balance [] b = refl
  effects-balance (t ∷ ts) b =
      omega (
        int_laws,
        parts_of_eq (effect-balance t b),
        parts_of_eq (effects-balance ts (effect n t b)),
      )

  pub effects-earned :
      (ts : List Tx) (b : Base) → (effects n ts b).earned ≡ b.earned +ℤ pos (sum_by sent_to ts)
  effects-earned [] b = omega int_laws
  effects-earned (t ∷ ts) b =
      omega
        (int_laws, parts_of_eq (effect-earned t b), parts_of_eq (effects-earned ts (effect n t b)))

  pub effects-seq :
      (ts : List Tx) (b : Base) → (effects n ts b).base_seq ≡ max b.base_seq (max_seq n ts)
  unfolding max_seq
  effects-seq [] b = omega arith
  effects-seq (t ∷ ts) b = ground (arith, effects-seq ts (effect n t b))
