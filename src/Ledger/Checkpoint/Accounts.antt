-- ===== src/Ledger/Checkpoint/Accounts.antt =====
-- snapshot of gossip_ledger.py: a node's account, and what the replica reports of the node.
use mathlib.Core.List.{Permᴰ}
use mathlib.Core.List.Permᴰ
use kemi.Prelude.{
  ℕ, max, String, ◌≡◌, refl, ◌∙◌, ap, Bool, ◌&&◌, leb, List, [], ◌∷◌, arith, str_eq, if◌then◌else◌,
  keep, Bool-cases, inl, inr,
}
use kemi.Prelude.Int.{int_laws, parts_of_eq}
use kemi.Prelude.Sums.{sum_by, sum_by_ext}
use kemi.Prelude.Perms.{sum_by-perm}
use kemi.Ledger.{Tx, Base, Ledger, txs, base_row, max_seq}
use kemi.Ledger.Queries.{is_counted, incoming, outgoing, balance, total_earned}
use kemi.Ledger.Checkpoint.{slot, fold_txs, counted_txs, sort_txs, insert_tx}
use kemi.Ledger.Checkpoint.Slots.{
  slot-fold_txs, slot-base, effects, effects-balance, effects-earned, effects-seq,
}

-- ------------------------------------------------------------ the counted transfers, in any order

insert_tx-perm : (t : Tx) (ts : List Tx) → Permᴰ (insert_tx t ts) (t ∷ ts)
unfolding insert_tx
insert_tx-perm t [] = Permᴰ.refl (t ∷ [])
insert_tx-perm t (s ∷ ss) = elim (Bool-cases (leb t.tx_id s.tx_id)) [
  | inl x ↦ rw x (Permᴰ.refl (t ∷ s ∷ ss))
  | inr x ↦ rw x (Permᴰ.trans (Permᴰ.cons refl (insert_tx-perm t ss)) (Permᴰ.swap refl refl))
]

pub sort_txs-perm : (ts : List Tx) → Permᴰ (sort_txs ts) ts
unfolding sort_txs
sort_txs-perm [] = Permᴰ.nil
sort_txs-perm (t ∷ ts) =
    Permᴰ.trans (insert_tx-perm t (sort_txs ts)) (Permᴰ.cons refl (sort_txs-perm ts))

sum_by-keep :
    (p : Tx → Bool) (f : Tx → ℕ) (ts : List Tx)
    → sum_by f (keep p ts) ≡ sum_by (λ t. if p t then f t else 0) ts
sum_by-keep p f [] = refl
sum_by-keep p f (t ∷ ts) = ground (arith, sum_by-keep p f ts)

both_tests :
    (c d : Bool) (a : ℕ) → (if c then (if d then a else 0) else 0) ≡ (if c && d then a else 0)
both_tests c d a = ground arith

counted_sum :
    (ts : List Tx) (side : Tx → String) (n : String)
    → sum_by (λ t. if str_eq (side t) n then t.amount else 0) (counted_txs ts)
      ≡ sum_by (λ t. if is_counted ts t && str_eq (side t) n then t.amount else 0) ts
unfolding counted_txs
counted_sum ts side n =
    sum_by-keep (is_counted ts) _ (sort_txs ts)
    ∙ sum_by-perm _ (sort_txs-perm ts)
    ∙ sum_by_ext _ _ ts (λ t. both_tests (is_counted ts t) (str_eq (side t) n) t.amount)

-- the account of a node in the dictionary that snapshot fills
unfoldable pub account : Ledger → String → Base
account l n = slot l (fold_txs l l.base (counted_txs (txs l))) n

account-eq-effects :
    (l : Ledger) (n : String) → account l n ≡ effects n (counted_txs (txs l)) (base_row l.base n)
unfolding account
account-eq-effects l n =
    slot-fold_txs l l.base (counted_txs (txs l)) n
    ∙ ap (effects n (counted_txs (txs l))) (slot-base l n)

pub account-balance : (l : Ledger) (n : String) → (account l n).balance ≡ balance l n
unfolding balance incoming outgoing
account-balance l n =
    let ts = txs l in
    omega (
      int_laws,
      parts_of_eq (ap (λ (b : Base). b.balance) (account-eq-effects l n)),
      parts_of_eq (effects-balance n (counted_txs ts) (base_row l.base n)),
      counted_sum ts (λ t. t.sender) n,
      counted_sum ts (λ t. t.recipient) n,
    )

pub account-earned : (l : Ledger) (n : String) → (account l n).earned ≡ total_earned l n
unfolding total_earned incoming
account-earned l n =
    let ts = txs l in
    omega (
      int_laws,
      parts_of_eq (ap (λ (b : Base). b.earned) (account-eq-effects l n)),
      parts_of_eq (effects-earned n (counted_txs ts) (base_row l.base n)),
      counted_sum ts (λ t. t.recipient) n,
    )

pub account-seq :
    (l : Ledger) (n : String)
    → (account l n).base_seq ≡ max (base_row l.base n).base_seq (max_seq n (counted_txs (txs l)))
account-seq l n =
    ap (λ (b : Base). b.base_seq) (account-eq-effects l n)
    ∙ effects-seq n (counted_txs (txs l)) (base_row l.base n)
