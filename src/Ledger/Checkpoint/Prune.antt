-- ===== src/Ledger/Checkpoint/Prune.antt =====
-- prune of gossip_ledger.py and what a replica reports of an account.
use mathlib.Core.List.Permᴰ
use kemi.Prelude.{
  max, none, String, ◌≡◌, refl, sym, ◌∙◌, ap, Bool, true, false, ◌&&◌, ◌||◌, List, [], ◌∷◌, ◌++◌,
  arith, ltb, str_eq, eq_iff, any, any-append, keep, map, Bool-cases, inl, inr, or_else, subst,
  Option-cases,
}
use kemi.Prelude.Int.{ℤ, pos, ◌+ℤ◌, ◌-ℤ◌, ltb_ℤ, int_laws}
use kemi.Ledger.{Tx, Base, Ledger, txs, find, base_row, base_seq_at, max_seq, next_seq}
use kemi.Ledger.Queries.{
  balance, total_earned, is_flagged, incoming, outgoing, double_spent, slot_count, member, distinct,
  double_spenders,
}
use kemi.Ledger.Counting.{max_seq-keep_counted}
use kemi.Ledger.Checkpoint.{
  snapshot, install, prune, insert_flags, sorted_set, insert_text, sort_txs, counted_txs, fold_txs,
  sort_keys, slot,
}
use kemi.Ledger.Checkpoint.Slots.{find-sort_keys, find-none_of_fold_txs}
use kemi.Ledger.Checkpoint.Accounts.{
  account, account-balance, account-earned, account-seq, sort_txs-perm,
}

member-insert_text :
    (n s : String) (ss : List String) → member n (insert_text s ss) ≡ (str_eq s n || member n ss)
unfolding insert_text
member-insert_text n s [] = refl
member-insert_text n s (t ∷ ts) = ground (arith, member-insert_text n s ts, eq_iff t s)

member-sorted_set : (n : String) (ss : List String) → member n (sorted_set ss) ≡ member n ss
unfolding sorted_set
member-sorted_set n [] = refl
member-sorted_set n (s ∷ ss) =
    member-insert_text n s (sorted_set ss) ∙ ap (λ b. str_eq s n || b) (member-sorted_set n ss)

member_hit :
    (s n : String) (have : List String)
    → member s have ≡ true
    → str_eq s n ≡ true
    → member n have ≡ true
member_hit s n have h e = subst (λ x. member x have ≡ true) ((eq_iff s n).0 e) h

member-insert_flags :
    (n : String) (have ss : List String)
    → member n (insert_flags have ss) ≡ (member n have || member n ss)
member-insert_flags n have [] = ground arith
member-insert_flags n have (s ∷ ss) = elim (Bool-cases (member s have)) [
  | inl x ↦ rw x (
      let rest = member-insert_flags n have ss in
      let hit = member_hit s n have x in
      elim (Bool-cases (str_eq s n)) [
        | inl e ↦ let k = hit e in ground arith
        | inr e ↦ ground arith
      ])
  | inr x ↦ rw x (
      let rest = member-insert_flags n (have ++ s ∷ []) ss in
      let split = any-append (λ t. str_eq t n) have (s ∷ []) in ground arith)
]

member-distinct : (n : String) (ss : List String) → member n (distinct ss) ≡ member n ss
unfolding distinct
member-distinct n [] = refl
member-distinct n (s ∷ ss) = elim (Bool-cases (member s (distinct ss))) [
  | inl x ↦ rw x (
      let rest = member-distinct n ss in
      let hit = member_hit s n (distinct ss) x in
      elim (Bool-cases (str_eq s n)) [
        | inl e ↦ let k = hit e in ground arith
        | inr e ↦ ground arith
      ])
  | inr x ↦ rw x (ap (λ b. str_eq s n || b) (member-distinct n ss))
]

member-senders :
    (n : String) (p : Tx → Bool) (ts : List Tx)
    → member n (map (λ (t : Tx). t.sender) (keep p ts)) ≡ any (λ t. str_eq t.sender n && p t) ts
member-senders n p [] = refl
member-senders n p (t ∷ ts) = ground (arith, member-senders n p ts)

member-double_spenders :
    (n : String) (l : Ledger) → member n (double_spenders l) ≡ double_spent (txs l) n
unfolding double_spenders double_spent
member-double_spenders n l =
    member-distinct n _ ∙ member-senders n (λ t. ltb 1 (slot_count (txs l) t)) (txs l)

-- ------------------------------------------------------------ the pruned ledger

default_row : (l : Ledger) (n : String) → find n l.base ≡ none → base_row l.base n ≡ base_row [] n
unfolding base_row find
default_row l n h = rw h refl

row_of_found :
    (base : List (String × Base)) (n : String)
    → base_row base n ≡ or_else (find n base) (base_row [] n)
unfolding base_row find
row_of_found base n = refl

module _ (l : Ledger) (n : String) where
  folded : List (String × Base)
  folded = fold_txs l l.base (counted_txs (txs l))

  account_found : or_else (find n folded) (base_row [] n) ≡ account l n
  unfolding account slot folded
  account_found = elim (Option-cases (find n folded)) [
    | inl gone ↦
        rw gone
          (sym (default_row l n (find-none_of_fold_txs l n l.base (counted_txs (txs l)) gone)))
    | inr (b, found) ↦ rw found refl
  ]

  base_row-snapshot : base_row (snapshot l).accounts n ≡ account l n
  unfolding snapshot folded
  base_row-snapshot =
      row_of_found (sort_keys folded) n
      ∙ ap (λ o. or_else o (base_row [] n)) (find-sort_keys n folded)
      ∙ account_found

-- what a replica reports of an account is unchanged
pub record Keeps (l m : Ledger) (n : String) : Type 0 where
  pub same_balance : balance m n ≡ balance l n
  pub same_earned : total_earned m n ≡ total_earned l n
  pub same_flag : is_flagged m n ≡ is_flagged l n
  pub same_seq : next_seq m n ≡ next_seq l n

member-flags :
    (l : Ledger) (n : String)
    → member n (insert_flags [] (snapshot l).flagged)
      ≡ (member n l.flagged_base || double_spent (txs l) n)
unfolding snapshot
member-flags l n =
    member-insert_flags n [] (sorted_set (l.flagged_base ++ double_spenders l))
    ∙ member-sorted_set n (l.flagged_base ++ double_spenders l)
    ∙ any-append (λ t. str_eq t n) l.flagged_base (double_spenders l)
    ∙ ap (λ b. member n l.flagged_base || b) (member-double_spenders n l)

-- the sequence number that a sender has reached
max_seq-counted : (l : Ledger) (n : String) → max_seq n (counted_txs (txs l)) ≡ max_seq n (txs l)
unfolding counted_txs
max_seq-counted l n =
    max_seq-keep_counted n (txs l) (sort_txs (txs l))
      (λ t. (Permᴰ.mem (Permᴰ.symm (sort_txs-perm (txs l))), Permᴰ.mem (sort_txs-perm (txs l))))

add_nothing : (a : ℤ) → a +ℤ pos 0 -ℤ pos 0 ≡ a
add_nothing a = omega int_laws

balance-prune : (l : Ledger) (n : String) → balance (prune l).1 n ≡ balance l n
unfolding prune install balance incoming outgoing
balance-prune l n =
    add_nothing (base_row (snapshot l).accounts n).balance
    ∙ ap (λ (b : Base). b.balance) (base_row-snapshot l n)
    ∙ account-balance l n

earned-prune : (l : Ledger) (n : String) → total_earned (prune l).1 n ≡ total_earned l n
unfolding prune install total_earned incoming
earned-prune l n =
    let z : (base_row (snapshot l).accounts n).earned +ℤ pos 0
        ≡ (base_row (snapshot l).accounts n).earned =
      omega int_laws in
    z ∙ ap (λ (b : Base). b.earned) (base_row-snapshot l n) ∙ account-earned l n

flags_of_prune :
    (l : Ledger) (n : String)
    → is_flagged (prune l).1 n ≡ (
        member n (insert_flags [] (snapshot l).flagged)
        || (double_spent [] n || ltb_ℤ (balance (prune l).1 n) (pos 0)))
unfolding is_flagged prune install
flags_of_prune l n = refl

double_spent-nil : (n : String) → double_spent [] n ≡ false
unfolding double_spent
double_spent-nil n = refl

regroup : (a b c : Bool) → ((a || b) || (false || c)) ≡ (a || (b || c))
regroup a b c = ground arith

flag-prune : (l : Ledger) (n : String) → is_flagged (prune l).1 n ≡ is_flagged l n
unfolding is_flagged
flag-prune l n =
    flags_of_prune l n
    ∙ (rw (member-flags l n, balance-prune l n, double_spent-nil n)
        (regroup (member n l.flagged_base) (double_spent (txs l) n) (ltb_ℤ (balance l n) (pos 0))))

-- the new baseline reaches as far as the old one and the folded transfers
pub base_seq-prune :
    (l : Ledger) (n : String)
    → base_seq_at (prune l).1.base n ≡ max (base_seq_at l.base n) (max_seq n (txs l))
unfolding prune install
base_seq-prune l n =
    ap (λ (b : Base). b.base_seq) (base_row-snapshot l n)
    ∙ account-seq l n
    ∙ ap (max (base_seq_at l.base n)) (max_seq-counted l n)

pub difficulty-prune : (l : Ledger) → (prune l).1.difficulty ≡ l.difficulty
unfolding prune install
difficulty-prune l = refl

rows-prune : (l : Ledger) → txs (prune l).1 ≡ []
unfolding prune install
rows-prune l = refl

seq-prune : (l : Ledger) (n : String) → next_seq (prune l).1 n ≡ next_seq l n
unfolding next_seq max_seq
seq-prune l n = rw (rows-prune l, base_seq-prune l n) (omega arith)

-- Pruning empties the table of transfers and keeps each account's balance, lifetime earnings, flag
-- and next sequence number.
pub prune-Keeps : (l : Ledger) (n : String) → (txs (prune l).1 ≡ []) × Keeps l (prune l).1 n
prune-Keeps l n = (
  rows-prune l,
  record {
    same_balance = balance-prune l n;
    same_earned = earned-prune l n;
    same_flag = flag-prune l n;
    same_seq = seq-prune l n;
  },
)
