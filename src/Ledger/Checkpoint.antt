-- ===== src/Ledger/Checkpoint.antt =====
-- kemi/gossip_ledger.py, "checkpointing": snapshot, adopt_snapshot and prune.
pub mod Slots
pub mod Prune
pub mod Accounts
use Prim.Native.Nat.{Ordering}
use Prim.Native.String
use kemi.Prelude.{
  ℕ, ◌+◌, max, String, Bool, true, false, not, ◌||◌, ◌&&◌, Option, none, some, List, [], ◌∷◌, ◌++◌,
  map, ltb, leb, ◌==◌, str_eq, if◌then◌else◌, any, keep, or_else,
}
use kemi.Prelude.Int.{ℤ, pos, ◌+ℤ◌, ◌-ℤ◌}
use kemi.Ledger.{Tx, Base, Ledger, txs, find, upsert, base_row, has_base}
use kemi.Ledger.Queries.{is_counted, member, double_spenders, tx_count}
use kemi.Result.{Result, ok, raise, value_error}

-- the JSON object that a replica sends for a checkpoint
pub record Snapshot : Type 0 where
  pub version : ℕ
  pub accounts : List (String × Base)
  pub flagged : List String

-- ORDER BY tx_id
unfoldable pub insert_tx : Tx → List Tx → List Tx
insert_tx t [] = t ∷ []
insert_tx t (s ∷ ss) = if leb t.tx_id s.tx_id then t ∷ s ∷ ss else s ∷ insert_tx t ss

unfoldable pub sort_txs : List Tx → List Tx
unfolding insert_tx
sort_txs [] = []
sort_txs (t ∷ ts) = insert_tx t (sort_txs ts)

-- sorted() of texts, without repetition
abbrev pub text_le : String → String → Bool
text_le s t = elim (Prim.Native.String.compare s t) [ Ordering.gt ↦ false | _ ↦ true ]

unfoldable pub insert_key {ℓ} : {V : Type ℓ} → String → V → List (String × V) → List (String × V)
insert_key k v [] = (k, v) ∷ []
insert_key k v ((j, w) ∷ m) = if text_le k j then (k, v) ∷ (j, w) ∷ m else (j, w) ∷ insert_key k v m

unfoldable pub sort_keys {ℓ} : {V : Type ℓ} → List (String × V) → List (String × V)
unfolding insert_key
sort_keys [] = []
sort_keys ((k, v) ∷ m) = insert_key k v (sort_keys m)

unfoldable pub insert_text : String → List String → List String
insert_text s [] = s ∷ []
insert_text s (t ∷ ts) =
    let later = t ∷ insert_text s ts in
    if str_eq t s then t ∷ ts else if text_le s t then s ∷ t ∷ ts else later

unfoldable pub sorted_set : List String → List String
unfolding insert_text
sorted_set [] = []
sorted_set (s ∷ ss) = insert_text s (sorted_set ss)

-- the dictionary that snapshot fills; slot(n) reads the base row of a node it has not met
abbrev pub Accounts : Type 0
Accounts = List (String × Base)

unfoldable pub slot : Ledger → Accounts → String → Base
unfolding find
slot l accounts node_id = or_else (find node_id accounts) (base_row l.base node_id)

abbrev pub debit : ℕ → ℕ → Base → Base
debit amount seq b = record b { balance = b.balance -ℤ pos amount; base_seq = max b.base_seq seq }

abbrev pub credit : ℕ → Base → Base
credit amount b = record b { balance = b.balance +ℤ pos amount; earned = b.earned +ℤ pos amount }

-- one round of the loop: the sender's slot, then the recipient's
unfoldable pub fold_tx : Ledger → Accounts → Tx → Accounts
fold_tx l accounts t =
    let paid = upsert t.sender (debit t.amount t.seq (slot l accounts t.sender)) accounts in
    upsert t.recipient (credit t.amount (slot l paid t.recipient)) paid

unfoldable pub fold_txs : Ledger → Accounts → List Tx → Accounts
fold_txs l accounts [] = accounts
fold_txs l accounts (t ∷ ts) = fold_txs l (fold_tx l accounts t) ts

-- the transfers that count, in the order of their ids
unfoldable pub counted_txs : List Tx → List Tx
counted_txs ts = keep (is_counted ts) (sort_txs ts)

unfoldable pub snapshot : Ledger → Snapshot
snapshot l = record {
  version = 1;
  accounts = sort_keys (fold_txs l l.base (counted_txs (txs l)));
  flagged = sorted_set (l.flagged_base ++ double_spenders l);
}

-- INSERT OR IGNORE of each flagged id
abbrev insert_flags : List String → List String → List String
insert_flags have [] = have
insert_flags have (s ∷ ss) = insert_flags (if member s have then have else have ++ s ∷ []) ss

unfoldable pub install : Ledger → Snapshot → Ledger
install l snap = record l { base = snap.accounts; flagged_base = insert_flags [] snap.flagged }

-- The fetched dictionary is a Snapshot if it is well formed: its accounts are a dictionary.
unfoldable pub adopt_snapshot : Ledger → Snapshot → Result Ledger
adopt_snapshot l snap =
    if ltb 0 (tx_count l) || has_base l
    then raise value_error
    else if not (snap.version == 1)
    then raise value_error
    else ok
        (record l { base = snap.accounts; flagged_base = insert_flags l.flagged_base snap.flagged })

unfoldable pub prune : Ledger → ℕ × Ledger
prune l = (tx_count l, install (record l { rows = [] }) (snapshot l))
