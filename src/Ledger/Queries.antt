-- ===== src/Ledger/Queries.antt =====
-- kemi/gossip_ledger.py, "queries": what a replica reads from its rows.
use kemi.Prelude.{
  ℕ, String, Bool, not, ◌&&◌, ◌||◌, List, [], ◌∷◌, map, ltb, leb, ◌==◌, str_eq, if◌then◌else◌, any,
  all, keep, length,
}
use kemi.Prelude.Sums.{sum_by}
use kemi.Prelude.Int.{ℤ, pos, ◌+ℤ◌, ◌-ℤ◌, ltb_ℤ}
use kemi.Json.{Value}
use kemi.Ledger.{Tx, Row, Ledger, txs, same_slot, base_row}

-- the view _COUNTED: of the transfers of one (sender, seq), the one with the smallest id
unfoldable pub is_counted : List Tx → Tx → Bool
is_counted ts t = all (λ s. not (same_slot s t) || leb t.tx_id s.tx_id) ts

-- the amount that one row of the view adds for a node, on either side
abbrev pub received : List Tx → String → Tx → ℕ
received ts node_id t = if is_counted ts t && str_eq t.recipient node_id then t.amount else 0

abbrev pub sent : List Tx → String → Tx → ℕ
sent ts node_id t = if is_counted ts t && str_eq t.sender node_id then t.amount else 0

unfoldable pub incoming : List Tx → String → ℕ
incoming ts node_id = sum_by (received ts node_id) ts

unfoldable pub outgoing : List Tx → String → ℕ
outgoing ts node_id = sum_by (sent ts node_id) ts

unfoldable pub balance : Ledger → String → ℤ
balance l node_id =
    (base_row l.base node_id).balance
    +ℤ pos (incoming (txs l) node_id)
    -ℤ pos (outgoing (txs l) node_id)

unfoldable pub total_earned : Ledger → String → ℤ
total_earned l node_id = (base_row l.base node_id).earned +ℤ pos (incoming (txs l) node_id)

-- COUNT(*) of the group of a transfer
unfoldable pub slot_count : List Tx → Tx → ℕ
slot_count ts t = sum_by (λ s. if same_slot s t then 1 else 0) ts

unfoldable pub double_spent : List Tx → String → Bool
double_spent ts node_id = any (λ t. str_eq t.sender node_id && ltb 1 (slot_count ts t)) ts

abbrev pub member : String → List String → Bool
member s = any (λ t. str_eq t s)

unfoldable pub is_flagged : Ledger → String → Bool
is_flagged l node_id =
    member node_id l.flagged_base
    || (double_spent (txs l) node_id || ltb_ℤ (balance l node_id) (pos 0))

unfoldable pub tx_count : Ledger → ℕ
tx_count l = length l.rows

-- DISTINCT
unfoldable pub distinct : List String → List String
distinct [] = []
distinct (s ∷ ss) = let rest = distinct ss in if member s rest then rest else s ∷ rest

unfoldable pub double_spenders : Ledger → List String
double_spenders l =
    distinct (map (λ (t : Tx). t.sender) (keep (λ t. ltb 1 (slot_count (txs l) t)) (txs l)))

unfoldable pub envelopes_for_seq : Ledger → String → ℕ → List Value
envelopes_for_seq l sender seq =
    map (λ (r : Row). r.envelope)
      (keep (λ (r : Row). str_eq r.tx.sender sender && r.tx.seq == seq) l.rows)
