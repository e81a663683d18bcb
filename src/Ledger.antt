-- ===== src/Ledger.antt =====
-- kemi/gossip_ledger.py: the replica's state (its SQLite tables) and every operation on it.
-- Stored amounts and balances are whole numbers of millionths of a credit, which _round makes them.
pub mod Queries
pub mod Gossip
mod Tests
pub mod Replay
pub mod Pulling
pub mod Effect
pub mod Repeat
pub mod Own
pub mod Tables
pub mod History
pub mod Counting
pub mod Conservation
pub mod Convergence
pub mod Absorb
pub mod Checkpoint
pub mod Replication
unfoldable pub use kemi.Prelude.Assoc.{find, upsert}
use kemi.Prelude.{
  ℕ, zero, suc, ◌+◌, ◌-◌, ◌*◌, ◌^◌, max, String, Bool, true, false, not, ◌&&◌, ◌||◌, Option, none,
  some, List, [], ◌∷◌, ◌++◌, map, ltb, leb, ◌==◌, str_eq, if◌then◌else◌, any, all, keep, length,
  or_else,
}
use kemi.Prelude.Sums.{sum_by}
use kemi.Prelude.Int.{ℤ, pos, negsuc, ◌+ℤ◌, ◌-ℤ◌, ltb_ℤ, leb_ℤ}
use kemi.Json.{
  Value, Fields, null, bool, int, float, str, arr, obj, field, end, get, number, integer, text,
  is_text, round_micro, billion,
}
use kemi.Crypto.{Primitives, digest, open_envelope, sign_envelope, verify_node_id}
use kemi.Crypto.Hex.{Bytes}
use kemi.Result.{Result, ok, raise, Error, overflow_error, binding_error, value_error, ◌>>=◌}

-- GENESIS_CREDITS, in millionths; MAX_CLOCK_SKEW, in billionths of a second
abbrev pub genesis_credits : ℕ
genesis_credits = 100_000_000

abbrev pub max_clock_skew : ℕ
max_clock_skew = 300 * billion

-- the least amount, in billionths, that float refuses: it would round an integer to 2 ** 1024
abbrev pub too_large : ℕ
too_large = (2 ^ 1024 - 2 ^ 970) * billion

-- a row of the table txs, less its rowid and envelope
pub record Tx : Type 0 where
  pub tx_id : ℕ
  pub sender : String
  pub seq : ℕ
  pub recipient : String
  pub amount : ℕ

pub record Row : Type 0 where
  pub rowid : ℕ
  pub tx : Tx
  pub envelope : Value

-- a row of the table base
pub record Base : Type 0 where
  pub balance : ℤ
  pub base_seq : ℕ
  pub earned : ℤ

pub record Ledger : Type 0 where
  -- txs by rowid, and AUTOINCREMENT's counter, which a DELETE does not reset
  pub rows : List Row
  pub last_rowid : ℕ
  -- the reserved_seq:… entries of meta
  pub reserved : List (String × ℕ)
  pub base : List (String × Base)
  pub flagged_base : List String
  pub difficulty : ℕ

unfoldable pub empty : ℕ → Ledger
empty difficulty = record {
  rows = [];
  last_rowid = 0;
  reserved = [];
  base = [];
  flagged_base = [];
  difficulty = difficulty;
}

abbrev pub txs : Ledger → List Tx
txs l = map (λ (r : Row). r.tx) l.rows

-- ------------------------------------------------------------ baseline and sequence numbers

unfoldable pub base_row : List (String × Base) → String → Base
base_row base node_id =
    or_else (find node_id base)
      (record { balance = pos genesis_credits; base_seq = 0; earned = pos 0 })

abbrev pub base_seq_at : List (String × Base) → String → ℕ
base_seq_at base node_id = (base_row base node_id).base_seq

unfoldable pub has_base : Ledger → Bool
has_base l = elim l.base [ [] ↦ false | _ ∷ _ ↦ true ]

-- SELECT MAX(seq) … WHERE sender = ?, with 0 for NULL
unfoldable pub max_seq : String → List Tx → ℕ
max_seq sender [] = 0
max_seq sender (t ∷ ts) =
    let rest = max_seq sender ts in if str_eq t.sender sender then max t.seq rest else rest

unfoldable pub next_seq : Ledger → String → ℕ
next_seq l sender = max (max_seq sender (txs l)) (base_seq_at l.base sender) + 1

-- the claimed number, and the ledger that remembers it
unfoldable pub reserve_seq : Ledger → String → ℕ × Ledger
reserve_seq l node_id =
    let reserved = max (next_seq l node_id - 1) (or_else (find node_id l.reserved) 0) in
    let claimed = reserved + 1 in
    (claimed, record l { reserved = upsert node_id claimed l.reserved })

-- ------------------------------------------------------------ applying transactions

pub data Status : Type 0 where
  new known conflict stale invalid : Status

-- the fields of a payload that pass the long guard of add_tx
pub record Transfer : Type 0 where
  pub sender : Value
  pub recipient : String
  pub amount : ℕ
  pub seq : ℕ

abbrev pub timely : ℤ → Option ℤ → Bool
timely now none = false
timely now (some ts) = leb_ℤ ts (now +ℤ pos max_clock_skew)

abbrev pub guarded : ℤ → Value → Option ℤ → Option ℤ → Option String → Option ℤ → Option Transfer
guarded now sender (some (pos amount)) (some (pos seq)) (some recipient) ts =
    if ltb 0 amount
      && (ltb 0 seq
          && (Prim.Native.String.count recipient == 64
              && (not (is_text recipient (some sender)) && timely now ts)))
    then some (record { sender = sender; recipient = recipient; amount = amount; seq = seq })
    else none
guarded _ _ _ _ _ _ = none

unfoldable pub parse_transfer : ℤ → Fields → Option Transfer
parse_transfer now payload =
    if is_text "tx" (get "kind" payload)
    then guarded now (or_else (get "from" payload) (str "")) (number (get "amount" payload))
        (integer (get "seq" payload)) (text (some (or_else (get "to" payload) (str ""))))
        (number (get "ts" payload))
    else none

-- _base_seq(sender) of whatever stands in the payload: sqlite3 binds no list and no object, and no
-- integer beyond 64 bits; what is no text names no row
unfoldable pub base_seq_of : List (String × Base) → Value → Result ℕ
base_seq_of base (str s) = ok (base_seq_at base s)
base_seq_of base (arr vs) = raise binding_error
base_seq_of base (obj fs) = raise binding_error
base_seq_of base (int (pos n)) = if ltb n (2 ^ 63) then ok 0 else raise overflow_error
base_seq_of base (int (negsuc n)) = if ltb n (2 ^ 63) then ok 0 else raise overflow_error
base_seq_of base _ = ok 0

abbrev pub same_slot : Tx → Tx → Bool
same_slot a b = str_eq a.sender b.sender && a.seq == b.seq

unfoldable pub insert : Ledger → Tx → Value → Ledger
insert l t envelope = record l {
  rows = l.rows ++ record { rowid = l.last_rowid + 1; tx = t; envelope = envelope } ∷ [];
  last_rowid = l.last_rowid + 1;
}

-- the end of add_tx: the duplicate test, the conflict test and the INSERT
unfoldable pub store : Ledger → Tx → Value → Status × Ledger
store l t envelope =
    if any (λ (s : Tx). s.tx_id == t.tx_id) (txs l)
    then (known, l)
    else (if any (λ (s : Tx). same_slot s t) (txs l) then conflict else new, insert l t envelope)

-- the checks end in a refusal, or in a row that goes to the table
pub data Verdict : Type 0 where
  refuse : Status → Verdict
  admit : Tx → Verdict

unfoldable pub enter : Ledger → Value → Verdict → Status × Ledger
unfolding store
enter l envelope (refuse status) = (status, l)
enter l envelope (admit t) = store l t envelope

-- the fields of identity.Identity: the key's seed, the nonce and the id
pub record Identity : Type 0 where
  pub seed : Bytes
  pub pow_nonce : ℕ
  pub node_id : String

module _ (p : Primitives) where
  -- the row of a transfer whose sender has been verified
  unfoldable pub tx_of : Fields → Transfer → String → Tx
  tx_of payload t sender = record {
    tx_id = digest p (obj payload);
    sender = sender;
    seq = t.seq;
    recipient = t.recipient;
    amount = round_micro t.amount;
  }

  abbrev pub field_of : String → Value → Option Value
  field_of k (obj fs) = get k fs
  field_of k _ = none

  abbrev pub sender_text : Transfer → String
  sender_text t = or_else (text (some t.sender)) ""

  abbrev pub settle : Fields → Transfer → Bool → Result Verdict
  settle payload t true =
      if ltb t.seq (2 ^ 63) && ltb t.amount too_large
      then ok (admit (tx_of payload t (sender_text t)))
      else raise overflow_error
  settle payload t false = ok (refuse invalid)

  unfoldable pub judge_transfer :
      List (String × Base) → ℕ → Value → Fields → Transfer → Result Verdict
  judge_transfer base difficulty envelope payload t = do
    folded ← base_seq_of base t.sender
    if leb t.seq folded then ok (refuse stale) else do
      verified ←
          verify_node_id p t.sender (field_of "pubkey" envelope)
            (some (or_else (get "pow_nonce" payload) (int (negsuc 0)))) difficulty
      settle payload t verified

  abbrev pub judge_payload : ℤ → List (String × Base) → ℕ → Value → Option Fields → Result Verdict
  judge_payload now base difficulty envelope none = ok (refuse invalid)
  judge_payload now base difficulty envelope (some payload) = elim (parse_transfer now payload) [
    | none ↦ ok (refuse invalid)
    | some t ↦ judge_transfer base difficulty envelope payload t
  ]

  -- all that add_tx does before it reads the table txs
  unfoldable pub judge : ℤ → List (String × Base) → ℕ → Value → Result Verdict
  judge now base difficulty envelope =
      judge_payload now base difficulty envelope (open_envelope p envelope)

  unfoldable pub add_tx : ℤ → Ledger → Value → Result (Status × Ledger)
  unfolding enter
  add_tx now l envelope = do
    verdict ← judge now l.base l.difficulty envelope
    ok (enter l envelope verdict)

  unfoldable pub make_tx : ℤ → Ledger → Identity → String → ℕ → Value × Ledger
  make_tx now l who recipient amount =
      let (seq, l') = reserve_seq l who.node_id in
      (
        sign_envelope p who.seed (
            field "kind" (str "tx") (
              field "from" (str who.node_id) (
                field "pow_nonce" (int (pos who.pow_nonce)) (
                  field "to" (str recipient) (
                    field "amount" (float (pos (round_micro amount * 1000)))
                      (field "seq" (int (pos seq)) (field "ts" (float now) end))))))),
        l',
      )
