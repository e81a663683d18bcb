-- ===== src/Fixtures.antt =====
-- Test data: a toy instance of the primitives, under which envelopes can be made and opened by
-- evaluation, and a few nodes and transfers.
use kemi.Prelude.{
  ℕ, zero, suc, ◌*◌, ◌%◌, ◌^◌, ◌<◌, String, refl, true, Option, some, [], ◌∷◌, ◌++◌, arith,
}
use native.Mathlib.Nat.{mod-lt}
use kemi.Prelude.Sums.{sum_by}
use kemi.Prelude.Int.{ℤ, pos}
use kemi.Json.{Value, Fields, int, float, str, obj, field, end, get, integer, number, billion}
use kemi.Crypto.{Primitives, sign_envelope}
use kemi.Crypto.Hex.{Bytes}
use kemi.Ledger.{Tx, Ledger}
use kemi.Node.{Node}

abbrev zeros : ℕ → Bytes
zeros zero = []
zeros (suc n) = 0 ∷ zeros n

abbrev number_bytes : Option ℤ → Bytes
number_bytes (some (pos n)) = n ∷ []
number_bytes _ = []

-- the sequence number and the amount alone
abbrev toy_encode : Value → Bytes
toy_encode (obj fs) =
    number_bytes (integer (get "seq" fs)) ++ number_bytes (number (get "amount" fs))
toy_encode _ = []

abbrev toy_sha256 : Bytes → ℕ
toy_sha256 m = sum_by (λ (b : ℕ). b) m % 2 ^ 256

pub toy_bound : (m : Bytes) → toy_sha256 m < 2 ^ 256
toy_bound m = mod-lt (sum_by (λ (b : ℕ). b) m) (omega arith)

abbrev pub toy : Primitives
toy = record {
  encode = toy_encode;
  sha256 = toy_sha256;
  sha256_bound = toy_bound;
  public_key = λ seed. zeros 32;
  sign = λ seed m. [];
  verify = λ key m sig. true;
  verify-sign = λ seed m. refl;
}

-- the ids that the toy digest gives nonces 0, 1 and 2
abbrev pub alice : String
alice = "0000000000000000000000000000000000000000000000000000000000000000"

abbrev pub bob : String
bob = "0000000000000000000000000000000000000000000000000000000000000001"

abbrev pub carol : String
carol = "0000000000000000000000000000000000000000000000000000000000000002"

-- a payload that moves credits, in billionths, from alice
abbrev pub payment : String → ℕ → ℕ → Fields
payment recipient amount seq = field "kind" (str "tx") (
    field "from" (str alice) (
      field "pow_nonce" (int (pos 0)) (
        field "to" (str recipient) (
          field "amount" (float (pos amount))
            (field "seq" (int (pos seq)) (field "ts" (int (pos 5)) end))))))

abbrev pub transfer : String → ℕ → ℕ → Value
transfer recipient credits seq = sign_envelope toy [] (payment recipient (credits * billion) seq)

abbrev pub now : ℤ
now = pos 0

abbrev pub pay_bob : Value
pay_bob = transfer bob 30 1

abbrev pub pay_carol : Value
pay_carol = transfer carol 20 2

-- a second transfer under the number of pay_bob
abbrev pub pay_again : Value
pay_again = transfer carol 90 1

abbrev pub start : Ledger
start = record {
  rows = [];
  last_rowid = 0;
  reserved = [];
  base = [];
  flagged_base = [];
  difficulty = 0;
}

abbrev pub row_bob : Tx
row_bob = record {
  tx_id = 30_000_000_001;
  sender = alice;
  seq = 1;
  recipient = bob;
  amount = 30_000_000;
}

abbrev pub row_carol : Tx
row_carol = record {
  tx_id = 20_000_000_002;
  sender = alice;
  seq = 2;
  recipient = carol;
  amount = 20_000_000;
}

abbrev pub after_bob : Ledger
after_bob = record start {
  rows = record { rowid = 1; tx = row_bob; envelope = pay_bob } ∷ [];
  last_rowid = 1;
}

abbrev pub after_both : Ledger
after_both = record start {
  rows =
      record { rowid = 1; tx = row_bob; envelope = pay_bob }
      ∷ record { rowid = 2; tx = row_carol; envelope = pay_carol }
      ∷ [];
  last_rowid = 2;
}

abbrev pub row_again : Tx
row_again = record {
  tx_id = 90_000_000_001;
  sender = alice;
  seq = 1;
  recipient = carol;
  amount = 90_000_000;
}

-- a provider on a ledger
abbrev pub provider : Ledger → Node
provider l = record {
  identity = record { seed = []; pow_nonce = 1; node_id = bob };
  ledger = l;
  reputation = record { scale = 1; rows = [] };
  gossiped = [];
  payments_rejected = 0;
  chunks_failed = 0;
  chunks_served = 0;
  credits_earned = 0;
}
