-- ===== src/Consumer/Hiring.antt =====
-- kemi/consumer.py: what execute_on, run_job and stream_generate share: a provider's record, the box
-- key, the price of a request and its message.
use kemi.Prelude.{ℕ, ◌*◌, String, Bool, ◌&&◌, Option, none, some, List, length, if◌then◌else◌}
use kemi.Prelude.Int.{ℤ, pos, ltb_ℤ}
use kemi.Json.{Value, Fields, obj, str, arr, field, end, of_list}
use kemi.Crypto.{Primitives}
use kemi.Crypto.Hex.{Bytes, from_hex}
use kemi.Crypto.Ed25519.{Sha512}
use kemi.E2e.Curve.{derive_box_key}
use kemi.E2e.Box.{seal}
use kemi.Ledger.Queries.{balance}
use kemi.Node.{Node}
use kemi.Result.{Result, ok, raise}

-- a provider record, with a price in millionths as make_provider_record rounds it
pub record Provider : Type 0 where
  pub node_id : String
  pub price : ℕ
  pub e2e : Bool
  pub pubkey : Option Value
  pub host : String
  pub port : ℤ
  -- the relay's host and port
  pub relay : Option (String × ℤ)

-- round(record["price"] * len(items), 6)
abbrev pub amount_for : Provider → List Value → ℕ
amount_for r items = r.price * length items

abbrev pub is_short : Node → ℕ → Bool
is_short n amount = ltb_ℤ (balance n.ledger n.identity.node_id) (pos amount)

abbrev pub key_of : Result Bytes → Option Bytes
key_of (ok k) = some k
key_of (raise e) = none

abbrev shared_key : Sha512 → Node → Option Value → Option Bytes
shared_key sha512 n (some (str hex)) = elim (from_hex hex) [
  | none ↦ none
  | some their_key ↦ key_of (derive_box_key sha512 n.identity.seed their_key)
]
shared_key sha512 n _ = none

-- None where encryption is off, unsupported or impossible
unfoldable pub box_key : Sha512 → Bool → Node → Provider → Option Bytes
box_key sha512 encrypt n r = if encrypt && r.e2e then shared_key sha512 n r.pubkey else none

-- the items and parameters of a request, sealed under a box key
unfoldable pub payload : Primitives → Bytes → Option Bytes → List Value → Fields → Fields
payload p nonce (some key) items params =
    field "enc"
      (obj (
        seal nonce key
          (p.encode (obj (field "items" (arr (of_list items)) (field "params" (obj params) end))))))
      end
payload p nonce none items params =
    field "items" (arr (of_list items)) (field "params" (obj params) end)

-- the message that carries a payment with the work
unfoldable pub request_message : String → String → Value → Fields → Fields
request_message kind task payment rest =
    field "type" (str kind) (field "task" (str task) (field "payment" payment rest))

-- where a message goes, and what is sent: through the relay of a provider behind NAT
unfoldable pub routed : String → Provider → Fields → (String × ℤ) × Fields
routed kind r message = elim r.relay [
  | none ↦ ((r.host, r.port), message)
  | some relay ↦ (
    relay,
    field "type" (str kind) (field "to" (str r.node_id) (field "inner" (obj message) end)),
  )
]
