-- ===== src/Node.antt =====
-- kemi/node.py: what a peer does with payments, witness requests and pushed transfers.
-- Sending to random peers is the list of envelopes handed to gossip_tx.
pub mod Payment
pub mod Witness
pub mod Committee
pub mod Funded
pub mod Served
pub mod Twice
pub mod Pushed
pub mod Cache
pub mod Relay
pub mod Pull
pub mod Streaming
mod Tests
use kemi.Prelude.{
  ℕ, zero, ◌+◌, String, Bool, true, false, Option, none, some, List, [], ◌∷◌, ◌++◌, or_else,
}
use kemi.Json.{Value, Fields, null, bool, int, float, str, arr, obj, nil, cons, end, field}
use kemi.Prelude.Int.{ℤ, pos, negsuc}
use kemi.Ledger.{Ledger, Identity}
use kemi.Reputation.{Store, record_event, Event}

pub record Node : Type 0 where
  pub identity : Identity
  pub ledger : Ledger
  pub reputation : Store
  -- the envelopes given to gossip_tx, the latest last
  pub gossiped : List Value
  -- metrics; credits in millionths
  pub payments_rejected : ℕ
  pub chunks_failed : ℕ
  pub chunks_served : ℕ
  pub credits_earned : ℕ

unfoldable pub gossip_tx : Node → Value → Node
gossip_tx n envelope = record n { gossiped = n.gossiped ++ envelope ∷ [] }

unfoldable pub note : Node → String → Event → Node
note n node_id event = record n { reputation = record_event n.reputation node_id event }

abbrev pub with_ledger : Node → Ledger → Node
with_ledger n l = record n { ledger = l }

abbrev pub is_object : Value → Bool
is_object (obj fs) = true
is_object _ = false

-- bool(v) of Python
unfoldable pub truthy : Value → Bool
truthy null = false
truthy (bool b) = b
truthy (int (pos zero)) = false
truthy (int _) = true
truthy (float (pos zero)) = false
truthy (float _) = true
truthy (str String.[]) = false
truthy (str _) = true
truthy (arr nil) = false
truthy (arr _) = true
truthy (obj end) = false
truthy (obj _) = true

-- str(payload.get("from", "")), where show is str of what is no text
abbrev pub text_of : (Value → String) → Value → String
text_of show (str s) = s
text_of show v = show v
