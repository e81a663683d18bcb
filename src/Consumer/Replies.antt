-- ===== src/Consumer/Replies.antt =====
-- kemi/consumer.py: send_to_provider, and what a consumer makes of a provider's reply to a chunk.
use kemi.Prelude.{
  ℕ, String, Bool, false, Option, none, some, List, ◌==◌, length, or_else, if◌then◌else◌,
}
use kemi.Prelude.Int.{ℤ}
use kemi.Json.{Value, Fields, null, bool, str, obj, arr, end, field, get, to_list}
use kemi.Crypto.Hex.{Bytes}
use kemi.E2e.Box.{open_sealed}
use kemi.Node.{truthy}
use kemi.Result.{Result, ok, raise, attribute_error, ◌>>=◌}
use kemi.Consumer.Hiring.{Provider, routed}

abbrev pub is_ok : Fields → Bool
is_ok response = truthy (or_else (get "ok" response) null)

abbrev empty_reply : Fields
empty_reply = field "ok" (bool false) (field "error" (str "empty_relay_reply") end)

-- the provider's response in the relay's
abbrev unwrap : Option Value → Result Fields
unwrap (some (obj inner)) = if truthy (obj inner) then ok inner else ok empty_reply
unwrap (some v) = if truthy v then raise attribute_error else ok empty_reply
unwrap none = ok empty_reply

abbrev through_relay : Option Fields → Result (Option Fields)
through_relay none = ok none
through_relay (some wrapped) =
    let inner = unwrap (get "response" wrapped) >>= λ response. ok (some response) in
    if is_ok wrapped then inner else ok (some wrapped)

-- the network answers a message to an address, or fails: none stands for a network error
unfoldable pub send_to_provider :
    ((String × ℤ) × Fields → Option Fields) → Provider → Fields → Result (Option Fields)
send_to_provider network r message = elim r.relay [
  | none ↦ ok (network (routed "relay.forward" r message))
  | some relay ↦ through_relay (network (routed "relay.forward" r message))
]

abbrev list_of : Option Value → Option (List Value)
list_of (some (arr vs)) = some (to_list vs)
list_of _ = none

module _ (loads : Bytes → Option Value) where
  abbrev inner_results : Option Value → Result (Option (List Value))
  inner_results none = ok none
  inner_results (some (obj fs)) = ok (list_of (get "results" fs))
  inner_results (some _) = raise attribute_error

  abbrev opened : Result Bytes → Result (Option (List Value))
  opened (ok plaintext) = inner_results (loads plaintext)
  opened (raise e) = ok none

  -- the results of a response, none where they are no list or cannot be read
  unfoldable pub read_results : Option Bytes → Fields → Result (Option (List Value))
  read_results none response = ok (list_of (get "results" response))
  read_results (some key) response =
      let enc = or_else (get "enc" response) null in
      opened (open_sealed key (if truthy enc then enc else obj end))

-- the reply to a chunk: one result for each item, or one of three failures
pub data Verdict : Type 0 where
  unreachable refused malformed : Verdict
  delivered : List Value → Verdict

abbrev pub counted : ℕ → Option (List Value) → Verdict
counted n none = malformed
counted n (some results) = if length results == n then delivered results else malformed

-- n is the number of items
unfoldable pub judge_reply :
    (Bytes → Option Value) → Option Bytes → ℕ → Option Fields → Result Verdict
judge_reply loads key n none = ok unreachable
judge_reply loads key n (some response) =
    let results = read_results loads key response >>= λ o. ok (counted n o) in
    if is_ok response then results else ok refused
