-- ===== src/Consumer/Stream.antt =====
-- kemi/consumer.py: stream_generate. What a provider's stream yields in time is a list of frames and
-- errors, which depends on the request sent; where the list is over, the wait for the next frame
-- times out. Hiring outcomes that train the ranking are left out.
pub mod OneSource
use kemi.Prelude.{
  ℕ, String, Bool, true, false, not, ◌&&◌, ◌||◌, Option, none, some, List, [], ◌∷◌, ◌++◌, map,
  or_else, str_eq, if◌then◌else◌,
}
use kemi.Prelude.Int.{ℤ, pos}
use kemi.Json.{Value, Fields, null, int, str, obj, get, is_text}
use kemi.Crypto.{Primitives}
use kemi.Crypto.Hex.{Bytes}
use kemi.Crypto.Ed25519.{Sha512}
use kemi.E2e.Box.{open_sealed}
use kemi.Ledger.{Status, add_tx, make_tx}
use kemi.Reputation.{Event, chunk_ok, chunk_fail}
use kemi.Node.{Node, gossip_tx, note, with_ledger, truthy, text_of}
use kemi.Result.{Error, Result, ok, raise, job_error, attribute_error, ◌>>=◌}
use kemi.Consumer.Hiring.{Provider, amount_for, is_short, box_key, payload, request_message, routed}

pub data Arrival : Type 0 where
  frame : Fields → Arrival
  network_error : Arrival

abbrev pub Token : Type 0
Token = ℤ × String

-- streamed_any and payment_committed
pub record Progress : Type 0 where
  pub tokens : List Token
  pub streamed : Bool
  pub committed : Bool

abbrev pub fresh : Progress
fresh = record { tokens = []; streamed = false; committed = false }

-- how the loop over one provider's stream ends: by a failure, by the end of the generator, by the
-- final frame, or by an exception
pub data Ending : Type 0 where
  failed over : Progress → Ending
  served : Progress → Value → Ending
  broken : Progress → Error → Ending

-- what a frame means for the loop
pub data Turn : Type 0 where
  next : Progress → Turn
  ends : Ending → Turn

-- loads is json.loads of decrypted bytes, to_int is int, show is str
module _ (loads : Bytes → Option Value) (to_int : Value → Result ℤ) (show : Value → String) where
  abbrev event_in : Option Value → Result (Option Fields)
  event_in none = ok none
  event_in (some (obj fs)) = ok (some fs)
  event_in (some _) = raise attribute_error

  abbrev decrypted : Result Bytes → Result (Option Fields)
  decrypted (ok plaintext) = event_in (loads plaintext)
  decrypted (raise e) = ok none

  -- the event of a frame, none for undecryptable data
  unfoldable pub event_of : Option Bytes → Fields → Result (Option Fields)
  event_of none raw = ok (some raw)
  event_of (some key) raw = elim (get "enc" raw) [
    | none ↦ ok (some raw)
    | some enc ↦ decrypted (open_sealed key enc)
  ]

  -- yield {"item": int(event.get("item", 0)), "token": str(event.get("t", ""))}
  abbrev add_token : Fields → Progress → Turn
  add_token event s = elim (to_int (or_else (get "item" event) (int (pos 0)))) [
    | raise e ↦ ends (broken (record s { streamed = true; committed = true }) e)
    | ok item ↦ next (record s {
      tokens = s.tokens ++ (item, text_of show (or_else (get "t" event) (str ""))) ∷ [];
      streamed = true;
      committed = true;
    })
  ]

  -- error codes that a provider sends only after it has taken the payment
  abbrev after_payment : Option Value → Bool
  after_payment code = is_text "task_failed" code || is_text "task_timeout" code

  abbrev error_code : Fields → Fields → Option Value
  error_code event raw = elim (get "error" event) [ none ↦ get "error" raw | some code ↦ some code ]

  abbrev last_frame : Fields → Fields → Progress → Turn
  last_frame event raw s =
      if is_text "end" (get "evt" event) && truthy (or_else (get "ok" event) null)
      then ends (served s (or_else (get "results" event) null))
      else ends
          (failed (record s { committed = s.committed || after_payment (error_code event raw) }))

  unfoldable pub on_event : Fields → Fields → Progress → Turn
  on_event event raw s =
      let evt = get "evt" event in
      if is_text "accepted" evt || is_text "warming" evt
      then next (record s { committed = true })
      else if is_text "token" evt
      then add_token event s
      else if truthy (or_else (get "end" raw) null)
      then last_frame event raw s
      else next s

  unfoldable pub on_frame : Option Bytes → Fields → Progress → Turn
  on_frame key raw s = elim (event_of key raw) [
    | raise e ↦ ends (broken s e)
    | ok none ↦ ends (failed s)
    | ok (some event) ↦ on_event event raw s
  ]

  -- stream_request yields nothing after a frame whose "end" is true
  unfoldable pub receive : Option Bytes → List Arrival → Progress → Ending
  receive key [] s = failed s
  receive key (network_error ∷ later) s = failed s
  receive key (frame raw ∷ later) s = elim (on_frame key raw s) [
    | ends ending ↦ ending
    | next s' ↦
        let rest = receive key later s' in
        if truthy (or_else (get "end" raw) null) then over s' else rest
  ]

-- one provider's turn: its record, the times and nonce that are drawn, and what its stream yields
pub record Attempt : Type 0 where
  pub provider : Provider
  pub signed_at : ℤ
  pub settled_at : ℤ
  pub nonce : Bytes
  pub stream : (String × ℤ) × Fields → List Arrival

-- what is yielded, by provider, and how it ends: the results and the provider, or an exception
pub record Run : Type 0 where
  pub node : Node
  pub yielded : List (String × Token)
  pub result : Result (Value × String)

abbrev pub token_list : String → List Token → List (String × Token)
token_list id = map (λ t. (id, t))

abbrev pub raised : Node → List (String × Token) → Error → Run
raised n yielded e = record { node = n; yielded = yielded; result = raise e }

abbrev pub success : Attempt → Value → List (String × Token) → Result Node → Node → Run
success a results yielded (ok n') n = record {
  node = note n' a.provider.node_id chunk_ok;
  yielded = yielded;
  result = ok (results, a.provider.node_id);
}
success a results yielded (raise e) n = raised n yielded e

abbrev pub is_empty : List Value → Bool
is_empty [] = true
is_empty (v ∷ vs) = false

module _ (p : Primitives) where
  -- add_tx and gossip_tx
  unfoldable pub mirror : ℤ → Value → Node → Result Node
  mirror now tx n = do (status, l) ← add_tx p now n.ledger tx; ok (gossip_tx (with_ledger n l) tx)

  -- a failed attempt: the payment is mirrored if the provider has taken it, and the failure is noted
  unfoldable pub after_failure : Attempt → Value → Node → Progress → Result Node
  after_failure a tx n s = do
    n' ← if s.committed then mirror a.settled_at tx n else ok n
    ok (note n' a.provider.node_id chunk_fail)

module _ (p : Primitives) (sha512 : Sha512) (loads : Bytes → Option Value)
    (to_int : Value → Result ℤ) (show : Value → String) (encrypt : Bool) (prompts : List Value)
    (params : Fields) where
  -- the wire message of an attempt, and where it goes
  unfoldable pub wire : Attempt → Node → Value → (String × ℤ) × Fields
  wire a n tx = routed "relay.stream" a.provider (
      request_message "task.stream" "ai.generate" tx
        (payload p a.nonce (box_key sha512 encrypt n a.provider) prompts params))

  unfoldable pub attempt : Attempt → Value → Node → Ending
  attempt a tx n =
      receive loads to_int show (box_key sha512 encrypt n a.provider) (a.stream (wire a n tx)) fresh

  -- goes on with the providers that are left
  unfoldable pub settle :
      Attempt
      → Value
      → Node
      → List (String × Token)
      → Ending
      → (Node → List (String × Token) → Run)
      → Run
  settle a tx n yielded (served s results) go_on =
      success a results (yielded ++ token_list a.provider.node_id s.tokens)
        (mirror p a.settled_at tx n) n
  settle a tx n yielded (over s) go_on = go_on n (yielded ++ token_list a.provider.node_id s.tokens)
  settle a tx n yielded (broken s e) go_on =
      raised n (yielded ++ token_list a.provider.node_id s.tokens) e
  settle a tx n yielded (failed s) go_on =
      let yielded' = yielded ++ token_list a.provider.node_id s.tokens in
      elim (after_failure p a tx n s) [
        | raise e ↦ raised n yielded' e
        | ok n' ↦ if s.streamed then raised n' yielded' job_error else go_on n' yielded'
      ]

  -- the loop over the providers
  unfoldable pub try_providers : List Attempt → Node → List (String × Token) → Run
  try_providers [] n yielded = raised n yielded job_error
  try_providers (a ∷ later) n yielded =
      let amount = amount_for a.provider prompts in
      let (tx, l) = make_tx p a.signed_at n.ledger n.identity a.provider.node_id amount in
      let paid = with_ledger n l in
      let hired = settle a tx paid yielded (attempt a tx paid) (try_providers later) in
      if is_short n amount then raised n yielded job_error else hired

  -- stream_generate, for the providers that list_providers gives and that can stream
  unfoldable pub stream_generate : List Attempt → Node → Run
  stream_generate [] n = raised n [] job_error
  stream_generate (a ∷ later) n =
      if is_empty prompts then raised n [] job_error else try_providers (a ∷ later) n []
