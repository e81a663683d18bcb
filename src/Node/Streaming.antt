-- ===== src/Node/Streaming.antt =====
-- kemi/node.py: _stream_task. A frame is what it says before it is sealed; the consumer takes some
-- number of frames and is gone then. The backend's thread and the clock are the list of what comes
-- out of the queue, whose end is the deadline.
pub mod Frames
pub mod PaidFirst
use kemi.Prelude.{
  ℕ, zero, suc, ◌*◌, ◌-◌, String, Bool, true, false, not, ◌||◌, Option, none, some, List, [], ◌∷◌,
  length, str_eq, if◌then◌else◌,
}
use kemi.Prelude.Int.{ℤ}
use kemi.Json.{Value, round_micro}
use kemi.Crypto.{Primitives}
use kemi.Ledger.{Status, conflict, invalid, add_tx}
use kemi.Reputation.{double_spend, chunk_ok}
use kemi.Node.{Node, gossip_tx, note, with_ledger}
use kemi.Node.Payment.{Problem, validate_payment}
use kemi.Result.{Result, ok, ◌>>=◌}

pub data Refusal : Type 0 where
  not_a_provider unsupported_task no_stream undecodable payment_rejected task_failed task_timeout :
      Refusal

pub data Frame : Type 0 where
  accepted warming : Frame
  token : ℕ → String → Frame
  -- the frames with "end"
  refused : Refusal → Frame
  finished : List String → ℕ → Frame

-- what comes out of the queue; silent is an interval without an event
pub data Produced : Type 0 where
  next_token : ℕ → String → Produced
  all_done : List String → Produced
  backend_error silent : Produced

-- what the provider offers, and the number of items that _decode_task_payload finds, or none for its
-- problem; the parameter max_tokens is taken to be an integer
pub record Offered : Type 0 where
  pub closed : Bool
  pub provides : Bool
  pub supported : Bool
  pub streams : Bool
  -- in billionths
  pub price : ℕ
  pub items : Option ℕ

-- finish: a lost connection is ignored
unfoldable pub finish_with : ℕ → Frame → List Frame
finish_with zero frame = []
finish_with (suc room) frame = frame ∷ []

-- The loop over the queue, after the frame "accepted". room counts the frames that the consumer still
-- takes; sent says that a token has been sent. The flag says that chunk_ok is recorded.
unfoldable pub relay_tokens : ℕ → Bool → ℕ → List Produced → List Frame × Bool
relay_tokens expected sent room [] = (finish_with room (refused task_timeout), false)
relay_tokens expected sent room (all_done results ∷ ps) =
    (finish_with room (finished results expected), true)
relay_tokens expected sent room (backend_error ∷ ps) =
    (finish_with room (refused task_failed), false)
relay_tokens expected sent zero (next_token i t ∷ ps) = ([], false)
relay_tokens expected sent (suc room) (next_token i t ∷ ps) =
    let (frames, served) = relay_tokens expected true room ps in (token i t ∷ frames, served)
relay_tokens expected true room (silent ∷ ps) = (finish_with room (refused task_timeout), false)
relay_tokens expected false zero (silent ∷ ps) = ([], false)
relay_tokens expected false (suc room) (silent ∷ ps) =
    let (frames, served) = relay_tokens expected false room ps in (warming ∷ frames, served)

abbrev credit_served : String → Bool → Node → Node
credit_served sender false n = n
credit_served sender true n = note n sender chunk_ok

module _ (p : Primitives) (show : Value → String) (now : ℤ) (payment : Value) (room : ℕ) where
  abbrev pub refuse_with : Refusal → Node → List Frame × Node
  refuse_with r n = (finish_with room (refused r), n)

  -- from the frame "accepted" on, which must get through
  abbrev pub run_stream : String → ℕ → List Produced → ℕ → Node → List Frame × Node
  run_stream sender expected produced zero n = ([], n)
  run_stream sender expected produced (suc left) n =
      let (frames, served) = relay_tokens expected false left produced in
      (accepted ∷ frames, credit_served sender served n)

  -- by the status of the transfer
  abbrev pub after_payment : String → ℕ → List Produced → Node → Status → List Frame × Node
  after_payment sender expected produced n invalid = refuse_with payment_rejected n
  after_payment sender expected produced n conflict =
      refuse_with payment_rejected (gossip_tx (note n sender double_spend) payment)
  after_payment sender expected produced n _ =
      run_stream sender expected produced room (gossip_tx n payment)

  -- witness is _witness_check, with whatever it does to the node
  abbrev pub after_checks :
      (Node → Result (Bool × Node))
      → ℕ
      → List Produced
      → Node
      → String × Option Problem
      → Result (List Frame × Node)
  after_checks witness expected produced n (sender, some problem) =
      ok (refuse_with payment_rejected n)
  after_checks witness expected produced n (sender, none) = witness n >>= (λ (witnessed, n1).
      if witnessed
      then (add_tx p now n1.ledger payment >>= (λ (status, l).
          ok (after_payment sender expected produced (with_ledger n1 l) status)))
      else ok (refuse_with payment_rejected n1))

  -- the frames that the consumer gets, and the node afterwards
  unfoldable pub stream_task :
      (Node → Result (Bool × Node))
      → String
      → Offered
      → List Produced
      → Node
      → Result (List Frame × Node)
  stream_task witness task o produced n =
      if o.closed || not o.provides
      then ok (refuse_with not_a_provider n)
      else if not (str_eq task "ai.generate") || not o.supported
      then ok (refuse_with unsupported_task n)
      else if not o.streams
      then ok (refuse_with no_stream n)
      else elim o.items [
        | none ↦ ok (refuse_with undecodable n)
        | some count ↦
            (let expected = round_micro (o.price * count) in
              validate_payment p show n payment (expected * 1000)
              >>= after_checks witness expected produced n)
      ]
