-- ===== src/Node/Streaming/PaidFirst.antt =====
-- What a stream gives the consumer, and what it has then done with the payment.
use kemi.Prelude.{
  ℕ, zero, suc, ◌*◌, String, ◌≡◌, refl, sym, Bool, true, false, not, ◌||◌, Option, none, some, List,
  ◌⊎◌, inl, inr, Bool-cases, Option-cases, str_eq, if◌then◌else◌,
}
use kemi.Prelude.Int.{ℤ}
use kemi.Json.{Value, round_micro}
use kemi.Crypto.{Primitives}
use kemi.Ledger.{Ledger, Status, new, known, stale, conflict, invalid, add_tx}
use kemi.Reputation.{double_spend}
use kemi.Node.{Node, gossip_tx, note, with_ledger}
use kemi.Node.Payment.{Problem, validate_payment}
use kemi.Result.{Result, ok, ◌>>=◌, >>=-eq-ok, ok-injective}
use kemi.Node.Streaming.{
  Refusal, payment_rejected, not_a_provider, unsupported_task, no_stream, undecodable, Frame,
  accepted, refused, Produced, Offered, credit_served, refuse_with, run_stream, after_payment,
  after_checks, stream_task,
}
use kemi.Node.Streaming.Frames.{
  EndsOnce, AllRefused, EndsOnce-cons, finish_with-EndsOnce, finish_with-AllRefused,
  relay_tokens-EndsOnce,
}

abbrev pub is_admitted : Status → Bool
is_admitted invalid = false
is_admitted conflict = false
is_admitted _ = true

credit_served-ledger :
    (sender : String) (served : Bool) (n : Node) → (credit_served sender served n).ledger ≡ n.ledger
unfolding note
credit_served-ledger sender true n = refl
credit_served-ledger sender false n = refl

module _ (p : Primitives) (show : Value → String) (now : ℤ) (payment : Value) (room : ℕ)
    (witness : Node → Result (Bool × Node)) (produced : List Produced) where
  -- the payment is valid on the replica as it was, the witnesses agree, and add_tx does not refuse it
  pub record IsPaid (n : Node) (expected : ℕ) (l : Ledger) : Type 0 where
    pub sender : String
    pub valid : validate_payment p show n payment (expected * 1000) ≡ ok (sender, none)
    pub asked : Node
    pub agreed : witness n ≡ ok (true, asked)
    pub status : Status
    pub admitted : is_admitted status ≡ true
    pub added : add_tx p now asked.ledger payment ≡ ok (status, l)

  -- the frames end once; they are refusals, or the payment for the items is in the ledger
  abbrev pub IsPaidFirst : Node → Offered → List Frame × Node → Type 0
  IsPaidFirst n o (frames, n') =
      EndsOnce frames
      × (AllRefused frames
          ⊎ ((count : ℕ) × (o.items ≡ some count)
              × IsPaid n (round_micro (o.price * count)) n'.ledger))

  refuse_with-IsPaidFirst :
      (n : Node) (o : Offered) (r : Refusal) (m : Node)
      → IsPaidFirst n o (refuse_with p show now payment room r m)
  refuse_with-IsPaidFirst n o r m =
      (finish_with-EndsOnce room (refused r), inl (finish_with-AllRefused room r))

  run_stream-EndsOnce :
      (sender : String) (expected left : ℕ) (m : Node)
      → EndsOnce (run_stream p show now payment room sender expected produced left m).0
  run_stream-EndsOnce sender expected zero m = tt
  run_stream-EndsOnce sender expected (suc left) m =
      EndsOnce-cons accepted _ refl (relay_tokens-EndsOnce expected false left produced)

  run_stream-ledger :
      (sender : String) (expected left : ℕ) (m : Node)
      → (run_stream p show now payment room sender expected produced left m).1.ledger ≡ m.ledger
  run_stream-ledger sender expected zero m = refl
  run_stream-ledger sender expected (suc left) m = credit_served-ledger sender _ m

  module _ (n : Node) (o : Offered) (count : ℕ) (offered : o.items ≡ some count) (sender : String)
      (valid : validate_payment p show n payment (round_micro (o.price * count) * 1000)
        ≡ ok (sender, none))
      (asked : Node) (agreed : witness n ≡ ok (true, asked)) (l : Ledger) where
    abbrev expected : ℕ
    expected = round_micro (o.price * count)

    streamed :
        (status : Status)
        → is_admitted status ≡ true
        → add_tx p now asked.ledger payment ≡ ok (status, l)
        → IsPaidFirst n o (
            run_stream p show now payment room sender expected produced room
              (gossip_tx (with_ledger asked l) payment))
    unfolding gossip_tx
    streamed status admitted added = (
      run_stream-EndsOnce sender expected room _,
      inr (
        count,
        offered,
        rw (run_stream-ledger sender expected room (gossip_tx (with_ledger asked l) payment))
            (record {
              sender = sender;
              valid = valid;
              asked = asked;
              agreed = agreed;
              status = status;
              admitted = admitted;
              added = added;
            }),
      ),
    )

    after_payment-IsPaidFirst :
        (status : Status)
        → add_tx p now asked.ledger payment ≡ ok (status, l)
        → IsPaidFirst n o (
            after_payment p show now payment room sender expected produced
              (with_ledger asked l)
              status)
    after_payment-IsPaidFirst invalid added =
        refuse_with-IsPaidFirst n o payment_rejected (with_ledger asked l)
    after_payment-IsPaidFirst conflict added =
        refuse_with-IsPaidFirst n o payment_rejected
          (gossip_tx (note (with_ledger asked l) sender double_spend) payment)
    after_payment-IsPaidFirst new added = streamed new refl added
    after_payment-IsPaidFirst known added = streamed known refl added
    after_payment-IsPaidFirst stale added = streamed stale refl added

  abbrev Outcome : Node → Offered → Result (List Frame × Node) → Type 0
  Outcome n o r = (out : List Frame × Node) → r ≡ ok out → IsPaidFirst n o out

  refusal-Outcome :
      (n : Node) (o : Offered) (r : Refusal) (m : Node)
      → Outcome n o (ok (refuse_with p show now payment room r m))
  refusal-Outcome n o r m out h = rw (sym (ok-injective h)) (refuse_with-IsPaidFirst n o r m)

  witnessed-Outcome :
      (n : Node) (o : Offered) (count : ℕ)
      → o.items ≡ some count
      → (sender : String)
      → validate_payment p show n payment (round_micro (o.price * count) * 1000) ≡ ok (sender, none)
      → (witnessed : Bool) (asked : Node) → witness n ≡ ok (witnessed, asked)
      → Outcome n o (
          if witnessed
          then (add_tx p now asked.ledger payment >>= (λ (status, l). ok (
              after_payment p show now payment room sender
                (round_micro (o.price * count))
                produced
                (with_ledger asked l)
                status)))
          else ok (refuse_with p show now payment room payment_rejected asked))
  witnessed-Outcome n o count offered sender valid false asked answered out h =
      refusal-Outcome n o payment_rejected asked out h
  witnessed-Outcome n o count offered sender valid true asked agreed out h =
      let ((status, l), added, done) = >>=-eq-ok (add_tx p now asked.ledger payment) _ h in
      rw (sym (ok-injective done))
        (after_payment-IsPaidFirst n o count offered sender valid asked agreed l status added)

  after_checks-Outcome :
      (n : Node) (o : Offered) (count : ℕ)
      → o.items ≡ some count
      → (checked : String × Option Problem)
      → validate_payment p show n payment (round_micro (o.price * count) * 1000) ≡ ok checked
      → Outcome n o (
          after_checks p show now payment room witness
            (round_micro (o.price * count))
            produced
            n
            checked)
  after_checks-Outcome n o count offered (sender, some problem) valid out h =
      refusal-Outcome n o payment_rejected n out h
  after_checks-Outcome n o count offered (sender, none) valid out h =
      let ((witnessed, asked), answered, rest) = >>=-eq-ok (witness n) _ h in
      witnessed-Outcome n o count offered sender valid witnessed asked answered out rest

  -- Where _stream_task ends, the consumer gets one frame with "end" at most, and it is the last. All
  -- frames are refusals, or the payment was valid for the price of the items, the witnesses agreed,
  -- and add_tx called the transfer neither invalid nor conflict; the node ends with the ledger that
  -- add_tx made.
  pub stream_task-IsPaidFirst :
      (n : Node) (task : String) (o : Offered) (out : List Frame × Node)
      → stream_task p show now payment room witness task o produced n ≡ ok out
      → IsPaidFirst n o out
  unfolding stream_task
  stream_task-IsPaidFirst n task o out h = elim (Bool-cases (o.closed || not o.provides)) [
    | inl away ↦ refusal-Outcome n o not_a_provider n out (rw away at h)
    | inr here ↦ elim (Bool-cases (not (str_eq task "ai.generate") || not o.supported)) [
      | inl other ↦ refusal-Outcome n o unsupported_task n out (rw (here, other) at h)
      | inr generate ↦ elim (Bool-cases (not o.streams)) [
        | inl dumb ↦ refusal-Outcome n o no_stream n out (rw (here, generate, dumb) at h)
        | inr able ↦ elim (Option-cases o.items) [
          | inl unread ↦
              refusal-Outcome n o undecodable n out (rw (here, generate, able, unread) at h)
          | inr (count, offered) ↦
              (let (checked, valid, rest) =
                  >>=-eq-ok
                    (validate_payment p show n payment (round_micro (o.price * count) * 1000)) _
                    (rw (here, generate, able, offered) at h) in
                after_checks-Outcome n o count offered checked valid out rest)
        ]
      ]
    ]
  ]
