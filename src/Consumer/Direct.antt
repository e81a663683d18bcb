-- ===== src/Consumer/Direct.antt =====
-- kemi/consumer.py: execute_on, one chunk on one provider.
use kemi.Prelude.{
  ℕ, String, ◌≡◌, ◌⊎◌, inl, inr, refl, sym, ap, ◌∙◌, Bool, true, false, Option, none, some, List,
  [], ◌∷◌, ◌++◌, length, ◌==◌, ==_iff, if◌then◌else◌, Bool-cases,
}
use kemi.Prelude.Int.{ℤ}
use kemi.Json.{Value, Fields}
use kemi.Crypto.{Primitives}
use kemi.Crypto.Hex.{Bytes}
use kemi.Crypto.Ed25519.{Sha512}
use kemi.Ledger.{Ledger, Status, add_tx, make_tx, reserve_seq}
use kemi.Ledger.Own.{is_own, make_tx-is_own}
use kemi.Reputation.{chunk_ok, chunk_fail}
use kemi.Node.{Node, gossip_tx, note, with_ledger}
use kemi.Result.{Result, ok, raise, job_error, Result-cases, >>=-eq-ok, ok-injective, ◌>>=◌}
use kemi.Consumer.Hiring.{Provider, amount_for, is_short, box_key, payload, request_message}
use kemi.Consumer.Replies.{
  is_ok, counted, send_to_provider, judge_reply, Verdict, unreachable, refused, malformed,
  delivered, read_results,
}
use kemi.Consumer.Stream.{mirror}

module _ (p : Primitives) (sha512 : Sha512) (loads : Bytes → Option Value)
    (network : (String × ℤ) × Fields → Option Fields) where
  -- the message of a chunk
  unfoldable pub chunk_message :
      Bytes → Bool → Node → Provider → String → List Value → Fields → Value → Fields
  chunk_message nonce encrypt n r task items params tx =
      request_message "task.execute" task tx
        (payload p nonce (box_key sha512 encrypt n r) items params)

  -- what becomes of the node with the reply
  unfoldable pub conclude_chunk : ℤ → Provider → Value → Node → Verdict → Result (List Value) × Node
  conclude_chunk now r tx n (delivered results) = elim (mirror p now tx n) [
    | raise e ↦ (raise e, n)
    | ok n' ↦ (ok results, note n' r.node_id chunk_ok)
  ]
  conclude_chunk now r tx n unreachable = (raise job_error, note n r.node_id chunk_fail)
  conclude_chunk now r tx n refused = (raise job_error, note n r.node_id chunk_fail)
  conclude_chunk now r tx n malformed = (raise job_error, note n r.node_id chunk_fail)

  abbrev judged : ℤ → Provider → Value → Node → Result Verdict → Result (List Value) × Node
  judged now r tx n (ok v) = conclude_chunk now r tx n v
  judged now r tx n (raise e) = (raise e, n)

  -- signed_at and settled_at are the times of make_tx and add_tx, the nonce is the drawn one
  unfoldable pub execute_on :
      ℤ
      → ℤ
      → Bytes
      → Bool
      → Provider
      → String
      → List Value
      → Fields
      → Node
      → Result (List Value) × Node
  execute_on signed_at settled_at nonce encrypt r task items params n =
      let amount = amount_for r items in
      let (tx, l) = make_tx p signed_at n.ledger n.identity r.node_id amount in
      let paid = with_ledger n l in
      let reply =
        send_to_provider network r (chunk_message nonce encrypt n r task items params tx) in
      let hired =
        judged settled_at r tx paid
          (reply >>= judge_reply loads (box_key sha512 encrypt n r) (length items)) in
      if is_short n amount then (raise job_error, n) else hired

  -- With results, add_tx has been called on the payment, which it calls neither conflict nor stale,
  -- and the payment has been gossiped. Without results, neither has happened.
  abbrev pub IsSettled : ℤ → ℕ → Value → Node → Result (List Value) × Node → Type 0
  IsSettled now size tx n (ok results, n') =
      (length results ≡ size)
      × (status : Status) × (add_tx p now n.ledger tx ≡ ok (status, n'.ledger))
      × (is_own status ≡ true)
      × (n'.gossiped ≡ n.gossiped ++ tx ∷ [])
  IsSettled now size tx n (raise e, n') = (n'.ledger ≡ n.ledger) × (n'.gossiped ≡ n.gossiped)

  -- whatever add_tx makes of the payment, it takes it as the node's own
  abbrev IsOwnPayment : ℤ → Value → Node → Type 0
  IsOwnPayment now tx n =
      (s : Status) (l : Ledger) → add_tx p now n.ledger tx ≡ ok (s, l) → is_own s ≡ true

  delivered-IsSettled :
      (now : ℤ) (r : Provider) (tx : Value) (n m : Node) (size : ℕ) (results : List Value)
      → length results ≡ size
      → IsOwnPayment now tx n
      → mirror p now tx n ≡ ok m
      → IsSettled now size tx n (ok results, note m r.node_id chunk_ok)
  unfolding mirror gossip_tx note
  delivered-IsSettled now r tx n m size results count own h =
      let ((status, l), added, done) = >>=-eq-ok (add_tx p now n.ledger tx) _ h in
      let same : gossip_tx (with_ledger n l) tx ≡ m = ok-injective done in
      (
        count,
        status,
        added ∙ ap (λ (x : Node). ok (status, x.ledger)) same,
        own status l added,
        ap (λ (x : Node). x.gossiped) (sym same),
      )

  counted_size :
      (size : ℕ) (o : Option (List Value)) {results : List Value}
      → counted size o ≡ delivered results
      → length results ≡ size
  counted_size size none h = cc
  counted_size size (some found) {results} h = elim (Bool-cases (length found == size)) [
    | inl same ↦ ap length (sym (delivered_inj (rw same at h))) ∙ (==_iff _ _).0 same
    | inr other ↦ cc (rw other at h)
  ]
    where
      delivered_inj : {a b : List Value} → delivered a ≡ delivered b → a ≡ b
      delivered_inj e = cc

  judge_reply_size :
      (key : Option Bytes) (size : ℕ) (reply : Option Fields) {results : List Value}
      → judge_reply loads key size reply ≡ ok (delivered results)
      → length results ≡ size
  unfolding judge_reply
  judge_reply_size key size none h = cc
  judge_reply_size key size (some response) {results} h = elim (Bool-cases (is_ok response)) [
    | inl fine ↦
        let (o, _, h') = >>=-eq-ok (read_results loads key response) _ (rw fine at h) in
        counted_size size o (ok-injective h')
    | inr bad ↦ cc (rw bad at h)
  ]

  reply_size :
      (reply : Result (Option Fields)) (key : Option Bytes) (size : ℕ) (results : List Value)
      → reply >>= judge_reply loads key size ≡ ok (delivered results)
      → length results ≡ size
  reply_size reply key size results h =
      let (o, _, h') = >>=-eq-ok reply (judge_reply loads key size) h in
      judge_reply_size key size o h'

  conclude-IsSettled :
      (now : ℤ) (r : Provider) (tx : Value) (n : Node) (size : ℕ) (v : Verdict)
      → IsOwnPayment now tx n
      → ((results : List Value) → v ≡ delivered results → length results ≡ size)
      → IsSettled now size tx n (conclude_chunk now r tx n v)
  unfolding conclude_chunk note
  conclude-IsSettled now r tx n size (delivered results) own h =
      elim (Result-cases (mirror p now tx n)) [
        | inl (e, q) ↦ rw (q, conclude_chunk) (refl, refl)
        | inr (m, q) ↦
            rw (q, conclude_chunk)
              (delivered-IsSettled now r tx n m size results (h results refl) own q)
      ]
  conclude-IsSettled now r tx n size unreachable own h = (refl, refl)
  conclude-IsSettled now r tx n size refused own h = (refl, refl)
  conclude-IsSettled now r tx n size malformed own h = (refl, refl)

  judged-IsSettled :
      (now : ℤ) (r : Provider) (tx : Value) (n : Node) (size : ℕ) (m : Result Verdict)
      → IsOwnPayment now tx n
      → ((results : List Value) → m ≡ ok (delivered results) → length results ≡ size)
      → IsSettled now size tx n (judged now r tx n m)
  judged-IsSettled now r tx n size (ok v) own h =
      conclude-IsSettled now r tx n size v own
        (λ results e. h results (ap (λ (x : Verdict). ok x) e))
  judged-IsSettled now r tx n size (raise e) own h = (refl, refl)

  module _ (signed_at settled_at : ℤ) (nonce : Bytes) (encrypt : Bool) (r : Provider)
      (task : String) (items : List Value) (params : Fields) (n : Node) where
    abbrev pub payment : Value × Ledger
    payment = make_tx p signed_at n.ledger n.identity r.node_id (amount_for r items)

    -- Without the credits for the chunk, execute_on raises and changes nothing. Else it signs a payment,
    -- which changes no row. At an end with results, there is one for each item, add_tx has been called
    -- on the payment, which it calls neither conflict nor stale, and the payment has been gossiped;
    -- every other end leaves the ledger and the gossip as they are.
    pub execute_on-IsSettled :
        ((is_short n (amount_for r items) ≡ true)
          × (execute_on signed_at settled_at nonce encrypt r task items params n
              ≡ (raise job_error, n)))
        ⊎ ((is_short n (amount_for r items) ≡ false)
            × (payment.1.rows ≡ n.ledger.rows)
            × IsSettled settled_at
                (length items)
                payment.0
                (with_ledger n payment.1)
                (execute_on signed_at settled_at nonce encrypt r task items params n))
    unfolding execute_on make_tx reserve_seq
    execute_on-IsSettled = elim (Bool-cases (is_short n (amount_for r items))) [
      | inl short ↦ inl (short, rw short refl)
      | inr rich ↦ inr (
        rich,
        refl,
        rw rich (
            judged-IsSettled settled_at r payment.0 (with_ledger n payment.1) (length items) _
              (λ s m.
                make_tx-is_own p signed_at settled_at n.ledger m n.identity r.node_id
                  (amount_for r items) s)
              (reply_size
                (send_to_provider network r
                  (chunk_message nonce encrypt n r task items params payment.0))
                (box_key sha512 encrypt n r) (length items))),
      )
    ]
