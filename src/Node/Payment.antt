-- ===== src/Node/Payment.antt =====
-- kemi/node.py: _validate_payment, and _on_task_execute from the payment on.
use kemi.Prelude.{
  ℕ, ◌+◌, ◌*◌, String, Bool, true, false, not, Option, none, some, if◌then◌else◌, or_else,
}
use kemi.Prelude.Int.{ℤ, pos, negsuc, ◌+ℤ◌, ltb_ℤ}
use kemi.Json.{Value, Fields, obj, str, int, get, number, is_text, round_micro}
use kemi.Crypto.{Primitives, open_envelope, verify_node_id}
use kemi.Result.{Result, ok, ◌>>=◌}
use kemi.Ledger.{Status, conflict, invalid, add_tx}
use kemi.Ledger.Queries.{balance, is_flagged}
use kemi.Reputation.{is_banned, double_spend, chunk_ok}
use kemi.Node.{Node, gossip_tx, note, with_ledger, text_of}

-- why a payment is refused
pub data Problem : Type 0 where
  missing_payment bad_signature no_proof_of_work not_addressed below_price flagged banned
        insufficient :
      Problem

-- a balance in millionths, as billionths
abbrev pub in_billionths : ℤ → ℤ
in_billionths (pos n) = pos (n * 1000)
in_billionths (negsuc n) = negsuc (n * 1000 + 999)

-- what became of a request for work
pub data Reply (R : Type 0) : Type 0 where
  unsupported undecodable : Reply R
  payment_rejected : Reply R
  task_failed : Reply R
  served : R → ℕ → Reply R

module _ (p : Primitives) (show : Value → String) where
  -- the tests on the amount and the account; expected in billionths
  unfoldable pub check_account : Node → String → ℕ → Option ℤ → Option Problem
  check_account n sender expected none = some below_price
  check_account n sender expected (some amount) =
      if ltb_ℤ (amount +ℤ pos 1) (pos expected)
      then some below_price
      else if is_flagged n.ledger sender
      then some flagged
      else if is_banned n.reputation sender
      then some banned
      else if ltb_ℤ (in_billionths (balance n.ledger sender)) amount
      then some insufficient
      else none

  abbrev pub pubkey_of : Value → Option Value
  pubkey_of (obj fs) = get "pubkey" fs
  pubkey_of _ = none

  abbrev pub settle_checks : Node → String → ℕ → Fields → Bool → Result (String × Option Problem)
  settle_checks n sender expected payload false = ok (sender, some no_proof_of_work)
  settle_checks n sender expected payload true =
      if not (is_text n.identity.node_id (get "to" payload))
      then ok (sender, some not_addressed)
      else ok (sender, check_account n sender expected (number (get "amount" payload)))

  unfoldable pub check_payload : Node → Value → ℕ → Fields → Result (String × Option Problem)
  check_payload n envelope expected payload =
      if not (is_text "tx" (get "kind" payload)) then ok ("", some bad_signature) else do
        let sender = text_of show (or_else (get "from" payload) (str ""))
        verified ←
            verify_node_id p (str sender) (some (or_else (pubkey_of envelope) (str "")))
              (some (or_else (get "pow_nonce" payload) (int (negsuc 0)))) n.ledger.difficulty
        settle_checks n sender expected payload verified

  -- the sender, and the problem if there is one
  unfoldable pub validate_payment : Node → Value → ℕ → Result (String × Option Problem)
  validate_payment n (obj fs) expected = elim (open_envelope p (obj fs)) [
    | none ↦ ok ("", some bad_signature)
    | some payload ↦ check_payload n (obj fs) expected payload
  ]
  validate_payment n _ expected = ok ("", some missing_payment)

  -- what the status of the transfer makes of a chunk that has been computed
  unfoldable pub conclude : {R : Type 0} → Node → Value → String → ℕ → R → Status → Reply R × Node
  conclude n payment sender expected results invalid =
      (payment_rejected, record n { payments_rejected = n.payments_rejected + 1 })
  conclude n payment sender expected results conflict =
      let n' = gossip_tx (note n sender double_spend) payment in
      (payment_rejected, record n' { payments_rejected = n'.payments_rejected + 1 })
  conclude n payment sender expected results _ =
      let n' = note (gossip_tx n payment) sender chunk_ok in
      (
        served results expected,
        record n' {
          chunks_served = n'.chunks_served + 1;
          credits_earned = n'.credits_earned + expected;
        },
      )

  -- self.ledger.add_tx(payment), and the answer by its status
  unfoldable pub collect :
      {R : Type 0} → ℤ → Node → Value → String → ℕ → R → Result (Reply R × Node)
  collect now n payment sender expected results = do
    (status, l) ← add_tx p now n.ledger payment
    ok (conclude (with_ledger n l) payment sender expected results status)

  abbrev pub rejected : {R : Type 0} → Node → Reply R × Node
  rejected n = (payment_rejected, record n { payments_rejected = n.payments_rejected + 1 })

  -- In serve, witness and work stand for _witness_check and _execute_chunk, with whatever other handlers do to
  -- the node in the meantime; expected is in millionths
  abbrev pub finish :
      {R : Type 0} → ℤ → Value → ℕ → String → Option R → Node → Result (Reply R × Node)
  finish now payment expected sender none n =
      ok (task_failed, record n { chunks_failed = n.chunks_failed + 1 })
  finish now payment expected sender (some results) n =
      collect now n payment sender expected results

  abbrev pub after_witness :
      {R : Type 0}
      → ℤ
      → Value
      → ℕ
      → (Node → Option R × Node)
      → String
      → Bool
      → Node
      → Result (Reply R × Node)
  after_witness now payment expected work sender false n = ok (rejected n)
  after_witness now payment expected work sender true n =
      let (outcome, n') = work n in finish now payment expected sender outcome n'

  abbrev pub serve :
      {R : Type 0}
      → ℤ
      → Value
      → ℕ
      → (Node → Result (Bool × Node))
      → (Node → Option R × Node)
      → Node
      → String × Option Problem
      → Result (Reply R × Node)
  serve now payment expected witness work n (sender, some problem) = ok (rejected n)
  serve now payment expected witness work n (sender, none) = do
    (witnessed, n1) ← witness n
    after_witness now payment expected work sender witnessed n1

  -- _on_task_execute from the check of the payment on
  unfoldable pub execute_paid :
      {R : Type 0}
      → ℤ
      → Value
      → ℕ
      → (Node → Result (Bool × Node))
      → (Node → Option R × Node)
      → Node
      → Result (Reply R × Node)
  execute_paid now payment expected witness work n = do
    checked ← validate_payment n payment (expected * 1000)
    serve now payment expected witness work n checked

  -- decoded is the number of items that _decode_task_payload finds, or none for its problem; the price
  -- is in billionths
  unfoldable pub on_task_execute :
      {R : Type 0}
      → ℤ
      → Bool
      → Option ℕ
      → ℕ
      → Value
      → (Node → Result (Bool × Node))
      → (Node → Option R × Node)
      → Node
      → Result (Reply R × Node)
  on_task_execute now false decoded price payment witness work n = ok (unsupported, n)
  on_task_execute now true none price payment witness work n = ok (undecodable, n)
  on_task_execute now true (some count) price payment witness work n =
      execute_paid now payment (round_micro (price * count)) witness work n
