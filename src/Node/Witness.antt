-- ===== src/Node/Witness.antt =====
-- kemi/node.py: _on_tx_witness.
use kemi.Prelude.{
  ◌≡◌, refl, sym, ◌∙◌, ap, subst, ℕ, String, not, Option, some, List, ◌==◌, or_else, keep, take,
}
use kemi.Prelude.Int.{ℤ, pos}
use kemi.Json.{Value, Fields, obj, str, int, float, field, end, get, integer}
use kemi.Crypto.{Primitives, open_envelope, sign_envelope, digest}
use kemi.Crypto.Hex.{hexdigest}
use kemi.Result.{Result, ok, raise, ◌>>=◌}
use kemi.Ledger.Repeat.{add_tx-known}
use kemi.Ledger.{Tx, Ledger, judge, admit, Status, new, known, conflict, stale, invalid, add_tx}
use kemi.Ledger.Queries.{envelopes_for_seq}
use kemi.Reputation.{double_spend}
use kemi.Node.{Node, gossip_tx, note, with_ledger, text_of}

pub data WitnessReply : Type 0 where
  bad_request : WitnessReply
  invalid_tx : WitnessReply
  conflicting : List Value → WitnessReply
  receipt : Value → WitnessReply

abbrev natural : Option ℤ → ℕ
natural (some (pos n)) = n
natural _ = 0

module _ (p : Primitives) (show : Value → String) where
  abbrev pub payload_or_empty : Value → Fields
  payload_or_empty envelope = or_else (open_envelope p envelope) end

  abbrev sender_of : Fields → String
  sender_of payload = text_of show (or_else (get "from" payload) (str ""))

  -- a payload that add_tx does not call invalid has a positive seq
  abbrev seq_of : Fields → ℕ
  seq_of payload = natural (integer (get "seq" payload))

  abbrev payload_of : Value → Value
  payload_of (obj fs) = or_else (get "payload" fs) (obj end)
  payload_of _ = obj end

  unfoldable pub sign_receipt : ℤ → Node → Fields → Value
  sign_receipt now n payload = sign_envelope p n.identity.seed (
      field "kind" (str "receipt") (
        field "tx_id" (str (hexdigest (digest p (obj payload)))) (
          field "from" (str (sender_of payload)) (
            field "seq" (int (pos (seq_of payload))) (
              field "witness" (str n.identity.node_id) (
                field "pow_nonce" (int (pos n.identity.pow_nonce))
                  (field "ts" (float now) end)))))))

  -- the stored envelopes of the slot with another id, one at most
  unfoldable pub evidence_for : Node → Fields → List Value
  evidence_for n payload = take 1 (
      keep (λ e. not (digest p (payload_of e) == digest p (obj payload)))
        (envelopes_for_seq n.ledger (sender_of payload) (seq_of payload)))

  unfoldable pub answer_witness : ℤ → Node → Value → Status → WitnessReply × Node
  answer_witness now n envelope invalid = (invalid_tx, n)
  answer_witness now n envelope conflict =
      let payload = payload_or_empty envelope in
      (
        conflicting (evidence_for n payload),
        gossip_tx (note n (sender_of payload) double_spend) envelope,
      )
  answer_witness now n envelope new =
      (receipt (sign_receipt now n (payload_or_empty envelope)), gossip_tx n envelope)
  answer_witness now n envelope _ = (receipt (sign_receipt now n (payload_or_empty envelope)), n)

  unfoldable pub on_tx_witness : ℤ → Node → Option Value → Result (WitnessReply × Node)
  on_tx_witness now n (some (obj fs)) = do
    (status, l) ← add_tx p now n.ledger (obj fs)
    ok (answer_witness now (with_ledger n l) (obj fs) status)
  on_tx_witness now n _ = ok (bad_request, n)

  ledger_after_answer :
      (now : ℤ) (n : Node) (e : Value) (s : Status) → (answer_witness now n e s).1.ledger ≡ n.ledger
  unfolding answer_witness gossip_tx note
  ledger_after_answer now n e invalid = refl
  ledger_after_answer now n e conflict = refl
  ledger_after_answer now n e new = refl
  ledger_after_answer now n e known = refl
  ledger_after_answer now n e stale = refl

  -- A witness that has just refused a transfer as conflicting signs a receipt for it when asked
  -- again, if the checks still admit it.
  pub on_tx_witness-conflict :
      (now later : ℤ) (n m : Node) (fs : Fields) (t : Tx) (evidence : List Value)
      → judge p now n.ledger.base n.ledger.difficulty (obj fs) ≡ ok (admit t)
      → judge p later n.ledger.base n.ledger.difficulty (obj fs) ≡ ok (admit t)
      → on_tx_witness now n (some (obj fs)) ≡ ok (conflicting evidence, m)
      → on_tx_witness later m (some (obj fs))
        ≡ ok (receipt (sign_receipt later m (payload_or_empty (obj fs))), m)
  unfolding on_tx_witness answer_witness
  on_tx_witness-conflict now later n m fs t evidence h k q =
      let (s, l, first, again) = add_tx-known p now later n.ledger (obj fs) t h k in
      let answered = rw first at q in
      let kept : m.ledger ≡ l =
        sym (ap ledger_of answered) ∙ ledger_after_answer now (with_ledger n l) (obj fs) s in
      let taken : add_tx p later m.ledger (obj fs) ≡ ok (known, m.ledger) =
        subst (λ x. add_tx p later x (obj fs) ≡ ok (known, x)) (sym kept) again in
      rw taken refl
    where
      ledger_of : Result (WitnessReply × Node) → Ledger
      ledger_of (ok (r, x)) = x.ledger
      ledger_of (raise x) = n.ledger
