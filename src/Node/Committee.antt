-- ===== src/Node/Committee.antt =====
-- kemi/node.py: _witness_check from the answers of the committee on.
use kemi.Prelude.{
  ℕ, ◌+◌, min, String, ◌≡◌, sym, ap, Bool, true, false, not, ◌&&◌, Option, none, some, List, [],
  ◌∷◌, leb, if◌then◌else◌, or_else, is_some, any, arith, Bool-cases, inl, inr,
}
use kemi.Prelude.Int.{ℤ, negsuc}
use kemi.Prelude.Sums.{sum_by}
use kemi.Json.{Value, Fields, null, bool, int, float, obj, arr, str, get, is_text, to_list, end}
use kemi.Crypto.{Primitives, open_envelope, digest, verify_node_id}
use kemi.Crypto.Hex.{hexdigest}
use kemi.Result.{Result, ok, raise, type_error, ◌>>=◌, >>=-eq-ok}
use kemi.Ledger.{add_tx, field_of}
use kemi.Reputation.{double_spend}
use kemi.Node.{Node, gossip_tx, note, with_ledger, is_object, truthy}

-- a contact's id, and its answer if it was reached
abbrev pub Answer : Type 0
Answer = String × Option Fields

abbrev pub witness_quorum : ℕ
witness_quorum = 2

abbrev pub is_ok : Fields → Bool
is_ok fs = truthy (or_else (get "ok" fs) null)

abbrev pub is_veto : Fields → Bool
is_veto fs = not (is_ok fs) && is_text "conflict" (get "error" fs)

module _ (p : Primitives) where
  -- the tests on a receipt of a contact
  unfoldable pub check_receipt : ℕ → String → String → Value → Option Fields → Result Bool
  check_receipt difficulty contact_id tx_id envelope none = ok false
  check_receipt difficulty contact_id tx_id envelope (some receipt) =
      if is_text "receipt" (get "kind" receipt)
        && (is_text tx_id (get "tx_id" receipt) && is_text contact_id (get "witness" receipt))
      then verify_node_id p (str contact_id)
          (some (or_else (field_of p "pubkey" envelope) (str "")))
          (some (or_else (get "pow_nonce" receipt) (int (negsuc 0)))) difficulty
      else ok false

  abbrev pub receipt_of : Fields → Value
  receipt_of fs = or_else (get "receipt" fs) (obj end)

  -- response.get("evidence") or []: an object or a text is walked by its keys, which are no objects
  unfoldable pub evidence_of : Option Value → Result (List Value)
  evidence_of (some (arr vs)) = ok (to_list vs)
  evidence_of (some (int n)) = if truthy (int n) then raise type_error else ok []
  evidence_of (some (float x)) = if truthy (float x) then raise type_error else ok []
  evidence_of (some (bool b)) = if b then raise type_error else ok []
  evidence_of _ = ok []

  unfoldable pub record_evidence : ℤ → Node → List Value → Result Node
  record_evidence now n [] = ok n
  record_evidence now n (e ∷ es) =
      if is_object e
      then (add_tx p now n.ledger e
          >>= (λ (status, l). record_evidence now (gossip_tx (with_ledger n l) e) es))
      else record_evidence now n es

  -- a veto ends the loop; otherwise the number of receipts
  unfoldable pub tally : ℤ → String → String → Node → ℕ → List Answer → Result (Option ℕ × Node)
  tally now sender tx_id n receipts [] = ok (some receipts, n)
  tally now sender tx_id n receipts ((contact_id, none) ∷ answers) =
      tally now sender tx_id n receipts answers
  tally now sender tx_id n receipts ((contact_id, some fs) ∷ answers) =
      if is_ok fs
      then (check_receipt n.ledger.difficulty contact_id tx_id (receipt_of fs)
            (open_envelope p (receipt_of fs))
          >>= (λ good. tally now sender tx_id n (receipts + (if good then 1 else 0)) answers))
      else if is_text "conflict" (get "error" fs)
      then (evidence_of (get "evidence" fs)
          >>= (λ es. record_evidence now n es >>= (λ n'. ok (none, note n' sender double_spend))))
      else tally now sender tx_id n receipts answers

  abbrev pub reachable : List Answer → ℕ
  reachable = sum_by (λ (contact_id, response). if is_some response then 1 else 0)

  abbrev pub quorum : List Answer → Option ℕ × Node → Bool × Node
  quorum answers (none, n) = (false, n)
  quorum answers (some receipts, n) = (leb (min witness_quorum (reachable answers)) receipts, n)

  -- with witnesses enabled; an empty committee accepts
  unfoldable pub witness_check : ℤ → Value → String → List Answer → Node → Result (Bool × Node)
  witness_check now payment sender [] n = ok (true, n)
  witness_check now payment sender (a ∷ answers) n = do
    let tx_id = hexdigest (digest p (obj (or_else (open_envelope p payment) end)))
    counted ← tally now sender tx_id n 0 (a ∷ answers)
    ok (quorum (a ∷ answers) counted)

  -- an answer that vetoes
  abbrev pub vetoes : Answer → Bool
  vetoes (contact_id, none) = false
  vetoes (contact_id, some fs) = is_veto fs

  tally-veto :
      (now : ℤ) (sender tx_id : String) (answers : List Answer) (n : Node) (receipts : ℕ)
      {o : Option ℕ} {m : Node}
      → any vetoes answers ≡ true
      → tally now sender tx_id n receipts answers ≡ ok (o, m)
      → o ≡ none
  unfolding tally
  tally-veto now sender tx_id [] n receipts v h = cc
  tally-veto now sender tx_id ((c, none) ∷ answers) n receipts v h =
      tally-veto now sender tx_id answers n receipts v h
  tally-veto now sender tx_id ((c, some fs) ∷ answers) n receipts v h =
      elim (Bool-cases (is_ok fs)) [
        | inl good ↦
            let (b, q, k) =
              >>=-eq-ok
                (check_receipt n.ledger.difficulty c tx_id (receipt_of fs)
                  (open_envelope p (receipt_of fs)))
                _ (rw good at h) in
            tally-veto now sender tx_id answers n (receipts + (if b then 1 else 0)) (ground arith) k
        | inr bad ↦ elim (Bool-cases (is_text "conflict" (get "error" fs))) [
          | inl veto ↦
              let (es, q, k) =
                >>=-eq-ok (evidence_of (get "evidence" fs)) _ (rw (bad, veto) at h) in
              let (m', r, j) = >>=-eq-ok (record_evidence now n es) _ k in sym (ap answer_is j)
          | inr other ↦
              tally-veto now sender tx_id answers n receipts (ground arith) (rw (bad, other) at h)
        ]
      ]
    where
      answer_is : Result (Option ℕ × Node) → Option ℕ
      answer_is (ok (o, m)) = o
      answer_is (raise x) = none

  -- If one of the committee's answers vetoes the payment, the check does not accept it, however many
  -- receipts there are.
  pub witness_check-veto :
      (now : ℤ) (payment : Value) (sender : String) (answers : List Answer) (n : Node) {b : Bool}
      {m : Node}
      → any vetoes answers ≡ true
      → witness_check now payment sender answers n ≡ ok (b, m)
      → b ≡ false
  unfolding witness_check
  witness_check-veto now payment sender [] n v h = cc
  witness_check-veto now payment sender (a ∷ answers) n v h =
      let tx_id = hexdigest (digest p (obj (or_else (open_envelope p payment) end))) in
      let ((o, n'), q, k) = >>=-eq-ok (tally now sender tx_id n 0 (a ∷ answers)) _ h in
      go o n' (tally-veto now sender tx_id (a ∷ answers) n 0 v q) k
    where
      go :
          (o : Option ℕ) (n' : Node) {m' : Node} {c : Bool}
          → o ≡ none
          → ◌≡◌ {A = Result (Bool × Node)} (ok (quorum (a ∷ answers) (o, n'))) (ok (c, m'))
          → c ≡ false
      go none n' e k = sym (ap (λ (r : Result (Bool × Node)). accepted r) k)
        where
          accepted : Result (Bool × Node) → Bool
          accepted (ok (x, y)) = x
          accepted (raise x) = false
      go (some r) n' e k = cc
