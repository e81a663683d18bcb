-- ===== src/Node/Pushed.antt =====
-- kemi/node.py: _on_ledger_push and the inner loop of _pull_from.
use kemi.Prelude.{
  ℕ, ◌+◌, String, ◌≡◌, refl, sym, ◌∙◌, ap, Option, none, some, List, [], ◌∷◌, ltb, if◌then◌else◌,
  or_else, keep, length, Bool-cases, inl, inr,
}
use kemi.Prelude.Int.{ℤ}
use kemi.Json.{Value, str, arr, get, to_list, end}
use kemi.Crypto.{Primitives, open_envelope}
use kemi.Result.{Result, ok, raise, ◌>>=◌, >>=-eq-ok}
use kemi.Ledger.{Ledger, Status, new, known, conflict, stale, invalid, add_tx}
use kemi.Ledger.Gossip.{receive}
use kemi.Reputation.{double_spend}
use kemi.Node.{Node, gossip_tx, note, with_ledger, text_of, is_object}

module _ (p : Primitives) (show : Value → String) where
  -- what follows add_tx for one pushed envelope
  unfoldable pub after_push : ℕ → Node → Value → Status → ℕ × Node
  after_push accepted n envelope new = (accepted + 1, gossip_tx n envelope)
  after_push accepted n envelope conflict =
      let payload = or_else (open_envelope p envelope) end in
      (
        accepted + 1,
        note (gossip_tx n envelope) (text_of show (or_else (get "from" payload) (str "")))
            double_spend,
      )
  after_push accepted n envelope _ = (accepted, n)

  unfoldable pub push_all : ℤ → ℕ → Node → List Value → Result (ℕ × Node)
  push_all now accepted n [] = ok (accepted, n)
  push_all now accepted n (e ∷ es) =
      if is_object e
      then (do
        (status, l) ← add_tx p now n.ledger e
        let (accepted', n') = after_push accepted (with_ledger n l) e status
        push_all now accepted' n' es)
      else push_all now accepted n es

  -- the number accepted, or none for a bad request
  unfoldable pub on_ledger_push : ℤ → Node → Option Value → Result (Option ℕ × Node)
  on_ledger_push now n (some (arr envelopes)) =
      if ltb 500 (length (to_list envelopes))
      then ok (none, n)
      else (do (accepted, n') ← push_all now 0 n (to_list envelopes); ok (some accepted, n'))
  on_ledger_push now n _ = ok (none, n)

  ledger_after_push :
      (k : ℕ) (n : Node) (e : Value) (s : Status) → (after_push k n e s).1.ledger ≡ n.ledger
  unfolding after_push gossip_tx note
  ledger_after_push k n e new = refl
  ledger_after_push k n e known = refl
  ledger_after_push k n e conflict = refl
  ledger_after_push k n e stale = refl
  ledger_after_push k n e invalid = refl

  -- A push that ends leaves the replica that add_tx makes of the objects among the envelopes, one
  -- after the other.
  pub push_all-receive :
      (now : ℤ) (es : List Value) (k : ℕ) (n : Node) {j : ℕ} {m : Node}
      → push_all now k n es ≡ ok (j, m)
      → receive p now n.ledger (keep is_object es) ≡ ok m.ledger
  unfolding push_all receive
  push_all-receive now [] k n h = ap ledger_of h
    where
      ledger_of : Result (ℕ × Node) → Result Ledger
      ledger_of (ok (j, m)) = ok m.ledger
      ledger_of (raise x) = raise x
  push_all-receive now (e ∷ es) k n {j} {m} h = elim (Bool-cases (is_object e)) [
    | inr other ↦ rw other (push_all-receive now es k n (rw other at h))
    | inl object ↦
        let ((s, l), q, run) = >>=-eq-ok (add_tx p now n.ledger e) _ (rw object at h) in
        let rest =
          push_all-receive now es (after_push k (with_ledger n l) e s).0
            (after_push k (with_ledger n l) e s).1 run in
        rw (object, q)
          (sym (
              ap (λ x. receive p now x (keep is_object es))
                (ledger_after_push k (with_ledger n l) e s))
            ∙ rest)
  ]
