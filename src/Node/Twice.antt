-- ===== src/Node/Twice.antt =====
-- _on_task_execute of node.py, asked again with a payment that it has served.
use kemi.Prelude.{
  ℕ, ◌+◌, ◌*◌, String, ◌≡◌, ◌≢◌, ◌⊎◌, inl, inr, refl, sym, ◌∙◌, Bool, true, Option, none, some,
}
use kemi.Prelude.Int.{ℤ, ◌≤ℤ◌}
use kemi.Json.{Value}
use kemi.Crypto.{Primitives}
use kemi.Result.{Result, ok}
use kemi.Ledger.{Status, new, known, conflict, stale, invalid}
use kemi.Ledger.Repeat.{add_tx_again}
use kemi.Node.{Node, gossip_tx, note, with_ledger}
use kemi.Node.Payment.{validate_payment, served, conclude, collect, execute_paid}
use kemi.Node.Served.{execute_paid-IsServed}

admitted_again :
    (s s' : Status)
    → s ≢ invalid
    → s ≢ conflict
    → (s' ≡ known) ⊎ (s' ≡ s)
    → (s' ≢ invalid) × (s' ≢ conflict)
admitted_again s s' i c (inl same) = (λ e. cc, λ e. cc)
admitted_again s s' i c (inr same) = (λ e. i (sym same ∙ e), λ e. c (sym same ∙ e))

module _ (p : Primitives) (show : Value → String) {R : Type 0} where
  conclude_again :
      (n : Node) (payment : Value) (sender : String) (expected : ℕ) (results : R) (s : Status)
      → s ≢ invalid
      → s ≢ conflict
      → (m : Node) × (conclude p show n payment sender expected results s
          ≡ (served results expected, m))
        × (m.ledger ≡ n.ledger)
        × (m.credits_earned ≡ n.credits_earned + expected)
  unfolding conclude gossip_tx note
  conclude_again n payment sender expected results invalid i c = absurd (i refl)
  conclude_again n payment sender expected results conflict i c = absurd (c refl)
  conclude_again n payment sender expected results new i c = (_, refl, refl, refl)
  conclude_again n payment sender expected results known i c = (_, refl, refl, refl)
  conclude_again n payment sender expected results stale i c = (_, refl, refl, refl)

  -- One payment buys work any number of times: after a request that has been served, a request with
  -- the same payment is served too, if the payment still passes the checks, the witnesses agree, the
  -- work is done and the ledger has stayed as it was. The ledger then stays as it is, while the
  -- credits count as earned anew.
  pub execute_paid-again :
      (now later : ℤ) (payment : Value) (expected charged expected' : ℕ)
      (witness witness' : Node → Result (Bool × Node)) (work work' : Node → Option R × Node)
      (n m n1 n2 : Node) (r results : R) (sender : String)
      → execute_paid p show now payment expected witness work n ≡ ok (served r charged, m)
      → now ≤ℤ later
      → validate_payment p show m payment (expected' * 1000) ≡ ok (sender, none)
      → witness' m ≡ ok (true, n1)
      → work' n1 ≡ (some results, n2)
      → n2.ledger ≡ m.ledger
      → (m' : Node) × (execute_paid p show later payment expected' witness' work' m
          ≡ ok (served results expected', m'))
        × (m'.ledger ≡ m.ledger)
        × (m'.credits_earned ≡ n2.credits_earned + expected')
  unfolding execute_paid collect
  execute_paid-again now later payment expected charged expected' witness witness' work work' n m n1
        n2 r results sender first le valid agreed worked unchanged =
      let (sender0, n0, funded, agreed0, s, price) =
        execute_paid-IsServed p show now payment expected charged witness work n m r first in
      let (status, again, same) =
        add_tx_again p now later (work n0).1.ledger s.ledger payment s.status le s.taken
          s.not_invalid in
      let (fine, calm) = admitted_again s.status status s.not_invalid s.not_conflict same in
      let (m', done, kept, earned) =
        conclude_again (with_ledger n2 s.ledger) payment sender expected' results status fine
          calm in
      (
        m',
        rw (valid, agreed, worked, unchanged, s.kept, again, done) refl,
        kept ∙ sym s.kept,
        earned,
      )
