-- ===== src/Node/Served.antt =====
-- _on_task_execute of node.py: what a served request means.
use kemi.Prelude.{
  ℕ, ◌*◌, String, ◌≡◌, ◌≢◌, refl, sym, ◌∙◌, ap, subst, Bool, true, false, Option, none, some,
}
use kemi.Prelude.Int.{ℤ}
use kemi.Json.{Value, round_micro}
use kemi.Crypto.{Primitives}
use kemi.Result.{Result, ok, >>=-eq-ok, ok-injective}
use kemi.Ledger.{Ledger, Status, new, known, conflict, stale, invalid, add_tx}
use kemi.Node.{Node, gossip_tx, note, with_ledger}
use kemi.Node.Payment.{
  Problem, validate_payment, Reply, served, conclude, collect, finish, after_witness, serve,
  on_task_execute, execute_paid,
}
use kemi.Node.Funded.{IsFunded, validate_payment-IsFunded}

-- the request that is served: the payment passed the checks, the witnesses agreed and the work was
-- done, and then add_tx took the transfer
pub record IsServed (p : Primitives) (now : ℤ) (payment : Value) (n2 : Node) (m : Node)
    : Type 0 where
  pub status : Status
  pub ledger : Ledger
  pub taken : add_tx p now n2.ledger payment ≡ ok (status, ledger)
  pub kept : m.ledger ≡ ledger
  pub not_invalid : status ≢ invalid
  pub not_conflict : status ≢ conflict

module _ (p : Primitives) (show : Value → String) {R : Type 0} where
  conclude-served :
      (n m : Node) (payment : Value) (sender : String) (expected charged : ℕ) (results r : R)
      (s : Status)
      → conclude p show n payment sender expected results s ≡ (served r charged, m)
      → (m.ledger ≡ n.ledger) × (s ≢ invalid) × (s ≢ conflict) × (charged ≡ expected)
  unfolding conclude gossip_tx note
  conclude-served n m payment sender expected charged results r invalid h = cc
  conclude-served n m payment sender expected charged results r conflict h = cc
  conclude-served n m payment sender expected charged results r new h =
      (sym (ap (λ (x : Reply R × Node). x.1.ledger) h), λ e. cc, λ e. cc, cc)
  conclude-served n m payment sender expected charged results r known h =
      (sym (ap (λ (x : Reply R × Node). x.1.ledger) h), λ e. cc, λ e. cc, cc)
  conclude-served n m payment sender expected charged results r stale h =
      (sym (ap (λ (x : Reply R × Node). x.1.ledger) h), λ e. cc, λ e. cc, cc)

  collect-IsServed :
      (now : ℤ) (n m : Node) (payment : Value) (sender : String) (expected charged : ℕ)
      (results r : R)
      → collect p show now n payment sender expected results ≡ ok (served r charged, m)
      → IsServed p now payment n m × (charged ≡ expected)
  unfolding collect
  collect-IsServed now n m payment sender expected charged results r h =
      let ((status, l), q, k) = >>=-eq-ok (add_tx p now n.ledger payment) _ h in
      let (kept, i, c, price) =
        conclude-served (with_ledger n l) m payment sender expected charged results r status
          (ok-injective k) in
      (
        record {
          status = status;
          ledger = l;
          taken = q;
          kept = kept;
          not_invalid = i;
          not_conflict = c;
        },
        price,
      )

  finish-IsServed :
      (now : ℤ) (n m : Node) (payment : Value) (sender : String) (expected charged : ℕ)
      (o : Option R) (r : R)
      → finish p show now payment expected sender o n ≡ ok (served r charged, m)
      → IsServed p now payment n m × (charged ≡ expected)
  finish-IsServed now n m payment sender expected charged none r h = cc
  finish-IsServed now n m payment sender expected charged (some results) r h =
      collect-IsServed now n m payment sender expected charged results r h

  pub execute_paid-IsServed :
      (now : ℤ) (payment : Value) (expected charged : ℕ) (witness : Node → Result (Bool × Node))
      (work : Node → Option R × Node) (n m : Node) (r : R)
      → execute_paid p show now payment expected witness work n ≡ ok (served r charged, m)
      → (sender : String) × (n1 : Node) × IsFunded p show n payment (expected * 1000) sender
        × (witness n ≡ ok (true, n1))
        × IsServed p now payment (work n1).1 m
        × (charged ≡ expected)
  unfolding execute_paid
  execute_paid-IsServed now payment expected charged witness work n m r h =
      let ((sender, problem), q, k) =
        >>=-eq-ok (validate_payment p show n payment (expected * 1000)) _ h in
      go sender problem q k
    where
      after :
          (sender : String) (witnessed : Bool) (n1 : Node)
          → after_witness p show now payment expected work sender witnessed n1
            ≡ ok (served r charged, m)
          → (witnessed ≡ true) × IsServed p now payment (work n1).1 m × (charged ≡ expected)
      after sender false n1 k = cc
      after sender true n1 k =
          let (s, price) =
            finish-IsServed now (work n1).1 m payment sender expected charged (work n1).0 r k in
          (refl, s, price)

      go :
          (sender : String) (problem : Option Problem)
          → validate_payment p show n payment (expected * 1000) ≡ ok (sender, problem)
          → serve p show now payment expected witness work n (sender, problem)
            ≡ ok (served r charged, m)
          → (sender : String) × (n1 : Node) × IsFunded p show n payment (expected * 1000) sender
            × (witness n ≡ ok (true, n1))
            × IsServed p now payment (work n1).1 m
            × (charged ≡ expected)
      go sender (some problem) q k = cc
      go sender none q k =
          let ((witnessed, n1), wq, wk) = >>=-eq-ok (witness n) _ k in
          let (agreed, s, price) = after sender witnessed n1 wk in
          (
            sender,
            n1,
            validate_payment-IsFunded p show n payment (expected * 1000) sender q,
            wq ∙ ap (λ (b : Bool). ok (b, n1)) agreed,
            s,
            price,
          )

  -- A request is answered with results only if the task is offered, the items could be decoded, the
  -- payment is funded for their price, the witnesses agreed, and add_tx, on the ledger as it stands
  -- after the work, called the transfer neither invalid nor conflict; the node keeps the ledger that
  -- add_tx made, and charges the price.
  pub on_task_execute-IsServed :
      (now : ℤ) (supported : Bool) (decoded : Option ℕ) (price charged : ℕ) (payment : Value)
      (witness : Node → Result (Bool × Node)) (work : Node → Option R × Node) (n m : Node) (r : R)
      → on_task_execute p show now supported decoded price payment witness work n
        ≡ ok (served r charged, m)
      → (count : ℕ) × (sender : String) × (n1 : Node) × (supported ≡ true)
        × (decoded ≡ some count)
        × (charged ≡ round_micro (price * count))
        × IsFunded p show n payment (charged * 1000) sender
        × (witness n ≡ ok (true, n1))
        × IsServed p now payment (work n1).1 m
  unfolding on_task_execute
  on_task_execute-IsServed now false decoded price charged payment witness work n m r h = cc
  on_task_execute-IsServed now true none price charged payment witness work n m r h = cc
  on_task_execute-IsServed now true (some count) price charged payment witness work n m r h =
      let (sender, n1, funded, agreed, worked, cost) =
        execute_paid-IsServed now payment (round_micro (price * count)) charged witness work n m r
          h in
      (
        count,
        sender,
        n1,
        refl,
        refl,
        cost,
        subst (λ c. IsFunded p show n payment (c * 1000) sender) (sym cost) funded,
        agreed,
        worked,
      )
