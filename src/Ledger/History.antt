-- ===== src/Ledger/History.antt =====
-- The life of a replica of gossip_ledger.py as a sequence of calls on it.
use kemi.Prelude.{
  ℕ, ◌≤◌, ◌<◌, String, ◌≡◌, refl, ap, List, [], ◌∷◌, arith, str_eq, str_eq_self, eq_iff,
  if◌then◌else◌, Bool-cases, inl, inr, or_else,
}
use kemi.Prelude.Assoc.{find-upsert}
use kemi.Prelude.Int.{ℤ}
use kemi.Json.{Value}
use kemi.Crypto.{Primitives}
use kemi.Result.{Result, ok, raise}
use kemi.Ledger.{
  Ledger, Status, Verdict, refuse, admit, txs, find, max_seq, base_seq_at, next_seq, reserve_seq,
  store, enter, insert, judge, add_tx,
}
use kemi.Ledger.Checkpoint.{Snapshot, adopt_snapshot, install, prune}

-- a call on the replica; one that raises leaves the tables as they were
pub data Call : Type 0 where
  add : ℤ → Value → Call
  reserve : String → Call
  adopt : Snapshot → Call
  checkpoint : Call

abbrev pub state_of : Ledger → Result Ledger → Ledger
state_of l (ok m) = m
state_of l (raise e) = l

abbrev pub state_of_add : Ledger → Result (Status × Ledger) → Ledger
state_of_add l (ok (s, m)) = m
state_of_add l (raise e) = l

module _ (p : Primitives) where
  unfoldable pub step : Ledger → Call → Ledger
  step l (add now envelope) = state_of_add l (add_tx p now l envelope)
  step l (reserve node_id) = (reserve_seq l node_id).1
  step l (adopt snap) = state_of l (adopt_snapshot l snap)
  step l checkpoint = (prune l).1

  unfoldable pub run : Ledger → List Call → Ledger
  run l [] = l
  run l (c ∷ cs) = run (step l c) cs

-- ------------------------------------------------------------ reserved sequence numbers

abbrev pub claimed : Ledger → String → ℕ
claimed l n = or_else (find n l.reserved) 0

claimed-reserve :
    (l : Ledger) (k n : String)
    → claimed (reserve_seq l k).1 n ≡ (if str_eq k n then (reserve_seq l k).0 else claimed l n)
unfolding reserve_seq
claimed-reserve l k n = rw (find-upsert k n _ l.reserved) (ground arith)

claimed-lt-reserve : (l : Ledger) (n : String) → claimed l n < (reserve_seq l n).0
unfolding reserve_seq
claimed-lt-reserve l n = omega arith

pub reserve-lt :
    (l : Ledger) (n : String)
    → (max_seq n (txs l) < (reserve_seq l n).0) × (base_seq_at l.base n < (reserve_seq l n).0)
unfolding reserve_seq next_seq
reserve-lt l n = omega arith

claimed-le-reserve : (l : Ledger) (k n : String) → claimed l n ≤ claimed (reserve_seq l k).1 n
claimed-le-reserve l k n = elim (Bool-cases (str_eq k n)) [
  | inl e ↦
      rw (claimed-reserve l k n, e)
        (let below = claimed-lt-reserve l n in
          let same = ap (λ x. (reserve_seq l x).0) ((eq_iff k n).0 e) in omega arith)
  | inr e ↦ rw (claimed-reserve l k n, e) (omega arith)
]

reserved-adopt :
    (l : Ledger) (snap : Snapshot) → (state_of l (adopt_snapshot l snap)).reserved ≡ l.reserved
unfolding adopt_snapshot
reserved-adopt l snap = ground arith

reserved-enter : (l : Ledger) (e : Value) (v : Verdict) → (enter l e v).1.reserved ≡ l.reserved
unfolding enter store insert
reserved-enter l e (refuse s) = refl
reserved-enter l e (admit t) = ground arith

module _ (p : Primitives) (n : String) where
  reserved-add :
      (now : ℤ) (l : Ledger) (e : Value) → (state_of_add l (add_tx p now l e)).reserved ≡ l.reserved
  unfolding add_tx
  reserved-add now l e = go (judge p now l.base l.difficulty e) refl
    where
      go :
          (r : Result Verdict)
          → judge p now l.base l.difficulty e ≡ r
          → (state_of_add l (add_tx p now l e)).reserved ≡ l.reserved
      go (ok v) q = rw (q, add_tx) (reserved-enter l e v)
      go (raise x) q = rw (q, add_tx) refl

  claimed-step : (l : Ledger) (c : Call) → claimed l n ≤ claimed (step p l c) n
  unfolding step prune install
  claimed-step l (add now e) = rw (reserved-add now l e) (omega arith)
  claimed-step l (reserve k) = claimed-le-reserve l k n
  claimed-step l (adopt snap) = rw (reserved-adopt l snap) (omega arith)
  claimed-step l checkpoint = omega arith

  claimed-run : (l : Ledger) (cs : List Call) → claimed l n ≤ claimed (run p l cs) n
  unfolding run
  claimed-run l [] = omega arith
  claimed-run l (c ∷ cs) = omega (arith, claimed-step l c, claimed-run (step p l c) cs)

  -- A sequence number claimed for a node exceeds the numbers of the node's stored transfers and its
  -- baseline, and after any calls on the replica the next claim is higher still.
  pub reserve_seq-increases :
      (l : Ledger) (cs : List Call)
      → (max_seq n (txs l) < (reserve_seq l n).0)
        × (base_seq_at l.base n < (reserve_seq l n).0)
        × ((reserve_seq l n).0 < (reserve_seq (run p (reserve_seq l n).1 cs) n).0)
  reserve_seq-increases l cs = (
    (reserve-lt l n).0,
    (reserve-lt l n).1,
    (let now = claimed-reserve l n n in
        let later = claimed-run (reserve_seq l n).1 cs in
        let above = claimed-lt-reserve (run p (reserve_seq l n).1 cs) n in
        let self = str_eq_self n in ground arith),
  )
