-- ===== src/Ledger/Tests.antt =====
-- Runs of the replica on concrete transfers, and each theorem at a concrete input.
use mathlib.Core.List.{
  Mem, Nodup-nil, mem-cons, mem-cons_self, mem-cons_of_mem, not-mem-nil, Mem-prop,
}
use mathlib.Core.Logic.Or
use kemi.Ledger.Absorb.{IsInjective}
use package.text.Mathlib.TextEquality.{IsScalar-prop}
use kemi.Prelude.{
  keep, ◌&&◌, ◌≤◌, ap, ℕ, String, ◌≡◌, refl, true, List, [], ◌∷◌, arith, some, sym, ◌∙◌, ◌↔◌, ◌<◌,
}
use kemi.Prelude.Int.{pos, ◌+ℤ◌, ◌-ℤ◌}
use kemi.Json.{Value, str, int, get, number, integer, text, is_text, round_micro}
use kemi.Crypto.{
  sign_envelope, open_envelope, digest, verify_node_id, verify_key, check_pow, node_id_digest,
  leading_zero_bits, bit_length,
}
use kemi.Crypto.Hex.{to_hex, from_hex, hexdigest, big_endian, hex_char, hex_value, hex_digits}
use kemi.Result.{ok}
use kemi.Fixtures.{
  now, pay_bob, pay_carol, pay_again, start, row_bob, row_carol, row_again, after_bob, after_both,
  toy, alice, bob, carol,
}
use kemi.Ledger.{
  Ledger, empty, find, upsert, base_row, max_seq, next_seq, reserve_seq, base_seq_at,
  parse_transfer, base_seq_of, insert, store, tx_of, judge_transfer, judge, add_tx, enter, Tx,
  same_slot, admit, txs, new, known, stale,
}
use kemi.Ledger.Queries.{is_counted, incoming, outgoing, balance}
use kemi.Ledger.Gossip.{receive, claims}
use kemi.Ledger.Convergence.{receive_converges, Agree}
use kemi.Ledger.Conservation.{supply-eq-baseline, sum_ℤ}
use kemi.Ledger.Counting.OnePerSlot.{slot-counts_one}
use kemi.Ledger.Checkpoint.{prune}
use kemi.Ledger.Checkpoint.Prune.{prune-Keeps, Keeps}
use kemi.Ledger.Replay.{replay-stale}
use kemi.Ledger.History.{add, checkpoint, run, reserve_seq-increases}
use kemi.Ledger.Tables.{IsValid, IsAfter, run-IsValid}
use kemi.Ledger.Effect.{IsMoved, add_tx-IsMoved}
use kemi.Ledger.Pulling.{pulls, pulls_all}

-- what a run of add_tx computes through
machine : Unit {0}
unfolding sign_envelope open_envelope digest verify_node_id verify_key check_pow node_id_digest
    leading_zero_bits bit_length get number integer text is_text round_micro to_hex from_hex
    hexdigest big_endian hex_char hex_value hex_digits empty find upsert base_row max_seq next_seq
    reserve_seq parse_transfer base_seq_of insert store tx_of judge_transfer judge add_tx enter
    is_counted incoming outgoing balance receive claims ◌+ℤ◌ ◌-ℤ◌
machine = tt

judge_bob : judge toy now [] 0 pay_bob ≡ ok (admit row_bob)
unfolding machine
judge_bob = refl

judge_carol : judge toy now [] 0 pay_carol ≡ ok (admit row_carol)
unfolding machine
judge_carol = refl

first_is_new : add_tx toy now start pay_bob ≡ ok (new, after_bob)
unfolding machine
first_is_new = refl

second_is_known : add_tx toy now after_bob pay_bob ≡ ok (known, after_bob)
unfolding machine
second_is_known = refl

run_of_both : receive toy now start (pay_bob ∷ pay_carol ∷ []) ≡ ok after_both
unfolding machine
run_of_both = refl

-- ------------------------------------------------------------ theorems at concrete inputs

abbrev both_rows : List Tx
both_rows = row_bob ∷ row_carol ∷ []

both-IsInjective : IsInjective both_rows
both-IsInjective a b ma mb same =
    Or.elim (Tx_set a b) (mem-cons.0 ma)
      (λ x.
        Or.elim (Tx_set a b) (mem-cons.0 mb) (λ y. x ∙ sym y)
          (λ m.
            Or.elim (Tx_set a b) (mem-cons.0 m)
              (λ y. absurd (one_not_two (ap tx_id_of (sym x) ∙ same ∙ ap tx_id_of y)))
              (λ n. absurd (not-mem-nil n))))
      (λ k.
        Or.elim (Tx_set a b) (mem-cons.0 k)
          (λ x.
            Or.elim (Tx_set a b) (mem-cons.0 mb)
              (λ y. absurd (one_not_two (ap tx_id_of (sym y) ∙ sym same ∙ ap tx_id_of x)))
              (λ m.
                Or.elim (Tx_set a b) (mem-cons.0 m) (λ y. x ∙ sym y) (λ n. absurd (not-mem-nil n))))
          (λ n. absurd (not-mem-nil n)))
  where
    tx_id_of : Tx → ℕ
    tx_id_of t = t.tx_id

    one_not_two : ¬ (row_bob.tx_id ≡ row_carol.tx_id)
    one_not_two h = omega arith

    Tx_set : IsSet Tx
    Tx_set = hlevel (IsScalar-prop)

same_members :
    (e : Value) → Mem e (pay_bob ∷ pay_carol ∷ []) ↔ Mem e (pay_carol ∷ pay_bob ∷ pay_bob ∷ [])
same_members e = (
  λ m.
      Or.elim Mem-prop (mem-cons.0 m) (λ x. rw x (mem-cons_of_mem pay_carol mem-cons_self))
        (λ k.
          Or.elim Mem-prop (mem-cons.0 k) (λ x. rw x mem-cons_self) (λ n. absurd (not-mem-nil n))),
  λ m.
      Or.elim Mem-prop (mem-cons.0 m) (λ x. rw x (mem-cons_of_mem pay_bob mem-cons_self))
        (λ k.
          Or.elim Mem-prop (mem-cons.0 k) (λ x. rw x mem-cons_self)
            (λ j.
              Or.elim Mem-prop (mem-cons.0 j) (λ x. rw x mem-cons_self)
                (λ n. absurd (not-mem-nil n)))),
)

claims_both : claims toy now [] 0 (pay_bob ∷ pay_carol ∷ []) ≡ both_rows
unfolding machine
claims_both = refl

receive_converges_example :
    (b : Ledger) × (receive toy now start (pay_carol ∷ pay_bob ∷ pay_bob ∷ []) ≡ ok b)
    × ((n : String) → Agree after_both b n)
receive_converges_example =
    receive_converges toy now start (pay_bob ∷ pay_carol ∷ []) (pay_carol ∷ pay_bob ∷ pay_bob ∷ [])
      Nodup-nil (rw claims_both both-IsInjective) same_members run_of_both

supply-eq-baseline_example :
    sum_ℤ (balance after_both) (alice ∷ bob ∷ carol ∷ [])
    ≡ sum_ℤ (λ n. (base_row after_both.base n).balance) (alice ∷ bob ∷ carol ∷ [])
supply-eq-baseline_example =
    supply-eq-baseline after_both (alice ∷ bob ∷ carol ∷ []) ((refl, refl), ((refl, refl), tt))

-- two transfers under alice's number 1, of which the second has the smaller id
abbrev conflicting_rows : List Tx
conflicting_rows = row_again ∷ row_bob ∷ row_carol ∷ []

slot-counts_one_example :
    (s : Tx) × (keep (λ x. same_slot x row_again && is_counted conflicting_rows x) conflicting_rows
      ≡ s ∷ [])
    × (same_slot s row_again ≡ true)
    × (s.tx_id ≤ row_bob.tx_id)
slot-counts_one_example =
    slot-counts_one conflicting_rows row_again row_bob (refl, (refl, (refl, tt))) mem-cons_self
      (mem-cons_of_mem row_again mem-cons_self) refl

prune-Keeps_example : (txs (prune after_both).1 ≡ []) × Keeps after_both (prune after_both).1 alice
prune-Keeps_example = prune-Keeps after_both alice

replay-stale_example :
    add_tx toy (pos 7) (prune after_bob).1 pay_bob ≡ ok (stale, (prune after_bob).1)
replay-stale_example =
    replay-stale toy after_bob now (pos 7) pay_bob row_bob judge_bob mem-cons_self (omega arith)

reserve_seq-increases_example :
    (max_seq alice (txs after_both) < (reserve_seq after_both alice).0)
    × (base_seq_at after_both.base alice < (reserve_seq after_both alice).0)
    × ((reserve_seq after_both alice).0
        < (reserve_seq
            (run toy (reserve_seq after_both alice).1 (checkpoint ∷ add now pay_bob ∷ []))
            alice).0)
reserve_seq-increases_example =
    reserve_seq-increases toy alice after_both (checkpoint ∷ add now pay_bob ∷ [])

after_both-IsValid : IsValid after_both
after_both-IsValid = record {
  distinct = (refl, (refl, tt));
  ascending = (omega arith, (omega arith, omega arith));
}

run-IsValid_example :
    IsValid (run toy after_both (checkpoint ∷ add now pay_again ∷ []))
    × IsAfter after_both (run toy after_both (checkpoint ∷ add now pay_again ∷ []))
run-IsValid_example =
    run-IsValid toy after_both (checkpoint ∷ add now pay_again ∷ []) after_both-IsValid

pulls_all_example : pulls 2 after_both 0 1 ≡ pay_bob ∷ pay_carol ∷ []
pulls_all_example = pulls_all 2 1 0 after_both after_both-IsValid (omega arith)

alice_verifies : verify_node_id toy (str alice) (some (str alice)) (some (int (pos 0))) 8 ≡ ok true
unfolding machine
alice_verifies = refl

add_tx-IsMoved_example :
    (t : Tx) × (judge toy now [] 0 pay_bob ≡ ok (admit t)) × IsMoved start after_bob t
add_tx-IsMoved_example = add_tx-IsMoved toy now start after_bob pay_bob first_is_new
