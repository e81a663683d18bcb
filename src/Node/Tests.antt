-- ===== src/Node/Tests.antt =====
-- A provider and a witness on concrete messages.
use kemi.Prelude.{
  arith, ◌+◌, ℕ, ◌+◌, ◌*◌, String, ◌≡◌, refl, Bool, true, false, Option, none, some, List, [], ◌∷◌,
  any, keep,
}
use kemi.Prelude.Int.{pos, ◌+ℤ◌, ◌-ℤ◌}
use kemi.Prelude.Assoc.{find, upsert}
use kemi.Json.{Value, str, bool, field, end, get, number, integer, text, is_text, round_micro}
use kemi.Crypto.{
  sign_envelope, open_envelope, digest, verify_node_id, verify_key, check_pow, node_id_digest,
  leading_zero_bits, bit_length,
}
use kemi.Crypto.Hex.{to_hex, from_hex, hexdigest, big_endian, hex_char, hex_value, hex_digits}
use kemi.Result.{Result, ok}
use kemi.Reputation.{record_event, add_event, double_spend, is_banned, chunk_ok}
use kemi.Ledger.{
  base_row, parse_transfer, base_seq_of, insert, store, tx_of, judge_transfer, judge, add_tx, enter,
  admit, new, known, conflict,
}
use kemi.Ledger.Queries.{
  is_counted, incoming, outgoing, balance, is_flagged, double_spent, slot_count, envelopes_for_seq,
}
use kemi.Ledger.Gossip.{receive}
use kemi.Fixtures.{
  toy, alice, carol, now, pay_bob, pay_again, row_again, start, after_bob, provider,
}
use kemi.Node.{Node, gossip_tx, note, truthy, is_object}
use kemi.Node.Cache.{Cache, execute_chunk, IsFaithful, execute_chunk-IsFaithful}
use kemi.Node.Payment.{
  execute_paid, validate_payment, check_payload, check_account, on_task_execute, collect, conclude,
  served,
}
use kemi.Node.Served.{IsServed, on_task_execute-IsServed}
use kemi.Node.Twice.{execute_paid-again}
use kemi.Node.Funded.{IsFunded, validate_payment-IsFunded}
use kemi.Node.Pushed.{push_all, after_push, push_all-receive}
use kemi.Node.Streaming.{
  Frame, accepted, warming, token, finished, Produced, silent, next_token, all_done, Offered,
  stream_task, relay_tokens, finish_with,
}
use kemi.Node.Streaming.PaidFirst.{IsPaidFirst, stream_task-IsPaidFirst}
use kemi.Node.Witness.{
  on_tx_witness, answer_witness, sign_receipt, evidence_for, conflicting, receipt, payload_or_empty,
  on_tx_witness-conflict,
}
use kemi.Node.Committee.{
  Answer, witness_check, vetoes, tally, check_receipt, evidence_of, record_evidence,
}

machine : Unit {0}
unfolding execute_paid sign_envelope open_envelope digest verify_node_id verify_key check_pow
    node_id_digest leading_zero_bits bit_length get number integer text is_text round_micro to_hex
    from_hex hexdigest big_endian hex_char hex_value hex_digits find upsert base_row parse_transfer
    base_seq_of insert store tx_of judge_transfer judge add_tx enter is_counted incoming outgoing
    balance is_flagged double_spent slot_count is_banned gossip_tx note truthy validate_payment
    check_payload check_account on_task_execute collect conclude push_all after_push on_tx_witness
    answer_witness witness_check tally check_receipt evidence_of record_evidence stream_task
    relay_tokens finish_with ◌+ℤ◌ ◌-ℤ◌
machine = tt

abbrev seven : ℕ
seven = 7

abbrev price : ℕ
price = 30_000_000

abbrev show : Value → String
show v = ""

abbrev agree : Node → Result (Bool × Node)
agree n = ok (true, n)

abbrev work : Node → Option ℕ × Node
work n = (some seven, n)

abbrev paid : Node
paid = (conclude toy show (provider after_bob) pay_bob alice price seven known).1

bob_accepts : validate_payment toy show (provider start) pay_bob 30_000_000_000 ≡ ok (alice, none)
unfolding machine
bob_accepts = refl

validate_payment-IsFunded_example : IsFunded toy show (provider start) pay_bob 30_000_000_000 alice
validate_payment-IsFunded_example =
    validate_payment-IsFunded toy show (provider start) pay_bob 30_000_000_000 alice bob_accepts

bob_serves :
    on_task_execute toy show now true
      (some 1)
      30_000_000_000
      pay_bob
      agree
      work
      (provider after_bob)
    ≡ ok (served seven price, paid)
unfolding machine
bob_serves = refl

on_task_execute-IsServed_example :
    (count : ℕ) × (sender : String) × (n1 : Node) × (true ≡ true)
    × (some 1 ≡ some count)
    × (price ≡ round_micro (30_000_000_000 * count))
    × IsFunded toy show (provider after_bob) pay_bob (price * 1000) sender
    × (agree (provider after_bob) ≡ ok (true, n1))
    × IsServed toy now pay_bob (work n1).1 paid
on_task_execute-IsServed_example =
    on_task_execute-IsServed toy show now true (some 1) 30_000_000_000 price pay_bob agree work
      (provider after_bob) paid seven bob_serves

bob_serves_first :
    execute_paid toy show now pay_bob price agree work (provider start)
    ≡ ok (served seven price, paid)
unfolding machine
bob_serves_first = refl

bob_accepts_later : validate_payment toy show paid pay_bob 30_000_000_000 ≡ ok (alice, none)
unfolding machine record_event add_event
bob_accepts_later = refl

execute_paid-again_example :
    (m : Node) × (execute_paid toy show (pos 9) pay_bob price agree work paid
      ≡ ok (served seven price, m))
    × (m.ledger ≡ paid.ledger)
    × (m.credits_earned ≡ paid.credits_earned + price)
execute_paid-again_example =
    execute_paid-again toy show now (pos 9) pay_bob price price price agree agree work work
      (provider start) paid paid paid seven seven alice bob_serves_first (omega arith)
      bob_accepts_later refl refl refl

abbrev streaming : Offered
streaming = record {
  closed = false;
  provides = true;
  supported = true;
  streams = true;
  price = 30_000_000_000;
  items = some 1;
}

abbrev produced : List Produced
produced = silent ∷ next_token 0 "ab" ∷ all_done ("ab" ∷ []) ∷ []

abbrev streamed : List Frame × Node
streamed = (
  accepted ∷ warming ∷ token 0 "ab" ∷ finished ("ab" ∷ []) price ∷ [],
  note (gossip_tx (provider after_bob) pay_bob) alice chunk_ok,
)

tokens_follow_payment :
    stream_task toy show now pay_bob 9 agree "ai.generate" streaming produced (provider after_bob)
    ≡ ok streamed
unfolding machine
tokens_follow_payment = refl

stream_task-IsPaidFirst_example :
    IsPaidFirst toy show now pay_bob 9 agree produced (provider after_bob) streaming streamed
stream_task-IsPaidFirst_example =
    stream_task-IsPaidFirst toy show now pay_bob 9 agree produced (provider after_bob) "ai.generate"
      streaming streamed tokens_follow_payment

judge_again : judge toy now [] 0 pay_again ≡ ok (admit row_again)
unfolding machine
judge_again = refl

-- the witness after its veto
abbrev vetoed : Node
vetoed =
    (answer_witness toy show now (provider (insert after_bob row_again pay_again)) pay_again
      conflict).1

carol_vetoes :
    on_tx_witness toy show now (provider after_bob) (some pay_again)
    ≡ ok (conflicting (pay_bob ∷ []), vetoed)
unfolding machine evidence_for envelopes_for_seq
carol_vetoes = refl

on_tx_witness-conflict_example :
    on_tx_witness toy show now vetoed (some pay_again)
    ≡ ok (receipt (sign_receipt toy show now vetoed (payload_or_empty toy show pay_again)), vetoed)
unfolding judge sign_envelope
on_tx_witness-conflict_example =
    on_tx_witness-conflict toy show now now (provider after_bob) vetoed _ row_again (pay_bob ∷ [])
      judge_again judge_again carol_vetoes

push_of_both :
    push_all toy show now 0 (provider start) (str "x" ∷ pay_bob ∷ [])
    ≡ ok (1, (after_push toy show 0 (provider after_bob) pay_bob new).1)
unfolding machine
push_of_both = refl

push_all-receive_example :
    receive toy now start (keep is_object (str "x" ∷ pay_bob ∷ []))
    ≡ ok (after_push toy show 0 (provider after_bob) pay_bob new).1.ledger
push_all-receive_example =
    push_all-receive toy show now (str "x" ∷ pay_bob ∷ []) 0 (provider start) push_of_both

-- one receipt that does not count, and one veto
abbrev answers : List Answer
answers =
    (carol, some (field "ok" (bool true) end))
    ∷ (alice, none)
    ∷ (carol, some (field "error" (str "conflict") end))
    ∷ []

one_vetoes : any (vetoes toy) answers ≡ true
unfolding machine
one_vetoes = refl

check_of_answers :
    witness_check toy now pay_bob alice answers (provider start)
    ≡ ok (false, note (provider start) alice double_spend)
unfolding machine
check_of_answers = refl

-- a full cache of two entries under which a third result drops the oldest
abbrev doubled : ℕ → Option ℕ
doubled k = some (k + k)

abbrev cached : Cache ℕ
cached = record { capacity = 2; entries = (3, 6) ∷ (4, 8) ∷ []; hits = 0; misses = 2 }

execute_chunk-IsFaithful_example :
    ((execute_chunk doubled (some 5) none cached).0 ≡ doubled 5)
    × IsFaithful doubled (execute_chunk doubled (some 5) none cached).1
execute_chunk-IsFaithful_example =
    execute_chunk-IsFaithful doubled 5 none cached
      (record { correct = (refl, (refl, tt)); fits = omega arith })
