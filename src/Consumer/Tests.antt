-- ===== src/Consumer/Tests.antt =====
-- A stream over two providers, of whom the first breaks off before its first token.
use kemi.Prelude.{
  ◌+◌, ◌*◌, String, ◌≡◌, true, false, Option, none, some, List, [], ◌∷◌, All, ◌⊎◌, length, ℕ, refl,
  arith,
}
use kemi.Prelude.Int.{ℤ, pos, ◌+ℤ◌, ◌-ℤ◌}
use kemi.Json.{
  Value, Fields, bool, str, int, arr, nil, cons, end, field, get, is_text, number, integer, text,
  round_micro, to_list,
}
use kemi.Crypto.Hex.{Bytes}
use kemi.Crypto.Ed25519.{Sha512}
use kemi.Crypto.Octets.{from_little, to_little, length-to_little}
use kemi.Result.{Result, ok, raise, job_error}
use kemi.Node.{Node, truthy, gossip_tx, note, with_ledger}
use kemi.Fixtures.{toy, alice, bob, carol, provider, start}
use kemi.Consumer.Hiring.{Provider, routed, box_key, is_short, amount_for}
use kemi.Consumer.Replies.{send_to_provider, judge_reply, read_results}
use kemi.Consumer.Direct.{conclude_chunk, execute_on, payment, IsSettled, execute_on-IsSettled}
use kemi.Scheduler.{acquire, is_skipped, assign_to, new_chunk}
use kemi.Prelude.Assoc.{find, upsert}
use kemi.Ledger.{
  base_row, make_tx, next_seq, max_seq, reserve_seq, add_tx, judge, enter, store, insert, tx_of,
  judge_transfer, parse_transfer, base_seq_of,
}
use kemi.Crypto.{
  sign_envelope, open_envelope, digest, verify_node_id, verify_key, check_pow, node_id_digest,
  leading_zero_bits, bit_length,
}
use kemi.Crypto.Hex.{to_hex, from_hex, hexdigest, big_endian, hex_char, hex_value, hex_digits}
use kemi.Ledger.Queries.{balance, incoming, outgoing}
use kemi.Consumer.Job.{
  Job, start_job, split_items, min_price, begin_chunk, sign_payment, spent_pending, on_chunk,
}
use kemi.Consumer.Job.Signed.{IsCovered}
use kemi.Consumer.Job.Covered.{begin_chunk-IsCovered, begun, started}
use kemi.Consumer.Job.Steady.{total_due}
use kemi.Consumer.Stream.{
  mirror, Arrival, frame, network_error, Attempt, attempt, receive, on_frame, on_event, event_of,
  stream_generate,
}
use kemi.Consumer.Stream.OneSource.{IsProper, IsFromOne, stream_generate-IsFromOne}

abbrev toy_sha512 : Sha512
toy_sha512 = record {
  hash = λ m. to_little 64 (from_little m * 7 + 3);
  length-hash = λ m. length-to_little 64 _;
}

abbrev token_frame : Fields
token_frame = field "evt" (str "token") (field "item" (int (pos 0)) (field "t" (str "hi") end))

abbrev end_frame : Fields
end_frame =
    field "evt" (str "end")
      (field "end" (bool true) (field "ok" (bool true) (field "results" (arr nil) end)))

abbrev hire : String → List Arrival → Attempt
hire id arrivals = record {
  provider = record {
    node_id = id;
    price = 2_000_000;
    e2e = true;
    pubkey = none;
    host = "10.0.0.1";
    port = pos 9000;
    relay = none;
  };
  signed_at = pos 5;
  settled_at = pos 6;
  nonce = to_little 24 1;
  stream = λ request. arrivals;
}

abbrev no_json : Bytes → Option Value
no_json bs = none

abbrev no_int : Value → Result ℤ
no_int v = ok (pos 0)

abbrev no_show : Value → String
no_show v = ""

abbrev attempts : List Attempt
attempts =
    hire bob (frame (field "evt" (str "accepted") end) ∷ network_error ∷ [])
    ∷ hire carol (frame token_frame ∷ frame end_frame ∷ [])
    ∷ []

abbrev prompts : List Value
prompts = str "hello" ∷ []

abbrev consumer : Node
consumer = record (provider start) {
  identity = record { seed = []; pow_nonce = 0; node_id = alice };
}

attempts-IsProper : All (IsProper toy toy_sha512 no_json no_int no_show false prompts end) attempts
unfolding attempt receive on_frame on_event event_of get is_text truthy box_key
attempts-IsProper = (λ tx n s e. cc, (λ tx n s e. cc, tt))

stream_generate-IsFromOne_example :
    IsFromOne
      (stream_generate toy toy_sha512 no_json no_int no_show false prompts end attempts consumer)
stream_generate-IsFromOne_example =
    stream_generate-IsFromOne toy toy_sha512 no_json no_int no_show false prompts end attempts
      consumer attempts-IsProper

abbrev one_reply : (String × ℤ) × Fields → Option Fields
one_reply request = some (field "ok" (bool true) (field "results" (arr (cons (str "hi") nil)) end))

abbrev worker : Provider
worker = record {
  node_id = bob;
  price = 2_000_000;
  e2e = true;
  pubkey = none;
  host = "10.0.0.1";
  port = pos 9000;
  relay = none;
}

-- what a chunk computes through
machine : Unit {0}
unfolding execute_on send_to_provider judge_reply read_results conclude_chunk mirror add_tx judge
    enter store insert tx_of judge_transfer parse_transfer base_seq_of open_envelope sign_envelope
    digest verify_node_id verify_key check_pow node_id_digest leading_zero_bits bit_length get
    number integer text is_text round_micro to_hex from_hex hexdigest big_endian hex_char hex_value
    hex_digits make_tx reserve_seq next_seq max_seq base_row find upsert balance incoming outgoing
    truthy gossip_tx note to_list box_key routed ◌+ℤ◌ ◌-ℤ◌
machine = tt

-- the worker delivers, and the payment is taken as new
abbrev after_chunk : Result (List Value) × Node
after_chunk =
    execute_on toy toy_sha512 no_json one_reply (pos 5) (pos 6) (to_little 24 1) false worker
      "hash.sha256" prompts end consumer

worker_delivers : (after_chunk.0 ≡ ok (str "hi" ∷ [])) × (length after_chunk.1.ledger.rows ≡ 1)
unfolding machine
worker_delivers = (refl, refl)

execute_on-IsSettled_example :
    ((is_short consumer (amount_for worker prompts) ≡ true)
      × (execute_on toy toy_sha512 no_json one_reply
            (pos 5)
            (pos 6)
            (to_little 24 1)
            false
            worker
            "hash.sha256"
            prompts
            end
            consumer
          ≡ (raise job_error, consumer)))
    ⊎ ((is_short consumer (amount_for worker prompts) ≡ false)
        × ((payment toy toy_sha512 no_json one_reply
              (pos 5)
              (pos 6)
              (to_little 24 1)
              false
              worker
              "hash.sha256"
              prompts
              end
              consumer).1.rows
            ≡ consumer.ledger.rows)
        × IsSettled toy toy_sha512 no_json one_reply
            (pos 6)
            (length prompts)
            (payment toy toy_sha512 no_json one_reply
              (pos 5)
              (pos 6)
              (to_little 24 1)
              false
              worker
              "hash.sha256"
              prompts
              end
              consumer).0
            (with_ledger consumer
              (payment toy toy_sha512 no_json one_reply
                (pos 5)
                (pos 6)
                (to_little 24 1)
                false
                worker
                "hash.sha256"
                prompts
                end
                consumer).1)
            (execute_on toy toy_sha512 no_json one_reply
              (pos 5)
              (pos 6)
              (to_little 24 1)
              false
              worker
              "hash.sha256"
              prompts
              end
              consumer))
execute_on-IsSettled_example =
    execute_on-IsSettled toy toy_sha512 no_json one_reply (pos 5) (pos 6) (to_little 24 1) false
      worker "hash.sha256" prompts end consumer

-- a job of two items in two chunks
abbrev job_items : List Value
job_items = str "hello" ∷ str "world" ∷ []

abbrev job_start : Job
job_start = record {
  chunks = split_items 2 1 1 job_items;
  spent = 0;
  exposure = 0;
  providers_used = [];
  encrypted_chunks = 0;
  strikes = [];
  pending = [];
  node = consumer;
}

job_starts : start_job (worker ∷ []) 1 1 job_items consumer ≡ ok job_start
unfolding start_job min_price balance incoming outgoing base_row find ◌+ℤ◌ ◌-ℤ◌
job_starts = refl

abbrev no_print : List Value → ℕ
no_print results = 0

abbrev first_turn : Job
first_turn = begin_chunk toy 2_000_000 1 1 (pos 5) false worker job_start

begin_chunk-IsCovered_example :
    IsCovered toy 2_000_000 1 1 first_turn
      (begin_chunk toy 2_000_000 1 1 (pos 6) false worker first_turn)
begin_chunk-IsCovered_example =
    begin_chunk-IsCovered toy no_print 2_000_000 1 1 (worker ∷ []) job_items consumer job_starts
      (begun (pos 5) false worker started (omega arith)) (pos 6) false worker (omega arith)

-- the first turn signs one payment, of two credits
first_turn_signs : total_due first_turn.pending ≡ 2_000_000
unfolding begin_chunk acquire is_skipped assign_to sign_payment spent_pending split_items new_chunk
    on_chunk make_tx balance incoming outgoing base_row find upsert next_seq max_seq ◌+ℤ◌ ◌-ℤ◌
first_turn_signs = refl
