-- ===== src/Node/Pull/Tests.antt =====
-- A node without transfers pulls from one that has two.
use kemi.Prelude.{◌≡◌, refl, Option, none, some, [], arith, map, keep}
use kemi.Prelude.Int.{ℤ, pos, ◌+ℤ◌, ◌-ℤ◌}
use kemi.Prelude.Assoc.{find, upsert}
use kemi.Json.{Value, int, get, number, integer, text, is_text, round_micro}
use kemi.Crypto.{
  open_envelope, digest, verify_node_id, verify_key, check_pow, node_id_digest, leading_zero_bits,
  bit_length, sign_envelope,
}
use kemi.Crypto.Hex.{to_hex, from_hex, hexdigest, big_endian, hex_char, hex_value, hex_digits}
use kemi.Result.{ok}
use kemi.Fixtures.{now, start, after_both, toy}
use kemi.Ledger.{
  parse_transfer, base_seq_of, base_row, insert, store, tx_of, judge_transfer, judge, add_tx, enter,
  Row,
}
use kemi.Ledger.Gossip.{receive}
use kemi.Ledger.Tables.{IsValid}
use kemi.Ledger.Pulling.{after}
use kemi.Node.{is_object}
use kemi.Node.Pull.{PeerAddress, Pulled, pull_from, cursor_at}
use kemi.Node.Pull.Caught.{honest, pull_from-receive}

after_both-IsValid : IsValid after_both
after_both-IsValid = record {
  distinct = (refl, (refl, tt));
  ascending = (omega arith, (omega arith, omega arith));
}

abbrev whole : Value → Option ℤ
whole (int z) = some z
whole _ = none

abbrev peer : PeerAddress
peer = record { host = "10.0.0.1"; port = pos 9000 }

abbrev nothing_yet : Pulled
nothing_yet = record { count = 0; replica = start; cursors = [] }

both_arrive :
    receive toy now start (keep is_object (map (λ (r : Row). r.envelope) (after 0 after_both.rows)))
    ≡ ok after_both
unfolding receive sign_envelope open_envelope digest verify_node_id verify_key check_pow
    node_id_digest leading_zero_bits bit_length to_hex from_hex hexdigest big_endian hex_char
    hex_value hex_digits find upsert get number integer text is_text round_micro parse_transfer
    base_seq_of base_row insert store tx_of judge_transfer judge add_tx enter ◌+ℤ◌ ◌-ℤ◌
both_arrive = refl

pull_from-receive_example :
    (done : Pulled) × (pull_from toy whole
        (honest toy now whole (λ z. refl) peer after_both after_both-IsValid)
        now
        peer
        nothing_yet
      ≡ ok done)
    × (done.replica ≡ after_both)
unfolding cursor_at
pull_from-receive_example =
    pull_from-receive toy now whole (λ z. refl) peer after_both after_both-IsValid 0 nothing_yet
      after_both refl (omega arith) both_arrive
