-- ===== src/Dht/Exchange/Tests.antt =====
-- A record that a node with room for one key has stored, asked for a minute later.
use kemi.Prelude.{
  String, ◌≡◌, refl, sym, true, Option, some, List, [], ◌∷◌, arith, or_else, all, any, ◌==◌,
}
use kemi.Prelude.Int.{ℤ, pos, ◌+ℤ◌, ◌-ℤ◌}
use kemi.Prelude.Assoc.{find, upsert}
use kemi.Json.{obj, int, integer, Value, Fields, str, arr, float, field, end, nil, get, number}
use kemi.Crypto.{open_envelope, digest, sign_envelope}
use kemi.Crypto.Hex.{to_hex, from_hex, hex_char, hex_value}
use kemi.Result.{Result, ok, is_ok}
use kemi.Fixtures.{toy, alice}
use kemi.Dht.Contacts.{Contact, iterate}
use kemi.Dht.Storage.{
  Storage, put_value, live, expire, timely_record, store_value, handle_store, find_value,
}
use kemi.Dht.Storage.Bounds.{Call, store, look, run, step}
use kemi.Dht.Exchange.Later.{is_harmless}
use kemi.Dht.Exchange.{get_values}
use kemi.Dht.Exchange.Collected.{has_digest}
use kemi.Dht.Exchange.Kept.{get_values-stored}

machine : Unit {0}
unfolding find upsert get number open_envelope digest sign_envelope to_hex from_hex hex_char
    hex_value put_value live expire timely_record store_value handle_store find_value ◌+ℤ◌ ◌-ℤ◌
machine = tt

abbrev show : Value → String
show v = ""

abbrev ninety : Value → Result ℤ
ninety v = ok (pos 90_000_000_000)

abbrev envelope : Value
envelope = sign_envelope toy [] (field "ts" (float (pos 1000)) end)

abbrev message : Fields
message = field "key" (str alice) (field "value" envelope end)

abbrev room_for_one : Storage
room_for_one = record { max_keys = 1; slots = [] }

abbrev stored : Storage
stored = record {
  max_keys = 1;
  slots = (alice, (digest toy envelope, envelope, pos 90_000_000_000) ∷ []) ∷ [];
}

is_stored : handle_store toy show ninety (pos 0) message room_for_one ≡ ok (true, stored)
unfolding machine
is_stored = refl

abbrev peers : List Contact
peers = record { node_id = alice; host = "10.0.0.1"; port = pos 9000 } ∷ []

abbrev answers : String → Option Fields
answers id = some (field "values" (arr nil) end)

answers_list :
    (id : String) (r : Fields)
    → answers id ≡ some r
    → is_ok (iterate (or_else (get "values" r) (arr nil))) ≡ true
unfolding get iterate
answers_list id r h = rw (sym (value_is h)) refl
  where
    value_is :
        {r : Fields}
        → some (field "values" (arr nil) end) ≡ some r
        → field "values" (arr nil) end ≡ r
    value_is q = cc

-- another envelope under the key, which is stored too, and a question
abbrev other_message : Fields
other_message = field "key" (str alice) (
    field "value"
      (obj (
        field "seq" (int (pos 7)) (
          field "payload" (obj (field "ts" (float (pos 2000)) end))
            (field "pubkey" (str alice) (field "sig" (str "") end)))))
      end)

other_is_stored :
    any
      (λ (k, e, x). k == 7)
      (or_else
        (find alice
          (run toy show ninety stored (store (pos 1_000_000_000) other_message ∷ [])).slots)
        [])
    ≡ true
unfolding machine run step integer
other_is_stored = refl

abbrev requests : List Call
requests = store (pos 1_000_000_000) other_message ∷ look (pos 50_000_000_000) alice ∷ []

are_harmless : all (is_harmless toy (pos 60_000_000_000) (digest toy envelope)) requests ≡ true
unfolding machine integer
are_harmless = refl

get_values-stored_example :
    (vs : List Value) × ((get_values toy answers
        (pos 60_000_000_000)
        alice
        (ok peers)
        (run toy show ninety stored requests)).0
      ≡ ok vs)
    × (has_digest toy (digest toy envelope) vs ≡ true)
unfolding machine
get_values-stored_example =
    get_values-stored toy show ninety (pos 0) (pos 60_000_000_000) (pos 90_000_000_000) message
      envelope room_for_one stored requests peers answers refl refl is_stored are_harmless
      (omega arith) answers_list
