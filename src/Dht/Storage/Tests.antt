-- ===== src/Dht/Storage/Tests.antt =====
-- A node with room for one key.
use kemi.Prelude.{String, ◌≡◌, refl, false, [], ◌∷◌, arith}
use kemi.Prelude.Int.{ℤ, pos, ◌+ℤ◌, ◌-ℤ◌}
use kemi.Prelude.Assoc.{find, upsert}
use kemi.Json.{Value, Fields, str, float, field, end, get, number}
use kemi.Crypto.{open_envelope, digest, sign_envelope}
use kemi.Crypto.Hex.{to_hex, from_hex, hex_char, hex_value}
use kemi.Result.{Result, ok}
use kemi.Fixtures.{toy, alice, bob}
use kemi.Dht.Storage.{
  Storage, put_value, live, expire, timely_record, store_value, handle_store, find_value,
}
use kemi.Dht.Storage.Bounds.{store, look, run, step}
use kemi.Dht.Storage.Full.{IsFull, handle_store-refuses}

machine : Unit {0}
unfolding find upsert get number open_envelope digest sign_envelope to_hex from_hex hex_char
    hex_value put_value live expire timely_record store_value handle_store find_value run step ◌+ℤ◌
    ◌-ℤ◌
machine = tt

abbrev show : Value → String
show v = ""

abbrev ninety : Value → Result ℤ
ninety v = ok (pos 90_000_000_000)

abbrev room_for_one : Storage
room_for_one = record { max_keys = 1; slots = [] }

abbrev message : String → Fields
message key =
    field "key" (str key)
      (field "value" (sign_envelope toy [] (field "ts" (float (pos 1000)) end)) end)

-- alice's record at time 0, which has expired long before time 10^12
abbrev used : Storage
used = run toy show ninety room_for_one (store (pos 0) (message alice) ∷ [])

used-IsFull : IsFull bob used
unfolding machine
used-IsFull = record { used = omega arith; absent = refl }

bob_is_refused :
    handle_store toy show ninety
      (pos 1_000_000_000_000)
      (message bob)
      (run toy show ninety used (look (pos 1_000_000_000_000) alice ∷ []))
    ≡ ok (false, record { max_keys = 1; slots = (alice, []) ∷ [] })
unfolding machine
bob_is_refused = refl

handle_store-refuses_example : false ≡ false
unfolding get
handle_store-refuses_example =
    handle_store-refuses toy show ninety (look (pos 1_000_000_000_000) alice ∷ []) used
      (record { max_keys = 1; slots = (alice, []) ∷ [] }) (pos 1_000_000_000_000) (message bob)
      false used-IsFull bob_is_refused
