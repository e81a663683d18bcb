-- ===== src/Node/Relay/Tests.antt =====
-- Two requests and a stream over one session, answered out of order; and a relay with room for one.
use Prim.Native.String.count
use Prim.Native.String.{count}
use kemi.Prelude.{ℕ, zero, suc, String, ◌≡◌, refl, sym, ap, ◌∙◌, List, [], ◌∷◌}
use kemi.Prelude.Int.{pos, ◌-ℤ◌}
use kemi.Prelude.Assoc.{find, upsert, remove, map_values}
use kemi.Json.{Value, Fields, int, str, obj, float, field, end, get, number, is_text, integer}
use kemi.Crypto.{
  sign_envelope, open_envelope, verify_node_id, verify_key, check_pow, node_id_digest,
  leading_zero_bits, bit_length,
}
use kemi.Crypto.Hex.{to_hex, from_hex, hexdigest, big_endian, hex_char, hex_value, hex_digits}
use kemi.Fixtures.{toy, alice}
use kemi.Node.{truthy}
use kemi.Node.Relay.{
  resolved, failed, new_session, Happening, ask, ask_stream, reply, taken, broken, route_reply,
  settle_future, fail_future, drop_first, happen, happen_all, fail_all, id_text, RelayLimits,
  count_ip, relay_full, register_session, end_session,
}
use kemi.Node.Relay.Alone.{request, alone, seen}
use kemi.Node.Relay.Routing.{sessions_are_separate}
use kemi.Node.Relay.Capacity.{Visit, asks, ends, visits, IsWithin, visits-IsWithin}

-- numbers as mark_text marks
abbrev marks : ℕ → String
marks zero = ""
marks (suc n) = String.◌∷◌ "I" (marks n)

abbrev mark_text : Value → String
mark_text (int (pos n)) = marks n
mark_text _ = "None"

count-marks : (n : ℕ) → Prim.Native.String.count (marks n) ≡ n
count-marks zero = count.nil
count-marks (suc n) = count.cons "I" (marks n) ∙ ap suc (count-marks n)

marks_tell_apart : (a b : ℕ) → id_text mark_text a ≡ id_text mark_text b → a ≡ b
marks_tell_apart a b h =
    sym (count-marks a) ∙ (ap (λ s. Prim.Native.String.count s) h ∙ count-marks b)

abbrev answer_to : ℕ → Fields → Fields
answer_to k response = field "id" (int (pos k)) (field "response" (obj response) end)

abbrev pong : Fields
pong = field "n" (int (pos 7)) end

abbrev course : List Happening
course =
    ask
    ∷ ask
    ∷ ask_stream
    ∷ reply (answer_to 3 pong)
    ∷ reply (answer_to 2 pong)
    ∷ taken 3
    ∷ broken
    ∷ []

first_fails : seen mark_text 1 (happen_all mark_text new_session course) ≡ request failed
unfolding happen_all happen route_reply settle_future fail_future drop_first fail_all find upsert
    remove map_values get truthy
first_fails = refl

sessions_are_separate_example :
    seen mark_text 2 (happen_all mark_text new_session course) ≡ request (resolved pong)
unfolding alone get settle_future fail_future drop_first
sessions_are_separate_example = sessions_are_separate mark_text 2 marks_tell_apart course

abbrev hello : Fields
hello =
    field "envelope"
      (sign_envelope toy [] (
        field "kind" (str "relay") (
          field "node_id" (str alice)
            (field "pow_nonce" (int (pos 0)) (field "ts" (float (pos 0)) end)))))
      end

abbrev room_for_one : RelayLimits
room_for_one = record { max_relay_sessions = 1; per_ip_relay_sessions = 1 }

abbrev arrivals : List Visit
arrivals = asks (pos 0) 1 "10.0.0.1" hello ∷ asks (pos 0) 2 "10.0.0.2" hello ∷ ends 2 alice ∷ []

one_is_held :
    visits toy 8 room_for_one [] arrivals ≡ (alice, record { connection = 1; ip = "10.0.0.1" }) ∷ []
unfolding visits register_session end_session relay_full count_ip find upsert remove get number
    is_text integer open_envelope sign_envelope verify_node_id verify_key check_pow node_id_digest
    leading_zero_bits bit_length to_hex from_hex hexdigest big_endian hex_char hex_value hex_digits
    truthy ◌-ℤ◌
one_is_held = refl

visits-IsWithin_example : IsWithin toy 8 room_for_one (visits toy 8 room_for_one [] arrivals)
visits-IsWithin_example = visits-IsWithin toy 8 room_for_one arrivals
