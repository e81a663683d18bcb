-- ===== src/Discovery/Tests.antt =====
-- Two records of one provider, of which the later one is found.
use kemi.Prelude.{◌*◌, ◌≡◌, ◌⊎◌, refl, false, List, [], ◌∷◌, map}
use kemi.Prelude.Int.{ℤ, pos, ◌-ℤ◌}
use kemi.Prelude.Assoc.{find, upsert}
use kemi.Json.{Value, null, str, get, number, is_text, billion, to_list, of_list, integer}
use kemi.Crypto.{
  open_envelope, sign_envelope, verify_node_id, verify_key, check_pow, node_id_digest,
  leading_zero_bits, bit_length,
}
use kemi.Crypto.Hex.{to_hex, from_hex, hexdigest, big_endian, hex_char, hex_value, hex_digits}
use kemi.Fixtures.{toy, alice}
use kemi.Ledger.{Identity}
use kemi.Result.{Result, ok, raise}
use kemi.Discovery.{
  Advert, Found, provider_payload, set_field, names_task, is_within, make_provider_record,
  check_envelope, keep_latest, collect, find_providers,
}
use kemi.Discovery.Latest.{IsRaised, IsLatest, find_providers-IsLatest}

abbrev me : Identity
me = record { seed = []; pow_nonce = 0; node_id = alice }

abbrev advert : Advert
advert = record {
  host = "10.0.0.1";
  port = pos 9000;
  price = 1000;
  tasks = str "data.aggregate" ∷ str "vector.search" ∷ [];
  resources = null;
  relay = null;
  stream = false;
  model = null;
  embed = false;
}

-- at 100 and 103 seconds, and one that is too old at 150 seconds
abbrev envelopes : List Value
envelopes =
    make_provider_record toy (pos (100 * billion)) me advert
    ∷ make_provider_record toy (pos (103 * billion)) me advert
    ∷ make_provider_record toy (pos 0) me advert
    ∷ []

abbrev times : Result (List Found) → List ℤ
times (ok rs) = map (λ (r : Found). r.ts) rs
times (raise e) = []

latest_is_found :
    times (find_providers toy 8 (pos (150 * billion)) "vector.search" envelopes)
    ≡ pos (103 * billion) ∷ []
unfolding make_provider_record provider_payload set_field names_task is_within check_envelope
    keep_latest collect find_providers find upsert get number is_text to_list of_list integer
    open_envelope sign_envelope verify_node_id verify_key check_pow node_id_digest leading_zero_bits
    bit_length to_hex from_hex hexdigest big_endian hex_char hex_value hex_digits ◌-ℤ◌
latest_is_found = refl

find_providers-IsLatest_example :
    IsRaised toy 8 (pos (150 * billion)) "vector.search" envelopes
    ⊎ ((found : List Found) × (find_providers toy 8 (pos (150 * billion)) "vector.search" envelopes
          ≡ ok found)
        × IsLatest toy 8 (pos (150 * billion)) "vector.search" envelopes found)
find_providers-IsLatest_example =
    find_providers-IsLatest toy 8 (pos (150 * billion)) "vector.search" envelopes
