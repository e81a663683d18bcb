-- ===== src/Crypto.antt =====
-- kemi/crypto.py and kemi/identity.py: signed envelopes, digests and proof-of-work node ids.
-- The primitives that the code takes from hashlib, json and the Ed25519 backend are parameters.
pub mod Hex
pub mod Verified
pub mod Xor
pub mod Octets
pub mod Ed25519
use kemi.Prelude.{
  ℕ, zero, suc, ◌+◌, ◌-◌, ◌/◌, ◌≤◌, ◌<◌, ◌^◌, String, ◌≡◌, Bool, true, false, ◌&&◌, Option, none,
  some, List, [], ◌∷◌, ◌++◌, leb, ltb, ◌==◌, length, str_eq, if◌then◌else◌,
}
use kemi.Prelude.Int.{ℤ, pos, negsuc}
use kemi.Json.{Value, Fields, str, obj, field, end, get, integer, is_text}
use kemi.Result.{Result, ok, raise, type_error, overflow_error, ◌>>=◌}
use Hex.{Bytes, from_hex, to_hex, hexdigest, big_endian}

pub record Primitives : Type 0 where
  -- json.dumps(obj, sort_keys=True, …).encode("utf-8")
  pub encode : Value → Bytes
  -- hashlib.sha256, as the number whose 64 hex digits are hexdigest()
  pub sha256 : Bytes → ℕ
  pub sha256_bound : (m : Bytes) → sha256 m < 2 ^ 256
  -- the key pair of a seed, and the two operations of the Ed25519 backend
  pub public_key : Bytes → Bytes
  pub sign : Bytes → Bytes → Bytes
  pub verify : Bytes → Bytes → Bytes → Bool
  -- RFC 8032: a signature verifies under the key that made it
  pub verify-sign : (seed m : Bytes) → verify (public_key seed) m (sign seed m) ≡ true

module _ (p : Primitives) where
  -- digest(obj), as a number: the order of the hex texts is the order of the numbers
  unfoldable pub digest : Value → ℕ
  digest v = p.sha256 (p.encode v)

  unfoldable pub sign_envelope : Bytes → Fields → Value
  sign_envelope seed payload = obj (
      field "payload" (obj payload) (
        field "pubkey" (str (to_hex (p.public_key seed)))
          (field "sig" (str (to_hex (p.sign seed (p.encode (obj payload))))) end)))

  abbrev hex_field : Option Value → Option Bytes
  hex_field (some (str s)) = from_hex s
  hex_field _ = none

  abbrev pub checked : Option Value → Option Bytes → Option Bytes → Option Fields
  checked (some (obj payload)) (some pubkey) (some sig) =
      if p.verify pubkey (p.encode (obj payload)) sig then some payload else none
  checked _ _ _ = none

  -- a missing field, a field of another type and a bad hex text are caught, and give None
  unfoldable pub open_envelope : Value → Option Fields
  open_envelope (obj envelope) =
      checked (get "payload" envelope) (hex_field (get "pubkey" envelope))
        (hex_field (get "sig" envelope))
  open_envelope _ = none

  -- _node_id: sha256(public_key + nonce.to_bytes(8, "big")).hexdigest()
  unfoldable pub node_id_digest : Bytes → ℕ → ℕ
  node_id_digest public_key nonce = p.sha256 (public_key ++ big_endian 8 nonce [])

-- int.bit_length, of a number below 2^fuel
unfoldable pub bit_length : ℕ → ℕ → ℕ
bit_length zero n = 0
bit_length (suc fuel) n = elim (n == 0) [ true ↦ 0 | false ↦ suc (bit_length fuel (n / 2)) ]

unfoldable pub leading_zero_bits : ℕ → ℕ
leading_zero_bits value = 256 - bit_length 256 value

module _ (p : Primitives) where
  -- the last test of verify_node_id; to_bytes raises above eight bytes
  unfoldable pub check_pow : Value → Bytes → ℕ → ℕ → Result Bool
  check_pow node_id public_key nonce difficulty =
      if ltb nonce (2 ^ 64)
      then (let derived = node_id_digest p public_key nonce in
          ok (
            is_text (hexdigest derived) (some node_id)
            && leb difficulty (leading_zero_bits derived)))
      else raise overflow_error

  -- bytes.fromhex of what is no text raises; a nonce that is no integer, or below 0, is refused
  unfoldable pub verify_key : Value → Bytes → Option ℤ → ℕ → Result Bool
  verify_key node_id public_key (some (pos nonce)) difficulty =
      if length public_key == 32 then check_pow node_id public_key nonce difficulty else ok false
  verify_key node_id public_key _ difficulty = ok false

  unfoldable pub verify_node_id : Value → Option Value → Option Value → ℕ → Result Bool
  verify_node_id node_id (some (str hex)) pow_nonce difficulty = elim (from_hex hex) [
    | none ↦ ok false
    | some public_key ↦ verify_key node_id public_key (integer pow_nonce) difficulty
  ]
  verify_node_id node_id _ pow_nonce difficulty = raise type_error
