-- ===== src/E2e/Box.antt =====
-- kemi/e2e.py: the secret box, seal and open_sealed.
use kemi.Prelude.{
  ◌+◌, Bool, true, false, ◌&&◌, Option, none, some, [], ◌∷◌, ◌++◌, ltb, ◌==◌, length, take, drop,
  if◌then◌else◌,
}
use kemi.Crypto.Hex.{Bytes, from_hex, to_hex}
use kemi.Crypto.Octets.{xor_bytes}
use kemi.Json.{Value, Fields, obj, str, field, end, get}
use kemi.Result.{Result, ok, raise, e2e_error}
use kemi.E2e.Salsa.{xsalsa20_stream}
use kemi.E2e.Poly.{poly1305}

-- secrets.compare_digest
unfoldable pub bytes_eq : Bytes → Bytes → Bool
bytes_eq [] [] = true
bytes_eq (a ∷ xs) (b ∷ ys) = a == b && bytes_eq xs ys
bytes_eq _ _ = false

unfoldable pub secretbox_seal : Bytes → Bytes → Bytes → Bytes
secretbox_seal key nonce24 plaintext =
    let stream = xsalsa20_stream key nonce24 (32 + length plaintext) in
    let ciphertext = xor_bytes plaintext (drop 32 stream) in
    poly1305 ciphertext (take 32 stream) ++ ciphertext

unfoldable pub secretbox_open : Bytes → Bytes → Bytes → Result Bytes
secretbox_open key nonce24 sealed =
    if ltb (length sealed) 16
    then raise e2e_error
    else let ciphertext = drop 16 sealed in
      let stream = xsalsa20_stream key nonce24 (32 + length ciphertext) in
      if bytes_eq (take 16 sealed) (poly1305 ciphertext (take 32 stream))
      then ok (xor_bytes ciphertext (drop 32 stream))
      else raise e2e_error

-- with the nonce that token_bytes draws
unfoldable pub seal : Bytes → Bytes → Bytes → Fields
seal nonce key plaintext =
    field "n" (str (to_hex nonce))
      (field "c" (str (to_hex (secretbox_seal key nonce plaintext))) end)

abbrev hex_field : Option Value → Option Bytes
hex_field (some (str s)) = from_hex s
hex_field _ = none

abbrev open_box : Bytes → Option Bytes → Option Bytes → Result Bytes
open_box key (some nonce) (some boxed) =
    if length nonce == 24 then secretbox_open key nonce boxed else raise e2e_error
open_box key _ _ = raise e2e_error

-- an envelope that is no dictionary, lacks a field or has a bad one is refused
unfoldable pub open_sealed : Bytes → Value → Result Bytes
open_sealed key (obj envelope) =
    open_box key (hex_field (get "n" envelope)) (hex_field (get "c" envelope))
open_sealed key _ = raise e2e_error
