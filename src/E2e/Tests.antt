-- ===== src/E2e/Tests.antt =====
-- Ed25519 and the box on concrete inputs, with a toy hash in place of SHA-512.
use kemi.Prelude.{ℕ, ◌+◌, ◌-◌, ◌*◌, ◌/◌, ◌^◌, ◌≡◌, ◌↔◌, refl, arith, true, [], ◌∷◌, Option, some}
use kemi.Crypto.Hex.{Bytes}
use kemi.Crypto.Octets.{
  IsBytes, to_little, from_little, to_little-IsBytes, length-to_little, All-append,
}
use kemi.Crypto.Ed25519.{
  Sha512, Point, q, inv, pow_mod, diff, curve_d, root_of_minus_one, edwards_add, add_multiples,
  scalarmult, with_sign, check_root, candidate, recover_x, point_compress, point_decompress,
  point_equal, base_y, base_x, base_point, clamp_scalar, secret_expand, pure_public_key, pure_sign,
  pure_verify,
}
use kemi.Crypto.Ed25519.Points.{point_compress-point_decompress}
use kemi.Json.{obj}
use kemi.Result.{ok}
use kemi.E2e.Box.{seal, secretbox_seal, secretbox_open, open_sealed}
use kemi.E2e.Sealing.{open_sealed-seal, secretbox_open_iff}

abbrev toy_hash : Sha512
toy_hash = record {
  hash = λ m. to_little 64 (from_little m * 7 + 3);
  length-hash = λ m. length-to_little 64 _;
}

-- RFC 8032: the base point is 5866…66, and its order is q
base_point_bytes : point_compress base_point ≡ 0x58 ∷ to_little 31 (0x66 * ((256 ^ 31 - 1) / 255))
unfolding point_compress base_point base_x base_y recover_x candidate check_root with_sign diff
    curve_d root_of_minus_one inv pow_mod to_little
base_point_bytes = refl

base_point_order : point_equal (scalarmult base_point q) (0, 1, 1, 0) ≡ true
unfolding point_equal scalarmult add_multiples edwards_add base_point base_x base_y recover_x
    candidate check_root with_sign diff curve_d root_of_minus_one inv pow_mod
base_point_order = refl

abbrev base_bytes : Bytes
base_bytes = to_little 32 base_y

-- with the sign bit, y = 1 decodes to a point whose x is p: another encoding of the neutral point
abbrev signed_one : Bytes
signed_one = to_little 32 (2 ^ 255 + 1)

signed_one_decodes :
    ◌≡◌ {A = Option Point} (point_decompress signed_one) (some (2 ^ 255 - 19, 1, 1, 0))
unfolding point_decompress recover_x candidate check_root with_sign diff curve_d root_of_minus_one
    inv pow_mod to_little from_little
signed_one_decodes = refl

abbrev x_of_base : ℕ
x_of_base = 15112221349535400772501151409588531511454012693041857206046113283949847762202

base_decodes : ◌≡◌ {A = Option Point} (point_decompress base_bytes) (
    some (
      x_of_base, 46316835694926478169428394003475163141307993866256225615783033603165251855960, 1,
      46827403850823179245072216630277197565144205554125654976674165829533817101731,
    ))
unfolding point_decompress recover_x candidate check_root with_sign diff curve_d root_of_minus_one
    inv pow_mod to_little from_little base_y
base_decodes = refl

point_compress-point_decompress_example :
    point_compress (
      x_of_base, 46316835694926478169428394003475163141307993866256225615783033603165251855960, 1,
      46827403850823179245072216630277197565144205554125654976674165829533817101731,
    )
    ≡ base_bytes
point_compress-point_decompress_example =
    point_compress-point_decompress base_bytes (to_little-IsBytes 32 base_y) base_decodes
      (λ e. absurd (omega arith))

abbrev seed : Bytes
seed = to_little 32 7

abbrev message : Bytes
message = 104 ∷ 105 ∷ []

abbrev signature : Bytes
signature = pure_sign toy_hash seed message

signature_verifies : pure_verify toy_hash (pure_public_key toy_hash seed) message signature ≡ true
unfolding pure_verify pure_public_key pure_sign secret_expand clamp_scalar point_equal scalarmult
    add_multiples edwards_add base_point base_x base_y point_compress point_decompress recover_x
    candidate check_root with_sign diff curve_d root_of_minus_one inv pow_mod to_little from_little
signature_verifies = refl

signature-IsBytes : IsBytes signature
unfolding pure_sign point_compress
signature-IsBytes =
    All-append _ _ (to_little 32 _) (to_little-IsBytes 32 _) (to_little-IsBytes 32 _)

abbrev key : Bytes
key = to_little 32 5

abbrev nonce : Bytes
nonce = to_little 24 9

secretbox_open_iff_example :
    (secretbox_open key nonce (secretbox_seal key nonce message) ≡ ok message)
    ↔ (secretbox_seal key nonce message ≡ secretbox_seal key nonce message)
secretbox_open_iff_example = secretbox_open_iff key nonce (secretbox_seal key nonce message) message

open_sealed-seal_example : open_sealed key (obj (seal nonce key message)) ≡ ok message
open_sealed-seal_example =
    open_sealed-seal key nonce message (omega arith) (to_little-IsBytes 24 9)
      (length-to_little 24 9)
