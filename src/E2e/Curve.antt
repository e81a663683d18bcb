-- ===== src/E2e/Curve.antt =====
-- kemi/e2e.py: X25519, the keys that it takes from Ed25519, and the box key of two identities.
use kemi.Prelude.{
  ℕ, zero, suc, ◌+◌, ◌*◌, ◌/◌, ◌%◌, ◌^◌, Option, none, some, [], ◌∷◌, take, ◌==◌, if◌then◌else◌,
}
use kemi.Crypto.Hex.{Bytes}
use kemi.Crypto.Octets.{from_little, to_little}
use kemi.Crypto.Ed25519.{Sha512, p, diff, inv, point_decompress, clamp_scalar, Point}
use kemi.Result.{Result, ok, raise, e2e_error, ◌>>=◌}
use kemi.E2e.Salsa.{hsalsa20}

pub record Ladder : Type 0 where
  pub x2 : ℕ
  pub z2 : ℕ
  pub x3 : ℕ
  pub z3 : ℕ
  pub swap : ℕ

unfoldable pub swapped : Ladder → Ladder
swapped l = if l.swap == 1 then record l { x2 = l.x3; x3 = l.x2; z2 = l.z3; z3 = l.z2 } else l

-- the arithmetic of one round
unfoldable pub ladder_step : ℕ → Ladder → Ladder
ladder_step x1 l =
    let a = (l.x2 + l.z2) % p in
    let aa = a * a % p in
    let b = diff l.x2 l.z2 % p in
    let bb = b * b % p in
    let e = diff aa bb % p in
    let c = (l.x3 + l.z3) % p in
    let d = diff l.x3 l.z3 % p in
    let da = d * a % p in
    let cb = c * b % p in
    let sum = (da + cb) % p in
    let gap = diff da cb % p in
    record l {
      x3 = sum * sum % p;
      z3 = gap * gap % p * x1 % p;
      x2 = aa * bb % p;
      z2 = e * (aa + 121665 * e) % p;
    }

-- the loop, over the bits t - 1 down to 0 of the scalar k
unfoldable pub ladder : ℕ → ℕ → ℕ → Ladder → Ladder
ladder zero k x1 l = l
ladder (suc t) k x1 l =
    let bit = k / 2 ^ t % 2 in
    let turned = swapped (record l { swap = (l.swap + bit) % 2 }) in
    ladder t k x1 (ladder_step x1 (record turned { swap = bit }))

unfoldable pub x25519 : Bytes → Bytes → Bytes
x25519 scalar point =
    let k = clamp_scalar (from_little scalar) in
    let u = from_little point % 2 ^ 255 in
    let l = swapped (ladder 255 k u (record { x2 = 1; z2 = 0; x3 = u; z3 = 1; swap = 0 })) in
    to_little 32 (l.x2 * inv l.z2 % p)

abbrev montgomery : Option Point → Result Bytes
montgomery none = raise e2e_error
montgomery (some (x, y, z, t)) = ok (to_little 32 ((1 + y) * inv (diff 1 y % p) % p))

unfoldable pub ed25519_pk_to_curve25519 : Bytes → Result Bytes
ed25519_pk_to_curve25519 ed_pk = montgomery (point_decompress ed_pk)

-- h[i] = f(h[i])
unfoldable pub update_byte : (ℕ → ℕ) → ℕ → Bytes → Bytes
update_byte f i [] = []
update_byte f zero (b ∷ h) = f b ∷ h
update_byte f (suc i) (b ∷ h) = b ∷ update_byte f i h

-- &= 248 clears three bits, &= 127 the top one, |= 64 sets the one below
unfoldable pub ed25519_seed_to_curve25519 : Sha512 → Bytes → Bytes
ed25519_seed_to_curve25519 sha512 seed =
    update_byte (λ b. b % 64 + 64) 31 (update_byte (λ b. b / 8 * 8) 0 (take 32 (sha512.hash seed)))

-- sixteen zero bytes
abbrev zeros : Bytes
zeros = to_little 16 0

unfoldable pub derive_box_key : Sha512 → Bytes → Bytes → Result Bytes
derive_box_key sha512 my_seed their_ed25519_pk = do
  curve_pk ← ed25519_pk_to_curve25519 their_ed25519_pk
  ok (hsalsa20 (x25519 (ed25519_seed_to_curve25519 sha512 my_seed) curve_pk) zeros)
