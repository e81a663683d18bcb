-- ===== src/Crypto/Ed25519.antt =====
-- kemi/crypto.py: the pure-Python Ed25519 of RFC 8032, the fallback where PyNaCl is missing.
-- Differences are taken modulo p, as a - b is a + (p - 1) b there.
pub mod Points
use kemi.Prelude.{
  ℕ, zero, suc, ◌+◌, ◌-◌, ◌*◌, ◌/◌, ◌%◌, ◌^◌, ◌<◌, ◌≡◌, Bool, true, false, not, ◌&&◌, ◌||◌, Option,
  none, some, List, [], ◌∷◌, ◌++◌, ltb, leb, ◌==◌, length, take, drop, if◌then◌else◌,
}
use kemi.Crypto.Hex.{Bytes}
use kemi.Crypto.Octets.{from_little, to_little}

-- hashlib.sha512
pub record Sha512 : Type 0 where
  pub hash : Bytes → Bytes
  pub length-hash : (m : Bytes) → length (hash m) ≡ 64

abbrev pub p : ℕ
p = 2 ^ 255 - 19

abbrev pub q : ℕ
q = 2 ^ 252 + 27742317777372353535851937790883648493

-- Python's pow(b, e, m), for an e of at most `bits` binary digits
unfoldable pub pow_mod : ℕ → ℕ → ℕ → ℕ → ℕ
pow_mod zero b e m = 1 % m
pow_mod (suc bits) b e m =
    let rest = pow_mod bits (b * b % m) (e / 2) m in if e % 2 == 0 then rest else b * rest % m

-- a - b modulo p
unfoldable pub diff : ℕ → ℕ → ℕ
diff a b = a + (p - 1) * b

unfoldable pub inv : ℕ → ℕ
inv x = pow_mod 255 x (p - 2) p

unfoldable pub curve_d : ℕ
curve_d = (p - 1) * 121665 * pow_mod 255 121666 (p - 2) p % p

unfoldable pub root_of_minus_one : ℕ
root_of_minus_one = pow_mod 255 2 ((p - 1) / 4) p

-- extended coordinates (x, y, z, t)
abbrev pub Point : Type 0
Point = ℕ × ℕ × ℕ × ℕ

unfoldable pub edwards_add : Point → Point → Point
edwards_add (x1, y1, z1, t1) (x2, y2, z2, t2) =
    let a = diff y1 x1 * diff y2 x2 % p in
    let b = (y1 + x1) * (y2 + x2) % p in
    let c = t1 * 2 * curve_d * t2 % p in
    let dd = z1 * 2 * z2 % p in
    let e = diff b a in
    let f = diff dd c in
    let g = dd + c in let h = b + a in (e * f % p, g * h % p, f * g % p, e * h % p)

-- the loop of _scalarmult, over the binary digits of e: at most `bits` of them
unfoldable pub add_multiples : ℕ → Point → Point → ℕ → Point
add_multiples zero sum point e = sum
add_multiples (suc bits) sum point e =
    add_multiples bits (if e % 2 == 1 then edwards_add sum point else sum) (edwards_add point point)
      (e / 2)

-- scalars have at most 256 binary digits
unfoldable pub scalarmult : Point → ℕ → Point
scalarmult point e = add_multiples 256 (0, 1, 1, 0) point e

-- the last test of _recover_x, for a root x
unfoldable pub with_sign : ℕ → ℕ → ℕ
with_sign x sign = if x % 2 == sign then x else p - x

unfoldable pub check_root : ℕ → ℕ → ℕ → Option ℕ
check_root x xx sign = if x * x % p == xx then some (with_sign x sign) else none

-- the candidate for a square root of xx
unfoldable pub candidate : ℕ → ℕ
candidate xx =
    let x = pow_mod 255 xx ((p + 3) / 8) p in
    if x * x % p == xx then x else x * root_of_minus_one % p

unfoldable pub recover_x : ℕ → ℕ → Option ℕ
recover_x y sign =
    if leb p y
    then none
    else let xx = diff (y * y) 1 * inv (curve_d * y * y + 1) % p in
      check_root (candidate xx) xx sign

unfoldable pub point_compress : Point → Bytes
point_compress (x, y, z, t) =
    let zinv = inv z in to_little 32 (y * zinv % p + x * zinv % p % 2 * 2 ^ 255)

abbrev pub affine : ℕ → Option ℕ → Option Point
affine y none = none
affine y (some x) = some (x, y, 1, x * y % p)

unfoldable pub point_decompress : Bytes → Option Point
point_decompress s =
    if length s == 32
    then (let n = from_little s in affine (n % 2 ^ 255) (recover_x (n % 2 ^ 255) (n / 2 ^ 255)))
    else none

unfoldable pub point_equal : Point → Point → Bool
point_equal (x1, y1, z1, t1) (x2, y2, z2, t2) =
    x1 * z2 % p == x2 * z1 % p && y1 * z2 % p == y2 * z1 % p

unfoldable pub base_y : ℕ
base_y = 4 * inv 5 % p

-- _recover_x(_By, 0), which the assertion below it says is a number
unfoldable pub base_x : ℕ
base_x = elim (recover_x base_y 0) [ none ↦ 0 | some x ↦ x ]

unfoldable pub base_point : Point
base_point = (base_x, base_y, 1, base_x * base_y % p)

-- the clamped number of a hash: bits 0, 1, 2 and 255 are cleared, bit 254 is set
unfoldable pub clamp_scalar : ℕ → ℕ
clamp_scalar n = n % 2 ^ 254 / 8 * 8 + 2 ^ 254

module _ (sha512 : Sha512) where
  unfoldable pub secret_expand : Bytes → ℕ × Bytes
  secret_expand seed =
      let h = sha512.hash seed in (clamp_scalar (from_little (take 32 h)), drop 32 h)

  unfoldable pub pure_public_key : Bytes → Bytes
  pure_public_key seed = point_compress (scalarmult base_point (secret_expand seed).0)

  unfoldable pub pure_sign : Bytes → Bytes → Bytes
  pure_sign seed message =
      let (a, prefix) = secret_expand seed in
      let public = point_compress (scalarmult base_point a) in
      let r = from_little (sha512.hash (prefix ++ message)) % q in
      let nonce_point = point_compress (scalarmult base_point r) in
      let h = from_little (sha512.hash (nonce_point ++ public ++ message)) % q in
      nonce_point ++ to_little 32 ((r + h * a) % q)

  abbrev pub check_equation : Bytes → Bytes → Bytes → Option Point → Option Point → Bool
  check_equation public message signature (some key) (some nonce_point) =
      let s = from_little (drop 32 signature) in
      if leb q s
      then false
      else let h = from_little (sha512.hash (take 32 signature ++ public ++ message)) % q in
        point_equal (scalarmult base_point s) (edwards_add nonce_point (scalarmult key h))
  check_equation public message signature _ _ = false

  unfoldable pub pure_verify : Bytes → Bytes → Bytes → Bool
  pure_verify public message signature =
      if not (length public == 32) || not (length signature == 64)
      then false
      else check_equation public message signature (point_decompress public)
          (point_decompress (take 32 signature))
