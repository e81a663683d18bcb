-- ===== src/Crypto/Ed25519/Points.antt =====
-- Points and signatures as bytes: decoding a point and encoding it again, and the bytes of a
-- signature that is accepted.
use native.Mathlib.Nat.{mod-lt}
use kemi.Prelude.{
  ℕ, zero, suc, ◌+◌, ◌*◌, ◌/◌, ◌%◌, ◌^◌, ◌<◌, ◌≤◌, ◌≡◌, ◌≢◌, refl, sym, ap, ap₂, subst, ◌∙◌, true,
  Option, none, some, ◌++◌, arith, leb, ◌==◌, length, take, drop, ==_iff, Bool-cases, inl, inr,
  length-drop, take-append-drop,
}
use kemi.Crypto.Hex.{Bytes}
use kemi.Crypto.Octets.{
  IsBytes, from_little, to_little, from_little-lt, to_little-from_little, from_little_inj, All-drop,
}
use kemi.Crypto.Ed25519.{
  p, q, Point, Sha512, pow_mod, inv, with_sign, check_root, candidate, recover_x, point_compress,
  point_decompress, affine, pure_verify, check_equation,
}

abbrev IsRoot : ℕ → ℕ → Type 0
IsRoot x sign = (x ≤ p) × (x % 2 ≡ sign)

with_sign-IsRoot : (x sign : ℕ) → x < p → sign < 2 → IsRoot (with_sign x sign) sign
unfolding with_sign
with_sign-IsRoot x sign h s = ground arith

check_root-IsRoot :
    (x xx sign : ℕ) → x < p → sign < 2 → {r : ℕ} → check_root x xx sign ≡ some r → IsRoot r sign
unfolding check_root
check_root-IsRoot x xx sign h s {r} e = ground (arith, with_sign-IsRoot x sign)

pow_mod-lt : (bits b e m : ℕ) → 0 < m → pow_mod bits b e m < m
unfolding pow_mod
pow_mod-lt zero b e m h = omega arith
pow_mod-lt (suc bits) b e m h = elim (Bool-cases (e % 2 == 0)) [
  | inl even ↦ rw even (pow_mod-lt bits (b * b % m) (e / 2) m h)
  | inr odd ↦ rw odd (mod-lt (b * pow_mod bits (b * b % m) (e / 2) m) h)
]

candidate-lt : (xx : ℕ) → candidate xx < p
unfolding candidate
candidate-lt xx = ground (arith, pow_mod-lt 255 xx ((p + 3) / 8) p)

recover_x-IsRoot :
    (y sign : ℕ) → sign < 2 → {x : ℕ} → recover_x y sign ≡ some x → (y < p) × IsRoot x sign
unfolding recover_x
recover_x-IsRoot y sign s e = elim (Bool-cases (leb p y)) [
  | inl big ↦ cc (rw (big, recover_x) at e)
  | inr small ↦
      (ground arith, check_root-IsRoot _ _ sign (candidate-lt _) s (rw (small, recover_x) at e))
]

-- what the code makes of a point that it has decoded
record IsDecoded (s : Bytes) (point : Point) : Type 0 where
  size : length s ≡ 32
  y_lt : point.1 < p
  y_is : point.1 ≡ from_little s % 2 ^ 255
  x_le : point.0 ≤ p
  sign_is : point.0 % 2 ≡ from_little s / 2 ^ 255
  z_is : point.2 ≡ 1

affine-eq-some :
    (y : ℕ) (o : Option ℕ) {point : Point}
    → affine y o ≡ some point
    → (o ≡ some point.0) × (point.1 ≡ y) × (point.2 ≡ 1)
affine-eq-some y none e = cc
affine-eq-some y (some x) {point} e =
    let same : (x, y, 1, x * y % p) ≡ point = cc in
    (
      cc (ap (λ (r : Point). r.0) same),
      sym (ap (λ (r : Point). r.1) same),
      sym (ap (λ (r : Point). r.2) same),
    )

point_decompress-IsDecoded :
    (s : Bytes) → IsBytes s → {point : Point} → point_decompress s ≡ some point → IsDecoded s point
unfolding point_decompress
point_decompress-IsDecoded s bytes {point} e = elim (Bool-cases (length s == 32)) [
  | inl full ↦ decoded ((==_iff _ _).0 full) (rw (full, point_decompress) at e)
  | inr short ↦ cc (rw (short, point_decompress) at e)
]
  where
    decoded :
        length s ≡ 32
        → affine
            (from_little s % 2 ^ 255)
            (recover_x (from_little s % 2 ^ 255) (from_little s / 2 ^ 255))
          ≡ some point
        → IsDecoded s point
    decoded size e' =
        let (root, y_is, z_is) = affine-eq-some _ _ e' in
        let below : from_little s < 256 ^ 32 =
          subst (λ n. from_little s < 256 ^ n) size (from_little-lt s bytes) in
        let (y_lt, root_is) = recover_x-IsRoot _ (from_little s / 2 ^ 255) (omega arith) root in
        record {
          size = size;
          y_lt = rw y_is y_lt;
          y_is = y_is;
          x_le = root_is.0;
          sign_is = root_is.1;
          z_is = z_is;
        }

inv-one : inv 1 ≡ 1
unfolding inv pow_mod
inv-one = refl

-- Encoding a decoded point gives back its 32 bytes, unless the decoder has taken p for x, which it
-- does at x = 0 with the sign bit set.
pub point_compress-point_decompress :
    (s : Bytes)
    → IsBytes s
    → {point : Point} → point_decompress s ≡ some point
    → point.0 ≢ p
    → point_compress point ≡ s
unfolding point_compress
point_compress-point_decompress s bytes {point} e proper =
    let d = point_decompress-IsDecoded s bytes e in
    let n = from_little s in
    let x_lt : point.0 < p = lt_of_ne d.x_le proper in
    let number : point.1 * 1 % p + point.0 * 1 % p % 2 * 2 ^ 255 ≡ n =
      omega (arith, d.y_lt, d.y_is, d.sign_is, x_lt) in
    rw (d.z_is, inv-one, number)
      (subst (λ k. to_little k n ≡ s) d.size (to_little-from_little s bytes))
  where
    lt_of_ne : {x : ℕ} → x ≤ p → x ≢ p → x < p
    lt_of_ne {x} le ne = ground arith

record IsAccepted (signature : Bytes) : Type 0 where
  size : length signature ≡ 64
  scalar_lt : from_little (drop 32 signature) < q

module _ (sha512 : Sha512) (public message : Bytes) where
  check_equation-lt :
      (signature : Bytes) (key nonce_point : Option Point)
      → check_equation sha512 public message signature key nonce_point ≡ true
      → from_little (drop 32 signature) < q
  check_equation-lt signature (some key) (some r) e =
      elim (Bool-cases (leb q (from_little (drop 32 signature)))) [
        | inl big ↦ cc (rw big at e)
        | inr small ↦ ground arith
      ]
  check_equation-lt signature none r e = cc
  check_equation-lt signature (some key) none e = cc

  pure_verify-IsAccepted :
      (signature : Bytes)
      → pure_verify sha512 public message signature ≡ true
      → IsAccepted signature
  unfolding pure_verify
  pure_verify-IsAccepted signature e =
      let body =
        check_equation sha512 public message signature (point_decompress public)
          (point_decompress (take 32 signature)) in
      let both : (length signature ≡ 64) × (body ≡ true) = ground arith in
      record { size = both.0; scalar_lt = check_equation-lt signature _ _ both.1 }

  -- Two accepted signatures of a message under one key with the same first half, and second halves
  -- that are congruent modulo the group order, are the same bytes.
  pub pure_verify_unique :
      (s t : Bytes)
      → IsBytes s
      → IsBytes t
      → pure_verify sha512 public message s ≡ true
      → pure_verify sha512 public message t ≡ true
      → take 32 s ≡ take 32 t
      → from_little (drop 32 s) % q ≡ from_little (drop 32 t) % q
      → s ≡ t
  pure_verify_unique s t hs ht vs vt heads scalars =
      let a = pure_verify-IsAccepted s vs in
      let b = pure_verify-IsAccepted t vt in
      let tails : drop 32 s ≡ drop 32 t =
        from_little_inj (drop 32 s) (drop 32 t) (All-drop _ 32 s hs) (All-drop _ 32 t ht)
          (omega (arith, length-drop 32 s, length-drop 32 t, a.size, b.size))
          (omega (arith, a.scalar_lt, b.scalar_lt)) in
      sym (take-append-drop 32 s)
      ∙ ap₂ (λ (x y : Bytes). x ++ y) heads tails
      ∙ take-append-drop 32 t
