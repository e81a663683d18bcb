-- ===== src/Crypto/Octets.antt =====
-- Byte strings of Python: from_bytes and to_bytes with the low byte first, slices, and the exclusive
-- or of two byte strings.
use Prim.Native.Nat.{bit_xor}
use native.Mathlib.Nat.{pow-suc}
use kemi.Prelude.{
  ℕ, zero, suc, ◌+◌, ◌*◌, ◌/◌, ◌%◌, ◌^◌, ◌≤◌, ◌<◌, ◌≡◌, refl, ap, ap₂, sym, ◌∙◌, List, [], ◌∷◌,
  ◌++◌, arith, length, take, drop, All,
}
use kemi.Crypto.Hex.{Bytes}
use kemi.Crypto.Xor.{xor_twice, xor-lt_pow}

abbrev pub IsBytes : Bytes → Type 0
IsBytes = All (λ b. b < 256)

-- int.from_bytes(bs, "little")
unfoldable pub from_little : Bytes → ℕ
from_little [] = 0
from_little (b ∷ bs) = b + 256 * from_little bs

-- n.to_bytes(k, "little"), for n below 256^k
unfoldable pub to_little : ℕ → ℕ → Bytes
to_little zero n = []
to_little (suc k) n = (n % 256) ∷ to_little k (n / 256)

-- bytes(p ^ k for p, k in zip(ps, ks))
unfoldable pub xor_bytes : Bytes → Bytes → Bytes
xor_bytes [] ks = []
xor_bytes (p ∷ ps) [] = []
xor_bytes (p ∷ ps) (k ∷ ks) = bit_xor p k ∷ xor_bytes ps ks

pub length-to_little : (k n : ℕ) → length (to_little k n) ≡ k
unfolding to_little
length-to_little zero n = refl
length-to_little (suc k) n = ap (λ (t : ℕ). suc t) (length-to_little k (n / 256))

pub to_little-IsBytes : (k n : ℕ) → IsBytes (to_little k n)
unfolding to_little
to_little-IsBytes zero n = tt
to_little-IsBytes (suc k) n = (omega arith, to_little-IsBytes k (n / 256))

pub from_little-lt : (bs : Bytes) → IsBytes bs → from_little bs < 256 ^ length bs
unfolding from_little
from_little-lt [] h = omega arith
from_little-lt (b ∷ bs) (h, hs) = omega (arith, from_little-lt bs hs, pow-suc 256 (length bs), h)

pub to_little-from_little : (bs : Bytes) → IsBytes bs → to_little (length bs) (from_little bs) ≡ bs
unfolding to_little from_little
to_little-from_little [] h = refl
to_little-from_little (b ∷ bs) (h, hs) =
    let low : (b + 256 * from_little bs) % 256 ≡ b = omega arith in
    let high : (b + 256 * from_little bs) / 256 ≡ from_little bs = omega arith in
    rw (low, high) (ap (◌∷◌ b) (to_little-from_little bs hs))

-- byte strings of one length are determined by the number
pub from_little_inj :
    (xs ys : Bytes)
    → IsBytes xs
    → IsBytes ys
    → length xs ≡ length ys
    → from_little xs ≡ from_little ys
    → xs ≡ ys
from_little_inj xs ys hx hy len same =
    sym (to_little-from_little xs hx) ∙ ap₂ to_little len same ∙ to_little-from_little ys hy

pub length-xor_bytes :
    (ps ks : Bytes) → length ps ≤ length ks → length (xor_bytes ps ks) ≡ length ps
unfolding xor_bytes
length-xor_bytes [] ks h = refl
length-xor_bytes (p ∷ ps) [] h = absurd (omega arith)
length-xor_bytes (p ∷ ps) (k ∷ ks) h = omega (arith, length-xor_bytes ps ks (omega arith))

pub xor_bytes_twice : (ps ks : Bytes) → length ps ≤ length ks → xor_bytes (xor_bytes ps ks) ks ≡ ps
unfolding xor_bytes
xor_bytes_twice [] ks h = refl
xor_bytes_twice (p ∷ ps) [] h = absurd (omega arith)
xor_bytes_twice (p ∷ ps) (k ∷ ks) h =
    rw (xor_twice p k) (ap (◌∷◌ p) (xor_bytes_twice ps ks (omega arith)))

pub xor_bytes-IsBytes : (ps ks : Bytes) → IsBytes ps → IsBytes ks → IsBytes (xor_bytes ps ks)
unfolding xor_bytes
xor_bytes-IsBytes [] ks hp hk = tt
xor_bytes-IsBytes (p ∷ ps) [] hp hk = tt
xor_bytes-IsBytes (p ∷ ps) (k ∷ ks) (h, hp) (h', hk) =
    (xor-lt_pow 8 p k h h', xor_bytes-IsBytes ps ks hp hk)

module _ {ℓ} {A : Type ℓ} where
  pub take-append : (xs ys : List A) → take (length xs) (xs ++ ys) ≡ xs
  take-append [] ys = refl
  take-append (x ∷ xs) ys = ap (◌∷◌ x) (take-append xs ys)

  pub drop-append : (xs ys : List A) → drop (length xs) (xs ++ ys) ≡ ys
  drop-append [] ys = refl
  drop-append (x ∷ xs) ys = drop-append xs ys

module _ {ℓ κ} {A : Type ℓ} (P : A → Type κ) where
  pub All-append : (xs ys : List A) → All P xs → All P ys → All P (xs ++ ys)
  All-append [] ys h g = g
  All-append (x ∷ xs) ys h g = (h.0, All-append xs ys h.1 g)

  pub All-take : (n : ℕ) (xs : List A) → All P xs → All P (take n xs)
  All-take zero xs h = tt
  All-take (suc n) [] h = tt
  All-take (suc n) (x ∷ xs) h = (h.0, All-take n xs h.1)

  pub All-drop : (n : ℕ) (xs : List A) → All P xs → All P (drop n xs)
  All-drop zero xs h = h
  All-drop (suc n) [] h = tt
  All-drop (suc n) (x ∷ xs) h = All-drop n xs h.1
