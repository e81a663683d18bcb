-- ===== src/Crypto/Xor.antt =====
-- The exclusive or of two bytes undoes itself.
use Prim.Native.Nat.{digits, bit_xor, bit_xor-bitwise, differ}
use native.Mathlib.Nat.{pow-suc}
use kemi.Prelude.{ℕ, zero, suc, ◌+◌, ◌*◌, ◌/◌, ◌%◌, ◌^◌, ◌≤◌, ◌<◌, ◌≡◌, refl, arith}

-- bit_xor by its digits, with a count of digits to go
abbrev by_digits : ℕ → ℕ → ℕ → ℕ
by_digits = digits (λ rest. rest) differ

no_digits : (fuel b : ℕ) → by_digits fuel 0 b ≡ b
no_digits zero b = refl
no_digits (suc fuel) b = refl

-- any count that is not below the first number gives the same
spare_fuel : (m b a : ℕ) → a ≤ m → (n : ℕ) → a ≤ n → by_digits m a b ≡ by_digits n a b
spare_fuel m b zero h n g = omega (arith, no_digits m b, no_digits n b)
spare_fuel zero b (suc a) h n g = absurd (omega arith)
spare_fuel (suc m) b (suc a) h zero g = absurd (omega arith)
spare_fuel (suc m) b (suc a) h (suc n) g =
    omega (arith, spare_fuel m (b / 2) (suc a / 2) (omega arith) n (omega arith))

zero-bit_xor : (b : ℕ) → bit_xor 0 b ≡ b
zero-bit_xor b = bit_xor-bitwise 0 b

-- the lowest digit, and the others
bit_xor_step : (a b : ℕ) → bit_xor a b ≡ bit_xor (a / 2) (b / 2) * 2 + differ (a % 2) (b % 2)
bit_xor_step zero b =
    let low : differ 0 (b % 2) ≡ b % 2 = refl in
    omega (arith, zero-bit_xor b, zero-bit_xor (b / 2), low)
bit_xor_step (suc a) b =
    let half = suc a / 2 in
    let tail = spare_fuel a (b / 2) half (omega arith) half (omega arith) in
    omega (arith, tail, bit_xor-bitwise half (b / 2), bit_xor-bitwise (suc a) b)

bit-differ_twice : (a b : ℕ) → a < 2 → b < 2 → differ (differ a b) b ≡ a
bit-differ_twice zero zero p q = refl
bit-differ_twice zero (suc zero) p q = refl
bit-differ_twice (suc zero) zero p q = refl
bit-differ_twice (suc zero) (suc zero) p q = refl
bit-differ_twice (suc (suc a)) b p q = absurd (omega arith)
bit-differ_twice a (suc (suc b)) p q = absurd (omega arith)

differ_bit : (a b : ℕ) → a < 2 → b < 2 → differ a b < 2
differ_bit zero b p q = q
differ_bit (suc zero) zero p q = omega arith
differ_bit (suc zero) (suc zero) p q = omega arith
differ_bit (suc (suc a)) b p q = absurd (omega arith)
differ_bit (suc a) (suc (suc b)) p q = absurd (omega arith)

xor_twice_fuel : (n a b : ℕ) → a ≤ n → b ≤ n → bit_xor (bit_xor a b) b ≡ a
xor_twice_fuel zero zero zero p q = refl
xor_twice_fuel zero (suc a) b p q = absurd (omega arith)
xor_twice_fuel zero zero (suc b) p q = absurd (omega arith)
xor_twice_fuel (suc n) a b p q =
    let x = bit_xor a b in
    let low : differ (a % 2) (b % 2) < 2 = differ_bit (a % 2) (b % 2) (omega arith) (omega arith) in
    let half : x / 2 ≡ bit_xor (a / 2) (b / 2) = omega (arith, bit_xor_step a b) in
    let bit : x % 2 ≡ differ (a % 2) (b % 2) = omega (arith, bit_xor_step a b) in
    let back : bit_xor (x / 2) (b / 2) ≡ a / 2 =
      rw half (xor_twice_fuel n (a / 2) (b / 2) (omega arith) (omega arith)) in
    let same : differ (x % 2) (b % 2) ≡ a % 2 =
      rw bit (bit-differ_twice (a % 2) (b % 2) (omega arith) (omega arith)) in
    omega (arith, bit_xor_step x b)

pub xor_twice : (a b : ℕ) → bit_xor (bit_xor a b) b ≡ a
xor_twice a b = xor_twice_fuel (a + b) a b (omega arith) (omega arith)

pub xor-lt_pow : (k a b : ℕ) → a < 2 ^ k → b < 2 ^ k → bit_xor a b < 2 ^ k
xor-lt_pow zero a b p q = let none_left : a ≡ 0 = omega arith in rw (none_left, zero-bit_xor b) q
xor-lt_pow (suc k) a b p q =
    let low : differ (a % 2) (b % 2) < 2 = differ_bit (a % 2) (b % 2) (omega arith) (omega arith) in
    let half : bit_xor (a / 2) (b / 2) < 2 ^ k =
      xor-lt_pow k (a / 2) (b / 2) (omega (arith, pow-suc 2 k)) (omega (arith, pow-suc 2 k)) in
    omega (arith, bit_xor_step a b, pow-suc 2 k)
