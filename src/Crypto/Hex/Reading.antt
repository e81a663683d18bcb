-- ===== src/Crypto/Hex/Reading.antt =====
-- bytes.fromhex reads what bytes.hex writes.
use Prim.Native.Char.{code}
use kemi.Prelude.{
  ℕ, zero, suc, ◌+◌, ◌*◌, ◌/◌, ◌%◌, ◌<◌, ◌≡◌, refl, Bool, true, false, not, ◌&&◌, Option, none,
  some, [], ◌∷◌, arith, ◌==◌, ==_iff, Bool-cases, inl, inr, &&-eq-true, All,
}
use kemi.Crypto.Hex.{Bytes, to_hex, from_hex, hex_char, hex_value, is_space}

-- a test of every number below a bound, the smallest first
every : (ℕ → Bool) → ℕ → Bool
every test zero = true
every test (suc bound) = every test bound && test bound

of_every : (test : ℕ → Bool) (bound d : ℕ) → every test bound ≡ true → d < bound → test d ≡ true
unfolding every
of_every test (suc bound) d h below =
    let (others, last) = &&-eq-true (every test bound) (test bound) h in
    elim (Bool-cases (d == bound)) [
      | inl same ↦ rw ((==_iff d bound).0 same) last
      | inr smaller ↦ of_every test bound d others (ground arith)
    ]
of_every test zero d h below = absurd (omega arith)

abbrev is_digit : ℕ → Option ℕ → Bool
is_digit d none = false
is_digit d (some v) = v == d

abbrev reads : ℕ → Bool
reads d = is_digit d (hex_value (code (hex_char d))) && not (is_space (code (hex_char d)))

reads_table : every reads 16 ≡ true
unfolding every hex_value hex_char is_space
reads_table = refl

is_digit-some : (d : ℕ) (o : Option ℕ) → is_digit d o ≡ true → o ≡ some d
is_digit-some d none h = cc
is_digit-some d (some v) h = ap_some ((==_iff v d).0 h)
  where
    ap_some : v ≡ d → ◌≡◌ {A = Option ℕ} (some v) (some d)
    ap_some e = cc

hex_char_reads :
    (d : ℕ)
    → d < 16
    → (hex_value (code (hex_char d)) ≡ some d) × (is_space (code (hex_char d)) ≡ false)
hex_char_reads d h =
    let (value, plain) =
      &&-eq-true (is_digit d (hex_value (code (hex_char d)))) _
        (of_every reads 16 d reads_table h) in
    (is_digit-some d _ value, ground arith)

pub from_hex-to_hex : (bs : Bytes) → All (λ b. b < 256) bs → from_hex (to_hex bs) ≡ some bs
unfolding from_hex to_hex
from_hex-to_hex [] h = refl
from_hex-to_hex (b ∷ bs) (h, hs) =
    let (hi, plain) = hex_char_reads (b / 16) (omega arith) in
    let (lo, _) = hex_char_reads (b % 16) (omega arith) in
    rw (plain, hi, lo, from_hex-to_hex bs hs) (same_head (b / 16 * 16 + b % 16) (omega arith))
  where
    same_head : (n : ℕ) → n ≡ b → ◌≡◌ {A = Option Bytes} (some (n ∷ bs)) (some (b ∷ bs))
    same_head n e = cc
