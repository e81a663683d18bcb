-- ===== src/E2e/Poly.antt =====
-- kemi/e2e.py: the Poly1305 tag.
use Prim.Native.Nat.{bit_and}
use kemi.Prelude.{ℕ, zero, suc, ◌+◌, ◌-◌, ◌*◌, ◌/◌, ◌%◌, ◌^◌, [], ◌∷◌, ◌++◌, length, take, drop}
use kemi.Crypto.Hex.{Bytes}
use kemi.Crypto.Octets.{from_little, to_little}

abbrev pub p1305 : ℕ
p1305 = 2 ^ 130 - 5

abbrev pub r_clamp : ℕ
r_clamp = 0x0FFFFFFC0FFFFFFC0FFFFFFC0FFFFFFF

-- the loop over the message's blocks of 16 bytes, so many of them
unfoldable pub accumulate : ℕ → ℕ → Bytes → ℕ → ℕ
accumulate zero r message acc = acc
accumulate (suc n) r message acc =
    accumulate n r (drop 16 message) ((acc + from_little (take 16 message ++ 1 ∷ [])) * r % p1305)

unfoldable pub poly1305 : Bytes → Bytes → Bytes
poly1305 message key32 =
    let r = bit_and (from_little (take 16 key32)) r_clamp in
    let s = from_little (take 16 (drop 16 key32)) in
    to_little 16 ((accumulate ((length message + 15) / 16) r message 0 + s) % 2 ^ 128)
