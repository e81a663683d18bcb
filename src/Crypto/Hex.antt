-- ===== src/Crypto/Hex.antt =====
-- bytes.fromhex, bytes.hex, hexdigest and to_bytes of Python's standard library, over lists of bytes.
pub mod Reading
use Prim.Native.Char.{Char, code}
use kemi.Prelude.{
  ℕ, zero, suc, ◌+◌, ◌-◌, ◌*◌, ◌/◌, ◌%◌, String, Bool, ◌&&◌, ◌||◌, Option, none, some, List, [],
  ◌∷◌, leb, ◌==◌, get_elem?, or_else, if◌then◌else◌,
}

abbrev pub Bytes : Type 0
Bytes = List ℕ

abbrev alphabet : List Char
alphabet =
    "0" ∷ "1" ∷ "2" ∷ "3" ∷ "4" ∷ "5" ∷ "6" ∷ "7" ∷ "8" ∷ "9" ∷ "a" ∷ "b" ∷ "c" ∷ "d" ∷ "e" ∷ "f"
    ∷ []

unfoldable pub hex_char : ℕ → Char
hex_char d = or_else (get_elem? alphabet d) "0"

unfoldable pub hex_value : ℕ → Option ℕ
hex_value c =
    if leb 48 c && leb c 57
    then some (c - 48)
    else if leb 97 c && leb c 102
    then some (c - 87)
    else if leb 65 c && leb c 70
    then some (c - 55)
    else none

-- b.hex()
unfoldable pub to_hex : Bytes → String
unfolding hex_char
to_hex [] = String.[]
to_hex (b ∷ bs) = String.◌∷◌ (hex_char (b / 16)) (String.◌∷◌ (hex_char (b % 16)) (to_hex bs))

-- the ASCII white space that bytes.fromhex skips between bytes
is_space : ℕ → Bool
is_space c = c == 32 || (leb 9 c && leb c 13)

abbrev byte_of : Option ℕ → Option ℕ → Option Bytes → Option Bytes
byte_of (some hi) (some lo) (some rest) = some ((hi * 16 + lo) ∷ rest)
byte_of _ _ _ = none

-- bytes.fromhex(s)
unfoldable pub from_hex : String → Option Bytes
unfolding hex_value is_space
from_hex String.[] = some []
from_hex (String.◌∷◌ c String.[]) = if is_space (code c) then some [] else none
from_hex (String.◌∷◌ c (String.◌∷◌ d s)) =
    let skip = from_hex (String.◌∷◌ d s) in
    let read = byte_of (hex_value (code c)) (hex_value (code d)) (from_hex s) in
    if is_space (code c) then skip else read

-- the hex digits of a number, the most significant first
unfoldable pub hex_digits : ℕ → ℕ → String → String
unfolding hex_char
hex_digits zero n acc = acc
hex_digits (suc k) n acc = hex_digits k (n / 16) (String.◌∷◌ (hex_char (n % 16)) acc)

-- the 64 digits of a 256-bit digest
unfoldable pub hexdigest : ℕ → String
unfolding hex_digits
hexdigest n = hex_digits 64 n String.[]

-- n.to_bytes(k, "big"), in front of acc
unfoldable pub big_endian : ℕ → ℕ → Bytes → Bytes
big_endian zero n acc = acc
big_endian (suc k) n acc = big_endian k (n / 256) ((n % 256) ∷ acc)
