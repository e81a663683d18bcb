-- ===== src/E2e/Salsa.antt =====
-- kemi/e2e.py: Salsa20, HSalsa20 and the XSalsa20 stream.
-- A key has 32 bytes and a nonce 24: keys come from hsalsa20, and the callers check nonces. A state is
-- a list of 16 words.
use Prim.Native.Nat.{bit_xor}
use kemi.Prelude.{
  ℕ, zero, suc, ◌+◌, ◌-◌, ◌*◌, ◌/◌, ◌%◌, ◌^◌, List, [], ◌∷◌, ◌++◌, take, drop, get_elem?, or_else,
}
use kemi.Crypto.Hex.{Bytes}
use kemi.Crypto.Octets.{from_little, to_little}

abbrev pub State : Type 0
State = List ℕ

abbrev pub mask : ℕ
mask = 2 ^ 32

-- x[i]
abbrev pub word : State → ℕ → ℕ
word x i = or_else (get_elem? x i) 0

-- x[i] = v
unfoldable pub set : State → ℕ → ℕ → State
set [] i v = []
set (w ∷ x) zero v = v ∷ x
set (w ∷ x) (suc i) v = w ∷ set x i v

-- of a word x: the two halves share no bit
unfoldable pub rotl : ℕ → ℕ → ℕ
rotl x n = (x * 2 ^ n + x / 2 ^ (32 - n)) % mask

-- x[to] ^= rotl((x[i] + x[j]) & _MASK, n)
unfoldable pub mix : ℕ → ℕ → ℕ → ℕ → State → State
mix to i j n x = set x to (bit_xor (word x to) (rotl ((word x i + word x j) % mask) n))

unfoldable pub quarter : ℕ × ℕ × ℕ × ℕ → State → State
quarter (a, b, c, d) x = mix a d c 18 (mix d c b 13 (mix c b a 9 (mix b a d 7 x)))

abbrev pub quarter_columns : List (ℕ × ℕ × ℕ × ℕ)
quarter_columns = (0, 4, 8, 12) ∷ (5, 9, 13, 1) ∷ (10, 14, 2, 6) ∷ (15, 3, 7, 11) ∷ []

abbrev pub quarter_rows : List (ℕ × ℕ × ℕ × ℕ)
quarter_rows = (0, 1, 2, 3) ∷ (5, 6, 7, 4) ∷ (10, 11, 8, 9) ∷ (15, 12, 13, 14) ∷ []

unfoldable pub quarters : List (ℕ × ℕ × ℕ × ℕ) → State → State
quarters [] x = x
quarters (k ∷ ks) x = quarters ks (quarter k x)

unfoldable pub double_rounds : ℕ → State → State
double_rounds zero x = x
double_rounds (suc n) x = double_rounds n (quarters quarter_rows (quarters quarter_columns x))

unfoldable pub salsa20_rounds : State → State
salsa20_rounds state = double_rounds 10 state

-- _words(data), for data of 4n bytes
unfoldable pub words : ℕ → Bytes → List ℕ
words zero octets = []
words (suc n) octets = from_little (take 4 octets) ∷ words n (drop 4 octets)

-- the state of a key of eight words and an input of four
unfoldable pub input_state : List ℕ → List ℕ → State
input_state k n =
    0x61707865
    ∷ word k 0
    ∷ word k 1
    ∷ word k 2
    ∷ word k 3
    ∷ 0x3320646E
    ∷ word n 0
    ∷ word n 1
    ∷ word n 2
    ∷ word n 3
    ∷ 0x79622D32
    ∷ word k 4
    ∷ word k 5
    ∷ word k 6
    ∷ word k 7
    ∷ 0x6B206574
    ∷ []

-- b"".join(((m + s) & _MASK).to_bytes(4, "little") for m, s in zip(mixed, state))
unfoldable pub add_words : State → State → Bytes
add_words [] state = []
add_words (m ∷ mixed) [] = []
add_words (m ∷ mixed) (s ∷ state) = to_little 4 ((m + s) % mask) ++ add_words mixed state

unfoldable pub salsa20_block : Bytes → Bytes → ℕ → Bytes
salsa20_block key nonce8 counter =
    let state = input_state (words 8 key) (words 4 (nonce8 ++ to_little 8 counter)) in
    add_words (salsa20_rounds state) state

unfoldable pub word_bytes : State → List ℕ → Bytes
word_bytes x [] = []
word_bytes x (i ∷ is) = to_little 4 (word x i) ++ word_bytes x is

unfoldable pub hsalsa20 : Bytes → Bytes → Bytes
hsalsa20 key input16 =
    word_bytes (salsa20_rounds (input_state (words 8 key) (words 4 input16)))
      (0 ∷ 5 ∷ 10 ∷ 15 ∷ 6 ∷ 7 ∷ 8 ∷ 9 ∷ [])

-- the blocks counter, counter + 1, …: so many of them
unfoldable pub blocks : ℕ → Bytes → Bytes → ℕ → Bytes
blocks zero subkey nonce8 counter = []
blocks (suc n) subkey nonce8 counter =
    salsa20_block subkey nonce8 counter ++ blocks n subkey nonce8 (counter + 1)

unfoldable pub xsalsa20_stream : Bytes → Bytes → ℕ → Bytes
xsalsa20_stream key nonce24 size =
    take size (blocks ((size + 63) / 64) (hsalsa20 key (take 16 nonce24)) (drop 16 nonce24) 0)
