-- ===== src/E2e/Lengths.antt =====
-- How long the Salsa20 stream is, and that it consists of bytes.
use kemi.Prelude.{
  ℕ, zero, suc, ◌+◌, ◌*◌, ◌/◌, ◌%◌, ◌≡◌, refl, ap, ◌∙◌, List, [], ◌∷◌, arith, length, take, drop,
  length-append, length-take,
}
use kemi.Crypto.Hex.{Bytes}
use kemi.Crypto.Octets.{
  IsBytes, to_little, length-to_little, to_little-IsBytes, All-append, All-take,
}
use kemi.E2e.Salsa.{
  State, set, mix, quarter, quarters, quarter_rows, quarter_columns, double_rounds, salsa20_rounds,
  input_state, add_words, salsa20_block, blocks, xsalsa20_stream, hsalsa20, mask,
}

-- ------------------------------------------------------------ the stream's length

pub length-set : (x : State) (i v : ℕ) → length (set x i v) ≡ length x
unfolding set
length-set [] i v = refl
length-set (w ∷ x) zero v = refl
length-set (w ∷ x) (suc i) v = ap (λ (n : ℕ). suc n) (length-set x i v)

pub length-mix : (to i j n : ℕ) (x : State) → length (mix to i j n x) ≡ length x
unfolding mix
length-mix to i j n x = length-set x to _

pub length-quarters : (ks : List (ℕ × ℕ × ℕ × ℕ)) (x : State) → length (quarters ks x) ≡ length x
unfolding quarters quarter
length-quarters [] x = refl
length-quarters ((a, b, c, d) ∷ ks) x =
    length-quarters ks _
    ∙ length-mix a d c 18 _
    ∙ length-mix d c b 13 _
    ∙ length-mix c b a 9 _
    ∙ length-mix b a d 7 x

pub length-double_rounds : (n : ℕ) (x : State) → length (double_rounds n x) ≡ length x
unfolding double_rounds
length-double_rounds zero x = refl
length-double_rounds (suc n) x =
    length-double_rounds n _ ∙ length-quarters quarter_rows _ ∙ length-quarters quarter_columns x

pub length-add_words : (m s : State) → length m ≡ length s → length (add_words m s) ≡ 4 * length s
unfolding add_words
length-add_words [] [] h = refl
length-add_words [] (b ∷ s) h = absurd (omega arith)
length-add_words (a ∷ m) [] h = absurd (omega arith)
length-add_words (a ∷ m) (b ∷ s) h = omega (
  arith,
  length-append {0} (to_little 4 ((a + b) % mask)) (add_words m s),
  length-to_little 4 ((a + b) % mask),
  length-add_words m s (omega arith),
)

pub add_words-IsBytes : (m s : State) → IsBytes (add_words m s)
unfolding add_words
add_words-IsBytes [] s = tt
add_words-IsBytes (a ∷ m) [] = tt
add_words-IsBytes (a ∷ m) (b ∷ s) =
    All-append _ (to_little 4 ((a + b) % mask)) (add_words m s) (to_little-IsBytes 4 _)
      (add_words-IsBytes m s)

pub length-salsa20_block : (key nonce8 : Bytes) (n : ℕ) → length (salsa20_block key nonce8 n) ≡ 64
unfolding salsa20_block salsa20_rounds input_state
length-salsa20_block key nonce8 n = length-add_words _ _ (length-double_rounds 10 _)

pub length-blocks : (n : ℕ) (key nonce8 : Bytes) (c : ℕ) → length (blocks n key nonce8 c) ≡ 64 * n
unfolding blocks
length-blocks zero key nonce8 c = refl
length-blocks (suc n) key nonce8 c = omega (
  arith,
  length-append {0} (salsa20_block key nonce8 c) (blocks n key nonce8 (c + 1)),
  length-salsa20_block key nonce8 c,
  length-blocks n key nonce8 (c + 1),
)

pub blocks-IsBytes : (n : ℕ) (key nonce8 : Bytes) (c : ℕ) → IsBytes (blocks n key nonce8 c)
unfolding blocks salsa20_block
blocks-IsBytes zero key nonce8 c = tt
blocks-IsBytes (suc n) key nonce8 c =
    All-append _ _ (blocks n key nonce8 (c + 1)) (add_words-IsBytes _ _)
      (blocks-IsBytes n key nonce8 (c + 1))

pub length-xsalsa20_stream : (key nonce : Bytes) (n : ℕ) → length (xsalsa20_stream key nonce n) ≡ n
unfolding xsalsa20_stream
length-xsalsa20_stream key nonce n =
    let bs = blocks ((n + 63) / 64) (hsalsa20 key (take 16 nonce)) (drop 16 nonce) 0 in
    omega (
      arith,
      length-take n bs,
      length-blocks ((n + 63) / 64) (hsalsa20 key (take 16 nonce)) (drop 16 nonce) 0,
    )

pub xsalsa20_stream-IsBytes : (key nonce : Bytes) (n : ℕ) → IsBytes (xsalsa20_stream key nonce n)
unfolding xsalsa20_stream
xsalsa20_stream-IsBytes key nonce n = All-take _ n _ (blocks-IsBytes ((n + 63) / 64) _ _ 0)
