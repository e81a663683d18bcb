-- ===== src/E2e/Sealing.antt =====
-- What is sealed opens, and nothing else does.
use kemi.Prelude.{
  ℕ, ◌+◌, ◌≡◌, ◌↔◌, refl, sym, ap, ap₂, subst, ◌∙◌, true, false, [], ◌∷◌, ◌++◌, arith, ltb, ◌==◌,
  ==_iff, length, take, drop, &&-eq-true, length-append, length-drop, take-append-drop,
}
use kemi.Crypto.Hex.{Bytes}
use kemi.Crypto.Hex.Reading.{from_hex-to_hex}
use kemi.Crypto.Octets.{
  IsBytes, xor_bytes, length-to_little, to_little-IsBytes, length-xor_bytes, xor_bytes_twice,
  xor_bytes-IsBytes, take-append, drop-append, All-append, All-drop,
}
use kemi.Json.{obj, get}
use kemi.Result.{ok}
use kemi.E2e.Salsa.{xsalsa20_stream}
use kemi.E2e.Poly.{poly1305}
use kemi.E2e.Box.{bytes_eq, secretbox_seal, secretbox_open, seal, open_sealed}
use kemi.E2e.Lengths.{length-xsalsa20_stream, xsalsa20_stream-IsBytes}

-- ------------------------------------------------------------ the box

bytes_eq_self : (xs : Bytes) → bytes_eq xs xs ≡ true
unfolding bytes_eq
bytes_eq_self [] = refl
bytes_eq_self (x ∷ xs) = ground (arith, bytes_eq_self xs)

eq_of_bytes_eq : (xs ys : Bytes) → bytes_eq xs ys ≡ true → xs ≡ ys
unfolding bytes_eq
eq_of_bytes_eq [] [] h = refl
eq_of_bytes_eq [] (y ∷ ys) h = cc
eq_of_bytes_eq (x ∷ xs) [] h = cc
eq_of_bytes_eq (x ∷ xs) (y ∷ ys) h =
    let (head, tail) = &&-eq-true (x == y) (bytes_eq xs ys) h in
    ap₂ (◌∷◌) ((==_iff x y).0 head) (eq_of_bytes_eq xs ys tail)

length-poly1305 : (message key32 : Bytes) → length (poly1305 message key32) ≡ 16
unfolding poly1305
length-poly1305 message key32 = length-to_little 16 _

module _ (key nonce : Bytes) where
  -- the part of the stream that hides n bytes
  abbrev pad : ℕ → Bytes
  pad n = drop 32 (xsalsa20_stream key nonce (32 + n))

  abbrev tag : Bytes → Bytes
  tag ciphertext =
      poly1305 ciphertext (take 32 (xsalsa20_stream key nonce (32 + length ciphertext)))

  length-pad : (n : ℕ) → length (pad n) ≡ n
  length-pad n = omega (
    arith,
    length-drop 32 (xsalsa20_stream key nonce (32 + n)),
    length-xsalsa20_stream key nonce (32 + n),
  )

  -- under the pad of its length a text keeps its length, and comes back
  abbrev cipher : Bytes → Bytes
  cipher text = xor_bytes text (pad (length text))

  length-cipher : (text : Bytes) → length (cipher text) ≡ length text
  length-cipher text = length-xor_bytes text _ (omega (arith, length-pad (length text)))

  cipher_twice : (text : Bytes) → cipher (cipher text) ≡ text
  cipher_twice text =
      rw (length-cipher text)
        (xor_bytes_twice text (pad (length text)) (omega (arith, length-pad (length text))))

  secretbox_seal-eq : (m : Bytes) → secretbox_seal key nonce m ≡ tag (cipher m) ++ cipher m
  unfolding secretbox_seal
  secretbox_seal-eq m = rw (length-cipher m) refl

  -- a box of a right tag and a ciphertext opens
  secretbox_open_tagged : (c : Bytes) → secretbox_open key nonce (tag c ++ c) ≡ ok (cipher c)
  unfolding secretbox_open
  secretbox_open_tagged c =
      let t = tag c in
      let size : length t ≡ 16 = length-poly1305 c _ in
      let head : take 16 (t ++ c) ≡ t = subst (λ n. take n (t ++ c) ≡ t) size (take-append t c) in
      let tail : drop 16 (t ++ c) ≡ c = subst (λ n. drop n (t ++ c) ≡ c) size (drop-append t c) in
      let long : ltb (length (t ++ c)) 16 ≡ false = ground (arith, length-append t c) in
      rw (long, head, tail, bytes_eq_self t) refl

  secretbox_open-eq-ok :
      (boxed m : Bytes)
      → secretbox_open key nonce boxed ≡ ok m
      → (boxed ≡ tag (drop 16 boxed) ++ drop 16 boxed) × (m ≡ cipher (drop 16 boxed))
  unfolding secretbox_open
  secretbox_open-eq-ok boxed m h =
      let c = drop 16 boxed in
      let parts : (bytes_eq (take 16 boxed) (tag c) ≡ true) × (m ≡ cipher c) = ground arith in
      (
        sym (take-append-drop 16 boxed) ∙ ap (λ (t : Bytes). t ++ c) (eq_of_bytes_eq _ _ parts.0),
        parts.1,
      )

  -- A box opens to a text exactly when it is what sealing the text under the key and nonce gives.
  pub secretbox_open_iff :
      (boxed m : Bytes)
      → (secretbox_open key nonce boxed ≡ ok m) ↔ (secretbox_seal key nonce m ≡ boxed)
  secretbox_open_iff boxed m = (
    λ h. opened (secretbox_open-eq-ok boxed m h),
    λ h.
        rw (sym h, secretbox_seal-eq m)
          (secretbox_open_tagged (cipher m) ∙ ap (λ (t : Bytes). ok t) (cipher_twice m)),
  )
    where
      opened :
          (boxed ≡ tag (drop 16 boxed) ++ drop 16 boxed) × (m ≡ cipher (drop 16 boxed))
          → secretbox_seal key nonce m ≡ boxed
      opened (whole, text) =
          let back : cipher m ≡ drop 16 boxed = rw text (cipher_twice (drop 16 boxed)) in
          secretbox_seal-eq m ∙ rw back (sym whole)

  secretbox_seal-IsBytes : (m : Bytes) → IsBytes m → IsBytes (secretbox_seal key nonce m)
  unfolding poly1305
  secretbox_seal-IsBytes m h = rw (secretbox_seal-eq m) (
      All-append _ (tag (cipher m)) (cipher m) (to_little-IsBytes 16 _)
        (xor_bytes-IsBytes m _ h (All-drop _ 32 _ (xsalsa20_stream-IsBytes key nonce _))))

  -- What seal makes of a text, under a nonce of 24 bytes, open_sealed opens to that text.
  pub open_sealed-seal :
      (m : Bytes)
      → IsBytes m
      → IsBytes nonce
      → length nonce ≡ 24
      → open_sealed key (obj (seal nonce key m)) ≡ ok m
  unfolding open_sealed seal get
  open_sealed-seal m bytes nonce_bytes size =
      rw
        (
          from_hex-to_hex nonce nonce_bytes,
          from_hex-to_hex (secretbox_seal key nonce m) (secretbox_seal-IsBytes m bytes),
          size,
        )
        ((secretbox_open_iff _ m).1 refl)
