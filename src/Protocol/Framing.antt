-- ===== src/Protocol/Framing.antt =====
-- Reading what send_message has written.
use kemi.Prelude.{
  ℕ, zero, suc, ◌≤◌, ◌<◌, ◌≡◌, refl, sym, ap, true, false, List, [], ◌∷◌, ◌++◌, length,
  length-append, take, drop, leb, ltb, arith, Bool-cases, inl, inr, le→leb, All, none,
}
use mathlib.Core.List.{append_assoc}
use kemi.Json.{Value, Fields, obj}
use kemi.Crypto.Hex.{Bytes, big_endian}
use kemi.Result.{Result, ok, raise, protocol_error, ok-injective, >>=-eq-ok, ◌>>=◌}
use kemi.Protocol.{
  from_big, max_message_bytes, read_exactly, send_message, read_body, read_message, is_last,
  responses,
}

from_big-big_endian : (n : ℕ) → n ≤ max_message_bytes → from_big 0 (big_endian 4 n []) ≡ n
unfolding from_big big_endian
from_big-big_endian n h = omega arith

take-append : (xs ys : Bytes) → take (length xs) (xs ++ ys) ≡ xs
take-append [] ys = refl
take-append (x ∷ xs) ys = ap (λ zs. x ∷ zs) (take-append xs ys)

drop-append : (xs ys : Bytes) → drop (length xs) (xs ++ ys) ≡ ys
drop-append [] ys = refl
drop-append (x ∷ xs) ys = drop-append xs ys

read_exactly-append : (xs ys : Bytes) → read_exactly (length xs) (xs ++ ys) ≡ ok (xs, ys)
unfolding read_exactly
read_exactly-append xs ys =
    let enough : leb (length xs) (length (xs ++ ys)) ≡ true =
      le→leb _ _ (rw (length-append xs ys) (omega arith)) in
    rw (enough, take-append xs ys, drop-append xs ys) refl

read_header :
    (n : ℕ) (ys : Bytes) → read_exactly 4 (big_endian 4 n [] ++ ys) ≡ ok (big_endian 4 n [], ys)
unfolding big_endian
read_header n ys = read_exactly-append (big_endian 4 n []) ys

module _ (dumps : Value → Bytes) (loads : Bytes → Result Value) where
  -- what send_message writes: the header and the text, of a length that the header can hold
  record IsFramed (message : Fields) (bytes : Bytes) : Type 0 where
    small : length (dumps (obj message)) ≤ max_message_bytes
    framed : bytes ≡ big_endian 4 (length (dumps (obj message))) [] ++ dumps (obj message)

  send_message-IsFramed :
      (m : Fields) (bytes : Bytes) → send_message dumps loads m ≡ ok bytes → IsFramed m bytes
  unfolding send_message
  send_message-IsFramed m bytes sent =
      elim (Bool-cases (ltb max_message_bytes (length (dumps (obj m))))) [
        | inl big ↦ (let no : raise protocol_error ≡ ok bytes = rw big at sent in cc)
        | inr fits ↦ record { small = ground arith; framed = sym (ok-injective (rw fits at sent)) }
      ]

  read_body-append :
      (m : Fields) (rest : Bytes)
      → loads (dumps (obj m)) ≡ ok (obj m)
      → length (dumps (obj m)) ≤ max_message_bytes
      → read_body dumps loads (length (dumps (obj m))) (dumps (obj m) ++ rest) ≡ ok (m, rest)
  unfolding read_body
  read_body-append m rest law small =
      let fits : ltb max_message_bytes (length (dumps (obj m))) ≡ false = ground arith in
      rw (fits, read_exactly-append (dumps (obj m)) rest, law) refl

  -- Where loads reads back what dumps makes of a message, reading the bytes that send_message has
  -- written gives the message, and leaves the bytes behind it.
  pub read_message-send_message :
      (m : Fields) (bytes rest : Bytes)
      → loads (dumps (obj m)) ≡ ok (obj m)
      → send_message dumps loads m ≡ ok bytes
      → read_message dumps loads (bytes ++ rest) ≡ ok (m, rest)
  unfolding read_message
  read_message-send_message m bytes rest law sent =
      let f = send_message-IsFramed m bytes sent in
      let n = length (dumps (obj m)) in
      rw
        (
          f.framed,
          append_assoc (big_endian 4 n []) (dumps (obj m)) rest,
          read_header n (dumps (obj m) ++ rest),
          from_big-big_endian n f.small,
        )
        (read_body-append m rest law f.small)

  -- the bytes of some messages, one after the other
  abbrev pub send_all : List Fields → Result Bytes
  send_all [] = ok []
  send_all (m ∷ ms) = do
    first ← send_message dumps loads m
    later ← send_all ms
    ok (first ++ later)

  -- Where loads reads back what dumps makes of each message, stream_request yields exactly the
  -- messages that have been sent one after the other, up to the first with a true "end", which it
  -- yields too, and ends well, however the bytes go on; it needs as many rounds.
  pub responses-sent :
      (ms : List Fields) (final : Fields) (bytes rest : Bytes) (fuel : ℕ)
      → All (λ m. loads (dumps (obj m)) ≡ ok (obj m)) (ms ++ final ∷ [])
      → All (λ m. is_last dumps loads m ≡ false) ms
      → is_last dumps loads final ≡ true
      → send_all (ms ++ final ∷ []) ≡ ok bytes
      → length ms < fuel
      → responses dumps loads fuel (bytes ++ rest) ≡ (ms ++ final ∷ [], none)
  unfolding responses
  responses-sent ms final bytes rest zero laws going ends sent enough = absurd (omega arith)
  responses-sent [] final bytes rest (suc fuel) laws going ends sent enough =
      let (first, one, more) = >>=-eq-ok (send_message dumps loads final) _ sent in
      let whole : first ++ [] ≡ bytes = ok-injective more in
      rw
        (
          sym whole,
          append_assoc first [] rest,
          responses,
          read_message-send_message final first rest laws.0 one,
          ends,
        )
        refl
  responses-sent (m ∷ ms) final bytes rest (suc fuel) laws going ends sent enough =
      let (first, one, more) = >>=-eq-ok (send_message dumps loads m) _ sent in
      let (later, others, joined) = >>=-eq-ok (send_all (ms ++ final ∷ [])) _ more in
      let whole : first ++ later ≡ bytes = ok-injective joined in
      rw
        (
          sym whole,
          append_assoc first later rest,
          responses,
          read_message-send_message m first (later ++ rest) laws.0 one,
          going.0,
          responses-sent ms final later rest fuel laws.1 going.1 ends others (omega arith),
        )
        refl
