-- ===== src/Protocol/Tests.antt =====
-- Two token frames on a stream, and what another request has left behind them.
use kemi.Prelude.{
  ℕ, String, ◌≡◌, refl, Bool, true, false, none, [], ◌∷◌, ◌++◌, arith, ◌==◌, or_else,
}
use kemi.Prelude.Int.{pos, pos_part}
use kemi.Json.{Value, Fields, obj, int, bool, field, end, get, integer}
use kemi.Crypto.Hex.{Bytes, big_endian}
use kemi.Node.{truthy}
use kemi.Result.{Result, ok, raise, value_error}
use kemi.Protocol.{from_big, read_exactly, send_message, read_body, read_message, responses}
use kemi.Protocol.Framing.{send_all, responses-sent}

-- a frame is its number and whether it is the last
abbrev frame : ℕ → Bool → Fields
frame n last = field "n" (int (pos n)) (field "end" (bool last) end)

abbrev field_byte : String → Fields → ℕ
field_byte k fs = pos_part (or_else (integer (get k fs)) (pos 0))

abbrev dumps : Value → Bytes
dumps (obj fs) = field_byte "n" fs ∷ field_byte "end" fs ∷ []
dumps _ = []

abbrev loads : Bytes → Result Value
loads (n ∷ e ∷ []) = ok (obj (frame n (e == 1)))
loads _ = raise value_error

abbrev sent : Bytes
sent = 0 ∷ 0 ∷ 0 ∷ 2 ∷ 7 ∷ 0 ∷ 0 ∷ 0 ∷ 0 ∷ 2 ∷ 8 ∷ 1 ∷ []

both_are_sent : send_all dumps loads (frame 7 false ∷ frame 8 true ∷ []) ≡ ok sent
unfolding send_message big_endian get integer
both_are_sent = refl

-- the second header promises more bytes than there are
cut_short :
    (responses dumps loads 2 (0 ∷ 0 ∷ 0 ∷ 2 ∷ 7 ∷ 0 ∷ 0 ∷ 0 ∷ 0 ∷ 2 ∷ 8 ∷ [])).0
    ≡ frame 7 false ∷ []
unfolding responses read_message read_body read_exactly from_big get integer truthy
cut_short = refl

responses-sent_example :
    responses dumps loads 2 (sent ++ 9 ∷ []) ≡ (frame 7 false ∷ frame 8 true ∷ [], none)
unfolding get integer truthy
responses-sent_example =
    responses-sent dumps loads (frame 7 false ∷ []) (frame 8 true) sent (9 ∷ []) 2
      (refl, (refl, tt)) (refl, tt) refl both_are_sent (omega arith)
