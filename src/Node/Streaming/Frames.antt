-- ===== src/Node/Streaming/Frames.antt =====
-- The frames of a stream: which is its last, and which refuse.
use kemi.Prelude.{ℕ, zero, suc, ◌≡◌, refl, Bool, true, false, List, [], ◌∷◌, All}
use kemi.Node.Streaming.{
  Refusal, Frame, warming, token, refused, finished, Produced, next_token, all_done, backend_error,
  silent, finish_with, relay_tokens,
}

abbrev pub is_final : Frame → Bool
is_final (refused r) = true
is_final (finished results charged) = true
is_final _ = false

-- a frame with "end" is the last
abbrev pub EndsOnce : List Frame → Type 0
EndsOnce [] = Unit {0}
EndsOnce (f ∷ []) = Unit {0}
EndsOnce (f ∷ g ∷ fs) = (is_final f ≡ false) × EndsOnce (g ∷ fs)

abbrev pub is_refusal : Frame → Bool
is_refusal (refused r) = true
is_refusal _ = false

abbrev pub AllRefused : List Frame → Type 0
AllRefused = All (λ f. is_refusal f ≡ true)

pub EndsOnce-cons :
    (f : Frame) (fs : List Frame) → is_final f ≡ false → EndsOnce fs → EndsOnce (f ∷ fs)
EndsOnce-cons f [] h e = tt
EndsOnce-cons f (g ∷ fs) h e = (h, e)

pub finish_with-EndsOnce : (room : ℕ) (f : Frame) → EndsOnce (finish_with room f)
unfolding finish_with
finish_with-EndsOnce zero f = tt
finish_with-EndsOnce (suc room) f = tt

pub finish_with-AllRefused : (room : ℕ) (r : Refusal) → AllRefused (finish_with room (refused r))
unfolding finish_with
finish_with-AllRefused zero r = tt
finish_with-AllRefused (suc room) r = (refl, tt)

pub relay_tokens-EndsOnce :
    (expected : ℕ) (sent : Bool) (room : ℕ) (ps : List Produced)
    → EndsOnce (relay_tokens expected sent room ps).0
unfolding relay_tokens
relay_tokens-EndsOnce expected sent room [] = finish_with-EndsOnce room _
relay_tokens-EndsOnce expected sent room (all_done results ∷ ps) = finish_with-EndsOnce room _
relay_tokens-EndsOnce expected sent room (backend_error ∷ ps) = finish_with-EndsOnce room _
relay_tokens-EndsOnce expected sent zero (next_token i t ∷ ps) = tt
relay_tokens-EndsOnce expected sent (suc room) (next_token i t ∷ ps) =
    EndsOnce-cons (token i t) _ refl (relay_tokens-EndsOnce expected true room ps)
relay_tokens-EndsOnce expected true room (silent ∷ ps) = finish_with-EndsOnce room _
relay_tokens-EndsOnce expected false zero (silent ∷ ps) = tt
relay_tokens-EndsOnce expected false (suc room) (silent ∷ ps) =
    EndsOnce-cons warming _ refl (relay_tokens-EndsOnce expected false room ps)
