-- ===== src/Consumer/Stream/OneSource.antt =====
-- Where the tokens of a stream come from.
use kemi.Prelude.{
  String, ◌≡◌, ◌≢◌, ◌⊎◌, inl, inr, refl, sym, ap, Bool, false, ◌&&◌, ◌||◌, Option, none, some, List,
  [], ◌∷◌, All, or_else, if_both, Bool-cases,
}
use kemi.Prelude.Int.{ℤ, pos}
use kemi.Json.{Value, Fields, null, int, get, is_text}
use kemi.Crypto.{Primitives}
use kemi.Crypto.Hex.{Bytes}
use kemi.Crypto.Ed25519.{Sha512}
use kemi.Ledger.{make_tx}
use kemi.Node.{Node, truthy, with_ledger}
use kemi.Result.{Error, Result-cases, Result, ok, job_error, ok-injective}
use kemi.Consumer.Hiring.{amount_for, is_short}
use kemi.Consumer.Stream.{
  Arrival, frame, network_error, Token, Progress, fresh, Ending, failed, over, served, broken, Turn,
  next, ends, event_of, on_event, on_frame, receive, Attempt, Run, token_list, raised, mirror,
  after_failure, attempt, settle, is_empty, try_providers, stream_generate, add_token, last_frame,
}

-- nothing has been yielded before streamed_any is set
abbrev IsHonest : Progress → Type 0
IsHonest s = s.streamed ≡ false → s.tokens ≡ []

abbrev EndsHonest : Ending → Type 0
EndsHonest (failed s) = IsHonest s
EndsHonest _ = Unit {0}

abbrev TurnsHonest : Turn → Type 0
TurnsHonest (next s) = IsHonest s
TurnsHonest (ends e) = EndsHonest e

module _ (loads : Bytes → Option Value) (to_int : Value → Result ℤ) (show : Value → String) where
  add_token-IsHonest :
      (event : Fields) (s : Progress) → TurnsHonest (add_token loads to_int show event s)
  add_token-IsHonest event s =
      elim (Result-cases (to_int (or_else (get "item" event) (int (pos 0))))) [
        | inl (e, q) ↦ rw (q, add_token) tt
        | inr (n, q) ↦ rw (q, add_token) (λ e. cc)
      ]

  last_frame-IsHonest :
      (event raw : Fields) (s : Progress)
      → IsHonest s
      → TurnsHonest (last_frame loads to_int show event raw s)
  last_frame-IsHonest event raw s h =
      if_both TurnsHonest
        (is_text "end" (get "evt" event) && truthy (or_else (get "ok" event) null)) _ _ tt h

  on_event-IsHonest :
      (event raw : Fields) (s : Progress)
      → IsHonest s
      → TurnsHonest (on_event loads to_int show event raw s)
  unfolding on_event
  on_event-IsHonest event raw s h =
      let evt = get "evt" event in
      if_both TurnsHonest (is_text "accepted" evt || is_text "warming" evt) _ _ h (
        if_both TurnsHonest (is_text "token" evt) _ _ (add_token-IsHonest event s) (
          if_both TurnsHonest (truthy (or_else (get "end" raw) null)) _ _
            (last_frame-IsHonest event raw s h) h))

  on_frame-IsHonest :
      (key : Option Bytes) (raw : Fields) (s : Progress)
      → IsHonest s
      → TurnsHonest (on_frame loads to_int show key raw s)
  unfolding on_frame
  on_frame-IsHonest key raw s h = elim (Result-cases (event_of loads to_int show key raw)) [
    | inl (e, q) ↦ rw (q, on_frame) tt
    | inr (none, q) ↦ rw (q, on_frame) h
    | inr (some event, q) ↦ rw (q, on_frame) (on_event-IsHonest event raw s h)
  ]

  turn-cases : (t : Turn) → ((e : Ending) × (t ≡ ends e)) ⊎ ((s : Progress) × (t ≡ next s))
  turn-cases (ends e) = inl (e, refl)
  turn-cases (next s) = inr (s, refl)

  receive-IsHonest :
      (key : Option Bytes) (arrivals : List Arrival) (s : Progress)
      → IsHonest s
      → EndsHonest (receive loads to_int show key arrivals s)
  unfolding receive
  receive-IsHonest key [] s h = h
  receive-IsHonest key (network_error ∷ later) s h = h
  receive-IsHonest key (frame raw ∷ later) s h =
      let honest = on_frame-IsHonest key raw s h in
      elim (turn-cases (on_frame loads to_int show key raw s)) [
        | inl (e, q) ↦ rw (q, receive) (rw q at honest)
        | inr (s', q) ↦
            rw (q, receive)
              (if_both EndsHonest (truthy (or_else (get "end" raw) null)) _ _ tt
                (receive-IsHonest key later s' (rw q at honest)))
      ]

-- all that is yielded is from one provider, who is also the one that a result names
abbrev pub IsFromOne : Run → Type 0
IsFromOne r =
    (id : String) × All (λ (y : String × Token). y.0 ≡ id) r.yielded
    × ((results : Value) (server : String) → r.result ≡ ok (results, server) → server ≡ id)

All-token_list :
    (id : String) (ts : List Token) → All (λ (y : String × Token). y.0 ≡ id) (token_list id ts)
All-token_list id [] = tt
All-token_list id (t ∷ ts) = (refl, All-token_list id ts)

raised-IsFromOne :
    (id : String) (n : Node) (ts : List Token) (e : Error)
    → IsFromOne (raised n (token_list id ts) e)
raised-IsFromOne id n ts e = (id, All-token_list id ts, λ results server q. cc)

module _ (p : Primitives) (sha512 : Sha512) (loads : Bytes → Option Value)
    (to_int : Value → Result ℤ) (show : Value → String) (encrypt : Bool) (prompts : List Value)
    (params : Fields) where
  -- the provider's stream does not close without a final frame, whatever it is asked
  abbrev pub IsProper : Attempt → Type 0
  IsProper a =
      (tx : Value) (n : Node) (s : Progress)
      → attempt p sha512 loads to_int show encrypt prompts params a tx n ≢ over s

  settle-IsFromOne :
      (a : Attempt) (tx : Value) (n : Node) (ending : Ending)
      (go_on : Node → List (String × Token) → Run)
      → EndsHonest ending
      → ((s : Progress) → ending ≢ over s)
      → ((n' : Node) → IsFromOne (go_on n' []))
      → IsFromOne (settle p sha512 loads to_int show encrypt prompts params a tx n [] ending go_on)
  unfolding settle
  settle-IsFromOne a tx n (served s results) go_on honest proper rest =
      elim (Result-cases (mirror p a.settled_at tx n)) [
        | inl (e, q) ↦ rw (q, settle) (raised-IsFromOne a.provider.node_id n s.tokens e)
        | inr (n', q) ↦
            rw (q, settle)
              (
                a.provider.node_id,
                All-token_list a.provider.node_id s.tokens,
                λ r server same. sym (ap (λ (x : Value × String). x.1) (ok-injective same)),
              )
      ]
  settle-IsFromOne a tx n (over s) go_on honest proper rest = absurd (proper s refl)
  settle-IsFromOne a tx n (broken s e) go_on honest proper rest =
      raised-IsFromOne a.provider.node_id n s.tokens e
  settle-IsFromOne a tx n (failed s) go_on honest proper rest =
      elim (Result-cases (after_failure p a tx n s)) [
        | inl (e, q) ↦ rw (q, settle) (raised-IsFromOne a.provider.node_id n s.tokens e)
        | inr (n', q) ↦
            rw (q, settle)
              (elim (Bool-cases s.streamed) [
                | inl streamed ↦
                    rw streamed (raised-IsFromOne a.provider.node_id n' s.tokens job_error)
                | inr silent ↦ rw (silent, honest silent) (rest n')
              ])
      ]

  try_providers-IsFromOne :
      (attempts : List Attempt) (n : Node)
      → All IsProper attempts
      → IsFromOne (try_providers p sha512 loads to_int show encrypt prompts params attempts n [])
  unfolding try_providers attempt
  try_providers-IsFromOne [] n proper = ("", tt, λ results server q. cc)
  try_providers-IsFromOne (a ∷ later) n (proper, rest) =
      let made =
        make_tx p a.signed_at n.ledger n.identity a.provider.node_id
          (amount_for a.provider prompts) in
      let paid = with_ledger n made.1 in
      if_both IsFromOne (is_short n (amount_for a.provider prompts)) _ _
        ("", tt, λ results server q. cc)
        (settle-IsFromOne a made.0 paid _
          (try_providers p sha512 loads to_int show encrypt prompts params later)
          (receive-IsHonest loads to_int show _ _ fresh (λ e. refl)) (proper made.0 paid)
          (λ n'. try_providers-IsFromOne later n' rest))

  -- Where no provider's stream closes without a final frame, all tokens that are yielded come from one
  -- provider, who is the one that a successful end names.
  pub stream_generate-IsFromOne :
      (attempts : List Attempt) (n : Node)
      → All IsProper attempts
      → IsFromOne (stream_generate p sha512 loads to_int show encrypt prompts params attempts n)
  unfolding stream_generate
  stream_generate-IsFromOne [] n proper = ("", tt, λ results server q. cc)
  stream_generate-IsFromOne (a ∷ later) n proper =
      if_both IsFromOne (is_empty prompts) _ _ ("", tt, λ results server q. cc)
        (try_providers-IsFromOne (a ∷ later) n proper)
