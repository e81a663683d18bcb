-- ===== src/Node/Relay/Routing.antt =====
-- What becomes of one request or stream of a session, whatever else runs over its connection.
use kemi.Prelude.{
  ℕ, String, ◌≡◌, refl, ap, ◌∙◌, List, [], ◌∷◌, arith, ◌==◌, ==_iff, str_eq, eq_iff, Bool-cases,
  inl, inr,
}
use kemi.Prelude.Assoc.{find}
use kemi.Json.{Value, Fields}
use kemi.Node.Relay.{
  Session, new_session, Happening, ask, ask_stream, reply, settled, taken, left, broken, id_text,
  route_reply, fail_all, happen, happen_all,
}
use kemi.Node.Relay.Alone.{Single, absent, Alone, alone_step, alone, seen, single_of_Shows, Tracks}
use kemi.Node.Relay.Steps.{
  ask-Tracks, ask_stream-Tracks, settled-Tracks, left-Tracks, broken-Tracks, taken_other,
  taken_mine,
}
use kemi.Node.Relay.Replies.{reply_id, reply_other, reply_mine}

route_reply-counter :
    (show : Value → String) (s : Session) (m : Fields) → (route_reply show s m).counter ≡ s.counter
unfolding route_reply
route_reply-counter show s m = ground arith

taken-counter :
    (show : Value → String) (s : Session) (j : ℕ) → (happen show s (taken j)).counter ≡ s.counter
unfolding happen
taken-counter show s j = ground arith

module _ (show : Value → String) (k : ℕ)
    (injective : (a b : ℕ) → id_text show a ≡ id_text show b → a ≡ b) where
  abbrev at_hand : Session → Single → Alone
  at_hand s x = record { asked = s.counter; state = x }

  happen-Tracks :
      (s : Session) (x : Single) (e : Happening)
      → Tracks show k s x
      → Tracks show k (happen show s e) (alone_step show k (at_hand s x) e).state
  happen-Tracks s x ask t = ask-Tracks show k injective s x t
  happen-Tracks s x ask_stream t = ask_stream-Tracks show k injective s x t
  happen-Tracks s x (settled j) t = settled-Tracks show k injective s x j t
  happen-Tracks s x (left j) t = left-Tracks show k injective s x j t
  happen-Tracks s x broken t = broken-Tracks show k injective s x t
  happen-Tracks s x (taken j) t = elim (Bool-cases (j == k)) [
    | inr other ↦ rw other (taken_other show k injective s x j other t)
    | inl mine ↦ rw ((==_iff j k).0 mine, (==_iff k k).1 refl) (taken_mine show k injective s x t)
  ]
  happen-Tracks s x (reply m) t = elim (Bool-cases (str_eq (reply_id show s m) (id_text show k))) [
    | inr other ↦ rw other (reply_lem (reply_other show k s x m other t))
    | inl mine ↦ rw mine (
        reply_lem
          (reply_mine show k s x m ((eq_iff (reply_id show s m) (id_text show k)).0 mine) t))
  ]
    where
      reply_lem :
          {y : Single}
          → Tracks show k (route_reply show s m) y
          → Tracks show k (happen show s (reply m)) y
      reply_lem h = unfold happen in h

  happen-counter :
      (s : Session) (x : Single) (e : Happening)
      → (happen show s e).counter ≡ (alone_step show k (at_hand s x) e).asked
  unfolding happen fail_all
  happen-counter s x ask = refl
  happen-counter s x ask_stream = refl
  happen-counter s x (reply m) = route_reply-counter show s m
  happen-counter s x (settled j) = refl
  happen-counter s x (taken j) = taken-counter show s j
  happen-counter s x (left j) = refl
  happen-counter s x broken = refl

  happen_all-seen :
      (es : List Happening) (s : Session) (x : Single)
      → Tracks show k s x
      → seen show k (happen_all show s es) ≡ (alone show k (at_hand s x) es).state
  unfolding happen_all alone
  happen_all-seen [] s x t = single_of_Shows show k x _ _ t.0
  happen_all-seen (e ∷ es) s x t =
      happen_all-seen es (happen show s e) (alone_step show k (at_hand s x) e).state
        (happen-Tracks s x e t)
      ∙ ap
          (λ c.
            (alone show k (record { asked = c; state = (alone_step show k (at_hand s x) e).state })
              es).state)
          (happen-counter s x e)

  -- After any happenings in a new session, in any order, what the two tables hold of request or
  -- stream k is what the happenings make of it alone, of which only those of its own number, the
  -- replies that name it and the end of the session concern it, provided str tells numbers apart.
  pub sessions_are_separate :
      (es : List Happening)
      → seen show k (happen_all show new_session es)
        ≡ (alone show k (record { asked = 0; state = absent }) es).state
  unfolding find
  sessions_are_separate es = happen_all-seen es new_session absent ((refl, refl), λ lt. refl)
