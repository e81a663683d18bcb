-- ===== src/Node/Relay/Replies.antt =====
-- A reply of the peer goes to the stream or the request that its id names, and to no other.
use kemi.Prelude.{
  ℕ, String, ◌≡◌, refl, ap, ◌∙◌, false, none, some, [], ◌∷◌, ◌++◌, str_eq, eq_iff, or_else,
  Option-cases, inl, inr,
}
use kemi.Prelude.Assoc.{find, upsert, find-upsert}
use kemi.Json.{Value, Fields, null, get}
use kemi.Node.{text_of}
use kemi.Node.Relay.{Future, Queue, Session, response_of, settle_future, id_text, route_reply}
use kemi.Node.Relay.Alone.{Single, absent, request, stream, answer_single, Tracks}

module _ (show : Value → String) (s : Session) (message : Fields) where
  abbrev pub reply_id : String
  reply_id = text_of show (or_else (get "id" message) null)

  abbrev pub reply_payload : Fields
  reply_payload = response_of (get "response" message)

  to_stream :
      (q : Queue)
      → find reply_id s.streams ≡ some q
      → route_reply show s message
        ≡ record s { streams = upsert reply_id (q ++ some reply_payload ∷ []) s.streams }
  unfolding route_reply
  to_stream q h = rw (h, route_reply) refl

  to_request :
      (f : Future)
      → find reply_id s.streams ≡ none
      → find reply_id s.pending ≡ some f
      → route_reply show s message
        ≡ record s { pending = upsert reply_id (settle_future reply_payload f) s.pending }
  unfolding route_reply
  to_request f h g = rw (h, g, route_reply) refl

  to_nobody :
      find reply_id s.streams ≡ none
      → find reply_id s.pending ≡ none
      → route_reply show s message ≡ s
  unfolding route_reply
  to_nobody h g = rw (h, g, route_reply) refl

module _ (show : Value → String) (k : ℕ) where
  abbrev me : String
  me = id_text show k

  pub reply_other :
      (s : Session) (x : Single) (message : Fields)
      → str_eq (reply_id show s message) me ≡ false
      → Tracks show k s x
      → Tracks show k (route_reply show s message) x
  reply_other s x m other (shown, fresh) =
      elim (Option-cases (find (reply_id show s m) s.streams)) [
        | inr (q, there) ↦
            rw
              (
                to_stream show s m q there,
                find-upsert (reply_id show s m) me (q ++ some (reply_payload show s m) ∷ [])
                    s.streams,
                other,
              )
              (shown, fresh)
        | inl gone ↦ elim (Option-cases (find (reply_id show s m) s.pending)) [
          | inr (f, there) ↦
              rw
                (
                  to_request show s m f gone there,
                  find-upsert (reply_id show s m) me (settle_future (reply_payload show s m) f)
                      s.pending,
                  other,
                )
                (shown, fresh)
          | inl none_there ↦ rw (to_nobody show s m gone none_there) (shown, fresh)
        ]
      ]

  pub reply_mine :
      (s : Session) (x : Single) (message : Fields)
      → reply_id show s message ≡ me
      → Tracks show k s x
      → Tracks show k (route_reply show s message) (answer_single (reply_payload show s message) x)
  reply_mine s absent m mine (shown, fresh) =
      rw
        (to_nobody show s m (ap (λ n. find n s.streams) mine ∙ shown.1)
          (ap (λ n. find n s.pending) mine ∙ shown.0))
        (shown, fresh)
  reply_mine s (request f) m mine (shown, fresh) =
      rw
        (
          to_request show s m f (ap (λ n. find n s.streams) mine ∙ shown.1)
              (ap (λ n. find n s.pending) mine ∙ shown.0),
          find-upsert (reply_id show s m) me (settle_future (reply_payload show s m) f) s.pending,
          (eq_iff (reply_id show s m) me).1 mine,
        )
        ((refl, shown.1), λ lt. ap (answer_single (reply_payload show s m)) (fresh lt))
  reply_mine s (stream q) m mine (shown, fresh) =
      rw
        (
          to_stream show s m q (ap (λ n. find n s.streams) mine ∙ shown.1),
          find-upsert (reply_id show s m) me (q ++ some (reply_payload show s m) ∷ []) s.streams,
          (eq_iff (reply_id show s m) me).1 mine,
        )
        ((shown.0, refl), λ lt. ap (answer_single (reply_payload show s m)) (fresh lt))
