-- ===== src/Node/Relay/Alone.antt =====
-- One request or stream of a session by itself, and how the tables of the session show it.
use kemi.Prelude.{
  ℕ, ◌+◌, ◌<◌, String, ◌≡◌, refl, Option, none, some, List, [], ◌∷◌, ◌++◌, ◌==◌, str_eq, or_else,
  if◌then◌else◌,
}
use kemi.Prelude.Assoc.{find}
use kemi.Json.{Value, Fields, null, get}
use kemi.Node.{text_of}
use kemi.Node.Relay.{
  Future, waiting, Queue, Session, Happening, ask, ask_stream, reply, settled, taken, left, broken,
  response_of, settle_future, fail_future, drop_first, id_text,
}

-- a request or a stream by itself, without the others
pub data Single : Type 0 where
  absent : Single
  request : Future → Single
  stream : Queue → Single

-- the number of requests so far, and the state of one of them
pub record Alone : Type 0 where
  pub asked : ℕ
  pub state : Single

abbrev pub answer_single : Fields → Single → Single
answer_single payload absent = absent
answer_single payload (request f) = request (settle_future payload f)
answer_single payload (stream q) = stream (q ++ some payload ∷ [])

abbrev pub break_single : Single → Single
break_single absent = absent
break_single (request f) = request (fail_future f)
break_single (stream q) = stream (q ++ none ∷ [])

abbrev pub settle_single : Single → Single
settle_single (request f) = absent
settle_single x = x

abbrev pub queue_or_absent : Option Queue → Single
queue_or_absent none = absent
queue_or_absent (some q) = stream q

abbrev pub take_single : Single → Single
take_single (stream q) = queue_or_absent (drop_first q)
take_single x = x

abbrev pub leave_single : Single → Single
leave_single (stream q) = absent
leave_single x = x

-- what a happening means to request k: only its own number and the end of the session concern it
module _ (show : Value → String) (k : ℕ) where
  abbrev pub alone_step : Alone → Happening → Alone
  alone_step a ask = record {
    asked = a.asked + 1;
    state = if a.asked + 1 == k then request waiting else a.state;
  }
  alone_step a ask_stream = record {
    asked = a.asked + 1;
    state = if a.asked + 1 == k then stream [] else a.state;
  }
  alone_step a (reply message) = record a {
    state =
        if str_eq (text_of show (or_else (get "id" message) null)) (id_text show k)
        then answer_single (response_of (get "response" message)) a.state
        else a.state;
  }
  alone_step a (settled j) = record a { state = if j == k then settle_single a.state else a.state }
  alone_step a (taken j) = record a { state = if j == k then take_single a.state else a.state }
  alone_step a (left j) = record a { state = if j == k then leave_single a.state else a.state }
  alone_step a broken = record a { state = break_single a.state }

  unfoldable pub alone : Alone → List Happening → Alone
  alone a [] = a
  alone a (e ∷ es) = alone (alone_step a e) es

  -- what the tables of a session say of request k
  abbrev pub single : Option Future → Option Queue → Single
  single f (some q) = stream q
  single (some f) none = request f
  single none none = absent

  abbrev pub seen : Session → Single
  seen s = single (find (id_text show k) s.pending) (find (id_text show k) s.streams)

  -- a state by itself, and the entries of the two tables that make it
  abbrev pub Shows : Single → Option Future → Option Queue → Type 0
  Shows absent f q = (f ≡ none) × (q ≡ none)
  Shows (request x) f q = (f ≡ some x) × (q ≡ none)
  Shows (stream x) f q = (f ≡ none) × (q ≡ some x)

  pub single_of_Shows :
      (x : Single) (f : Option Future) (q : Option Queue) → Shows x f q → single f q ≡ x
  single_of_Shows absent f q h = rw (h.0, h.1) refl
  single_of_Shows (request x) f q h = rw (h.0, h.1) refl
  single_of_Shows (stream x) f q h = rw (h.0, h.1) refl

  abbrev pub Tracks : Session → Single → Type 0
  Tracks s x =
      Shows x (find (id_text show k) s.pending) (find (id_text show k) s.streams)
      × (s.counter < k → x ≡ absent)
