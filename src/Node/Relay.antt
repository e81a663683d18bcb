-- ===== src/Node/Relay.antt =====
-- kemi/node.py: _RelaySession, the relay's side of the connection that a peer behind a NAT holds open,
-- with the requests and streams that run over it, and the table of the sessions. The order in which
-- requests, replies, timeouts and the end of the connection come is that of a list of events.
pub mod Alone
pub mod Steps
pub mod Replies
pub mod Routing
pub mod Capacity
mod Tests
use kemi.Prelude.{
  ℕ, ◌+◌, ◌*◌, String, Bool, true, false, not, ◌&&◌, ◌||◌, Option, none, some, List, [], ◌∷◌, ◌++◌,
  keep, length, leb, ltb, ◌==◌, str_eq, or_else, if◌then◌else◌,
}
use kemi.Prelude.Int.{ℤ, pos, negsuc, ◌-ℤ◌, ltb_ℤ}
use kemi.Prelude.Assoc.{find, upsert, remove, map_values}
use kemi.Json.{Value, Fields, null, bool, int, str, obj, end, field, get, number, is_text, billion}
use kemi.Crypto.{Primitives, open_envelope, verify_node_id}
use kemi.Node.{text_of, truthy}
use kemi.Result.{Result, ok, ◌>>=◌}

-- an asyncio future
pub data Future : Type 0 where
  waiting : Future
  resolved : Fields → Future
  failed : Future

-- a queue of events, where none is the end of the session
abbrev pub Queue : Type 0
Queue = List (Option Fields)

pub record Session : Type 0 where
  pub counter : ℕ
  pub pending : List (String × Future)
  pub streams : List (String × Queue)

abbrev pub new_session : Session
new_session = record { counter = 0; pending = []; streams = [] }

-- what the relay, the peer and the clock do to a session
pub data Happening : Type 0 where
  -- forward and stream up to the message that they send
  ask : Happening
  ask_stream : Happening
  -- a message of the peer
  reply : Fields → Happening
  -- forward returns or raises, and drops its future
  settled : ℕ → Happening
  -- the loop of stream takes an event from its queue, or is closed
  taken : ℕ → Happening
  left : ℕ → Happening
  -- the connection ends
  broken : Happening

-- payload of a reply that is no object
abbrev pub empty_reply : Fields
empty_reply =
    field "ok" (bool false) (field "error" (str "empty_relay_reply") (field "end" (bool true) end))

abbrev pub response_of : Option Value → Fields
response_of (some (obj fs)) = fs
response_of _ = empty_reply

unfoldable pub settle_future : Fields → Future → Future
settle_future payload waiting = resolved payload
settle_future payload f = f

unfoldable pub fail_future : Future → Future
fail_future waiting = failed
fail_future f = f

-- queue.get, and the end of the loop of stream on the end of the session or a last event
unfoldable pub drop_first : Queue → Option Queue
drop_first [] = some []
drop_first (none ∷ q) = none
drop_first (some event ∷ q) = elim (get "end" event) [
  | none ↦ some q
  | some v ↦ if truthy v then none else some q
]

-- self.pending.pop(msg_id, None) and self.streams.pop(msg_id, None)
abbrev pub put_queue : String → Option Queue → List (String × Queue) → List (String × Queue)
put_queue id none streams = remove id streams
put_queue id (some q) streams = upsert id q streams

-- show is str of what is no text
module _ (show : Value → String) where
  -- f"{self._counter}"
  abbrev pub id_text : ℕ → String
  id_text k = show (int (pos k))

  unfoldable pub route_reply : Session → Fields → Session
  route_reply s message =
      let id = text_of show (or_else (get "id" message) null) in
      let payload = response_of (get "response" message) in
      elim (find id s.streams) [
        | some q ↦ record s { streams = upsert id (q ++ some payload ∷ []) s.streams }
        | none ↦ elim (find id s.pending) [
          | some f ↦ record s { pending = upsert id (settle_future payload f) s.pending }
          | none ↦ s
        ]
      ]

  unfoldable pub fail_all : Session → Session
  fail_all s = record s {
    pending = map_values fail_future s.pending;
    streams = map_values (λ q. q ++ none ∷ []) s.streams;
  }

  unfoldable pub happen : Session → Happening → Session
  happen s ask = record s {
    counter = s.counter + 1;
    pending = upsert (id_text (s.counter + 1)) waiting s.pending;
  }
  happen s ask_stream = record s {
    counter = s.counter + 1;
    streams = upsert (id_text (s.counter + 1)) [] s.streams;
  }
  happen s (reply message) = route_reply s message
  happen s (settled k) = record s { pending = remove (id_text k) s.pending }
  happen s (taken k) = elim (find (id_text k) s.streams) [
    | none ↦ s
    | some q ↦ record s { streams = put_queue (id_text k) (drop_first q) s.streams }
  ]
  happen s (left k) = record s { streams = remove (id_text k) s.streams }
  happen s broken = fail_all s

  unfoldable pub happen_all : Session → List Happening → Session
  happen_all s [] = s
  happen_all s (e ∷ es) = happen_all (happen s e) es

-- ------------------------------------------------------------ the table of the sessions

-- the connection that a session belongs to, and the address that it comes from
pub record Held : Type 0 where
  pub connection : ℕ
  pub ip : String

abbrev pub RelayTable : Type 0
RelayTable = List (String × Held)

pub record RelayLimits : Type 0 where
  pub max_relay_sessions : ℕ
  pub per_ip_relay_sessions : ℕ

unfoldable pub count_ip : String → RelayTable → ℕ
count_ip ip [] = 0
count_ip ip ((k, h) ∷ t) = let rest = count_ip ip t in if str_eq h.ip ip then rest + 1 else rest

unfoldable pub relay_full : RelayLimits → String → RelayTable → Bool
relay_full limits ip t =
    leb limits.max_relay_sessions (length t) || leb limits.per_ip_relay_sessions (count_ip ip t)

pub data Registration : Type 0 where
  full unauthorized : Registration
  relaying : String → Registration

-- abs(now - ts) <= 60, for a number
abbrev pub is_recent : ℤ → Option ℤ → Bool
is_recent now none = false
is_recent now (some ts) =
    not (ltb_ℤ (pos (60 * billion)) (now -ℤ ts)) && not (ltb_ℤ (pos (60 * billion)) (ts -ℤ now))

-- message.get("envelope") or {}
abbrev pub envelope_of : Option Value → Value
envelope_of none = obj end
envelope_of (some v) = if truthy v then v else obj end

-- message["envelope"].get("pubkey", "")
abbrev envelope_key : Value → Value
envelope_key (obj fs) = or_else (get "pubkey" fs) (str "")
envelope_key _ = str ""

module _ (p : Primitives) (difficulty : ℕ) where
  abbrev pub recognised : ℤ → Fields → Value → Bool → Option String
  recognised now payload (str node_id) true =
      if is_recent now (number (get "ts" payload)) then some node_id else none
  recognised now payload _ _ = none

  abbrev pub recognise : ℤ → Value → Option Fields → Result (Option String)
  recognise now envelope none = ok none
  recognise now envelope (some payload) =
      if not (is_text "relay" (get "kind" payload))
      then ok none
      else (let node_id = or_else (get "node_id" payload) (str "") in
          verify_node_id p node_id (some (envelope_key envelope))
            (some (or_else (get "pow_nonce" payload) (int (negsuc 0)))) difficulty
          >>= (λ good. ok (recognised now payload node_id good)))

  abbrev pub enrol : ℕ → String → RelayTable → Option String → Registration × RelayTable
  enrol connection ip t none = (unauthorized, t)
  enrol connection ip t (some node_id) =
      (relaying node_id, upsert node_id (record { connection = connection; ip = ip }) t)

  -- _serve_relay_session up to the answer ok
  unfoldable pub register_session :
      RelayLimits → ℤ → ℕ → String → Fields → RelayTable → Result (Registration × RelayTable)
  register_session limits now connection ip message t =
      if relay_full limits ip t
      then ok (full, t)
      else (let envelope = envelope_of (get "envelope" message) in
          recognise now envelope (open_envelope p envelope)
          >>= (λ known. ok (enrol connection ip t known)))

-- what follows the end of the connection: only the session of that connection is taken out
unfoldable pub end_session : ℕ → String → RelayTable → RelayTable
end_session connection node_id t = elim (find node_id t) [
  | none ↦ t
  | some h ↦ if h.connection == connection then remove node_id t else t
]
