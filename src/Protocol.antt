-- ===== src/Protocol.antt =====
-- kemi/protocol.py: length-prefixed JSON messages, and the streams of them. A connection is the list
-- of the bytes that the peer sends until it closes; waits and timeouts are left out.
pub mod Framing
mod Tests
use kemi.Prelude.{
  ℕ, zero, suc, ◌+◌, ◌*◌, String, Bool, true, false, Option, none, some, List, [], ◌∷◌, ◌++◌,
  length, take, drop, leb, ltb, or_else, if◌then◌else◌,
}
use kemi.Json.{Value, Fields, bool, str, obj, field, end, get}
use kemi.Crypto.Hex.{Bytes, big_endian}
use kemi.Node.{truthy}
use kemi.Result.{Error, Result, ok, raise, protocol_error, incomplete_read_error, ◌>>=◌}

abbrev pub max_message_bytes : ℕ
max_message_bytes = 32 * 1024 * 1024

-- _HEADER.unpack, of the bytes after a
unfoldable pub from_big : ℕ → Bytes → ℕ
from_big a [] = a
from_big a (b ∷ bs) = from_big (a * 256 + b) bs

-- reader.readexactly
unfoldable pub read_exactly : ℕ → Bytes → Result (Bytes × Bytes)
read_exactly n bs =
    if leb n (length bs) then ok (take n bs, drop n bs) else raise incomplete_read_error

-- dumps is json.dumps(…).encode("utf-8"), loads is json.loads(data.decode("utf-8"))
module _ (dumps : Value → Bytes) (loads : Bytes → Result Value) where
  -- the bytes that send_message writes
  unfoldable pub send_message : Fields → Result Bytes
  send_message message =
      let text = dumps (obj message) in
      if ltb max_message_bytes (length text)
      then raise protocol_error
      else ok (big_endian 4 (length text) [] ++ text)

  abbrev object_of : Value → Result Fields
  object_of (obj fs) = ok fs
  object_of _ = raise protocol_error

  -- the rest of read_message, for a declared length
  unfoldable pub read_body : ℕ → Bytes → Result (Fields × Bytes)
  read_body n bs =
      if ltb max_message_bytes n
      then raise protocol_error
      else (read_exactly n bs
          >>= (λ (text, rest). loads text >>= object_of >>= (λ message. ok (message, rest))))

  -- the message, and the bytes behind it
  unfoldable pub read_message : Bytes → Result (Fields × Bytes)
  read_message bs = read_exactly 4 bs >>= (λ (header, rest). read_body (from_big 0 header) rest)

  abbrev pub is_last : Fields → Bool
  is_last response = elim (get "end" response) [ none ↦ false | some v ↦ truthy v ]

  -- the loop of stream_request: the responses that it yields, and the exception that ends it or none;
  -- each takes four bytes at least, so that the number of bytes is enough fuel
  unfoldable pub responses : ℕ → Bytes → List Fields × Option Error
  responses zero bs = ([], some incomplete_read_error)
  responses (suc fuel) bs = elim (read_message bs) [
    | raise e ↦ ([], some e)
    | ok (response, rest) ↦ elim (is_last response) [
      | true ↦ (response ∷ [], none)
      | false ↦ (let (later, stop) = responses fuel rest in (response ∷ later, stop))
    ]
  ]

-- ok and error, the replies of a handler
unfoldable pub ok_reply : Fields → Fields
ok_reply fields = field "ok" (bool true) fields

unfoldable pub error_reply : String → String → Fields
error_reply code detail =
    field "ok" (bool false) (field "error" (str code) (field "detail" (str detail) end))
