-- ===== src/Dht/Storage.antt =====
-- kemi/dht.py: _handle_store, _expire and the lookup of stored values in _handle_request.
-- Times are in billionths of a second.
pub mod Bounds
pub mod Full
mod Tests
use kemi.Prelude.{
  ℕ, zero, suc, ◌+◌, ◌*◌, String, Bool, true, false, not, ◌&&◌, Option, none, some, List, [], ◌∷◌,
  map, keep, length, ltb, leb, ◌==◌, or_else, if◌then◌else◌,
}
use kemi.Prelude.Int.{ℤ, pos, negsuc, ◌+ℤ◌, ◌-ℤ◌, ltb_ℤ}
use kemi.Prelude.Assoc.{find, upsert, has_key}
use kemi.Json.{Value, Fields, obj, str, float, get, number, billion}
use kemi.Crypto.{Primitives, open_envelope, digest}
use kemi.Result.{Result, ok, raise, ◌>>=◌}
use kemi.Node.{text_of}

abbrev pub max_values_per_key : ℕ
max_values_per_key = 64

-- MAX_RECORD_AGE, and the seconds that a record may lie ahead
abbrev pub max_record_age : ℕ
max_record_age = 180 * billion

abbrev pub max_ahead : ℕ
max_ahead = 30 * billion

-- DEFAULT_TTL and the longest ttl
abbrev pub default_ttl : ℕ
default_ttl = 90 * billion

abbrev pub max_ttl : ℕ
max_ttl = 900 * billion

-- value_id -> (envelope, expires_at)
abbrev pub Slot : Type 0
Slot = List (ℕ × Value × ℤ)

pub record Storage : Type 0 where
  pub max_keys : ℕ
  pub slots : List (String × Slot)

unfoldable pub put_value : ℕ → Value → ℤ → Slot → Slot
put_value k v e [] = (k, v, e) ∷ []
put_value k v e ((j, w, f) ∷ m) = if j == k then (j, v, e) ∷ m else (j, w, f) ∷ put_value k v e m

unfoldable pub live : ℤ → Slot → Slot
live now = keep (λ (k, envelope, expires). not (ltb_ℤ expires now))

unfoldable pub expire : ℤ → String → Storage → Storage
expire now key s = elim (find key s.slots) [
  | none ↦ s
  | some slot ↦ record s { slots = upsert key (live now slot) s.slots }
]

abbrev pub min_ℤ : ℤ → ℤ → ℤ
min_ℤ a b = if ltb_ℤ b a then b else a

-- now - MAX_RECORD_AGE < ts < now + 30
unfoldable pub timely_record : ℤ → Option ℤ → Bool
timely_record now none = false
timely_record now (some ts) =
    ltb_ℤ (now -ℤ pos max_record_age) ts && ltb_ℤ ts (now +ℤ pos max_ahead)

-- the end of _handle_store, for a record that has been checked
unfoldable pub store_value : ℤ → ℤ → String → ℕ → Value → Storage → Bool × Storage
store_value now ttl key value_id envelope s =
    if not (has_key key s.slots) && leb s.max_keys (length s.slots)
    then (false, s)
    else let slot = live now (or_else (find key s.slots) []) in
      if leb max_values_per_key (length slot)
      then (false, record s { slots = upsert key slot s.slots })
      else (
        true,
        record s { slots = upsert key (put_value value_id envelope (now +ℤ ttl) slot) s.slots },
      )

-- show is str and to_float is float of Python
module _ (p : Primitives) (show : Value → String) (to_float : Value → Result ℤ) where
  abbrev pub store_payload : ℤ → ℤ → String → Value → Option Fields → Storage → Bool × Storage
  store_payload now ttl key envelope none s = (false, s)
  store_payload now ttl key envelope (some payload) s =
      if timely_record now (number (get "ts" payload))
      then store_value now ttl key (digest p envelope) envelope s
      else (false, s)

  abbrev pub store_envelope : ℤ → ℤ → String → Option Value → Storage → Bool × Storage
  store_envelope now ttl key (some (obj fs)) s =
      if Prim.Native.String.count key == 64
      then store_payload now ttl key (obj fs) (open_envelope p (obj fs)) s
      else (false, s)
  store_envelope now ttl key _ s = (false, s)

  -- what the reply calls stored, and the storage afterwards
  unfoldable pub handle_store : ℤ → Fields → Storage → Result (Bool × Storage)
  handle_store now message s = do
    ttl ← to_float (or_else (get "ttl" message) (float (pos default_ttl)))
    ok (
        store_envelope now (min_ℤ ttl (pos max_ttl))
          (text_of show (or_else (get "key" message) (str ""))) (get "value" message) s)

-- find_value: the envelopes of a key, after expiry
unfoldable pub find_value : ℤ → String → Storage → List Value × Storage
find_value now key s =
    let s' = expire now key s in
    (map (λ (k, envelope, expires). envelope) (or_else (find key s'.slots) []), s')
