-- ===== src/Dht/Exchange.antt =====
-- kemi/dht.py: get and put, over a lookup that has ended. The network is what it answers to the
-- request of each id; no answer stands for a timeout.
pub mod Collected
pub mod Later
pub mod Kept
mod Tests
use kemi.Prelude.{
  ℕ, ◌+◌, String, Bool, true, false, Option, none, some, List, [], ◌∷◌, map, length, ltb, ◌==◌,
  is_some, or_else, if◌then◌else◌,
}
use kemi.Prelude.Int.{ℤ, ltb_ℤ}
use kemi.Json.{Value, Fields, str, float, arr, end, field, nil, get}
use kemi.Crypto.{Primitives, open_envelope, digest}
use kemi.Node.{truthy}
use kemi.Result.{Result, ok, ◌>>=◌}
use kemi.Dht.Contacts.{Contact, bucket_size, distance, iterate}
use kemi.Dht.Storage.{Storage, find_value, handle_store}

-- value_id -> envelope
abbrev pub Values : Type 0
Values = List (ℕ × Value)

-- values[k] = v
unfoldable pub set_value : ℕ → Value → Values → Values
set_value k v [] = (k, v) ∷ []
set_value k v ((j, w) ∷ m) = if j == k then (j, v) ∷ m else (j, w) ∷ set_value k v m

module _ (p : Primitives) where
  -- the own envelopes, which the storage keeps under their digests
  unfoldable pub own_values : List Value → Values → Values
  own_values [] values = values
  own_values (e ∷ es) values = own_values es (set_value (digest p e) e values)

  -- of an answer, the envelopes that open
  unfoldable pub take_values : List Value → Values → Values
  take_values [] values = values
  take_values (e ∷ es) values =
      take_values es
        (if is_some (open_envelope p e) then set_value (digest p e) e values else values)

  unfoldable pub take_answer : Option Fields → Values → Result Values
  take_answer none values = ok values
  take_answer (some response) values = do
    items ← iterate (or_else (get "values" response) (arr nil))
    ok (take_values items values)

  unfoldable pub take_answers : (String → Option Fields) → List Contact → Values → Result Values
  take_answers answers [] values = ok values
  take_answers answers (c ∷ cs) values = do
    values' ← take_answer (answers c.node_id) values
    take_answers answers cs values'

  -- what get returns, and the storage after the expiry; targets is what the lookup ends with
  unfoldable pub get_values :
      (String → Option Fields)
      → ℤ
      → String
      → Result (List Contact)
      → Storage
      → Result (List Value) × Storage
  get_values answers now key targets s =
      let (own, s') = find_value now key s in
      (
        do
          cs ← targets
          values ← take_answers answers cs (own_values own [])
          ok (map (λ (k, e). e) values),
        s',
      )

  -- any(distance > own_distance), which ends at the first such contact
  unfoldable pub any_farther : (String → Result ℤ) → String → ℤ → List Contact → Result Bool
  any_farther int16 key own_distance [] = ok false
  any_farther int16 key own_distance (c ∷ cs) = do
    d ← distance int16 c.node_id key
    if ltb_ℤ own_distance d then ok true else any_farther int16 key own_distance cs

  -- whether put keeps a copy of its own
  unfoldable pub keeps_copy : (String → Result ℤ) → String → String → List Contact → Result Bool
  keeps_copy int16 own_id key targets = do
    own_distance ← distance int16 own_id key
    (if ltb (length targets) bucket_size
        then ok true
        else any_farther int16 key own_distance targets)

  abbrev is_stored : Option Fields → Bool
  is_stored none = false
  is_stored (some r) = elim (get "stored" r) [ none ↦ false | some v ↦ truthy v ]

  -- sum(1 for r in responses if r and r.get("stored"))
  unfoldable pub count_stored : (String → Option Fields) → List Contact → ℕ
  count_stored answers [] = 0
  count_stored answers (c ∷ cs) =
      let rest = count_stored answers cs in if is_stored (answers c.node_id) then rest + 1 else rest

  abbrev store_message : String → Value → ℤ → Fields
  store_message key envelope ttl =
      field "key" (str key) (field "value" envelope (field "ttl" (float ttl) end))

  -- the number of contacts that stored the envelope, and the storage afterwards
  unfoldable pub put_values :
      (Value → String)
      → (Value → Result ℤ)
      → (String → Result ℤ)
      → (String → Option Fields)
      → ℤ
      → String
      → String
      → Value
      → ℤ
      → Result (List Contact)
      → Storage
      → Result (ℕ × Storage)
  put_values show to_float int16 answers now own_id key envelope ttl targets s = do
    cs ← targets
    copy ← keeps_copy int16 own_id key cs
    (done, s') ←
        (if copy
          then handle_store p show to_float now (store_message key envelope ttl) s
          else ok (false, s))
    ok (count_stored answers cs, s')
