-- ===== src/Dht/Storage/Bounds.antt =====
-- The storage of dht.py through sequences of requests.
use kemi.Prelude.{
  ℕ, ◌+◌, ◌≤◌, String, ap, Bool, not, ◌&&◌, Option, none, some, List, [], ◌∷◌, arith, length,
  length-keep-le, leb, ◌==◌, or_else, All, Bool-cases, Option-cases, inl, inr, is_some,
}
use kemi.Prelude.Int.{ℤ, pos, ◌+ℤ◌}
use kemi.Prelude.Assoc.{find, has_key, length-upsert, All-upsert, find-All}
use kemi.Json.{Value, Fields, obj, str, get, number}
use kemi.Crypto.{Primitives, open_envelope, digest}
use kemi.Result.{Result, ok, raise, ◌>>=◌}
use kemi.Node.{text_of}
use kemi.Dht.Storage.{
  max_values_per_key, max_ttl, min_ℤ, Slot, Storage, put_value, live, expire, timely_record,
  store_value, store_payload, store_envelope, handle_store, find_value,
}

pub data Call : Type 0 where
  store : ℤ → Fields → Call
  look : ℤ → String → Call

abbrev pub state_of : Storage → Result (Bool × Storage) → Storage
state_of s (ok (stored, t)) = t
state_of s (raise e) = s

module _ (p : Primitives) (show : Value → String) (to_float : Value → Result ℤ) where
  unfoldable pub step : Storage → Call → Storage
  step s (store now message) = state_of s (handle_store p show to_float now message s)
  step s (look now key) = (find_value now key s).1

  unfoldable pub run : Storage → List Call → Storage
  run s [] = s
  run s (c ∷ cs) = run (step s c) cs

abbrev pub IsSmall : String × Slot → Type 0
IsSmall (key, slot) = length slot ≤ 64

pub record IsBounded (s : Storage) : Type 0 where
  pub keys : length s.slots ≤ s.max_keys
  pub values : All IsSmall s.slots

length-put_value :
    (k : ℕ) (v : Value) (e : ℤ) (m : Slot) → length (put_value k v e m) ≤ length m + 1
unfolding put_value
length-put_value k v e [] = omega arith
length-put_value k v e ((j, w, f) ∷ m) = ground (arith, length-put_value k v e m)

live-le : (now : ℤ) (slot : Slot) → length (live now slot) ≤ length slot
unfolding live
live-le now slot = length-keep-le _ slot

found-IsSmall :
    (key : String) (s : Storage) → All IsSmall s.slots → length (or_else (find key s.slots) []) ≤ 64
found-IsSmall key s h = elim (Option-cases (find key s.slots)) [
  | inl gone ↦ rw gone (omega arith)
  | inr (slot, found) ↦ rw found (find-All IsSmall key slot s.slots found h).1
]

store_value-IsBounded :
    (now ttl : ℤ) (key : String) (value_id : ℕ) (envelope : Value) (s : Storage)
    → IsBounded s
    → IsBounded (store_value now ttl key value_id envelope s).1
unfolding store_value
store_value-IsBounded now ttl key value_id envelope s h =
    elim (Bool-cases (not (has_key key s.slots) && leb s.max_keys (length s.slots))) [
      | inl refused ↦ rw (refused, store_value) h
      | inr room ↦
          let slot = live now (or_else (find key s.slots) []) in
          let small : length slot ≤ 64 =
            omega
              (arith, live-le now (or_else (find key s.slots) []), found-IsSmall key s h.values) in
          let old = h.keys in
          elim (Bool-cases (leb max_values_per_key (length slot))) [
            | inl full ↦
                rw (room, full, store_value)
                  (record {
                    keys = let count = length-upsert key slot s.slots in ground arith;
                    values = All-upsert IsSmall key slot s.slots (λ j. small) h.values;
                  })
            | inr free ↦
                rw (room, free, store_value)
                  (record {
                    keys =
                        let count =
                          length-upsert key (put_value value_id envelope (now +ℤ ttl) slot)
                            s.slots in
                        ground arith;
                    values =
                        All-upsert IsSmall key (put_value value_id envelope (now +ℤ ttl) slot)
                          s.slots
                          (λ j.
                            let more = length-put_value value_id envelope (now +ℤ ttl) slot in
                            ground arith)
                          h.values;
                  })
          ]
    ]

expire-IsBounded :
    (now : ℤ) (key : String) (s : Storage) → IsBounded s → IsBounded (expire now key s)
unfolding expire
expire-IsBounded now key s h = elim (Option-cases (find key s.slots)) [
  | inl gone ↦ rw (gone, expire) h
  | inr (slot, found) ↦
      rw (found, expire)
        (record {
          keys =
              let count = length-upsert key (live now slot) s.slots in
              let there = ap is_some found in let old = h.keys in ground arith;
          values =
              All-upsert IsSmall key (live now slot) s.slots
                (λ j.
                  let small = (find-All IsSmall key slot s.slots found h.values).1 in
                  omega (arith, live-le now slot))
                h.values;
        })
]

module _ (p : Primitives) (show : Value → String) (to_float : Value → Result ℤ) where
  envelope-IsBounded :
      (now ttl : ℤ) (key : String) (v : Option Value) (s : Storage)
      → IsBounded s
      → IsBounded (store_envelope p show to_float now ttl key v s).1
  envelope-IsBounded now ttl key (some (obj fs)) s h =
      elim (Bool-cases (Prim.Native.String.count key == 64)) [
        | inr bad ↦ rw bad h
        | inl good ↦ rw good (payload (open_envelope p (obj fs)))
      ]
    where
      payload :
          (o : Option Fields) → IsBounded (store_payload p show to_float now ttl key (obj fs) o s).1
      payload none = h
      payload (some fields) = elim (Bool-cases (timely_record now (number (get "ts" fields)))) [
        | inr late ↦ rw late h
        | inl good ↦ rw good (store_value-IsBounded now ttl key (digest p (obj fs)) (obj fs) s h)
      ]
  envelope-IsBounded now ttl key _ s h = h

  store-IsBounded :
      (now : ℤ) (message : Fields) (s : Storage)
      → IsBounded s
      → IsBounded (state_of s (handle_store p show to_float now message s))
  unfolding handle_store
  store-IsBounded now message s h =
      go (text_of show (or_else (get "key" message) (str ""))) (get "value" message) (to_float _)
    where
      go :
          (key : String) (v : Option Value) (r : Result ℤ)
          → IsBounded (
              state_of s (
                r >>= (λ ttl.
                  ok (store_envelope p show to_float now (min_ℤ ttl (pos max_ttl)) key v s))))
      go key v (ok ttl) = envelope-IsBounded now (min_ℤ ttl (pos max_ttl)) key v s h
      go key v (raise e) = h

  -- Through every sequence of store and find_value requests, a node holds at most max_keys keys and
  -- at most 64 values under each.
  pub run-IsBounded :
      (cs : List Call) (s : Storage) → IsBounded s → IsBounded (run p show to_float s cs)
  unfolding run step find_value
  run-IsBounded [] s h = h
  run-IsBounded (store now message ∷ cs) s h =
      run-IsBounded cs (step p show to_float s (store now message))
        (store-IsBounded now message s h)
  run-IsBounded (look now key ∷ cs) s h =
      run-IsBounded cs (step p show to_float s (look now key)) (expire-IsBounded now key s h)
