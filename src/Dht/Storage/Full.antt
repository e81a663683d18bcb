-- ===== src/Dht/Storage/Full.antt =====
-- What a node does with a new key once its keys are used up.
use kemi.Prelude.{
  ℕ, ◌≤◌, String, ◌≡◌, refl, sym, ◌∙◌, ap, Bool, true, false, Option, none, some, List, [], ◌∷◌,
  arith, length, leb, le→leb, ◌==◌, str_eq, eq_iff, or_else, Bool-cases, Option-cases, inl, inr,
  is_some,
}
use kemi.Prelude.Int.{ℤ, pos, ◌+ℤ◌}
use kemi.Prelude.Assoc.{find, upsert, has_key, has_key-upsert, length-upsert}
use kemi.Json.{Value, Fields, obj, str, get, number}
use kemi.Crypto.{Primitives, open_envelope, digest}
use kemi.Result.{Result, ok, raise, ◌>>=◌, >>=-eq-ok}
use kemi.Node.{text_of}
use kemi.Dht.Storage.{
  max_values_per_key, max_ttl, min_ℤ, Slot, Storage, put_value, live, expire, timely_record,
  store_value, store_payload, store_envelope, handle_store, find_value,
}
use kemi.Dht.Storage.Bounds.{Call, store, look, step, run, state_of}

-- all keys are used, and this one is not among them
pub record IsFull (key : String) (s : Storage) : Type 0 where
  pub used : s.max_keys ≤ length s.slots
  pub absent : has_key key s.slots ≡ false

-- a write under a key that is there
write-IsFull :
    (key k : String) (slot : Slot) (s : Storage)
    → has_key k s.slots ≡ true
    → IsFull key s
    → IsFull key (record s { slots = upsert k slot s.slots })
write-IsFull key k slot s there h = record {
  used = let count = length-upsert k slot s.slots in let old = h.used in ground arith;
  absent = has_key-upsert k key slot s.slots ∙ (elim (Bool-cases (str_eq k key)) [
    | inl same ↦
        let clash = sym there ∙ ap (λ x. has_key x s.slots) ((eq_iff k key).0 same) ∙ h.absent in
        cc clash
    | inr other ↦ rw (other, h.absent) refl
  ]);
}

store_value-IsFull :
    (now ttl : ℤ) (key k : String) (value_id : ℕ) (envelope : Value) (s : Storage)
    → IsFull key s
    → IsFull key (store_value now ttl k value_id envelope s).1
unfolding store_value
store_value-IsFull now ttl key k value_id envelope s h =
    let no_room = le→leb s.max_keys (length s.slots) h.used in
    elim (Bool-cases (has_key k s.slots)) [
      | inr fresh ↦ rw (fresh, no_room, store_value) h
      | inl there ↦
          let slot = live now (or_else (find k s.slots) []) in
          elim (Bool-cases (leb max_values_per_key (length slot))) [
            | inl full ↦ rw (there, full, store_value) (write-IsFull key k slot s there h)
            | inr free ↦
                rw (there, free, store_value)
                  (write-IsFull key k (put_value value_id envelope (now +ℤ ttl) slot) s there h)
          ]
    ]

-- a value under a new key is refused
store_value-refuses :
    (now ttl : ℤ) (key : String) (value_id : ℕ) (envelope : Value) (s : Storage)
    → IsFull key s
    → store_value now ttl key value_id envelope s ≡ (false, s)
unfolding store_value
store_value-refuses now ttl key value_id envelope s h =
    let no_room = le→leb s.max_keys (length s.slots) h.used in rw (h.absent, no_room) refl

expire-IsFull :
    (now : ℤ) (key k : String) (s : Storage) → IsFull key s → IsFull key (expire now k s)
unfolding expire
expire-IsFull now key k s h = elim (Option-cases (find k s.slots)) [
  | inl gone ↦ rw (gone, expire) h
  | inr (slot, found) ↦
      rw (found, expire) (write-IsFull key k (live now slot) s (ap is_some found) h)
]

module _ (p : Primitives) (show : Value → String) (to_float : Value → Result ℤ) where
  envelope-IsFull :
      (now ttl : ℤ) (key k : String) (v : Option Value) (s : Storage)
      → IsFull key s
      → IsFull key (store_envelope p show to_float now ttl k v s).1
  envelope-IsFull now ttl key k (some (obj fs)) s h =
      elim (Bool-cases (Prim.Native.String.count k == 64)) [
        | inr bad ↦ rw bad h
        | inl good ↦ rw good (payload (open_envelope p (obj fs)))
      ]
    where
      payload :
          (o : Option Fields) → IsFull key (store_payload p show to_float now ttl k (obj fs) o s).1
      payload none = h
      payload (some fields) = elim (Bool-cases (timely_record now (number (get "ts" fields)))) [
        | inr late ↦ rw late h
        | inl good ↦ rw good (store_value-IsFull now ttl key k (digest p (obj fs)) (obj fs) s h)
      ]
  envelope-IsFull now ttl key k _ s h = h

  envelope-refuses :
      (now ttl : ℤ) (key : String) (v : Option Value) (s : Storage)
      → IsFull key s
      → (store_envelope p show to_float now ttl key v s).0 ≡ false
  envelope-refuses now ttl key (some (obj fs)) s h =
      elim (Bool-cases (Prim.Native.String.count key == 64)) [
        | inr bad ↦ rw bad refl
        | inl good ↦ rw good (payload (open_envelope p (obj fs)))
      ]
    where
      payload :
          (o : Option Fields) → (store_payload p show to_float now ttl key (obj fs) o s).0 ≡ false
      payload none = refl
      payload (some fields) = elim (Bool-cases (timely_record now (number (get "ts" fields)))) [
        | inr late ↦ rw late refl
        | inl good ↦
            rw (good, store_value-refuses now ttl key (digest p (obj fs)) (obj fs) s h) refl
      ]
  envelope-refuses now ttl key _ s h = refl

  store-IsFull :
      (now : ℤ) (key : String) (message : Fields) (s : Storage)
      → IsFull key s
      → IsFull key (state_of s (handle_store p show to_float now message s))
  unfolding handle_store
  store-IsFull now key message s h =
      go (text_of show (or_else (get "key" message) (str ""))) (get "value" message) (to_float _)
    where
      go :
          (k : String) (v : Option Value) (r : Result ℤ)
          → IsFull key (
              state_of s (
                r >>= (λ ttl.
                  ok (store_envelope p show to_float now (min_ℤ ttl (pos max_ttl)) k v s))))
      go k v (ok ttl) = envelope-IsFull now (min_ℤ ttl (pos max_ttl)) key k v s h
      go k v (raise e) = h

  run-IsFull :
      (cs : List Call) (key : String) (s : Storage)
      → IsFull key s
      → IsFull key (run p show to_float s cs)
  unfolding run step find_value
  run-IsFull [] key s h = h
  run-IsFull (store now message ∷ cs) key s h =
      run-IsFull cs key (step p show to_float s (store now message))
        (store-IsFull now key message s h)
  run-IsFull (look now k ∷ cs) key s h =
      run-IsFull cs key (step p show to_float s (look now k)) (expire-IsFull now key k s h)

  -- Once max_keys keys have been stored, no request ever frees one: after any further requests, at any
  -- time, a record under another key is not stored.
  pub handle_store-refuses :
      (cs : List Call) (s t : Storage) (now : ℤ) (message : Fields) (stored : Bool)
      → IsFull (text_of show (or_else (get "key" message) (str ""))) s
      → handle_store p show to_float now message (run p show to_float s cs) ≡ ok (stored, t)
      → stored ≡ false
  unfolding handle_store
  handle_store-refuses cs s t now message stored h q =
      let key = text_of show (or_else (get "key" message) (str "")) in
      let full = run-IsFull cs key s h in
      let (ttl, r, k) = >>=-eq-ok (to_float _) _ q in
      sym (ap answer k)
      ∙ envelope-refuses now (min_ℤ ttl (pos max_ttl)) key (get "value" message)
          (run p show to_float s cs) full
    where
      answer : Result (Bool × Storage) → Bool
      answer (ok (b, u)) = b
      answer (raise e) = false
