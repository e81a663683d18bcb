-- ===== src/Dht/Exchange/Later.antt =====
-- An envelope that is in the storage stays there under the requests of other envelopes.
use kemi.Prelude.{
  ℕ, String, ◌≡◌, refl, ◌∙◌, subst, Bool, true, false, not, ◌&&◌, Option, none, some, List, [], ◌∷◌,
  any, all, map, arith, ◌==◌, ==_iff, str_eq, eq_iff, Bool-cases, Option-cases, inl, inr, or_else,
  leb, length,
}
use kemi.Prelude.Int.{ℤ, pos, ltb_ℤ, ◌+ℤ◌}
use kemi.Prelude.Assoc.{find, upsert, find-upsert, has_key}
use kemi.Json.{Value, Fields, str, obj, get, number}
use kemi.Crypto.{Primitives, open_envelope, digest}
use kemi.Result.{Result, ok, raise, ◌>>=◌}
use kemi.Node.{text_of}
use kemi.Dht.Storage.{
  Storage, Slot, put_value, live, expire, find_value, handle_store, store_value, store_payload,
  store_envelope, timely_record, min_ℤ, max_ttl, max_values_per_key,
}
use kemi.Dht.Storage.Bounds.{Call, store, look, step, run, state_of}
use kemi.Dht.Exchange.Collected.{has_digest}

module _ (p : Primitives) (later : ℤ) (k : ℕ) where
  abbrev is_kept : ℕ × Value × ℤ → Bool
  is_kept (j, e, x) = j == k && (digest p e == k && not (ltb_ℤ x later))

  -- the slot has an envelope of this digest that is still alive later
  abbrev pub keeps : Slot → Bool
  keeps = any is_kept

  pub put_value-keeps :
      (v : Value) (x : ℤ) (slot : Slot)
      → digest p v ≡ k
      → ltb_ℤ x later ≡ false
      → keeps (put_value k v x slot) ≡ true
  unfolding put_value
  put_value-keeps v x [] named fresh = rw (named, fresh) (ground (arith, ==_iff k k))
  put_value-keeps v x ((j, w, y) ∷ m) named fresh = elim (Bool-cases (j == k)) [
    | inl same ↦ rw (same, named, fresh) (ground (arith, ==_iff k k))
    | inr other ↦ (let rest = put_value-keeps v x m named fresh in rw other (ground arith))
  ]

  other-keeps :
      (j : ℕ) (v : Value) (x : ℤ) (slot : Slot)
      → (j == k) ≡ false
      → keeps slot ≡ true
      → keeps (put_value j v x slot) ≡ true
  unfolding put_value
  other-keeps j v x [] other h = cc
  other-keeps j v x ((i, w, y) ∷ m) other h = elim (Bool-cases (i == j)) [
    | inl same ↦
        let gone : (i == k) ≡ false = rw ((==_iff i j).0 same) other in rw same (ground arith)
    | inr apart ↦ rw apart (ground (arith, other-keeps j v x m other))
  ]

  live-keeps :
      (now : ℤ) (slot : Slot)
      → ltb_ℤ later now ≡ false
      → keeps slot ≡ true
      → keeps (live now slot) ≡ true
  unfolding live
  live-keeps now [] early h = cc
  live-keeps now ((j, w, y) ∷ m) early h = elim (Bool-cases (ltb_ℤ y now)) [
    | inl old ↦
        let dead : ltb_ℤ y later ≡ true = ground arith in
        rw old (live-keeps now m early (ground arith))
    | inr young ↦ rw young (ground (arith, live-keeps now m early))
  ]

  pub keeps-has_digest :
      (slot : Slot)
      → keeps slot ≡ true
      → has_digest p k (map (λ (j, e, x). e) (live later slot)) ≡ true
  unfolding live
  keeps-has_digest [] h = cc
  keeps-has_digest ((j, e, x) ∷ m) h = elim (Bool-cases (ltb_ℤ x later)) [
    | inl old ↦ rw old (keeps-has_digest m (ground arith))
    | inr young ↦ rw young (ground (arith, keeps-has_digest m))
  ]

  module _ (key : String) where
    abbrev pub Has : Storage → Type 0
    Has s = (slot : Slot) × (find key s.slots ≡ some slot) × (keeps slot ≡ true)

    write-Has :
        (j : String) (slot : Slot) (s : Storage)
        → (j ≡ key → keeps slot ≡ true)
        → Has s
        → Has (record s { slots = upsert j slot s.slots })
    write-Has j slot s mine (old, there, h) = elim (Bool-cases (str_eq j key)) [
      | inl same ↦
          (slot, find-upsert j key slot s.slots ∙ rw same refl, mine ((eq_iff j key).0 same))
      | inr other ↦ (old, find-upsert j key slot s.slots ∙ rw (other, there) refl, h)
    ]

    -- what is left of the slot of a key
    pruned-keeps :
        (now : ℤ) (j : String) (s : Storage)
        → ltb_ℤ later now ≡ false
        → Has s
        → j ≡ key
        → keeps (live now (or_else (find j s.slots) [])) ≡ true
    pruned-keeps now j s early (slot, there, h) same =
        rw (same, there) (live-keeps now slot early h)

    expire-Has :
        (now : ℤ) (j : String) (s : Storage)
        → ltb_ℤ later now ≡ false
        → Has s
        → Has (expire now j s)
    unfolding expire
    expire-Has now j s early h = elim (Option-cases (find j s.slots)) [
      | inl gone ↦ rw (gone, expire) h
      | inr (slot, found) ↦
          rw (found, expire)
            (write-Has j (live now slot) s
              (λ same.
                subst (λ o. keeps (live now (or_else o [])) ≡ true) found
                  (pruned-keeps now j s early h same))
              h)
    ]

    store_value-Has :
        (now ttl : ℤ) (j : String) (i : ℕ) (v : Value) (s : Storage)
        → ltb_ℤ later now ≡ false
        → (i == k) ≡ false
        → Has s
        → Has (store_value now ttl j i v s).1
    unfolding store_value
    store_value-Has now ttl j i v s early other h =
        let slot = live now (or_else (find j s.slots) []) in
        elim (Bool-cases (not (has_key j s.slots) && leb s.max_keys (length s.slots))) [
          | inl full ↦ rw (full, store_value) h
          | inr room ↦ elim (Bool-cases (leb max_values_per_key (length slot))) [
            | inl many ↦
                rw (room, many, store_value) (write-Has j slot s (pruned-keeps now j s early h) h)
            | inr few ↦
                rw (room, few, store_value)
                  (write-Has j (put_value i v (now +ℤ ttl) slot) s
                    (λ same.
                      other-keeps i v (now +ℤ ttl) slot other (pruned-keeps now j s early h same))
                    h)
          ]
        ]

-- no envelope, or one of another digest
abbrev pub is_other : Primitives → ℕ → Option Value → Bool
is_other p k none = true
is_other p k (some v) = not (digest p v == k)

-- a request that comes no later, and stores no envelope of this digest
abbrev pub is_harmless : Primitives → ℤ → ℕ → Call → Bool
is_harmless p later k (store now message) =
    not (ltb_ℤ later now) && is_other p k (get "value" message)
is_harmless p later k (look now key) = not (ltb_ℤ later now)

module _ (p : Primitives) (show : Value → String) (to_float : Value → Result ℤ) (later : ℤ) (k : ℕ)
    (key : String) where
  payload-Has :
      (now ttl : ℤ) (j : String) (v : Value) (o : Option Fields) (s : Storage)
      → ltb_ℤ later now ≡ false
      → (digest p v == k) ≡ false
      → Has p later k key s
      → Has p later k key (store_payload p show to_float now ttl j v o s).1
  payload-Has now ttl j v none s early other h = h
  payload-Has now ttl j v (some fs) s early other h =
      elim (Bool-cases (timely_record now (number (get "ts" fs)))) [
        | inl timely ↦
            rw timely (store_value-Has p later k key now ttl j (digest p v) v s early other h)
        | inr out ↦ rw out h
      ]

  envelope-Has :
      (now ttl : ℤ) (j : String) (o : Option Value) (s : Storage)
      → is_other p k o ≡ true
      → ltb_ℤ later now ≡ false
      → Has p later k key s
      → Has p later k key (store_envelope p show to_float now ttl j o s).1
  envelope-Has now ttl j (some (obj fs)) s other early h =
      elim (Bool-cases (Prim.Native.String.count j == 64)) [
        | inl long ↦
            rw long
              (payload-Has now ttl j (obj fs) (open_envelope p (obj fs)) s early (ground arith) h)
        | inr short ↦ rw short h
      ]
  envelope-Has now ttl j _ s other early h = h

  store-Has :
      (now : ℤ) (message : Fields) (s : Storage)
      → is_other p k (get "value" message) ≡ true
      → ltb_ℤ later now ≡ false
      → Has p later k key s
      → Has p later k key (state_of s (handle_store p show to_float now message s))
  unfolding handle_store
  store-Has now message s other early h =
      with_ttl (text_of show (or_else (get "key" message) (str ""))) (to_float _)
    where
      with_ttl :
          (j : String) (r : Result ℤ)
          → Has p later k key (
              state_of s (
                r >>= (λ ttl. ok (
                  store_envelope p show to_float now
                    (min_ℤ ttl (pos max_ttl))
                    j
                    (get "value" message)
                    s))))
      with_ttl j (ok ttl) =
          envelope-Has now (min_ℤ ttl (pos max_ttl)) j (get "value" message) s other early h
      with_ttl j (raise e) = h

  pub run-Has :
      (calls : List Call) (s : Storage)
      → all (is_harmless p later k) calls ≡ true
      → Has p later k key s
      → Has p later k key (run p show to_float s calls)
  unfolding run step find_value
  run-Has [] s harmless h = h
  run-Has (store now message ∷ calls) s harmless h =
      run-Has calls (step p show to_float s (store now message)) (ground arith)
        (store-Has now message s (ground arith) (ground arith) h)
  run-Has (look now j ∷ calls) s harmless h =
      run-Has calls (step p show to_float s (look now j)) (ground arith)
        (expire-Has p later k key now j s (ground arith) h)
