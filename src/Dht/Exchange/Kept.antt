-- ===== src/Dht/Exchange/Kept.antt =====
-- The own copy of an envelope that put has stored is among what get returns.
use kemi.Prelude.{
  all, ℕ, String, ◌≡◌, refl, sym, ap, Bool, true, false, not, ◌&&◌, Option, none, some, List, [],
  map, arith, ◌==◌, Bool-cases, inl, inr, or_else, leb, length, str_eq_self,
}
use kemi.Prelude.Int.{ℤ, pos, ◌≤ℤ◌, ◌+ℤ◌}
use kemi.Prelude.Assoc.{find, upsert, find-upsert, has_key}
use kemi.Json.{Value, Fields, null, bool, int, float, str, obj, arr, nil, get, number}
use kemi.Crypto.{Primitives, open_envelope, digest}
use kemi.Result.{Result, ok, is_ok, ok-injective}
use kemi.Node.{text_of}
use kemi.Dht.Contacts.{Contact, iterate}
use kemi.Dht.Storage.{
  store_payload, store_envelope, default_ttl, Storage, Slot, put_value, live, expire, find_value,
  handle_store, store_value, timely_record, min_ℤ, max_ttl, max_values_per_key,
}
use kemi.Dht.Storage.Bounds.{Call, run}
use kemi.Dht.Exchange.Later.{is_harmless, put_value-keeps, keeps-has_digest, run-Has}
use kemi.Dht.Exchange.{own_values, get_values}
use kemi.Dht.Exchange.Collected.{has_digest, own_values-Holds, take_answers-Holds, has-has_digest}

module _ (p : Primitives) where
  expire-eq :
      (later : ℤ) (key : String) (slot : Slot) (s : Storage)
      → find key s.slots ≡ some slot
      → expire later key s ≡ record s { slots = upsert key (live later slot) s.slots }
  unfolding expire
  expire-eq later key slot s there = rw (there, expire) refl

  find_value-live :
      (later : ℤ) (key : String) (slot : Slot) (s : Storage)
      → find key s.slots ≡ some slot
      → (find_value later key s).0 ≡ map (λ (j, e, y). e) (live later slot)
  unfolding find_value
  find_value-live later key slot s there =
      rw
        (
          find_value,
          expire-eq later key slot s there,
          find-upsert key key (live later slot) s.slots,
          str_eq_self key,
        )
        refl

refused : {X : Type 0} {s s' : Storage} → ◌≡◌ {A = Bool × Storage} (false, s) (true, s') → X
refused {X} {s} {s'} h = (let off : false ≡ true = ap (λ (x : Bool × Storage). x.0) h in cc)

-- the key has a slot in which the envelope has been put
abbrev IsPut : ℤ → String → ℕ → Value → Storage → Type 0
IsPut x key k v s = (slot : Slot) × (find key s.slots ≡ some (put_value k v x slot))

store_value-IsPut :
    (now ttl : ℤ) (key : String) (k : ℕ) (v : Value) (s s' : Storage)
    → store_value now ttl key k v s ≡ (true, s')
    → IsPut (now +ℤ ttl) key k v s'
unfolding store_value
store_value-IsPut now ttl key k v s s' h =
    let slot = live now (or_else (find key s.slots) []) in
    elim (Bool-cases (not (has_key key s.slots) && leb s.max_keys (length s.slots))) [
      | inl full ↦ refused (rw full at h)
      | inr room ↦ elim (Bool-cases (leb max_values_per_key (length slot))) [
        | inl many ↦ refused (rw (room, many) at h)
        | inr few ↦
            (let stored = ap (λ (x : Bool × Storage). x.1) (rw (room, few) at h) in
              (
                slot,
                rw
                    (
                      sym stored,
                      find-upsert key key (put_value k v (now +ℤ ttl) slot) s.slots,
                      str_eq_self key,
                    )
                    refl,
              ))
      ]
    ]

module _ (p : Primitives) (show : Value → String) (to_float : Value → Result ℤ) where
  store_payload-IsPut :
      (now ttl : ℤ) (key : String) (v : Value) (o : Option Fields) (s s' : Storage)
      → store_payload p show to_float now ttl key v o s ≡ (true, s')
      → IsPut (now +ℤ ttl) key (digest p v) v s'
  store_payload-IsPut now ttl key v none s s' h = refused h
  store_payload-IsPut now ttl key v (some payload) s s' h =
      elim (Bool-cases (timely_record now (number (get "ts" payload)))) [
        | inl timely ↦ store_value-IsPut now ttl key (digest p v) v s s' (rw timely at h)
        | inr out ↦ refused (rw out at h)
      ]

  store_envelope-IsPut :
      (now ttl : ℤ) (key : String) (v : Value) (s s' : Storage)
      → store_envelope p show to_float now ttl key (some v) s ≡ (true, s')
      → IsPut (now +ℤ ttl) key (digest p v) v s'
  store_envelope-IsPut now ttl key (obj fs) s s' h =
      elim (Bool-cases (Prim.Native.String.count key == 64)) [
        | inl long ↦
            store_payload-IsPut now ttl key (obj fs) (open_envelope p (obj fs)) s s' (rw long at h)
        | inr short ↦ refused (rw short at h)
      ]
  store_envelope-IsPut now ttl key null s s' h = refused h
  store_envelope-IsPut now ttl key (bool b) s s' h = refused h
  store_envelope-IsPut now ttl key (int n) s s' h = refused h
  store_envelope-IsPut now ttl key (float x) s s' h = refused h
  store_envelope-IsPut now ttl key (str t) s s' h = refused h
  store_envelope-IsPut now ttl key (arr vs) s s' h = refused h

  -- An envelope that a store request has put into the storage is among what get returns for its key
  -- until the time to live of that request ends, after any further requests that come no later than
  -- the get and of which none stores the envelope again, whatever contacts the lookup finds and
  -- whichever of them answer: an envelope of its digest is. An answer's values must be something to
  -- iterate over.
  pub get_values-stored :
      (now later ttl : ℤ) (message : Fields) (v : Value) (s s' : Storage) (calls : List Call)
      (cs : List Contact) (answers : String → Option Fields)
      → get "value" message ≡ some v
      → to_float (or_else (get "ttl" message) (float (pos default_ttl))) ≡ ok ttl
      → handle_store p show to_float now message s ≡ ok (true, s')
      → all (is_harmless p later (digest p v)) calls ≡ true
      → later ≤ℤ now +ℤ min_ℤ ttl (pos max_ttl)
      → ((id : String) (r : Fields)
          → answers id ≡ some r
          → is_ok (iterate (or_else (get "values" r) (arr nil))) ≡ true)
      → (vs : List Value) × ((get_values p answers later
            (text_of show (or_else (get "key" message) (str "")))
            (ok cs)
            (run p show to_float s' calls)).0
          ≡ ok vs)
        × (has_digest p (digest p v) vs ≡ true)
  unfolding handle_store get_values
  get_values-stored now later ttl message v s s' calls cs answers value ttl_is done harmless alive
        good =
      let key = text_of show (or_else (get "key" message) (str "")) in
      let k = digest p v in
      let expiry = now +ℤ min_ℤ ttl (pos max_ttl) in
      let (slot, there) =
        store_envelope-IsPut now (min_ℤ ttl (pos max_ttl)) key v s s'
          (ok-injective (rw (value, ttl_is) at done)) in
      let (slot', there', kept) = run-Has p show to_float later k key calls s' harmless (
        put_value k v expiry slot,
        there,
        put_value-keeps p later k v expiry slot refl (ground arith),
      ) in
      let own = (find_value later key (run p show to_float s' calls)).0 in
      let listed : has_digest p k own ≡ true =
        rw (find_value-live p later key slot' (run p show to_float s' calls) there')
          (keeps-has_digest p later k slot' kept) in
      let (m, fine, (keyed, holds)) =
        take_answers-Holds p answers good k cs (own_values p own [])
          (own_values-Holds p k own [] tt listed) in
      (map (λ (j, e). e) m, rw fine refl, has-has_digest p k m keyed holds)
