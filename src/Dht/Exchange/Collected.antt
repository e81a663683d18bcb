-- ===== src/Dht/Exchange/Collected.antt =====
-- The envelopes that get collects: what has been taken in stays, under its own digest.
use kemi.Prelude.{
  ℕ, String, ◌≡◌, refl, sym, Bool, true, Option, none, some, List, [], ◌∷◌, map, any, arith, All,
  ◌==◌, ==_iff, Bool-cases, inl, inr, is_some, or_else,
}
use kemi.Json.{Value, Fields, arr, nil, get}
use kemi.Crypto.{Primitives, open_envelope, digest}
use kemi.Result.{ok, is_ok, ok_of_is_ok}
use kemi.Dht.Contacts.{Contact, iterate}
use kemi.Dht.Exchange.{Values, set_value, own_values, take_values, take_answer, take_answers}

abbrev pub has : ℕ → Values → Bool
has k = any (λ ((j, e) : ℕ × Value). j == k)

has-set_value : (k j : ℕ) (v : Value) (m : Values) → has k m ≡ true → has k (set_value j v m) ≡ true
unfolding set_value
has-set_value k j v [] h = cc
has-set_value k j v ((i, w) ∷ m) h = ground (arith, has-set_value k j v m)

set_value-has : (k : ℕ) (v : Value) (m : Values) → has k (set_value k v m) ≡ true
unfolding set_value
set_value-has k v [] = ground arith
set_value-has k v ((i, w) ∷ m) = ground (arith, set_value-has k v m)

module _ (p : Primitives) where
  abbrev pub Keyed : Values → Type 0
  Keyed = All (λ ((j, e) : ℕ × Value). j ≡ digest p e)

  abbrev pub has_digest : ℕ → List Value → Bool
  has_digest k = any (λ e. digest p e == k)

  set_value-Keyed : (e : Value) (m : Values) → Keyed m → Keyed (set_value (digest p e) e m)
  unfolding set_value
  set_value-Keyed e [] ks = (refl, tt)
  set_value-Keyed e ((j, w) ∷ m) ks = elim (Bool-cases (j == digest p e)) [
    | inl same ↦ rw same ((==_iff j (digest p e)).0 same, ks.1)
    | inr other ↦ rw other (ks.0, set_value-Keyed e m ks.1)
  ]

  pub has-has_digest :
      (k : ℕ) (m : Values) → Keyed m → has k m ≡ true → has_digest k (map (λ (j, e). e) m) ≡ true
  has-has_digest k [] ks h = cc
  has-has_digest k ((j, e) ∷ m) ks h = rw (sym ks.0) (ground (arith, has-has_digest k m ks.1))

  -- a table that has the digest k, each envelope under its own
  abbrev pub Holds : ℕ → Values → Type 0
  Holds k m = Keyed m × (has k m ≡ true)

  set_value-Holds :
      (k : ℕ) (e : Value) (m : Values) → Holds k m → Holds k (set_value (digest p e) e m)
  set_value-Holds k e m (ks, h) = (set_value-Keyed e m ks, has-set_value k (digest p e) e m h)

  own_values-keeps :
      (k : ℕ) (es : List Value) (m : Values) → Holds k m → Holds k (own_values p es m)
  unfolding own_values
  own_values-keeps k [] m h = h
  own_values-keeps k (e ∷ es) m h = own_values-keeps k es _ (set_value-Holds k e m h)

  pub own_values-Holds :
      (k : ℕ) (es : List Value) (m : Values)
      → Keyed m
      → has_digest k es ≡ true
      → Holds k (own_values p es m)
  unfolding own_values
  own_values-Holds k [] m ks h = cc
  own_values-Holds k (e ∷ es) m ks h = elim (Bool-cases (digest p e == k)) [
    | inl here ↦ own_values-keeps k es _ (
      set_value-Keyed e m ks,
      (let same = (==_iff (digest p e) k).0 here in rw same (set_value-has k e m)),
    )
    | inr there ↦ own_values-Holds k es _ (set_value-Keyed e m ks) (rw there at h)
  ]

  take_values-keeps :
      (k : ℕ) (es : List Value) (m : Values) → Holds k m → Holds k (take_values p es m)
  unfolding take_values
  take_values-keeps k [] m h = h
  take_values-keeps k (e ∷ es) m h = elim (Bool-cases (is_some (open_envelope p e))) [
    | inl opens ↦ rw opens (take_values-keeps k es _ (set_value-Holds k e m h))
    | inr closed ↦ rw closed (take_values-keeps k es m h)
  ]

  take_answer-Holds :
      (k : ℕ) (answer : Option Fields) (m : Values)
      → ((r : Fields)
          → answer ≡ some r
          → is_ok (iterate (or_else (get "values" r) (arr nil))) ≡ true)
      → Holds k m
      → (m' : Values) × (take_answer p answer m ≡ ok m') × Holds k m'
  unfolding take_answer
  take_answer-Holds k none m good h = (m, refl, h)
  take_answer-Holds k (some r) m good h =
      let (items, fine) =
        ok_of_is_ok (iterate (or_else (get "values" r) (arr nil))) (good r refl) in
      (take_values p items m, rw fine refl, take_values-keeps k items m h)

  pub take_answers-Holds :
      (answers : String → Option Fields)
      → ((id : String) (r : Fields)
          → answers id ≡ some r
          → is_ok (iterate (or_else (get "values" r) (arr nil))) ≡ true)
      → (k : ℕ) (cs : List Contact) (m : Values) → Holds k m
      → (m' : Values) × (take_answers p answers cs m ≡ ok m') × Holds k m'
  unfolding take_answers
  take_answers-Holds answers good k [] m h = (m, refl, h)
  take_answers-Holds answers good k (c ∷ cs) m h =
      let (m', fine, h') = take_answer-Holds k (answers c.node_id) m (good c.node_id) h in
      let (m'', rest, h'') = take_answers-Holds answers good k cs m' h' in (m'', rw fine rest, h'')
