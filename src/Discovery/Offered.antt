-- ===== src/Discovery/Offered.antt =====
-- What an envelope is that passes the tests of find_providers.
use kemi.Prelude.{
  ℕ, String, ◌≡◌, refl, subst, Bool, true, false, Option, none, some, inl, inr, arith, or_else,
  Option-cases, Bool-cases, if◌then◌else◌,
}
use kemi.Prelude.Int.{ℤ, pos, ◌-ℤ◌, ltb_ℤ, ◌≤ℤ◌}
use kemi.Json.{Value, Fields, null, bool, int, float, str, arr, obj, get, number, is_text, nil}
use kemi.Crypto.{Primitives, open_envelope, verify_node_id}
use kemi.Result.{Result, ok, raise, ◌>>=◌}
use kemi.Discovery.{Found, max_age, set_field, names_task, pubkey_of, check_age, check_envelope}

module _ (p : Primitives) (difficulty : ℕ) (now : ℤ) (task : String) where
  -- a record that a verified provider of the task signed, not too old
  pub record IsOffered (envelope : Value) (r : Found) : Type 0 where
    pub payload : Fields
    pub opens : open_envelope p envelope ≡ some payload
    pub kind : is_text "provider" (get "kind" payload) ≡ true
    pub names : or_else (get "node_id" payload) (str "") ≡ str r.node_id
    pub earned :
        verify_node_id p (str r.node_id) (pubkey_of envelope) (get "pow_nonce" payload) difficulty
        ≡ ok true
    pub made : number (some (or_else (get "ts" payload) (int (pos 0)))) ≡ some r.ts
    pub young : now -ℤ r.ts ≤ℤ pos max_age
    pub offers : names_task task (or_else (get "tasks" payload) (arr nil)) ≡ ok true
    pub content : set_field "pubkey" (or_else (pubkey_of envelope) null) payload ≡ r.payload

  pub check-offered :
      (e : Value) (r : Found) → IsOffered e r → check_envelope p difficulty now task e ≡ ok (some r)
  unfolding check_envelope
  check-offered e r o =
      let young : ltb_ℤ (pos max_age) (now -ℤ r.ts) ≡ false = (let y = o.young in ground arith) in
      rw (o.opens, o.kind, o.names, o.earned, o.made, young, o.offers, o.content) refl

  some_inj : {a b : Found} → ok (some a) ≡ ok (some b) → a ≡ b
  some_inj h = cc

  no_result : {X : Type 0} {r : Found} → ok none ≡ ok (some r) → X
  no_result h = cc

  passed :
      (test : Result Bool) (next : Result (Option Found)) (r : Found)
      → (test >>= (λ b. if b then next else ok none)) ≡ ok (some r)
      → (test ≡ ok true) × (next ≡ ok (some r))
  passed (ok true) next r h = (refl, h)
  passed (ok false) next r h = no_result h
  passed (raise e) next r h = cc

  kept :
      (test : Result Bool) (x r : Found)
      → (test >>= (λ b. ok (if b then some x else none))) ≡ ok (some r)
      → (test ≡ ok true) × (x ≡ r)
  kept (ok true) x r h = (refl, some_inj h)
  kept (ok false) x r h = no_result h
  kept (raise e) x r h = cc

  -- what the last tests say of a record that passes them
  record IsTimely (pubkey : Option Value) (payload : Fields) (node_id : Value) (ts : Option ℤ)
      (r : Found) : Type 0 where
    names : node_id ≡ str r.node_id
    made : ts ≡ some r.ts
    young : now -ℤ r.ts ≤ℤ pos max_age
    offers : names_task task (or_else (get "tasks" payload) (arr nil)) ≡ ok true
    content : set_field "pubkey" (or_else pubkey null) payload ≡ r.payload

  aged-IsTimely :
      (pubkey : Option Value) (payload : Fields) (id : String) (t : ℤ) (r : Found)
      → check_age p now task pubkey payload (str id) (some t) ≡ ok (some r)
      → IsTimely pubkey payload (str id) (some t) r
  aged-IsTimely pubkey payload id t r h = elim (Bool-cases (ltb_ℤ (pos max_age) (now -ℤ t))) [
    | inl old ↦ no_result (rw old at h)
    | inr young ↦
        (let (offers, same) =
            kept (names_task task (or_else (get "tasks" payload) (arr nil)))
              (record {
                node_id = id;
                ts = t;
                payload = set_field "pubkey" (or_else pubkey null) payload;
              })
              r (rw young at h) in
          subst (IsTimely pubkey payload (str id) (some t)) same (record {
            names = refl;
            made = refl;
            young = ground arith;
            offers = offers;
            content = refl;
          }))
  ]

  check_age-IsTimely :
      (pubkey : Option Value) (payload : Fields) (id : Value) (ts : Option ℤ) (r : Found)
      → check_age p now task pubkey payload id ts ≡ ok (some r)
      → IsTimely pubkey payload id ts r
  check_age-IsTimely pubkey payload (str id) (some t) r h = aged-IsTimely pubkey payload id t r h
  check_age-IsTimely pubkey payload (str id) none r h = no_result h
  check_age-IsTimely pubkey payload null ts r h = no_result h
  check_age-IsTimely pubkey payload (bool b) ts r h = no_result h
  check_age-IsTimely pubkey payload (int n) ts r h = no_result h
  check_age-IsTimely pubkey payload (float x) ts r h = no_result h
  check_age-IsTimely pubkey payload (obj fs) ts r h = no_result h
  check_age-IsTimely pubkey payload (arr vs) ts r h = no_result h

  pub check_envelope-IsOffered :
      (e : Value) (r : Found) → check_envelope p difficulty now task e ≡ ok (some r) → IsOffered e r
  unfolding check_envelope
  check_envelope-IsOffered e r h = elim (Option-cases (open_envelope p e)) [
    | inl closed ↦ no_result (rw closed at h)
    | inr (payload, opens) ↦ elim (Bool-cases (is_text "provider" (get "kind" payload))) [
      | inr other ↦ no_result (rw (opens, other) at h)
      | inl kind ↦
          (let node_id = or_else (get "node_id" payload) (str "") in
            let ts = number (some (or_else (get "ts" payload) (int (pos 0)))) in
            let (earned, rest) =
              passed (verify_node_id p node_id (pubkey_of e) (get "pow_nonce" payload) difficulty)
                (check_age p now task (pubkey_of e) payload node_id ts) r (rw (opens, kind) at h) in
            let t = check_age-IsTimely (pubkey_of e) payload node_id ts r rest in
            record {
              payload = payload;
              opens = opens;
              kind = kind;
              names = t.names;
              earned = rw t.names at earned;
              made = t.made;
              young = t.young;
              offers = t.offers;
              content = t.content;
            })
    ]
  ]
