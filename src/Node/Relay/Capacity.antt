-- ===== src/Node/Relay/Capacity.antt =====
-- The table of relay sessions stays within the limits of the node, in all and for each address.
use kemi.Prelude.{
  ℕ, ◌+◌, ◌≤◌, String, ◌≡◌, refl, sym, Bool, true, false, not, Option, none, some, List, [], ◌∷◌,
  arith, ◌==◌, str_eq, eq_iff, or_else, if◌then◌else◌, Bool-cases, Option-cases, inl, inr, ◌⊎◌,
  length, All,
}
use kemi.Prelude.Int.{ℤ, negsuc}
use kemi.Prelude.Assoc.{find, upsert, remove, length-upsert, has_key}
use kemi.Json.{Value, Fields, null, bool, int, float, str, arr, obj, get, is_text, number}
use kemi.Crypto.{Primitives, open_envelope, verify_node_id}
use kemi.Crypto.Verified.{IsEarned, verify_node_id-IsEarned}
use kemi.Result.{Result, ok, raise, >>=-eq-ok, ok-injective, Result-cases}
use kemi.Node.Relay.{
  Held, RelayTable, RelayLimits, count_ip, relay_full, Registration, recognised, recognise,
  register_session, end_session, envelope_key, envelope_of, is_recent,
}

count_ip-upsert :
    (ip k : String) (h : Held) (t : RelayTable)
    → count_ip ip (upsert k h t) ≤ count_ip ip t + (if str_eq h.ip ip then 1 else 0)
unfolding count_ip upsert
count_ip-upsert ip k h [] = ground arith
count_ip-upsert ip k h ((j, g) ∷ t) = ground (arith, count_ip-upsert ip k h t)

count_ip-remove : (ip k : String) (t : RelayTable) → count_ip ip (remove k t) ≤ count_ip ip t
unfolding count_ip remove
count_ip-remove ip k [] = omega arith
count_ip-remove ip k ((j, g) ∷ t) = ground (arith, count_ip-remove ip k t)

length-remove : (k : String) (t : RelayTable) → length (remove k t) ≤ length t
unfolding remove
length-remove k [] = omega arith
length-remove k ((j, g) ∷ t) = ground (arith, length-remove k t)

-- what can happen to the table: a peer asks to be relayed, or a connection ends
pub data Visit : Type 0 where
  asks : ℤ → ℕ → String → Fields → Visit
  ends : ℕ → String → Visit

module _ (p : Primitives) (difficulty : ℕ) (limits : RelayLimits) where
  -- the table after an answer; an exception leaves it as it is
  abbrev settle_table : RelayTable → Result (Registration × RelayTable) → RelayTable
  settle_table t (ok (r, t')) = t'
  settle_table t (raise x) = t

  abbrev pub visit : RelayTable → Visit → RelayTable
  visit t (asks now connection ip message) =
      settle_table t (register_session p difficulty limits now connection ip message t)
  visit t (ends connection node_id) = end_session connection node_id t

  unfoldable pub visits : RelayTable → List Visit → RelayTable
  visits t [] = t
  visits t (v ∷ vs) = visits (visit t v) vs

  abbrev Earned : RelayTable → Type 0
  Earned = All (λ ((node_id, h) : String × Held). IsEarned p (str node_id) difficulty)

  upsert-Earned :
      (k : String) (h : Held) (t : RelayTable)
      → IsEarned p (str k) difficulty
      → Earned t
      → Earned (upsert k h t)
  unfolding upsert
  upsert-Earned k h [] e es = (e, tt)
  upsert-Earned k h ((j, g) ∷ t) e es = elim (Bool-cases (str_eq j k)) [
    | inl same ↦ rw same (es.0, es.1)
    | inr other ↦ rw other (es.0, upsert-Earned k h t e es.1)
  ]

  remove-Earned : (k : String) (t : RelayTable) → Earned t → Earned (remove k t)
  unfolding remove
  remove-Earned k [] es = tt
  remove-Earned k ((j, g) ∷ t) es = elim (Bool-cases (str_eq j k)) [
    | inl same ↦ rw same (remove-Earned k t es.1)
    | inr other ↦ rw other (es.0, remove-Earned k t es.1)
  ]

  -- no more sessions than the limit, none of them of an id without proof of work, and from no address
  -- more than its share
  pub record IsWithin (t : RelayTable) : Type 0 where
    pub size : length t ≤ limits.max_relay_sessions
    pub share : (ip : String) → count_ip ip t ≤ limits.per_ip_relay_sessions
    pub earned : Earned t

  -- what recognise makes of a message, if it is an id
  recognised-true :
      (now : ℤ) (payload : Fields) (id : Value) (good : Bool) (k : String)
      → recognised p difficulty now payload id good ≡ some k
      → (good ≡ true) × (id ≡ str k)
  recognised-true now payload (str id) true k h =
      elim (Bool-cases (is_recent now (number (get "ts" payload)))) [
        | inl recent ↦ (refl, some_str (rw recent at h))
        | inr old ↦ (let no : none ≡ some k = (rw old at h) in cc)
      ]
    where
      some_str : some id ≡ some k → str id ≡ str k
      some_str q = cc
  recognised-true now payload (str id) false k h = cc
  recognised-true now payload null good k h = cc
  recognised-true now payload (bool b) good k h = cc
  recognised-true now payload (int n) good k h = cc
  recognised-true now payload (float x) good k h = cc
  recognised-true now payload (arr vs) good k h = cc
  recognised-true now payload (obj fs) good k h = cc

  recognise-IsEarned :
      (now : ℤ) (envelope : Value) (o : Option Fields) (k : String)
      → recognise p difficulty now envelope o ≡ ok (some k)
      → IsEarned p (str k) difficulty
  recognise-IsEarned now envelope none k h = (let no : ok none ≡ ok (some k) = h in cc)
  recognise-IsEarned now envelope (some payload) k h =
      elim (Bool-cases (not (is_text "relay" (get "kind" payload)))) [
        | inl other ↦ (let no : ok none ≡ ok (some k) = (rw other at h) in cc)
        | inr relay ↦
            (let id = or_else (get "node_id" payload) (str "") in
              let pubkey = some (envelope_key envelope) in
              let nonce = some (or_else (get "pow_nonce" payload) (int (negsuc 0))) in
              let (good, verified, rest) =
                >>=-eq-ok (verify_node_id p id pubkey nonce difficulty)
                  (λ b. ok (recognised p difficulty now payload id b)) (rw relay at h) in
              let (yes_good, named) = recognised-true now payload id good k (ok-injective rest) in
              rw (sym named)
                (verify_node_id-IsEarned p id difficulty pubkey nonce (rw yes_good at verified)))
      ]

  -- an answer leaves the table, or enters an id that has been earned where there is room
  register_session-cases :
      (now : ℤ) (connection : ℕ) (ip : String) (message : Fields) (t : RelayTable)
      → (visit t (asks now connection ip message) ≡ t)
        ⊎ ((k : String) × (relay_full limits ip t ≡ false)
            × IsEarned p (str k) difficulty
            × (visit t (asks now connection ip message)
                ≡ upsert k (record { connection = connection; ip = ip }) t))
  unfolding register_session
  register_session-cases now connection ip message t = elim (Bool-cases (relay_full limits ip t)) [
    | inl full ↦ inl (rw full refl)
    | inr room ↦
        (let envelope = envelope_of (get "envelope" message) in
          elim (Result-cases (recognise p difficulty now envelope (open_envelope p envelope))) [
            | inl (x, bad) ↦ inl (rw (room, bad) refl)
            | inr (none, unknown) ↦ inl (rw (room, unknown) refl)
            | inr (some k, known) ↦ inr (
              k,
              room,
              recognise-IsEarned now envelope (open_envelope p envelope) k known,
              rw (room, known) refl,
            )
          ])
  ]

  upsert-IsWithin :
      (k ip : String) (connection : ℕ) (t : RelayTable)
      → relay_full limits ip t ≡ false
      → IsEarned p (str k) difficulty
      → IsWithin t
      → IsWithin (upsert k (record { connection = connection; ip = ip }) t)
  unfolding relay_full
  upsert-IsWithin k ip connection t room earned w =
      let h : Held = record { connection = connection; ip = ip } in
      record {
        size =
            (let grown = length-upsert k h t in
              elim (Bool-cases (has_key k t)) [
                | inl old ↦ (let same = (rw old at grown) in omega (arith, w.size))
                | inr new ↦ (let more = (rw new at grown) in ground arith)
              ]);
        share = λ other.
            (let grown = count_ip-upsert other k h t in
              let before = w.share other in
              elim (Bool-cases (str_eq ip other)) [
                | inr apart ↦ (let same = (rw apart at grown) in omega arith)
                | inl mine ↦
                    (let more = (rw mine at grown) in
                      let here = (eq_iff ip other).0 mine in
                      let room' = (rw here at room) in ground arith)
              ]);
        earned = upsert-Earned k h t earned w.earned;
      }

  end_session-IsWithin :
      (connection : ℕ) (k : String) (t : RelayTable)
      → IsWithin t
      → IsWithin (end_session connection k t)
  unfolding end_session
  end_session-IsWithin connection k t w = elim (Option-cases (find k t)) [
    | inl gone ↦ rw (gone, end_session) w
    | inr (h, there) ↦ elim (Bool-cases (h.connection == connection)) [
      | inr other ↦ rw (there, other, end_session) w
      | inl mine ↦
          rw (there, mine, end_session)
            (record {
              size = (let less = length-remove k t in omega (arith, w.size));
              share = λ ip.
                  (let less = count_ip-remove ip k t in let before = w.share ip in omega arith);
              earned = remove-Earned k t w.earned;
            })
    ]
  ]

  visits-keep : (vs : List Visit) (t : RelayTable) → IsWithin t → IsWithin (visits t vs)
  unfolding visits
  visits-keep [] t w = w
  visits-keep (ends connection k ∷ vs) t w =
      visits-keep vs _ (end_session-IsWithin connection k t w)
  visits-keep (asks now connection ip m ∷ vs) t w =
      visits-keep vs _ (elim (register_session-cases now connection ip m t) [
        | inl same ↦ rw same w
        | inr (k, room, earned, entered) ↦
            rw entered (upsert-IsWithin k ip connection t room earned w)
      ])

  -- Whatever peers ask to be relayed and however connections end, the table of a new relay never has
  -- more sessions than its limit, from no address more than that address's share, and no id that has
  -- not been earned by proof of work.
  pub visits-IsWithin : (vs : List Visit) → IsWithin (visits [] vs)
  unfolding count_ip
  visits-IsWithin vs =
      visits-keep vs [] (record { size = omega arith; share = λ ip. omega arith; earned = tt })
