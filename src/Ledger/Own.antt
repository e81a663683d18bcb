-- ===== src/Ledger/Own.antt =====
-- What add_tx of gossip_ledger.py makes of the transfer that make_tx has just signed.
use kemi.Prelude.{
  ℕ, ◌*◌, ◌^◌, ◌<◌, String, ◌≡◌, refl, sym, ◌∙◌, ap, subst, Bool, true, false, Option, none, some,
  List, [], ◌∷◌, ◌⊎◌, inl, inr, arith, any, ltb, leb, str_eq, Bool-cases, Option-cases,
  if◌then◌else◌, ◌==◌, ◌&&◌,
}
use kemi.Prelude.Int.{ℤ, pos}
use kemi.Json.{
  Value, Fields, obj, str, int, float, field, end, get, number, integer, text, is_text, round_micro,
}
use kemi.Crypto.{Primitives, checked, open_envelope, sign_envelope, verify_node_id}
use kemi.Crypto.Hex.{Bytes}
use kemi.Result.{ok, >>=-eq-ok, ok-injective}
use kemi.Ledger.{
  Tx, Base, Ledger, Status, conflict, stale, invalid, Transfer, Verdict, refuse, admit, txs,
  same_slot, max_seq, base_seq_at, base_seq_of, parse_transfer, judge_transfer, judge_payload,
  judge, settle, too_large, tx_of, store, enter, add_tx, make_tx, reserve_seq, Identity,
}
use kemi.Ledger.History.{reserve-lt}

-- neither conflict nor stale
abbrev pub is_own : Status → Bool
is_own conflict = false
is_own stale = false
is_own _ = true

-- the checks refuse a transfer as invalid, or admit it under a sender and a number
abbrev IsOwn : String → ℕ → Verdict → Type 0
IsOwn sender seq (refuse s) = s ≡ invalid
IsOwn sender seq (admit t) = (t.sender ≡ sender) × (t.seq ≡ seq)

no_slot :
    (sender : String) (seq : ℕ) (t : Tx) (ts : List Tx)
    → max_seq sender ts < seq
    → t.sender ≡ sender
    → t.seq ≡ seq
    → any (λ (s : Tx). same_slot s t) ts ≡ false
unfolding max_seq
no_slot sender seq t [] above from numbered = refl
no_slot sender seq t (s ∷ ss) above from numbered = elim (Bool-cases (str_eq s.sender sender)) [
  | inl mine ↦
      let rest = no_slot sender seq t ss (ground arith) from numbered in
      rw (from, numbered, mine) (ground arith)
  | inr other ↦
      let rest = no_slot sender seq t ss (ground arith) from numbered in
      rw (from, numbered, other) (ground arith)
]

enter_own :
    (l : Ledger) (e : Value) (sender : String) (seq : ℕ) (v : Verdict)
    → max_seq sender (txs l) < seq
    → IsOwn sender seq v
    → is_own (enter l e v).0 ≡ true
unfolding enter store
enter_own l e sender seq (refuse s) above own = rw own refl
enter_own l e sender seq (admit t) above (from, numbered) =
    let free = no_slot sender seq t (txs l) above from numbered in
    elim (Bool-cases (any (λ (s : Tx). s.tx_id == t.tx_id) (txs l))) [
      | inl old ↦ rw (old, store) refl
      | inr fresh ↦ rw (fresh, free, store) refl
    ]

-- the payload of make_tx
abbrev own_payload : Identity → String → ℕ → ℕ → ℤ → Fields
own_payload who recipient amount seq now = field "kind" (str "tx") (
    field "from" (str who.node_id) (
      field "pow_nonce" (int (pos who.pow_nonce)) (
        field "to" (str recipient) (
          field "amount" (float (pos (round_micro amount * 1000)))
            (field "seq" (int (pos seq)) (field "ts" (float now) end))))))

if_some : {A : Type 0} (b : Bool) (x : A) {y : A} → (if b then some x else none) ≡ some y → x ≡ y
if_some true x h = cc
if_some false x h = cc

parse_own :
    (later : ℤ) (who : Identity) (recipient : String) (amount seq : ℕ) (now : ℤ) (t : Transfer)
    → parse_transfer later (own_payload who recipient amount seq now) ≡ some t
    → (t.sender ≡ str who.node_id) × (t.seq ≡ seq)
unfolding parse_transfer get number integer text is_text
parse_own later who recipient amount seq now t h =
    let same = if_some _ _ h in
    (sym (ap (λ (x : Transfer). x.sender) same), sym (ap (λ (x : Transfer). x.seq) same))

module _ (p : Primitives) where
  checked_cases :
      (payload : Fields) (key sig : Option Bytes)
      → (checked p (some (obj payload)) key sig ≡ none)
        ⊎ (checked p (some (obj payload)) key sig ≡ some payload)
  checked_cases payload none sig = inl refl
  checked_cases payload (some key) none = inl refl
  checked_cases payload (some key) (some sig) =
      elim (Bool-cases (p.verify key (p.encode (obj payload)) sig)) [
        | inl good ↦ inr (rw good refl)
        | inr bad ↦ inl (rw bad refl)
      ]

  -- what opens is the payload that was signed
  open_signed :
      (seed : Bytes) (payload : Fields)
      → (open_envelope p (sign_envelope p seed payload) ≡ none)
        ⊎ (open_envelope p (sign_envelope p seed payload) ≡ some payload)
  unfolding open_envelope sign_envelope get
  open_signed seed payload = checked_cases payload _ _

  settle-IsOwn :
      (payload : Fields) (t : Transfer) (sender : String) (verified : Bool) (v : Verdict)
      → t.sender ≡ str sender
      → settle p payload t verified ≡ ok v
      → IsOwn sender t.seq v
  unfolding tx_of text
  settle-IsOwn payload t sender false v from h = subst (IsOwn sender t.seq) (ok-injective h) refl
  settle-IsOwn payload t sender true v from h =
      elim (Bool-cases (ltb t.seq (2 ^ 63) && ltb t.amount too_large)) [
        | inl small ↦ subst (IsOwn sender t.seq) (ok-injective (rw small at h)) (rw from refl, refl)
        | inr large ↦ cc (rw large at h)
      ]

  transfer-IsOwn :
      (base : List (String × Base)) (difficulty : ℕ) (e : Value) (payload : Fields) (t : Transfer)
      (sender : String) (v : Verdict)
      → t.sender ≡ str sender
      → base_seq_at base sender < t.seq
      → judge_transfer p base difficulty e payload t ≡ ok v
      → IsOwn sender t.seq v
  unfolding judge_transfer base_seq_of
  transfer-IsOwn base difficulty e payload t sender v from above h =
      let (folded, found, rest) = >>=-eq-ok (base_seq_of base t.sender) _ h in
      let same : base_seq_at base sender ≡ folded = ok-injective (rw from at found) in
      let later : leb t.seq folded ≡ false = ground arith in
      let (verified, _, settled) =
        >>=-eq-ok (verify_node_id p t.sender _ _ difficulty) _ (rw later at rest) in
      settle-IsOwn payload t sender verified v from settled

  judge-IsOwn :
      (later : ℤ) (base : List (String × Base)) (difficulty : ℕ) (who : Identity)
      (recipient : String) (amount seq : ℕ) (now : ℤ) (v : Verdict)
      → base_seq_at base who.node_id < seq
      → judge p later base difficulty
          (sign_envelope p who.seed (own_payload who recipient amount seq now))
        ≡ ok v
      → IsOwn who.node_id seq v
  unfolding judge
  judge-IsOwn later base difficulty who recipient amount seq now v above h =
      let payload = own_payload who recipient amount seq now in
      let e = sign_envelope p who.seed payload in
      elim (open_signed who.seed payload) [
        | inl shut ↦ subst (IsOwn who.node_id seq) (ok-injective (rw shut at h)) refl
        | inr opens ↦ elim (Option-cases (parse_transfer later payload)) [
          | inl bad ↦
              subst (IsOwn who.node_id seq) (ok-injective (rw (opens, bad, judge_payload) at h))
                refl
          | inr (t, good) ↦
              (let (from, numbered) = parse_own later who recipient amount seq now t good in
                subst (λ k. IsOwn who.node_id k v) numbered
                  (transfer-IsOwn base difficulty e payload t who.node_id v from
                    (subst (λ k. base_seq_at base who.node_id < k) (sym numbered) above)
                    (rw (opens, good, judge_payload) at h)))
        ]
      ]

  -- add_tx calls a transfer that make_tx has signed neither conflict nor stale
  pub make_tx-is_own :
      (now later : ℤ) (l m : Ledger) (who : Identity) (recipient : String) (amount : ℕ) (s : Status)
      → add_tx p later
          (make_tx p now l who recipient amount).1
          (make_tx p now l who recipient amount).0
        ≡ ok (s, m)
      → is_own s ≡ true
  unfolding make_tx add_tx reserve_seq
  make_tx-is_own now later l m who recipient amount s h =
      let (seq, l') = reserve_seq l who.node_id in
      let (v, judged, entered) = >>=-eq-ok (judge p later l'.base l'.difficulty _) _ h in
      let above = reserve-lt l who.node_id in
      let own =
        judge-IsOwn later l'.base l'.difficulty who recipient amount seq now v above.1 judged in
      ap (λ (x : Status × Ledger). is_own x.0) (sym (ok-injective entered))
      ∙ enter_own l' _ who.node_id seq v above.0 own
