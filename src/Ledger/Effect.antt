-- ===== src/Ledger/Effect.antt =====
-- add_tx of gossip_ledger.py and the balances.
use kemi.Prelude.{
  ℕ, ◌+◌, String, ◌≡◌, ◌≢◌, refl, sym, ◌∙◌, ap, subst, Bool, true, false, not, ◌&&◌, ◌||◌, List, [],
  ◌∷◌, ◌++◌, arith, leb, str_eq, str_eq_sym, if◌then◌else◌, any, all, all-append, Option, none,
  some, Option-cases, ltb, ◌^◌, ◌==◌, Bool-cases, inl, inr,
}
use kemi.Prelude.Sums.{sum_by, sum_by-append}
use kemi.Prelude.Int.{ℤ, pos, ◌+ℤ◌, int_laws}
use kemi.Json.{Value, Fields}
use kemi.Crypto.{Primitives, open_envelope, verify_node_id}
use kemi.Result.{ok, >>=-eq-ok, ok-injective}
use kemi.Ledger.{
  Tx, Base, Ledger, Status, new, known, conflict, Transfer, base_seq_of, parse_transfer,
  judge_transfer, judge_payload, settle, too_large, Verdict, refuse, admit, txs, same_slot, judge,
  store, enter, add_tx, insert,
}
use kemi.Ledger.Queries.{is_counted, received, sent, incoming, outgoing, balance}
use kemi.Ledger.Gossip.{txs-insert}

and_true : (b : Bool) → (b && true) ≡ b
and_true b = ground arith

-- a transfer of a slot of its own
module _ (t : Tx) where
  is_counted-append :
      (ts : List Tx) (s : Tx)
      → same_slot t s ≡ false
      → is_counted (ts ++ t ∷ []) s ≡ is_counted ts s
  unfolding is_counted
  is_counted-append ts s h =
      all-append (λ r. not (same_slot r s) || leb s.tx_id r.tx_id) ts (t ∷ []) ∙ (rw h (and_true _))

  same_slot_sym : (s : Tx) → same_slot s t ≡ same_slot t s
  same_slot_sym s = ground (arith, str_eq_sym s.sender t.sender)

  sum_old :
      (us ts : List Tx) (n : String)
      → any (λ s. same_slot s t) us ≡ false
      → (sum_by (received (ts ++ t ∷ []) n) us ≡ sum_by (received ts n) us)
        × (sum_by (sent (ts ++ t ∷ []) n) us ≡ sum_by (sent ts n) us)
  sum_old [] ts n h = (refl, refl)
  sum_old (u ∷ us) ts n h =
      let apart : same_slot t u ≡ false = sym (same_slot_sym u) ∙ ground arith in
      let rest = sum_old us ts n (ground arith) in
      let same = is_counted-append ts u apart in (rw (same, rest.0) refl, rw (same, rest.1) refl)

  counts_itself :
      (ts : List Tx) → any (λ s. same_slot s t) ts ≡ false → is_counted (ts ++ t ∷ []) t ≡ true
  unfolding is_counted
  counts_itself ts h =
      let split = all-append (λ s. not (same_slot s t) || leb t.tx_id s.tx_id) ts (t ∷ []) in
      let before = all_apart ts h in ground arith
    where
      all_apart :
          (us : List Tx)
          → any (λ s. same_slot s t) us ≡ false
          → all (λ s. not (same_slot s t) || leb t.tx_id s.tx_id) us ≡ true
      all_apart [] k = refl
      all_apart (u ∷ us) k = ground (arith, all_apart us (ground arith))

  incoming-new :
      (ts : List Tx) (n : String)
      → any (λ s. same_slot s t) ts ≡ false
      → incoming (ts ++ t ∷ []) n ≡ incoming ts n + (if str_eq t.recipient n then t.amount else 0)
  unfolding incoming
  incoming-new ts n h =
      sum_by-append (received (ts ++ t ∷ []) n) ts (t ∷ [])
      ∙ (rw ((sum_old ts ts n h).0, counts_itself ts h) (omega arith))

  outgoing-new :
      (ts : List Tx) (n : String)
      → any (λ s. same_slot s t) ts ≡ false
      → outgoing (ts ++ t ∷ []) n ≡ outgoing ts n + (if str_eq t.sender n then t.amount else 0)
  unfolding outgoing
  outgoing-new ts n h =
      sum_by-append (sent (ts ++ t ∷ []) n) ts (t ∷ [])
      ∙ (rw ((sum_old ts ts n h).1, counts_itself ts h) (omega arith))

-- the amount reaches the recipient and leaves the sender, and no other balance changes
abbrev pub IsMoved : Ledger → Ledger → Tx → Type 0
IsMoved l m t =
    (n : String)
    → balance m n +ℤ pos (if str_eq t.sender n then t.amount else 0)
      ≡ balance l n +ℤ pos (if str_eq t.recipient n then t.amount else 0)

insert-IsMoved :
    (l : Ledger) (t : Tx) (e : Value)
    → any (λ (s : Tx). same_slot s t) (txs l) ≡ false
    → IsMoved l (insert l t e) t
unfolding balance
insert-IsMoved l t e h n =
    let rows = txs-insert l t e in
    let gain = ap (λ ts. incoming ts n) rows ∙ incoming-new t (txs l) n h in
    let loss = ap (λ ts. outgoing ts n) rows ∙ outgoing-new t (txs l) n h in
    rw (gain, loss) (unfold insert in omega int_laws)

store-new :
    (l m : Ledger) (t : Tx) (e : Value)
    → store l t e ≡ (new, m)
    → (any (λ (s : Tx). same_slot s t) (txs l) ≡ false) × (m ≡ insert l t e)
unfolding store
store-new l m t e h = elim (Bool-cases (any (λ (s : Tx). s.tx_id == t.tx_id) (txs l))) [
  | inl old ↦ absurd (not_new known (λ c. cc) (rw (old, store) at h))
  | inr fresh ↦ elim (Bool-cases (any (λ (s : Tx). same_slot s t) (txs l))) [
    | inl taken ↦ absurd (not_new conflict (λ c. cc) (rw (fresh, taken, store) at h))
    | inr free ↦ (free, sym (snd_is (rw (fresh, free, store) at h)))
  ]
]
  where
    not_new : {k : Ledger} (s : Status) → s ≢ new → ◌≡◌ {A = Status × Ledger} (s, k) (new, m) → ⊥
    not_new s other q = other (ap (λ (x : Status × Ledger). x.0) q)

    snd_is : {k : Ledger} → ◌≡◌ {A = Status × Ledger} (new, k) (new, m) → k ≡ m
    snd_is q = ap (λ (x : Status × Ledger). x.1) q

-- no refusal of the checks is called new
module _ (p : Primitives) where
  transfer-refuse :
      (base : List (String × Base)) (difficulty : ℕ) (e : Value) (payload : Fields) (t : Transfer)
      (s : Status)
      → judge_transfer p base difficulty e payload t ≡ ok (refuse s)
      → s ≢ new
  unfolding judge_transfer
  transfer-refuse base difficulty e payload t s h =
      let (folded, q, k) = >>=-eq-ok (base_seq_of base t.sender) _ h in
      elim (Bool-cases (leb t.seq folded)) [
        | inl old ↦ λ bad. cc (rw old at k, bad)
        | inr fresh ↦
            let (verified, vq, sk) =
              >>=-eq-ok (verify_node_id p t.sender _ _ difficulty) _ (rw fresh at k) in
            settled verified sk
      ]
    where
      settled : (verified : Bool) → settle p payload t verified ≡ ok (refuse s) → s ≢ new
      settled true q = λ bad. elim (Bool-cases (ltb t.seq (2 ^ 63) && ltb t.amount too_large)) [
        | inl x ↦ cc (rw x at q)
        | inr x ↦ cc (rw x at q)
      ]
      settled false q = λ bad. cc

  payload-refuse :
      (now : ℤ) (base : List (String × Base)) (difficulty : ℕ) (e : Value) (o : Option Fields)
      (s : Status)
      → judge_payload p now base difficulty e o ≡ ok (refuse s)
      → s ≢ new
  payload-refuse now base difficulty e none s h = λ bad. cc
  payload-refuse now base difficulty e (some payload) s h =
      elim (Option-cases (parse_transfer now payload)) [
        | inl bad ↦ λ c. cc (rw (bad, judge_payload) at h, c)
        | inr (t, good) ↦
            transfer-refuse base difficulty e payload t s (rw (good, judge_payload) at h)
      ]

module _ (p : Primitives) where
  -- An envelope that add_tx calls new carries an admitted transfer, whose amount moves from its
  -- sender to its recipient; no other balance changes.
  pub add_tx-IsMoved :
      (now : ℤ) (l m : Ledger) (e : Value)
      → add_tx p now l e ≡ ok (new, m)
      → (t : Tx) × (judge p now l.base l.difficulty e ≡ ok (admit t)) × IsMoved l m t
  unfolding add_tx enter judge
  add_tx-IsMoved now l m e h =
      let (v, q, k) = >>=-eq-ok (judge p now l.base l.difficulty e) _ h in go v q (ok-injective k)
    where
      go :
          (v : Verdict)
          → judge p now l.base l.difficulty e ≡ ok v
          → enter l e v ≡ (new, m)
          → (t : Tx) × (judge p now l.base l.difficulty e ≡ ok (admit t)) × IsMoved l m t
      go (refuse s) q k = absurd (
          payload-refuse p now l.base l.difficulty e (open_envelope p e) s q
            (ap (λ (x : Status × Ledger). x.0) k))
      go (admit t) q k =
          let (apart, made) = store-new l m t e k in
          (t, q, subst (λ x. IsMoved l x t) (sym made) (insert-IsMoved l t e apart))
