-- ===== src/Ledger/Repeat.antt =====
-- add_tx of gossip_ledger.py, called again with one envelope.
use kemi.Prelude.{
  Bool, false, if◌then◌else◌, ◌&&◌, ltb, ℕ, String, ◌≢◌, ◌⊎◌, sym, subst, Option, none, some, List,
  Option-cases, or_else, ◌≡◌, refl, ◌∙◌, ap, true, [], ◌∷◌, arith, ◌==◌, ==_iff, any, any-append,
  Bool-cases, inl, inr,
}
use kemi.Prelude.Int.{ℤ, pos, negsuc, ◌≤ℤ◌, ◌+ℤ◌, int_laws}
use kemi.Json.{Value, Fields, str, get, number, integer, text, is_text}
use kemi.Crypto.{Primitives, open_envelope}
use kemi.Result.{ok, ok-injective, >>=-eq-ok}
use kemi.Ledger.{
  Tx, Ledger, Status, known, invalid, Verdict, refuse, admit, txs, judge, judge_payload,
  parse_transfer, guarded, timely, max_clock_skew, Transfer, Base, store, enter, add_tx,
}
use kemi.Ledger.Gossip.{tx_known, txs-store, Kept-store}

store_knows : (l : Ledger) (t : Tx) (e : Value) → tx_known (store l t e).1 t ≡ true
store_knows l t e =
    ap (any (λ (s : Tx). s.tx_id == t.tx_id)) (txs-store l t e)
    ∙ (elim (Bool-cases (tx_known l t)) [
      | inl old ↦ rw old old
      | inr fresh ↦ rw fresh (
          let split = any-append (λ (s : Tx). s.tx_id == t.tx_id) (txs l) (t ∷ []) in
          let self = (==_iff t.tx_id t.tx_id).1 refl in ground arith)
    ])

store-known : (l : Ledger) (t : Tx) (e : Value) → tx_known l t ≡ true → store l t e ≡ (known, l)
unfolding store
store-known l t e h = rw h refl

-- ------------------------------------------------------------ later in time

timely_later :
    (now later z : ℤ) → now ≤ℤ later → timely now (some z) ≡ true → timely later (some z) ≡ true
timely_later now later z le h =
    let early : z ≤ℤ now +ℤ pos max_clock_skew = ground arith in
    let still : z ≤ℤ later +ℤ pos max_clock_skew = omega int_laws in ground arith

guarded_later :
    (now later : ℤ) (sender : Value) (amount seq : Option ℤ) (recipient : Option String)
    (ts : Option ℤ) (t : Transfer)
    → now ≤ℤ later
    → guarded now sender amount seq recipient ts ≡ some t
    → guarded later sender amount seq recipient ts ≡ some t
guarded_later now later sender none seq recipient ts t le h = cc
guarded_later now later sender (some (negsuc a)) seq recipient ts t le h = cc
guarded_later now later sender (some (pos a)) none recipient ts t le h = cc
guarded_later now later sender (some (pos a)) (some (negsuc k)) recipient ts t le h = cc
guarded_later now later sender (some (pos a)) (some (pos k)) none ts t le h = cc
guarded_later now later sender (some (pos a)) (some (pos k)) (some r) none t le h = ground arith
guarded_later now later sender (some (pos a)) (some (pos k)) (some r) (some z) t le h =
    elim (Bool-cases (timely now (some z))) [
      | inl early ↦ rw (timely_later now later z le early) (rw early at h)
      | inr ahead ↦ absurd (refused (ltb 0 a) (ltb 0 k) _ _ _ (rw ahead at h))
    ]
  where
    refused :
        (b c d e : Bool) (x : Transfer)
        → (if b && (c && (d && (e && false))) then some x else none) ≡ some t
        → ⊥
    refused b c d e x h = ground arith

parse_later :
    (now later : ℤ) (payload : Fields) (t : Transfer)
    → now ≤ℤ later
    → parse_transfer now payload ≡ some t
    → parse_transfer later payload ≡ some t
unfolding parse_transfer
parse_later now later payload t le h = elim (Bool-cases (is_text "tx" (get "kind" payload))) [
  | inl tx ↦ rw tx (
      guarded_later now later (or_else (get "from" payload) (str ""))
        (number (get "amount" payload)) (integer (get "seq" payload))
        (text (some (or_else (get "to" payload) (str "")))) (number (get "ts" payload)) t le
        (rw tx at h))
  | inr other ↦ cc (rw other at h)
]

module _ (p : Primitives) where
  payload_later :
      (now later : ℤ) (base : List (String × Base)) (difficulty : ℕ) (e : Value) (o : Option Fields)
      (v : Verdict)
      → now ≤ℤ later
      → judge_payload p now base difficulty e o ≡ ok v
      → v ≢ refuse invalid
      → judge_payload p later base difficulty e o ≡ ok v
  payload_later now later base difficulty e none v le h valid =
      absurd (valid (sym (ok-injective h)))
  payload_later now later base difficulty e (some payload) v le h valid =
      elim (Option-cases (parse_transfer now payload)) [
        | inl bad ↦ absurd (valid (sym (ok-injective (rw (bad, judge_payload) at h))))
        | inr (t, good) ↦
            rw (parse_later now later payload t le good, judge_payload)
              (rw (good, judge_payload) at h)
      ]

  -- what the checks find other than invalid, they find later too
  judge_later :
      (now later : ℤ) (base : List (String × Base)) (difficulty : ℕ) (e : Value) (v : Verdict)
      → now ≤ℤ later
      → judge p now base difficulty e ≡ ok v
      → v ≢ refuse invalid
      → judge p later base difficulty e ≡ ok v
  unfolding judge
  judge_later now later base difficulty e v le h valid =
      payload_later now later base difficulty e (open_envelope p e) v le h valid

  enter_again :
      (later : ℤ) (l : Ledger) (e : Value) (v : Verdict)
      → judge p later l.base l.difficulty e ≡ ok v
      → (s : Status) × (add_tx p later (enter l e v).1 e ≡ ok (s, (enter l e v).1))
        × ((s ≡ known) ⊎ (s ≡ (enter l e v).0))
  unfolding add_tx enter
  enter_again later l e (refuse s) h = (s, rw h refl, inr refl)
  enter_again later l e (admit t) h =
      let kept = Kept-store l t e in
      (
        known,
        rw (kept.base, kept.difficulty, h, store-known (store l t e).1 t e (store_knows l t e))
            refl,
        inl refl,
      )

  invalid_entry :
      (l : Ledger) (e : Value) (v : Verdict) → v ≡ refuse invalid → (enter l e v).0 ≡ invalid
  unfolding enter
  invalid_entry l e v bad = rw bad refl

  -- an envelope that add_tx has not called invalid changes nothing when it is added again
  pub add_tx_again :
      (now later : ℤ) (l m : Ledger) (e : Value) (s : Status)
      → now ≤ℤ later
      → add_tx p now l e ≡ ok (s, m)
      → s ≢ invalid
      → (s' : Status) × (add_tx p later m e ≡ ok (s', m)) × ((s' ≡ known) ⊎ (s' ≡ s))
  unfolding add_tx
  add_tx_again now later l m e s le h valid =
      let (v, judged, entered) = >>=-eq-ok (judge p now l.base l.difficulty e) _ h in
      let done : enter l e v ≡ (s, m) = ok-injective entered in
      let fine : v ≢ refuse invalid =
        λ bad. valid (sym (ap (λ (x : Status × Ledger). x.0) done) ∙ invalid_entry l e v bad) in
      let (s', again, same) =
        enter_again later l e v (judge_later now later l.base l.difficulty e v le judged fine) in
      subst
        (λ (x : Status × Ledger).
          (s' : Status) × (add_tx p later x.1 e ≡ ok (s', x.1)) × ((s' ≡ known) ⊎ (s' ≡ x.0)))
        done (s', again, same)

module _ (p : Primitives) where
  -- Once add_tx has dealt with an envelope that the checks admit then and later, adding it again is
  -- answered known and changes nothing, whether the first answer was new, conflict or known.
  pub add_tx-known :
      (now later : ℤ) (l : Ledger) (e : Value) (t : Tx)
      → judge p now l.base l.difficulty e ≡ ok (admit t)
      → judge p later l.base l.difficulty e ≡ ok (admit t)
      → (s : Status) × (m : Ledger) × (add_tx p now l e ≡ ok (s, m))
        × (add_tx p later m e ≡ ok (known, m))
  unfolding add_tx enter
  add_tx-known now later l e t h k =
      let kept = Kept-store l t e in
      (
        (store l t e).0,
        (store l t e).1,
        rw h refl,
        rw (kept.base, kept.difficulty, k, store-known (store l t e).1 t e (store_knows l t e))
            refl,
      )
