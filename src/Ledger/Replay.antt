-- ===== src/Ledger/Replay.antt =====
-- add_tx of gossip_ledger.py after a prune.
use mathlib.Core.List.{Mem}
use kemi.Prelude.{
  ℕ, ◌≤◌, ◌<◌, String, ◌≡◌, refl, sym, ◌∙◌, ap, Bool, true, false, not, ◌&&◌, Option, none, some,
  List, arith, leb, ltb, le→leb, if◌then◌else◌, ◌==◌, Bool-cases, inl, inr, Option-cases, or_else,
}
use kemi.Prelude.Int.{ℤ, pos, negsuc, ◌≤ℤ◌, +ℤ_parts}
use kemi.Json.{Value, Fields, str, get, text, is_text, number, integer}
use kemi.Crypto.{Primitives, open_envelope, verify_node_id}
use kemi.Crypto.Verified.{verify_node_id-IsEarned, is_text_shape}
use kemi.Result.{ok, >>=-eq-ok, ok-injective}
use kemi.Ledger.{
  Tx, Base, Ledger, Transfer, refuse, admit, stale, max_clock_skew, txs, base_seq_at, base_seq_of,
  parse_transfer, judge, judge_transfer, tx_of, add_tx, enter, sender_text, settle, timely, guarded,
  judge_payload,
}
use kemi.Ledger.Counting.{le-max_seq}
use kemi.Ledger.Checkpoint.{prune}
use kemi.Ledger.Checkpoint.Prune.{base_seq-prune, difficulty-prune}

-- the sender of a judged transfer is a text, and the row holds what the payload says
record IsRowOf (p : Primitives) (base : List (String × Base)) (t : Transfer) (row : Tx)
    : Type 0 where
  sender_is : t.sender ≡ str row.sender
  seq_is : row.seq ≡ t.seq
  is_fresh : base_seq_at base row.sender < row.seq

module _ (p : Primitives) where
  text_sender : (t : Transfer) (s : String) → t.sender ≡ str s → sender_text p t ≡ s
  unfolding text
  text_sender t s h = rw h refl

  settle-admit :
      (payload : Fields) (t : Transfer) (verified : Bool) (row : Tx)
      → settle p payload t verified ≡ ok (admit row)
      → (verified ≡ true) × (tx_of p payload t (sender_text p t) ≡ row)
  settle-admit payload t true row h = (refl, ground arith)
  settle-admit payload t false row h = cc

  IsRowOf-parts :
      (base : List (String × Base)) (payload : Fields) (t : Transfer) (row : Tx) (s : String)
      (folded : ℕ)
      → t.sender ≡ str s
      → base_seq_of base t.sender ≡ ok folded
      → leb t.seq folded ≡ false
      → tx_of p payload t (sender_text p t) ≡ row
      → IsRowOf p base t row
  unfolding tx_of base_seq_of
  IsRowOf-parts base payload t row s folded e q fresh made =
      let name : row.sender ≡ s = sym (ap (λ (x : Tx). x.sender) made) ∙ text_sender t s e in
      let number : row.seq ≡ t.seq = sym (ap (λ (x : Tx). x.seq) made) in
      let base_is : base_seq_at base s ≡ folded = ok-injective (rw e at q) in
      record {
        sender_is = e ∙ ap str (sym name);
        seq_is = number;
        is_fresh = rw name (ground arith);
      }

  judge_transfer-admit :
      (base : List (String × Base)) (difficulty : ℕ) (envelope : Value) (payload : Fields)
      (t : Transfer) (row : Tx)
      → judge_transfer p base difficulty envelope payload t ≡ ok (admit row)
      → IsRowOf p base t row
  unfolding judge_transfer
  judge_transfer-admit base difficulty envelope payload t row h =
      let (folded, q, k) = >>=-eq-ok (base_seq_of base t.sender) _ h in
      elim (Bool-cases (leb t.seq folded)) [
        | inl old ↦ cc (rw old at k)
        | inr fresh ↦
            let (verified, vq, sk) =
              >>=-eq-ok (verify_node_id p t.sender _ _ difficulty) _ (rw fresh at k) in
            let (is_true, made) = settle-admit payload t verified row sk in
            let earned = verify_node_id-IsEarned p t.sender difficulty _ _ (vq ∙ ap ok is_true) in
            let (s, e) = is_text_shape _ t.sender earned.names in
            IsRowOf-parts base payload t row s folded e q fresh made
      ]

  -- later clocks accept what an earlier one did, and a higher baseline refuses it as stale
  judge_transfer-stale :
      (base : List (String × Base)) (difficulty : ℕ) (envelope : Value) (payload : Fields)
      (t : Transfer) (row : Tx)
      → IsRowOf p base t row
      → (after : List (String × Base)) → row.seq ≤ base_seq_at after row.sender
      → judge_transfer p after difficulty envelope payload t ≡ ok (refuse stale)
  unfolding judge_transfer base_seq_of
  judge_transfer-stale base difficulty envelope payload t row h after le =
      rw h.sender_is (rw (← h.seq_is, le→leb row.seq (base_seq_at after row.sender) le) refl)

-- the last test of a conjunction may be replaced by one that follows from it
guard_mono :
    (a b c d x y : Bool) (v : Transfer) {t : Transfer}
    → (x ≡ true → y ≡ true)
    → (if a && (b && (c && (d && x))) then some v else none) ≡ some t
    → (if a && (b && (c && (d && y))) then some v else none) ≡ some t
guard_mono a b c d true y v f h = rw (f refl) h
guard_mono a b c d false y v f h = absurd (ground arith)

module _ (now later : ℤ) (le : now ≤ℤ later) where
  timely_later : (ts : Option ℤ) → timely now ts ≡ true → timely later ts ≡ true
  timely_later none h = h
  timely_later (some ts) h =
      ground (arith, +ℤ_parts now (pos max_clock_skew), +ℤ_parts later (pos max_clock_skew))

  guarded_later :
      (sender : Value) (amount seq : Option ℤ) (recipient : Option String) (ts : Option ℤ)
      {t : Transfer}
      → guarded now sender amount seq recipient ts ≡ some t
      → guarded later sender amount seq recipient ts ≡ some t
  guarded_later sender (some (pos a)) (some (pos s)) (some r) ts h =
      guard_mono (ltb 0 a) (ltb 0 s) (Prim.Native.String.count r == 64)
        (not (is_text r (some sender))) (timely now ts) (timely later ts) _ (timely_later ts) h
  guarded_later sender (some (pos a)) (some (pos s)) none ts h = cc
  guarded_later sender (some (pos a)) (some (negsuc s)) r ts h = cc
  guarded_later sender (some (pos a)) none r ts h = cc
  guarded_later sender (some (negsuc a)) s r ts h = cc
  guarded_later sender none s r ts h = cc

  parse_later :
      (payload : Fields) {t : Transfer}
      → parse_transfer now payload ≡ some t
      → parse_transfer later payload ≡ some t
  unfolding parse_transfer
  parse_later payload h = elim (Bool-cases (is_text "tx" (get "kind" payload))) [
    | inl x ↦ rw x (
        guarded_later (or_else (get "from" payload) (str "")) (number (get "amount" payload))
          (integer (get "seq" payload)) (text (some (or_else (get "to" payload) (str ""))))
          (number (get "ts" payload)) (rw x at h))
    | inr x ↦ cc (rw x at h)
  ]

module _ (p : Primitives) where
  judge_payload-stale :
      (now later : ℤ) (base after : List (String × Base)) (difficulty : ℕ) (e : Value) (row : Tx)
      (o : Option Fields)
      → now ≤ℤ later
      → row.seq ≤ base_seq_at after row.sender
      → judge_payload p now base difficulty e o ≡ ok (admit row)
      → judge_payload p later after difficulty e o ≡ ok (refuse stale)
  judge_payload-stale now later base after difficulty e row none le reach h = cc
  judge_payload-stale now later base after difficulty e row (some payload) le reach h =
      elim (Option-cases (parse_transfer now payload)) [
        | inl bad ↦ cc (rw (bad, judge_payload) at h)
        | inr (t, good) ↦
            rw (parse_later now later le payload good, judge_payload)
              (judge_transfer-stale p base difficulty e payload t row
                (judge_transfer-admit p base difficulty e payload t row
                  (rw (good, judge_payload) at h))
                after reach)
      ]

  -- Once a stored transfer has been pruned, every later attempt to add its envelope is answered
  -- "stale" and leaves the ledger as it is.
  pub replay-stale :
      (l : Ledger) (now later : ℤ) (e : Value) (t : Tx)
      → judge p now l.base l.difficulty e ≡ ok (admit t)
      → Mem t (txs l)
      → now ≤ℤ later
      → add_tx p later (prune l).1 e ≡ ok (stale, (prune l).1)
  unfolding judge add_tx
  replay-stale l now later e t h m le =
      let reach : t.seq ≤ base_seq_at (prune l).1.base t.sender =
        rw (base_seq-prune l t.sender)
          (let top = le-max_seq t.sender t (txs l) m refl in omega arith) in
      let again : judge_payload p later (prune l).1.base (prune l).1.difficulty e
            (open_envelope p e)
          ≡ ok (refuse stale) =
        rw (difficulty-prune l) (
          judge_payload-stale now later l.base (prune l).1.base l.difficulty e t (open_envelope p e)
            le reach h) in
      rw (again, enter) refl
