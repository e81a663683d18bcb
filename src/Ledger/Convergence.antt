-- ===== src/Ledger/Convergence.antt =====
-- Two replicas and the same envelopes: the queries of gossip_ledger.py and the order of the rows.
use mathlib.Core.List.{
  Mem, Mem-prop, mem-append, mem-cons, mem-cons_self, mem-cons_of_mem, mem-append_left,
  mem-append_right, not-mem-nil, Nodup, Permᴰ, Perm,
}
use mathlib.Core.Logic.{∥∥₁_elim}
use mathlib.Core.Logic.Or
use mathlib.Core.Path.{fun_ext}
use native.Mathlib.Nat.{ℕ_set}
use kemi.Prelude.{
  ℕ, String, ◌≡◌, refl, sym, ap, subst, ◌∙◌, ◌↔◌, Bool, true, not, ◌||◌, ◌&&◌, List, [], ◌∷◌, ◌++◌,
  leb, ltb, str_eq, any, if◌then◌else◌,
}
use kemi.Prelude.Int.{ℤ}
use kemi.Prelude.Sums.{sum_by_ext}
use kemi.Prelude.Perms.{sum_by-perm, any-perm, all-perm}
use kemi.Json.{Value}
use kemi.Crypto.{Primitives}
use kemi.Result.{ok, is_ok, >>=-eq-ok, ok_of_is_ok}
use kemi.Ledger.{Tx, Base, Ledger, txs, same_slot, judge, enter}
use kemi.Ledger.Queries.{
  is_counted, received, sent, incoming, outgoing, balance, total_earned, slot_count, double_spent,
  is_flagged,
}
use kemi.Ledger.Gossip.{receive, claim, claims, receive-Absorbs, receive-cons, Kept-enter}
use kemi.Ledger.Absorb.{IsInjective, absorb-perm}

-- ------------------------------------------------------------ the queries and the order of rows

module _ {ts us : List Tx} (p : Permᴰ ts us) where
  is_counted-perm : (t : Tx) → is_counted ts t ≡ is_counted us t
  unfolding is_counted
  is_counted-perm t = all-perm (λ s. not (same_slot s t) || leb t.tx_id s.tx_id) p

  incoming-perm : (n : String) → incoming ts n ≡ incoming us n
  unfolding incoming
  incoming-perm n =
      sum_by_ext (received ts n) (received us n) ts (λ t. rw (is_counted-perm t) refl)
      ∙ sum_by-perm (received us n) p

  outgoing-perm : (n : String) → outgoing ts n ≡ outgoing us n
  unfolding outgoing
  outgoing-perm n =
      sum_by_ext (sent ts n) (sent us n) ts (λ t. rw (is_counted-perm t) refl)
      ∙ sum_by-perm (sent us n) p

  slot_count-perm : (t : Tx) → slot_count ts t ≡ slot_count us t
  unfolding slot_count
  slot_count-perm t = sum_by-perm (λ s. if same_slot s t then 1 else 0) p

  double_spent-perm : (n : String) → double_spent ts n ≡ double_spent us n
  unfolding double_spent
  double_spent-perm n =
      ap (λ (f : Tx → Bool). any f ts)
        (fun_ext (λ t. ap (λ k. str_eq t.sender n && ltb 1 k) (slot_count-perm t)))
      ∙ any-perm (λ t. str_eq t.sender n && ltb 1 (slot_count us t)) p

-- what two replicas report of a node
pub record Agree (a b : Ledger) (n : String) : Type 0 where
  pub same_balance : balance a n ≡ balance b n
  pub same_earned : total_earned a n ≡ total_earned b n
  pub same_flag : is_flagged a n ≡ is_flagged b n

balance-perm :
    (a b : Ledger) (n : String)
    → a.base ≡ b.base
    → Permᴰ (txs a) (txs b)
    → balance a n ≡ balance b n
unfolding balance
balance-perm a b n eb p = rw (eb, incoming-perm p n, outgoing-perm p n) refl

Agree-perm :
    (a b : Ledger) (n : String)
    → a.base ≡ b.base
    → a.flagged_base ≡ b.flagged_base
    → Permᴰ (txs a) (txs b)
    → Agree a b n
unfolding total_earned is_flagged
Agree-perm a b n eb ef p = record {
  same_balance = balance-perm a b n eb p;
  same_earned = rw (eb, incoming-perm p n) refl;
  same_flag = rw (balance-perm a b n eb p, double_spent-perm p n, ef) refl;
}

Agree-prop : (a b : Ledger) (n : String) → IsProp (Agree a b n)
Agree-prop a b n = hlevel ℕ_set

-- ------------------------------------------------------------ the same envelopes

module _ (p : Primitives) (now : ℤ) (base : List (String × Base)) (difficulty : ℕ) where
  abbrev claims_of : List Value → List Tx
  claims_of = claims p now base difficulty

  claims_of_mem :
      (t : Tx) (e : Value) (es : List Value)
      → Mem e es
      → Mem t (claim (judge p now base difficulty e))
      → Mem t (claims_of es)
  unfolding claims
  claims_of_mem t e [] m k = absurd (not-mem-nil m)
  claims_of_mem t e (f ∷ es) m k =
      Or.elim Mem-prop (mem-cons.0 m)
        (λ q.
          mem-append_left (claims_of es)
            (subst (λ v. Mem t (claim (judge p now base difficulty v))) q k))
        (λ q. mem-append_right (claim (judge p now base difficulty f)) (claims_of_mem t e es q k))

  claims-subset :
      (t : Tx) (es us : List Value)
      → ((e : Value) → Mem e es → Mem e us)
      → Mem t (claims_of es)
      → Mem t (claims_of us)
  unfolding claims
  claims-subset t [] us sub m = absurd (not-mem-nil m)
  claims-subset t (e ∷ es) us sub m =
      Or.elim Mem-prop (mem-append.0 m) (claims_of_mem t e us (sub e mem-cons_self))
        (claims-subset t es us (λ f h. sub f (mem-cons_of_mem e h)))

  -- the checks raise on none of the envelopes of a loop that ends
  is_ok_of_receive :
      (e : Value) (l : Ledger) (es : List Value) {a : Ledger}
      → l.base ≡ base
      → l.difficulty ≡ difficulty
      → receive p now l es ≡ ok a
      → Mem e es
      → is_ok (judge p now base difficulty e) ≡ true
  is_ok_of_receive e l [] b d h m = absurd (not-mem-nil m)
  is_ok_of_receive e l (f ∷ es) b d h m =
      let run = sym (receive-cons p now base difficulty l f es b d) ∙ h in
      let (v, q, k) = >>=-eq-ok (judge p now base difficulty f) _ run in
      let left = Kept-enter l f v in
      Or.elim bool_path (mem-cons.0 m) (λ x. rw (x, q) refl)
        (is_ok_of_receive e (enter l f v).1 es (left.base ∙ b) (left.difficulty ∙ d) k)
    where
      bool_path : IsProp (is_ok (judge p now base difficulty e) ≡ true)
      bool_path = hlevel

  receive_total :
      (l : Ledger) (es : List Value)
      → l.base ≡ base
      → l.difficulty ≡ difficulty
      → ((e : Value) → Mem e es → is_ok (judge p now base difficulty e) ≡ true)
      → (a : Ledger) × (receive p now l es ≡ ok a)
  unfolding receive
  receive_total l [] b d h = (l, refl)
  receive_total l (e ∷ es) b d h =
      let (v, q) = ok_of_is_ok (judge p now base difficulty e) (h e mem-cons_self) in
      let left = Kept-enter l e v in
      let (a, run) =
        receive_total (enter l e v).1 es (left.base ∙ b) (left.difficulty ∙ d)
          (λ f m. h f (mem-cons_of_mem e m)) in
      (a, receive-cons p now base difficulty l e es b d ∙ rw q run)

-- Two replicas that start alike, with no transfer twice in the table, and receive the same envelopes
-- at one time, in any order and any number of times each, end in agreement about every node: if the
-- one loop ends, so does the other. No two of the transfers in play have one id.
pub receive_converges :
    (p : Primitives) (now : ℤ) (l : Ledger) (es us : List Value) {a : Ledger}
    → Nodup (txs l)
    → IsInjective (txs l ++ claims p now l.base l.difficulty es)
    → ((e : Value) → Mem e es ↔ Mem e us)
    → receive p now l es ≡ ok a
    → (b : Ledger) × (receive p now l us ≡ ok b) × ((n : String) → Agree a b n)
receive_converges p now l es us {a} d inj same ha =
    let (b, hb) =
      receive_total p now l.base l.difficulty l us refl refl
        (λ e m. is_ok_of_receive p now l.base l.difficulty e l es refl refl ha ((same e).1 m)) in
    let x = receive-Absorbs p now l.base l.difficulty l es refl refl ha in
    let y = receive-Absorbs p now l.base l.difficulty l us refl refl hb in
    let perm : Perm (txs a) (txs b) =
      (let cs = claims p now l.base l.difficulty es in
        let ds = claims p now l.base l.difficulty us in
        rw (x.rows, y.rows)
          (absorb-perm (txs l) cs ds
            (λ t. (
              claims-subset p now l.base l.difficulty t es us (λ e. (same e).0),
              claims-subset p now l.base l.difficulty t us es (λ e. (same e).1),
            ))
            inj d)) in
    (
      b,
      hb,
      λ n.
          ∥∥₁_elim perm (Agree-prop a b n)
            (Agree-perm a b n (x.base ∙ sym y.base) (x.flagged_base ∙ sym y.flagged_base)),
    )
