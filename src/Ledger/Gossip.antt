-- ===== src/Ledger/Gossip.antt =====
-- The loop of PeerNode._pull_from over the transfers of one reply, and what it leaves in the table.
use mathlib.Core.List.{map-append}
use kemi.Prelude.{
  sym, subst, ◌∙◌, ℕ, String, ◌≡◌, refl, ap, Bool, List, [], ◌∷◌, ◌++◌, arith, ◌==◌, if◌then◌else◌,
  any, Bool-cases, inl, inr,
}
use kemi.Prelude.Int.{ℤ}
use kemi.Json.{Value}
use kemi.Crypto.{Primitives}
use kemi.Result.{Result, ok, raise, ◌>>=◌, ok-injective, bind_map}
use kemi.Ledger.{
  Tx, Row, Base, Ledger, Verdict, refuse, admit, txs, judge, enter, store, insert, add_tx,
}

-- the rows that the duplicate test lets in, one after the other
unfoldable pub absorb : List Tx → List Tx → List Tx
absorb ts [] = ts
absorb ts (c ∷ cs) =
    absorb (if any (λ (s : Tx). s.tx_id == c.tx_id) ts then ts else ts ++ c ∷ []) cs

abbrev pub claim : Result Verdict → List Tx
claim (ok (admit t)) = t ∷ []
claim (ok (refuse s)) = []
claim (raise x) = []

module _ (p : Primitives) where
  -- for envelope in txs: self.ledger.add_tx(envelope)
  unfoldable pub receive : ℤ → Ledger → List Value → Result Ledger
  receive now l [] = ok l
  receive now l (e ∷ es) = do (status, l') ← add_tx p now l e; receive now l' es

  -- the transfers of the envelopes that the checks admit
  unfoldable pub claims : ℤ → List (String × Base) → ℕ → List Value → List Tx
  claims now base difficulty [] = []
  claims now base difficulty (e ∷ es) =
      claim (judge p now base difficulty e) ++ claims now base difficulty es

pub txs-insert : (l : Ledger) (t : Tx) (e : Value) → txs (insert l t e) ≡ txs l ++ t ∷ []
unfolding insert
txs-insert l t e = map-append (λ (r : Row). r.tx) l.rows _

-- what a loop of add_tx does to a ledger: it absorbs some transfers, and leaves the rest alone
pub record Absorbs (l : Ledger) (cs : List Tx) (a : Ledger) : Type 0 where
  pub rows : txs a ≡ absorb (txs l) cs
  pub base : a.base ≡ l.base
  pub flagged_base : a.flagged_base ≡ l.flagged_base
  pub difficulty : a.difficulty ≡ l.difficulty
  pub reserved : a.reserved ≡ l.reserved

Absorbs-nil : (l : Ledger) → Absorbs l [] l
unfolding absorb
Absorbs-nil l = record {
  rows = refl;
  base = refl;
  flagged_base = refl;
  difficulty = refl;
  reserved = refl;
}

abbrev pub tx_known : Ledger → Tx → Bool
tx_known l t = any (λ (s : Tx). s.tx_id == t.tx_id) (txs l)

pub txs-store :
    (l : Ledger) (t : Tx) (e : Value)
    → txs (store l t e).1 ≡ (if tx_known l t then txs l else txs l ++ t ∷ [])
unfolding store
txs-store l t e = elim (Bool-cases (tx_known l t)) [
  | inl old ↦ rw (old, store) refl
  | inr fresh ↦ rw (fresh, store) (txs-insert l t e)
]

-- the fields that a write to the table txs leaves alone
pub record Kept (l a : Ledger) : Type 0 where
  pub base : a.base ≡ l.base
  pub flagged_base : a.flagged_base ≡ l.flagged_base
  pub difficulty : a.difficulty ≡ l.difficulty
  pub reserved : a.reserved ≡ l.reserved

Kept-refl : (l : Ledger) → Kept l l
Kept-refl l = record { base = refl; flagged_base = refl; difficulty = refl; reserved = refl }

pub Kept-store : (l : Ledger) (t : Tx) (e : Value) → Kept l (store l t e).1
unfolding store insert
Kept-store l t e = ground arith

Absorbs-store :
    (l : Ledger) (t : Tx) (e : Value) (cs : List Tx) {a : Ledger}
    → Absorbs (store l t e).1 cs a
    → Absorbs l (t ∷ cs) a
unfolding absorb
Absorbs-store l t e cs h =
    let k = Kept-store l t e in
    record {
      rows = h.rows ∙ ap (λ ts. absorb ts cs) (txs-store l t e);
      base = h.base ∙ k.base;
      flagged_base = h.flagged_base ∙ k.flagged_base;
      difficulty = h.difficulty ∙ k.difficulty;
      reserved = h.reserved ∙ k.reserved;
    }

pub Kept-enter : (l : Ledger) (e : Value) (v : Verdict) → Kept l (enter l e v).1
unfolding enter
Kept-enter l e (refuse s) = Kept-refl l
Kept-enter l e (admit t) = Kept-store l t e

-- one round of the loop, by what the checks said
verdict-Absorbs :
    (l : Ledger) (e : Value) (cs : List Tx) (rest : Ledger → Result Ledger) (a : Ledger)
    → ((m : Ledger) → Kept l m → rest m ≡ ok a → Absorbs m cs a)
    → (r : Result Verdict) → (r >>= (λ v. rest (enter l e v).1)) ≡ ok a
    → Absorbs l (claim r ++ cs) a
unfolding enter
verdict-Absorbs l e cs rest a ih (raise x) h = cc
verdict-Absorbs l e cs rest a ih (ok (refuse s)) h = ih l (Kept-refl l) h
verdict-Absorbs l e cs rest a ih (ok (admit t)) h =
    Absorbs-store l t e cs (ih (store l t e).1 (Kept-store l t e) h)

module _ (p : Primitives) (now : ℤ) (base : List (String × Base)) (difficulty : ℕ) where
  pub receive-cons :
      (l : Ledger) (e : Value) (es : List Value)
      → l.base ≡ base
      → l.difficulty ≡ difficulty
      → receive p now l (e ∷ es)
        ≡ (judge p now base difficulty e >>= (λ v. receive p now (enter l e v).1 es))
  unfolding receive add_tx
  receive-cons l e es b d =
      rw (← b, ← d) (bind_map (judge p now l.base l.difficulty e) (enter l e) _)

  -- the loop absorbs the transfers of the envelopes that the checks admit
  pub receive-Absorbs :
      (l : Ledger) (es : List Value) {a : Ledger}
      → l.base ≡ base
      → l.difficulty ≡ difficulty
      → receive p now l es ≡ ok a
      → Absorbs l (claims p now base difficulty es) a
  unfolding receive claims
  receive-Absorbs l [] b d h = subst (Absorbs l []) (ok-injective h) (Absorbs-nil l)
  receive-Absorbs l (e ∷ es) {a} b d h =
      verdict-Absorbs l e (claims p now base difficulty es) (λ m. receive p now m es) a
        (λ m k hm. receive-Absorbs m es (k.base ∙ b) (k.difficulty ∙ d) hm)
        (judge p now base difficulty e) (sym (receive-cons l e es b d) ∙ h)
