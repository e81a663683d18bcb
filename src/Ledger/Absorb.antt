-- ===== src/Ledger/Absorb.antt =====
-- The duplicate test of add_tx over a run of transfers: which of them the table holds afterwards.
use mathlib.Core.List.{
  Mem, mem-append, mem-cons, mem-cons_self, mem-cons_of_mem, mem-append_left, mem-append_right,
  not-mem-nil, Nodup, Nodup-append, Nodup-cons, Nodup-nil, Mem-prop,
}
use mathlib.Core.List.{Perm, perm_ext_iff_of_Nodup}
use mathlib.Core.Logic.{◌∨₁◌, ∨₁_prop}
use mathlib.Core.Logic.Or
use mathlib.Core.HLevel.{⊥_prop}
use kemi.Prelude.{
  ◌≡◌, refl, Bool, true, List, [], ◌∷◌, ◌++◌, arith, ◌==◌, ==_iff, if◌then◌else◌, any, Bool-cases,
  inl, inr, subst, ◌↔◌,
}
use kemi.Ledger.{Tx}
use kemi.Ledger.Gossip.{absorb}

-- the member at which a test passes
pub any-witness {ℓ} :
    {A : Type ℓ} (f : A → Bool) (xs : List A) → any f xs ≡ true → (x : A) × Mem x xs × (f x ≡ true)
any-witness f [] h = cc
any-witness f (x ∷ xs) h = elim (Bool-cases (f x)) [
  | inl here ↦ (x, mem-cons_self, here)
  | inr other ↦ let (y, m, q) = any-witness f xs (ground arith) in (y, mem-cons_of_mem x m, q)
]

pub any_of_mem {ℓ} :
    {A : Type ℓ} (f : A → Bool) {x : A} (xs : List A) → Mem x xs → f x ≡ true → any f xs ≡ true
any_of_mem f [] m h = absurd (not-mem-nil m)
any_of_mem f {x} (y ∷ ys) m h =
    Or.elim bool_path (mem-cons.0 m) (λ (e : x ≡ y). ground arith)
      (λ m'. let r = any_of_mem f ys m' h in ground arith)
  where
    bool_path : IsProp (any f (y ∷ ys) ≡ true)
    bool_path = hlevel

-- the ids of the transfers in play tell them apart
abbrev pub IsInjective : List Tx → Type 0
IsInjective u = (a b : Tx) → Mem a u → Mem b u → a.tx_id ≡ b.tx_id → a ≡ b

abbrev next : List Tx → Tx → List Tx
next ts c = if any (λ (s : Tx). s.tx_id == c.tx_id) ts then ts else ts ++ c ∷ []

mem_next : (t c : Tx) (ts : List Tx) → Mem t ts → Mem t (next ts c)
mem_next t c ts m = elim (Bool-cases (any (λ (s : Tx). s.tx_id == c.tx_id) ts)) [
  | inl old ↦ rw old m
  | inr fresh ↦ rw fresh (mem-append_left (c ∷ []) m)
]

mem_of_next : (t c : Tx) (ts : List Tx) → Mem t (next ts c) → Mem t ts ∨₁ Mem t (c ∷ [])
mem_of_next t c ts m = elim (Bool-cases (any (λ (s : Tx). s.tx_id == c.tx_id) ts)) [
  | inl old ↦ Or.inl (rw old at m)
  | inr fresh ↦ mem-append.0 (rw fresh at m)
]

-- nothing is dropped, and nothing is made up
pub absorb_keeps : (t : Tx) (ts cs : List Tx) → Mem t ts → Mem t (absorb ts cs)
unfolding absorb
absorb_keeps t ts [] m = m
absorb_keeps t ts (c ∷ cs) m = absorb_keeps t (next ts c) cs (mem_next t c ts m)

pub mem_of_absorb : (t : Tx) (ts cs : List Tx) → Mem t (absorb ts cs) → Mem t ts ∨₁ Mem t cs
unfolding absorb
mem_of_absorb t ts [] m = Or.inl m
mem_of_absorb t ts (c ∷ cs) m =
    Or.elim ∨₁_prop (mem_of_absorb t (next ts c) cs m)
      (λ k. Or.elim ∨₁_prop (mem_of_next t c ts k) Or.inl (λ e. Or.inr (mem-append_left cs e)))
      (λ k. Or.inr (mem-cons_of_mem c k))

module _ (u : List Tx) (inj : IsInjective u) where
  mem_next_self :
      (c : Tx) (ts : List Tx) → ((t : Tx) → Mem t ts → Mem t u) → Mem c u → Mem c (next ts c)
  mem_next_self c ts within m = elim (Bool-cases (any (λ (s : Tx). s.tx_id == c.tx_id) ts)) [
    | inl old ↦
        let (s, ms, same) = any-witness (λ (s : Tx). s.tx_id == c.tx_id) ts old in
        rw old
          (subst (λ x. Mem x ts) (inj s c (within s ms) m ((==_iff s.tx_id c.tx_id).0 same)) ms)
    | inr fresh ↦ rw fresh (mem-append_right ts mem-cons_self)
  ]

  next_within :
      (c : Tx) (ts : List Tx)
      → ((t : Tx) → Mem t ts → Mem t u)
      → Mem c u
      → (t : Tx) → Mem t (next ts c)
      → Mem t u
  next_within c ts within m t k =
      Or.elim Mem-prop (mem_of_next t c ts k) (within t)
        (λ h. Or.elim Mem-prop (mem-cons.0 h) (λ e. rw e m) (λ n. absurd (not-mem-nil n)))

  pub absorb_gains :
      (t : Tx) (ts cs : List Tx)
      → ((s : Tx) → Mem s ts → Mem s u)
      → ((s : Tx) → Mem s cs → Mem s u)
      → Mem t cs
      → Mem t (absorb ts cs)
  unfolding absorb
  absorb_gains t ts [] wt wc m = absurd (not-mem-nil m)
  absorb_gains t ts (c ∷ cs) wt wc m =
      Or.elim Mem-prop (mem-cons.0 m)
        (λ e. absorb_keeps t (next ts c) cs (rw e (mem_next_self c ts wt (wc c mem-cons_self))))
        (λ k.
          absorb_gains t (next ts c) cs (next_within c ts wt (wc c mem-cons_self))
            (λ s h. wc s (mem-cons_of_mem c h)) k)

-- no transfer stands in the table twice
pub Nodup-absorb : (ts cs : List Tx) → Nodup ts → Nodup (absorb ts cs)
unfolding absorb
Nodup-absorb ts [] d = d
Nodup-absorb ts (c ∷ cs) d =
    Nodup-absorb (next ts c) cs (elim (Bool-cases (any (λ (s : Tx). s.tx_id == c.tx_id) ts)) [
      | inl old ↦ rw old d
      | inr fresh ↦ rw fresh (
          Nodup-append.1 (
            d,
            Nodup-cons.1 (not-mem-nil, Nodup-nil),
            λ a m k.
                Or.elim ⊥_prop (mem-cons.0 k)
                  (λ e.
                    let hit =
                      any_of_mem (λ (s : Tx). s.tx_id == c.tx_id) ts m
                        (rw e ((==_iff c.tx_id c.tx_id).1 refl)) in
                    cc (hit, fresh))
                  not-mem-nil,
          ))
    ])

-- The table holds the same transfers, once each, after two runs with the same members.
module _ (ts cs ds : List Tx) (same : (t : Tx) → Mem t cs ↔ Mem t ds)
    (inj : IsInjective (ts ++ cs)) where
  mem_absorb_transfer : (t : Tx) → Mem t (absorb ts cs) → Mem t (absorb ts ds)
  mem_absorb_transfer t m = Or.elim Mem-prop (mem_of_absorb t ts cs m) (absorb_keeps t ts ds) (λ k.
      absorb_gains (ts ++ cs) inj t ts ds (λ s h. mem-append_left cs h)
        (λ s h. mem-append_right ts ((same s).1 h)) ((same t).0 k))

  mem_absorb_back : (t : Tx) → Mem t (absorb ts ds) → Mem t (absorb ts cs)
  mem_absorb_back t m = Or.elim Mem-prop (mem_of_absorb t ts ds m) (absorb_keeps t ts cs) (λ k.
      absorb_gains (ts ++ cs) inj t ts cs (λ s h. mem-append_left cs h)
        (λ s h. mem-append_right ts h) ((same t).1 k))

  pub absorb-perm : Nodup ts → Perm (absorb ts cs) (absorb ts ds)
  absorb-perm d =
      (perm_ext_iff_of_Nodup (Nodup-absorb ts cs d) (Nodup-absorb ts ds d)).1
        (λ t. (mem_absorb_transfer t, mem_absorb_back t))
