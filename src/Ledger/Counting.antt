-- ===== src/Ledger/Counting.antt =====
-- The view _COUNTED of gossip_ledger.py: which transfers of one (sender, seq) count.
pub mod OnePerSlot
use mathlib.Core.List.{Mem, Mem-prop, mem-cons, mem-cons_self, mem-cons_of_mem, not-mem-nil}
use mathlib.Core.Logic.Or
use native.Mathlib.Nat.{le_antisymm}
use native.Mathlib.Bridge.{le_prop}
use kemi.Prelude.{
  ℕ, ◌≤◌, String, ◌≡◌, refl, sym, ◌∙◌, ap, Bool, true, not, ◌&&◌, ◌||◌, List, [], ◌∷◌, arith, leb,
  ltb, str_eq, eq_iff, if◌then◌else◌, all, All, keep, ◌↔◌, Bool-cases, inl, inr,
}
use kemi.Ledger.{Tx, same_slot, max_seq}
use kemi.Ledger.Queries.{is_counted}

pub same_slot_lem : (a b : Tx) → same_slot a b ≡ true → (a.sender ≡ b.sender) × (a.seq ≡ b.seq)
same_slot_lem a b h = ground (arith, eq_iff a.sender b.sender)

pub same_slot_of_eq : (a b : Tx) → a.sender ≡ b.sender → a.seq ≡ b.seq → same_slot a b ≡ true
same_slot_of_eq a b h k = ground (arith, eq_iff a.sender b.sender)

pub all_of_mem {ℓ} :
    {A : Type ℓ} (f : A → Bool) {x : A} (xs : List A) → all f xs ≡ true → Mem x xs → f x ≡ true
all_of_mem f [] h m = absurd (not-mem-nil m)
all_of_mem f {x} (y ∷ ys) h m =
    Or.elim bool_path (mem-cons.0 m) (λ (e : x ≡ y). rw e (ground arith))
      (all_of_mem f ys (ground arith))
  where
    bool_path : IsProp (f x ≡ true)
    bool_path = hlevel

pub counted-le :
    (ts : List Tx) (a b : Tx)
    → is_counted ts a ≡ true
    → Mem b ts
    → same_slot b a ≡ true
    → a.tx_id ≤ b.tx_id
unfolding is_counted
counted-le ts a b h m same =
    let q = all_of_mem (λ s. not (same_slot s a) || leb a.tx_id s.tx_id) ts h m in ground arith

-- the transfer of w's slot with the smallest id, w included
lowest : Tx → List Tx → Tx
lowest w [] = w
lowest w (s ∷ ss) = lowest (if same_slot s w && ltb s.tx_id w.tx_id then s else w) ss

abbrev IsBelow : Tx → Tx → Type 0
IsBelow m w = (m.sender ≡ w.sender) × (m.seq ≡ w.seq) × (m.tx_id ≤ w.tx_id)

abbrev lower : Tx → Tx → Tx
lower s w = if same_slot s w && ltb s.tx_id w.tx_id then s else w

lower-IsBelow : (s w : Tx) → IsBelow (lower s w) w
lower-IsBelow s w = ground (arith, eq_iff s.sender w.sender)

lowest-IsBelow : (w : Tx) (ts : List Tx) → IsBelow (lowest w ts) w
unfolding lowest
lowest-IsBelow w [] = (refl, refl, omega arith)
lowest-IsBelow w (s ∷ ss) =
    let (a, b, c) = lowest-IsBelow (lower s w) ss in
    let (d, e, f) = lower-IsBelow s w in (a ∙ d, b ∙ e, omega arith)

lower-le : (s w : Tx) → s.sender ≡ w.sender → s.seq ≡ w.seq → (lower s w).tx_id ≤ s.tx_id
lower-le s w h k = ground (arith, same_slot_of_eq s w h k)

lowest-le :
    (w : Tx) (ts : List Tx)
    → All (λ s. s.sender ≡ w.sender → s.seq ≡ w.seq → (lowest w ts).tx_id ≤ s.tx_id) ts
unfolding lowest
lowest-le w [] = tt
lowest-le w (s ∷ ss) = (
  λ h k. let below = lowest-IsBelow (lower s w) ss in let near = lower-le s w h k in omega arith,
  widen (lowest (lower s w) ss) w (lower s w) ss (lower-IsBelow s w) (lowest-le (lower s w) ss),
)
  where
    widen :
        (m w v : Tx) (us : List Tx)
        → IsBelow v w
        → All (λ s. s.sender ≡ v.sender → s.seq ≡ v.seq → m.tx_id ≤ s.tx_id) us
        → All (λ s. s.sender ≡ w.sender → s.seq ≡ w.seq → m.tx_id ≤ s.tx_id) us
    widen m w v [] b h = tt
    widen m w v (u ∷ us) b h = ((λ x y. h.0 (x ∙ sym b.0) (y ∙ sym b.1)), widen m w v us b h.1)

all_of_All :
    (m w : Tx) (ts : List Tx)
    → IsBelow m w
    → All (λ s. s.sender ≡ w.sender → s.seq ≡ w.seq → m.tx_id ≤ s.tx_id) ts
    → all (λ s. not (same_slot s m) || leb m.tx_id s.tx_id) ts ≡ true
all_of_All m w [] b h = refl
all_of_All m w (s ∷ ss) b h = elim (Bool-cases (same_slot s m)) [
  | inl x ↦
      let (p, q) = same_slot_lem s m x in
      let le = h.0 (p ∙ b.0) (q ∙ b.1) in ground (arith, all_of_All m w ss b h.1)
  | inr x ↦ ground (arith, all_of_All m w ss b h.1)
]

mem-lowest :
    (w : Tx) (ts us : List Tx) → Mem w us → ((s : Tx) → Mem s ts → Mem s us) → Mem (lowest w ts) us
unfolding lowest
mem-lowest w [] us m sub = m
mem-lowest w (s ∷ ss) us m sub = elim (Bool-cases (same_slot s w && ltb s.tx_id w.tx_id)) [
  | inl x ↦ rw x (mem-lowest s ss us (sub s mem-cons_self) (λ r h. sub r (mem-cons_of_mem s h)))
  | inr x ↦ rw x (mem-lowest w ss us m (λ r h. sub r (mem-cons_of_mem s h)))
]

-- For every transfer of the table, some transfer of its (sender, seq) counts.
pub slot_has_counted :
    (ts : List Tx) (t : Tx)
    → Mem t ts
    → (s : Tx) × Mem s ts × (same_slot s t ≡ true) × (is_counted ts s ≡ true)
unfolding is_counted
slot_has_counted ts t m =
    let below = lowest-IsBelow t ts in
    (
      lowest t ts,
      mem-lowest t ts ts m (λ s h. h),
      same_slot_of_eq (lowest t ts) t below.0 below.1,
      all_of_All (lowest t ts) t ts below (lowest-le t ts),
    )

pub counted_unique :
    (ts : List Tx) (a b : Tx)
    → Mem a ts
    → Mem b ts
    → same_slot a b ≡ true
    → is_counted ts a ≡ true
    → is_counted ts b ≡ true
    → a.tx_id ≡ b.tx_id
counted_unique ts a b ma mb same ca cb =
    let (p, q) = same_slot_lem a b same in
    le_antisymm (counted-le ts a b ca mb (same_slot_of_eq b a (sym p) (sym q)))
      (counted-le ts b a cb ma same)

-- ------------------------------------------------------------ the last sequence number of a sender

pub le-max_seq :
    (n : String) (t : Tx) (ts : List Tx) → Mem t ts → t.sender ≡ n → t.seq ≤ max_seq n ts
unfolding max_seq
le-max_seq n t [] m e = absurd (not-mem-nil m)
le-max_seq n t (s ∷ ss) m e =
    Or.elim le_prop (mem-cons.0 m)
      (λ (q : t ≡ s).
        let here = (eq_iff s.sender n).1 (ap (λ (x : Tx). x.sender) (sym q) ∙ e) in
        let seqs = ap (λ (x : Tx). x.seq) q in ground arith)
      (λ k. let rest = le-max_seq n t ss k e in ground arith)

max_seq-le :
    (n : String) (bound : ℕ) (ts : List Tx)
    → ((t : Tx) → Mem t ts → t.sender ≡ n → t.seq ≤ bound)
    → max_seq n ts ≤ bound
unfolding max_seq
max_seq-le n bound [] h = omega arith
max_seq-le n bound (t ∷ ts) h =
    let rest = max_seq-le n bound ts (λ s m. h s (mem-cons_of_mem t m)) in
    let here = λ (q : str_eq t.sender n ≡ true). h t mem-cons_self ((eq_iff t.sender n).0 q) in
    elim (Bool-cases (str_eq t.sender n)) [
      | inl q ↦ let le = here q in ground arith
      | inr q ↦ ground arith
    ]

mem_keep : (p : Tx → Bool) (t : Tx) (ts : List Tx) → Mem t ts → p t ≡ true → Mem t (keep p ts)
mem_keep p t [] m h = absurd (not-mem-nil m)
mem_keep p t (s ∷ ss) m h =
    Or.elim Mem-prop (mem-cons.0 m) (λ (q : t ≡ s). rw (← q, h) mem-cons_self)
      (λ k.
        let rest = mem_keep p t ss k h in
        elim (Bool-cases (p s)) [ inl x ↦ rw x (mem-cons_of_mem s rest) | inr x ↦ rw x rest ])

mem_of_keep : (p : Tx → Bool) (t : Tx) (ts : List Tx) → Mem t (keep p ts) → Mem t ts
mem_of_keep p t [] m = m
mem_of_keep p t (s ∷ ss) m = elim (Bool-cases (p s)) [
  | inl x ↦
      Or.elim Mem-prop (mem-cons.0 (rw x at m)) (λ q. rw q mem-cons_self)
        (λ k. mem-cons_of_mem s (mem_of_keep p t ss k))
  | inr x ↦ mem-cons_of_mem s (mem_of_keep p t ss (rw x at m))
]

-- the counted transfers reach as far as all of them, in whatever order they are listed
pub max_seq-keep_counted :
    (n : String) (ts us : List Tx)
    → ((t : Tx) → Mem t ts ↔ Mem t us)
    → max_seq n (keep (is_counted ts) us) ≡ max_seq n ts
max_seq-keep_counted n ts us same =
    le_antisymm
      (max_seq-le n (max_seq n ts) (keep (is_counted ts) us)
        (λ t m e. le-max_seq n t ts ((same t).1 (mem_of_keep (is_counted ts) t us m)) e))
      (max_seq-le n (max_seq n (keep (is_counted ts) us)) ts (λ t m e.
        let (s, ms, slot, c) = slot_has_counted ts t m in
        let (p, q) = same_slot_lem s t slot in
        rw (← q) (
          le-max_seq n s (keep (is_counted ts) us) (mem_keep (is_counted ts) s us ((same s).0 ms) c)
            (p ∙ e))))
