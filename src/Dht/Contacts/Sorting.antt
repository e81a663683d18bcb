-- ===== src/Dht/Contacts/Sorting.antt =====
-- The stable sort of contacts by their keys, and the first ones of a sorted list.
use kemi.Prelude.{
  ℕ, zero, suc, String, ◌≡◌, ◌⊎◌, inl, inr, refl, ap, ◌∙◌, Bool, true, ◌||◌, List, [], ◌∷◌, arith,
  take, length, any, All, str_eq, Bool-cases,
}
use kemi.Prelude.Int.{ℤ, ltb_ℤ, ◌≤ℤ◌}
use kemi.Dht.Contacts.{Contact, insert_keyed, sort_keyed}

abbrev pub Entry : Type 0
Entry = ℤ × Contact

abbrev pub of_id : String → Entry → Bool
of_id id e = str_eq e.1.node_id id

abbrev pub Sorted : List Entry → Type 0
Sorted [] = Unit {0}
Sorted (x ∷ xs) = All (λ (y : Entry). x.0 ≤ℤ y.0) xs × Sorted xs

pub any-insert_keyed :
    (f : Entry → Bool) (x : Entry) (ys : List Entry) → any f (insert_keyed x ys) ≡ (f x || any f ys)
unfolding insert_keyed
any-insert_keyed f x [] = refl
any-insert_keyed f x (y ∷ ys) = ground (arith, any-insert_keyed f x ys)

pub any-sort_keyed : (f : Entry → Bool) (xs : List Entry) → any f (sort_keyed xs) ≡ any f xs
unfolding sort_keyed
any-sort_keyed f [] = refl
any-sort_keyed f (x ∷ xs) =
    any-insert_keyed f x (sort_keyed xs) ∙ ap (◌||◌ (f x)) (any-sort_keyed f xs)

pub All-insert_keyed {κ} :
    (P : Entry → Type κ) (x : Entry) (ys : List Entry) → P x → All P ys → All P (insert_keyed x ys)
unfolding insert_keyed
All-insert_keyed P x [] p h = (p, tt)
All-insert_keyed P x (y ∷ ys) p (h, hs) = elim (Bool-cases (ltb_ℤ y.0 x.0)) [
  | inl less ↦ rw less (h, All-insert_keyed P x ys p hs)
  | inr more ↦ rw more (p, (h, hs))
]

pub All-sort_keyed {κ} : (P : Entry → Type κ) (xs : List Entry) → All P xs → All P (sort_keyed xs)
unfolding sort_keyed
All-sort_keyed P [] h = tt
All-sort_keyed P (x ∷ xs) h = All-insert_keyed P x (sort_keyed xs) h.0 (All-sort_keyed P xs h.1)

pub All-weaken {ℓ κ} :
    {A : Type ℓ} (P Q : A → Type κ) (xs : List A) → ((x : A) → P x → Q x) → All P xs → All Q xs
All-weaken P Q [] f h = tt
All-weaken P Q (x ∷ xs) f h = (f x h.0, All-weaken P Q xs f h.1)

pub insert_keyed-Sorted : (x : Entry) (ys : List Entry) → Sorted ys → Sorted (insert_keyed x ys)
unfolding insert_keyed
insert_keyed-Sorted x [] h = (tt, tt)
insert_keyed-Sorted x (y ∷ ys) (h, hs) = elim (Bool-cases (ltb_ℤ y.0 x.0)) [
  | inl less ↦ rw less (
    All-insert_keyed (λ (z : Entry). y.0 ≤ℤ z.0) x ys (ground arith) h,
    insert_keyed-Sorted x ys hs,
  )
  | inr more ↦ rw more (
    (
      ground arith,
      All-weaken (λ (z : Entry). y.0 ≤ℤ z.0) (λ (z : Entry). x.0 ≤ℤ z.0) ys
          (λ z le. trans_le z le (ground arith)) h,
    ),
    (h, hs),
  )
]
  where
    trans_le : (z : Entry) → y.0 ≤ℤ z.0 → x.0 ≤ℤ y.0 → x.0 ≤ℤ z.0
    trans_le z a b = omega arith

pub sort_keyed-Sorted : (xs : List Entry) → Sorted (sort_keyed xs)
unfolding sort_keyed
sort_keyed-Sorted [] = tt
sort_keyed-Sorted (x ∷ xs) = insert_keyed-Sorted x (sort_keyed xs) (sort_keyed-Sorted xs)

pub length-insert_keyed :
    (x : Entry) (ys : List Entry) → length (insert_keyed x ys) ≡ suc (length ys)
unfolding insert_keyed
length-insert_keyed x [] = refl
length-insert_keyed x (y ∷ ys) = ground (arith, length-insert_keyed x ys)

pub length-sort_keyed : (xs : List Entry) → length (sort_keyed xs) ≡ length xs
unfolding sort_keyed
length-sort_keyed [] = refl
length-sort_keyed (x ∷ xs) =
    omega (arith, length-insert_keyed x (sort_keyed xs), length-sort_keyed xs)

-- what is not among the first n is no nearer than any of them, and there are n of them
abbrev pub Beyond : ℕ → (Entry → Bool) → (Entry → Type 0) → List Entry → Type 0
Beyond n f P xs =
    (e : Entry) × (f e ≡ true)
    × P e
    × (length (take n xs) ≡ n)
    × All (λ (y : Entry). y.0 ≤ℤ e.0) (take n xs)

pub first_of_any :
    (f : Entry → Bool) (P : Entry → Type 0) (xs : List Entry)
    → any f xs ≡ true
    → All P xs
    → (e : Entry) × (f e ≡ true) × P e × ((Q : Entry → Type 0) → All Q xs → Q e)
first_of_any f P [] h hp = cc
first_of_any f P (x ∷ xs) h (p, hp) = elim (Bool-cases (f x)) [
  | inl here ↦ (x, here, p, λ Q hq. hq.0)
  | inr away ↦
      let (e, fe, pe, all) = first_of_any f P xs (rw away at h) hp in
      (e, fe, pe, λ Q hq. all Q hq.1)
]

pub All-both {ℓ κ ι} :
    {A : Type ℓ} (P : A → Type κ) (Q : A → Type ι) (xs : List A)
    → All P xs
    → All Q xs
    → All (λ x. P x × Q x) xs
All-both P Q [] h g = tt
All-both P Q (x ∷ xs) (h, hs) (g, gs) = ((h, g), All-both P Q xs hs gs)

pub any-take :
    (f : Entry → Bool) (n : ℕ) (xs : List Entry) (P : Entry → Type 0)
    → Sorted xs
    → All P xs
    → any f xs ≡ true
    → (any f (take n xs) ≡ true) ⊎ Beyond n f P xs
any-take f zero xs P s hp h =
    let (e, fe, pe, _) = first_of_any f P xs h hp in inr (e, fe, pe, refl, tt)
any-take f (suc n) [] P s hp h = cc
any-take f (suc n) (x ∷ xs) P (sx, s) (p, hp) h = elim (Bool-cases (f x)) [
  | inl here ↦ inl (rw here refl)
  | inr away ↦
      elim (any-take f n xs (λ (y : Entry). P y × (x.0 ≤ℤ y.0)) s (All-both P _ xs hp sx)
        (rw away at h)) [
          | inl found ↦ inl (rw away found)
          | inr (e, fe, pe, full, near) ↦
              inr (e, fe, pe.0, ap (λ (k : ℕ). suc k) full, (pe.1, near))
        ]
]
