-- ===== src/Prelude/Assoc.antt =====
-- Tables with a primary key and dictionaries, as lists of pairs.
use kemi.Prelude.{
  ◌≡◌, refl, String, Bool, false, Option, none, some, List, [], ◌∷◌, arith, str_eq, if◌then◌else◌,
  eq_iff, is_some, str_eq_sym, Bool-cases, inl, inr, ◌||◌, ◌∙◌, ◌+◌, length, All, subst,
}

-- SELECT … WHERE key = ?
unfoldable pub find {ℓ} : {V : Type ℓ} → String → List (String × V) → Option V
find k [] = none
find k ((j, v) ∷ m) = if str_eq j k then some v else find k m

-- INSERT … ON CONFLICT(key) DO UPDATE
unfoldable pub upsert {ℓ} : {V : Type ℓ} → String → V → List (String × V) → List (String × V)
upsert k v [] = (k, v) ∷ []
upsert k v ((j, w) ∷ m) = if str_eq j k then (j, v) ∷ m else (j, w) ∷ upsert k v m

pub find-upsert {ℓ} :
    {V : Type ℓ} (k n : String) (v : V) (m : List (String × V))
    → find n (upsert k v m) ≡ (if str_eq k n then some v else find n m)
unfolding find upsert
find-upsert k n v [] = refl
find-upsert k n v ((j, w) ∷ m) =
    ground (arith, eq_iff j k, eq_iff j n, eq_iff k n, find-upsert k n v m)

-- UPDATE of every row
unfoldable pub map_values {ℓ κ} :
    {V : Type ℓ} {W : Type κ} → (V → W) → List (String × V) → List (String × W)
map_values f [] = []
map_values f ((k, v) ∷ m) = (k, f v) ∷ map_values f m

-- DELETE … WHERE key = ?
unfoldable pub remove {ℓ} : {V : Type ℓ} → String → List (String × V) → List (String × V)
remove k [] = []
remove k ((j, v) ∷ m) = let rest = remove k m in if str_eq j k then rest else (j, v) ∷ rest

abbrev pub map_option {ℓ κ} : {V : Type ℓ} {W : Type κ} → (V → W) → Option V → Option W
map_option f none = none
map_option f (some v) = some (f v)

pub find-map_values {ℓ} :
    {V W : Type ℓ} (f : V → W) (n : String) (m : List (String × V))
    → find n (map_values f m) ≡ map_option f (find n m)
unfolding find map_values
find-map_values f n [] = refl
find-map_values f n ((k, v) ∷ m) = ground (arith, find-map_values f n m)

pub find-remove {ℓ} :
    {V : Type ℓ} (k n : String) (m : List (String × V))
    → find n (remove k m) ≡ (if str_eq k n then none else find n m)
unfolding find remove
find-remove k n [] = ground arith
find-remove k n ((j, v) ∷ m) = ground (arith, eq_iff j k, eq_iff j n, eq_iff k n, find-remove k n m)

-- ------------------------------------------------------------ keys

abbrev pub has_key {ℓ} : {V : Type ℓ} → String → List (String × V) → Bool
has_key k m = is_some (find k m)

-- a dictionary has each key once
abbrev pub DistinctKeys {ℓ} : {V : Type ℓ} → List (String × V) → Type 0
DistinctKeys [] = Unit {0}
DistinctKeys ((k, v) ∷ m) = (has_key k m ≡ false) × DistinctKeys m

module _ {ℓ} {V : Type ℓ} where
  pub has_key-upsert :
      (k n : String) (v : V) (m : List (String × V))
      → has_key n (upsert k v m) ≡ (str_eq k n || has_key n m)
  has_key-upsert k n v m = rw (find-upsert k n v m) (ground arith)

  has_key-remove :
      (k n : String) (m : List (String × V)) → has_key n m ≡ false → has_key n (remove k m) ≡ false
  has_key-remove k n m h = rw (find-remove k n m) (ground arith)

  pub upsert-DistinctKeys :
      (k : String) (v : V) (m : List (String × V)) → DistinctKeys m → DistinctKeys (upsert k v m)
  unfolding upsert find
  upsert-DistinctKeys k v [] d = (refl, tt)
  upsert-DistinctKeys k v ((j, w) ∷ m) d = elim (Bool-cases (str_eq j k)) [
    | inl same ↦ rw same d
    | inr other ↦ rw other (
      has_key-upsert k j v m ∙ (rw (str_eq_sym k j, other, d.0) refl),
      upsert-DistinctKeys k v m d.1,
    )
  ]

  pub remove-DistinctKeys :
      (k : String) (m : List (String × V)) → DistinctKeys m → DistinctKeys (remove k m)
  unfolding remove
  remove-DistinctKeys k [] d = tt
  remove-DistinctKeys k ((j, w) ∷ m) d = elim (Bool-cases (str_eq j k)) [
    | inl same ↦ rw same (remove-DistinctKeys k m d.1)
    | inr other ↦ rw other (has_key-remove k j m d.0, remove-DistinctKeys k m d.1)
  ]

  pub length-upsert :
      (k : String) (v : V) (m : List (String × V))
      → length (upsert k v m) ≡ (if has_key k m then length m else length m + 1)
  unfolding upsert find
  length-upsert k v [] = refl
  length-upsert k v ((j, w) ∷ m) = ground (arith, length-upsert k v m)

  module _ {κ} (P : String × V → Type κ) where
    pub All-upsert :
        (k : String) (v : V) (m : List (String × V))
        → ((j : String) → P (j, v))
        → All P m
        → All P (upsert k v m)
    unfolding upsert
    All-upsert k v [] h hs = (h k, tt)
    All-upsert k v ((j, w) ∷ m) h hs = elim (Bool-cases (str_eq j k)) [
      | inl same ↦ rw same (h j, hs.1)
      | inr other ↦ rw other (hs.0, All-upsert k v m h hs.1)
    ]

    pub find-All :
        (k : String) (v : V) (m : List (String × V))
        → find k m ≡ some v
        → All P m
        → (j : String) × P (j, v)
    unfolding find
    find-All k v [] h hs = cc
    find-All k v ((j, w) ∷ m) h hs = elim (Bool-cases (str_eq j k)) [
      | inl same ↦ (j, subst (λ x. P (j, x)) (value_is (rw same at h)) hs.0)
      | inr other ↦ find-All k v m (rw other at h) hs.1
    ]
      where
        value_is : ◌≡◌ {A = Option V} (some w) (some v) → w ≡ v
        value_is q = cc
