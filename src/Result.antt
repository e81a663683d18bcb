-- ===== src/Result.antt =====
-- A call that may raise: the exceptions that the modelled code raises or lets through.
use kemi.Prelude.{◌≡◌, ◌⊎◌, inl, inr, refl, Bool, true, false}

pub data Error : Type 0 where
  type_error value_error key_error overflow_error zero_division_error : Error
  binding_error e2e_error attribute_error job_error invite_error protocol_error
        incomplete_read_error task_error :
      Error

pub data Result {ℓ} (A : Type ℓ) : Type ℓ where
  ok : A → Result A
  raise : Error → Result A

infixl 5 ◌>>=◌
abbrev pub ◌>>=◌ {ℓ κ} : {X : Type ℓ} {Y : Type κ} → Result X → (X → Result Y) → Result Y
ok x >>= next = next x
raise e >>= next = raise e

-- a chain that ends well had a value at its first step
pub >>=-eq-ok {ℓ κ} :
    {X : Type ℓ} {Y : Type κ} (first : Result X) (next : X → Result Y) {y : Y}
    → first >>= next ≡ ok y
    → (x : X) × (first ≡ ok x) × (next x ≡ ok y)
>>=-eq-ok (ok x) next chain = (x, refl, chain)
>>=-eq-ok (raise e) next chain = cc

pub ok-injective {ℓ} : {A : Type ℓ} {a b : A} → ok a ≡ ok b → a ≡ b
ok-injective h = cc

-- what is true of `m`, pure or raised, and goes on in `f` is true of the joined chain
pub bind_map {ℓ} :
    {A B C : Type ℓ} (m : Result A) (g : A → B) (f : B → Result C)
    → ((m >>= (λ a. ok (g a))) >>= f) ≡ (m >>= (λ a. f (g a)))
bind_map (ok a) g f = refl
bind_map (raise e) g f = refl

abbrev pub is_ok {ℓ} : {A : Type ℓ} → Result A → Bool
is_ok (ok a) = true
is_ok (raise e) = false

pub is_ok_of_bind {ℓ κ} :
    {X : Type ℓ} {Y : Type κ} (first : Result X) (next : X → Result Y) {y : Y}
    → first >>= next ≡ ok y
    → is_ok first ≡ true
is_ok_of_bind (ok a) f h = refl
is_ok_of_bind (raise e) f h = cc

pub ok_of_is_ok {ℓ} : {A : Type ℓ} (m : Result A) → is_ok m ≡ true → (a : A) × (m ≡ ok a)
ok_of_is_ok (ok a) h = (a, refl)
ok_of_is_ok (raise e) h = cc

-- a split that keeps the equation
pub Result-cases {ℓ} :
    {A : Type ℓ} (m : Result A) → ((e : Error) × (m ≡ raise e)) ⊎ ((a : A) × (m ≡ ok a))
Result-cases (ok a) = inr (a, refl)
Result-cases (raise e) = inl (e, refl)
