-- ===== src/Economy/Supply.antt =====
-- simulate of economy.py and the sum of the balances.
use kemi.Prelude.{
  ℕ, zero, suc, ◌+◌, ◌-◌, ◌*◌, ◌≤◌, ◌<◌, ◌≡◌, refl, ◌∙◌, ap, List, [], ◌∷◌, arith, leb, leb→le,
  ◌==◌, length, All, Bool-cases, inl, inr,
}
use kemi.Prelude.Sums.{sum_by}
use kemi.Ledger.{genesis_credits}
use kemi.Economy.{Economy, minted, start, balance_at, update, pay, round, simulate}

abbrev pub supply : List ℕ → ℕ
supply = sum_by (λ (b : ℕ). b)

-- both indices of a draw are those of an identity
abbrev pub IsDrawn : ℕ → ℕ × ℕ → Type 0
IsDrawn identities (consumer, provider) = (consumer < identities) × (provider < identities)

length-update : (i : ℕ) (f : ℕ → ℕ) (bs : List ℕ) → length (update i f bs) ≡ length bs
unfolding update
length-update i f [] = refl
length-update zero f (b ∷ bs) = refl
length-update (suc i) f (b ∷ bs) = ap suc (length-update i f bs)

supply-gain :
    (i price : ℕ) (bs : List ℕ)
    → i < length bs
    → supply (update i (λ b. b + price) bs) ≡ supply bs + price
unfolding update
supply-gain i price [] h = absurd (omega arith)
supply-gain zero price (b ∷ bs) h = omega arith
supply-gain (suc i) price (b ∷ bs) h =
    let rest = supply-gain i price bs (omega arith) in omega arith

supply-loss :
    (i price : ℕ) (bs : List ℕ)
    → price ≤ balance_at bs i
    → supply (update i (λ b. b - price) bs) + price ≡ supply bs
unfolding update
supply-loss i price [] h = omega arith
supply-loss zero price (b ∷ bs) h = omega arith
supply-loss (suc i) price (b ∷ bs) h = let rest = supply-loss i price bs h in omega arith

-- what a round keeps
record IsConserved (e f : Economy) : Type 0 where
  same_supply : supply f.balances ≡ supply e.balances
  same_length : length f.balances ≡ length e.balances

round-IsConserved :
    (price : ℕ) (e : Economy) (consumer provider : ℕ)
    → provider < length e.balances
    → IsConserved e (round price e (consumer, provider))
unfolding round pay
round-IsConserved price e consumer provider h = elim (Bool-cases (provider == consumer)) [
  | inl self ↦ rw (self, round) (record { same_supply = refl; same_length = refl })
  | inr other ↦ elim (Bool-cases (leb price (balance_at e.balances consumer))) [
    | inr poor ↦ rw (other, poor, round) (record { same_supply = refl; same_length = refl })
    | inl rich ↦
        rw (other, rich, round)
          (let kept = length-update consumer (λ b. b - price) e.balances in
            record {
              same_supply =
                  (let gain =
                      supply-gain provider price (update consumer (λ b. b - price) e.balances)
                        (omega arith) in
                    let loss =
                      supply-loss consumer price e.balances
                        (leb→le price (balance_at e.balances consumer) rich) in
                    omega arith);
              same_length =
                  length-update provider (λ b. b + price)
                    (update consumer (λ b. b - price) e.balances)
                  ∙ kept;
            })
  ]
]

simulate_keeps :
    (price n : ℕ) (e : Economy) (draws : List (ℕ × ℕ))
    → length e.balances ≡ n
    → All (IsDrawn n) draws
    → supply (simulate price e draws).balances ≡ supply e.balances
unfolding simulate
simulate_keeps price n e [] l h = refl
simulate_keeps price n e ((consumer, provider) ∷ draws) l h =
    let step = round-IsConserved price e consumer provider (let inside = h.0.1 in omega arith) in
    simulate_keeps price n (round price e (consumer, provider)) draws (step.same_length ∙ l) h.1
    ∙ step.same_supply

minted_lem : (n : ℕ) → (length (minted n) ≡ n) × (supply (minted n) ≡ n * genesis_credits)
minted_lem zero = (refl, refl)
minted_lem (suc n) = let (l, s) = minted_lem n in (ap suc l, omega arith)

-- Whatever is drawn, the simulated supply stays at the genesis credits of all identities.
pub simulate-supply :
    (price identities : ℕ) (draws : List (ℕ × ℕ))
    → All (IsDrawn identities) draws
    → supply (simulate price (start identities) draws).balances ≡ identities * genesis_credits
unfolding start
simulate-supply price identities draws h =
    let (l, s) = minted_lem identities in
    simulate_keeps price identities (start identities) draws l h ∙ s
