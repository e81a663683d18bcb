-- ===== src/Economy.antt =====
-- kemi/economy.py: simulate, over the pairs (consumer, provider) that the random generator draws.
-- Credits are in millionths.
pub mod Supply
mod Tests
use kemi.Prelude.{
  ℕ, zero, suc, ◌+◌, ◌-◌, Bool, true, false, List, [], ◌∷◌, leb, ltb, ◌==◌, get_elem?, or_else,
  if◌then◌else◌,
}
use kemi.Ledger.{genesis_credits}

pub record Economy : Type 0 where
  pub balances : List ℕ
  pub drained : ℕ

abbrev pub minted : ℕ → List ℕ
minted zero = []
minted (suc n) = genesis_credits ∷ minted n

unfoldable pub start : ℕ → Economy
start identities = record { balances = minted identities; drained = 0 }

-- balances[i]: an index that is drawn is in range
abbrev pub balance_at : List ℕ → ℕ → ℕ
balance_at balances i = or_else (get_elem? balances i) 0

-- balances[i] = f(balances[i])
unfoldable pub update : ℕ → (ℕ → ℕ) → List ℕ → List ℕ
update i f [] = []
update zero f (b ∷ bs) = f b ∷ bs
update (suc i) f (b ∷ bs) = b ∷ update i f bs

unfoldable pub pay : ℕ → ℕ → ℕ → List ℕ → List ℕ
pay price consumer provider balances =
    update provider (λ b. b + price) (update consumer (λ b. b - price) balances)

-- the balances after a payment, and the count of consumers that it drains
abbrev pub paid : ℕ → ℕ → Economy → List ℕ → Economy
paid price consumer e balances = record {
  balances = balances;
  drained = e.drained + (if ltb (balance_at balances consumer) price then 1 else 0);
}

-- one round of the loop
unfoldable pub round : ℕ → Economy → ℕ × ℕ → Economy
round price e (consumer, provider) =
    if provider == consumer
    then e
    else if leb price (balance_at e.balances consumer)
    then paid price consumer e (pay price consumer provider e.balances)
    else e

unfoldable pub simulate : ℕ → Economy → List (ℕ × ℕ) → Economy
simulate price e [] = e
simulate price e (draw ∷ draws) = simulate price (round price e draw) draws
