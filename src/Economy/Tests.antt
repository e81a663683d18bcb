-- ===== src/Economy/Tests.antt =====
-- A small economy: the supply after four draws, one of which pairs a node with itself.
use kemi.Prelude.{◌*◌, ◌≡◌, refl, [], ◌∷◌}
use kemi.Ledger.{genesis_credits}
use kemi.Economy.{start, simulate, round, pay, update}
use kemi.Economy.Supply.{supply}

supply_of_three :
    supply (simulate 60_000_000 (start 3) ((0, 1) ∷ (0, 1) ∷ (2, 2) ∷ (1, 0) ∷ [])).balances
    ≡ 3 * genesis_credits
unfolding simulate round start pay update
supply_of_three = refl
