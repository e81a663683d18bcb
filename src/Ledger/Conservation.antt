-- ===== src/Ledger/Conservation.antt =====
-- The balances of gossip_ledger.py, summed over the accounts.
use kemi.Prelude.{
  ℕ, ◌*◌, String, ◌≡◌, refl, Bool, ◌&&◌, List, [], ◌∷◌, arith, str_eq, if◌then◌else◌, All,
}
use kemi.Prelude.Int.{ℤ, pos, ◌+ℤ◌, int_laws, parts_of_eq}
use kemi.Prelude.Sums.{sum_by, sum_by_swap}
use kemi.Ledger.{Tx, Ledger, txs, base_row}
use kemi.Ledger.Queries.{is_counted, received, sent, incoming, outgoing, balance}

abbrev pub sum_ℤ : (String → ℤ) → List String → ℤ
sum_ℤ f [] = pos 0
sum_ℤ f (n ∷ ns) = f n +ℤ sum_ℤ f ns

-- how often a node stands in a list of accounts
abbrev pub occurrences : String → List String → ℕ
occurrences s ns = sum_by (λ n. if str_eq s n then 1 else 0) ns

-- both parties of a transfer are listed, once each
abbrev pub IsListed : List String → Tx → Type 0
IsListed ns t = (occurrences t.sender ns ≡ 1) × (occurrences t.recipient ns ≡ 1)

share_total :
    (c : Bool) (s : String) (a : ℕ) (ns : List String)
    → sum_by (λ n. if c && str_eq s n then a else 0) ns ≡ (if c then occurrences s ns * a else 0)
share_total c s a [] = ground arith
share_total c s a (n ∷ ns) = ground (arith, share_total c s a ns)

abbrev counted_amount : List Tx → Tx → ℕ
counted_amount ts t = if is_counted ts t then t.amount else 0

-- what all listed nodes receive is what the counted transfers carry, and so is what they send
module _ (us : List Tx) (ns : List String) where
  received_total :
      (ts : List Tx)
      → All (IsListed ns) ts
      → sum_by (λ t. sum_by (λ n. received us n t) ns) ts ≡ sum_by (counted_amount us) ts
  received_total [] h = refl
  received_total (t ∷ ts) h =
      ground
        (arith, share_total (is_counted us t) t.recipient t.amount ns, received_total ts h.1, h.0.1)

  sent_total :
      (ts : List Tx)
      → All (IsListed ns) ts
      → sum_by (λ t. sum_by (λ n. sent us n t) ns) ts ≡ sum_by (counted_amount us) ts
  sent_total [] h = refl
  sent_total (t ∷ ts) h =
      ground (arith, share_total (is_counted us t) t.sender t.amount ns, sent_total ts h.1, h.0.0)

incoming-eq-outgoing :
    (ts : List Tx) (ns : List String)
    → All (IsListed ns) ts
    → sum_by (incoming ts) ns ≡ sum_by (outgoing ts) ns
unfolding incoming outgoing
incoming-eq-outgoing ts ns h = omega (
  arith,
  sum_by_swap (λ n t. received ts n t) ns ts,
  sum_by_swap (λ n t. sent ts n t) ns ts,
  received_total ts ns ts h,
  sent_total ts ns ts h,
)

balance_sum :
    (l : Ledger) (ns : List String)
    → sum_ℤ (balance l) ns +ℤ pos (sum_by (outgoing (txs l)) ns)
      ≡ sum_ℤ (λ n. (base_row l.base n).balance) ns +ℤ pos (sum_by (incoming (txs l)) ns)
unfolding balance
balance_sum l [] = refl
balance_sum l (n ∷ ns) = omega (int_laws, parts_of_eq (balance_sum l ns))

-- Over a list of accounts that names both parties of every transfer once, the balances add up to
-- what the baseline gives these accounts.
pub supply-eq-baseline :
    (l : Ledger) (ns : List String)
    → All (IsListed ns) (txs l)
    → sum_ℤ (balance l) ns ≡ sum_ℤ (λ n. (base_row l.base n).balance) ns
supply-eq-baseline l ns h =
    omega (int_laws, parts_of_eq (balance_sum l ns), incoming-eq-outgoing (txs l) ns h)
