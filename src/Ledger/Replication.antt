-- ===== src/Ledger/Replication.antt =====
-- kemi/gossip_ledger.py: the anti-entropy pull.
use kemi.Prelude.{ℕ, List, [], ◌∷◌, map, ltb, keep, take}
use kemi.Json.{Value}
use kemi.Ledger.{Row, Ledger}

-- WHERE rowid > ? ORDER BY rowid LIMIT ?
unfoldable pub rows_after : Ledger → ℕ → ℕ → List Row
rows_after l cursor limit = take limit (keep (λ (r : Row). ltb cursor r.rowid) l.rows)

-- rows[-1][0], or the cursor where there are no rows
unfoldable pub last_id : ℕ → List Row → ℕ
last_id cursor [] = cursor
last_id cursor (r ∷ rs) = last_id r.rowid rs

unfoldable pub txs_after : Ledger → ℕ → ℕ → List Value × ℕ
unfolding rows_after last_id
txs_after l cursor limit =
    let found = rows_after l cursor limit in
    (map (λ (r : Row). r.envelope) found, last_id cursor found)
