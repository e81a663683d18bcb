-- ===== src/Node/Pull.antt =====
-- kemi/node.py: the anti-entropy pull. _pull_from and sync_ledger on the side that asks, and the
-- answer to ledger.pull of _dispatch. The network is what a peer answers in each round; no answer is a
-- network error.
pub mod Caught
mod Tests
use kemi.Prelude.{
  ℕ, zero, suc, ◌+◌, String, Bool, true, false, not, ◌&&◌, Option, none, some, List, [], ◌∷◌, ◌++◌,
  any, map, or_else, str_eq, if◌then◌else◌,
}
use kemi.Prelude.Int.{ℤ, pos, pos_part, ltb_ℤ}
use kemi.Json.{Value, Fields, int, arr, nil, field, end, get, of_list, bool, str}
use kemi.Crypto.{Primitives}
use kemi.Ledger.{Ledger, Status, new, conflict, add_tx}
use kemi.Ledger.Replication.{txs_after}
use kemi.Dht.Contacts.{iterate}
use kemi.Node.{truthy, is_object}
use kemi.Protocol.{ok_reply, error_reply}
use kemi.Result.{Result, ok, raise, Error, value_error, ◌>>=◌}

-- the most envelopes that txs_after gives at once
abbrev pub page_size : ℕ
page_size = 500

-- the (host, port) of a peer
pub record PeerAddress : Type 0 where
  pub host : String
  pub port : ℤ

abbrev pub same_peer : PeerAddress → PeerAddress → Bool
same_peer a b = str_eq a.host b.host && (not (ltb_ℤ a.port b.port) && not (ltb_ℤ b.port a.port))

-- _gossip_cursors
abbrev pub Cursors : Type 0
Cursors = List (PeerAddress × ℤ)

unfoldable pub cursor_at : PeerAddress → Cursors → ℤ
cursor_at peer [] = pos 0
cursor_at peer ((a, c) ∷ m) = if same_peer a peer then c else cursor_at peer m

unfoldable pub set_cursor : PeerAddress → ℤ → Cursors → Cursors
set_cursor peer c [] = (peer, c) ∷ []
set_cursor peer c ((a, d) ∷ m) =
    if same_peer a peer then (a, c) ∷ m else (a, d) ∷ set_cursor peer c m

-- what a pull changes: the number of transfers it brought, the replica and the cursors
pub record Pulled : Type 0 where
  pub count : ℕ
  pub replica : Ledger
  pub cursors : Cursors

abbrev pub is_fresh : Status → Bool
is_fresh new = true
is_fresh conflict = true
is_fresh _ = false

abbrev pub int_or_raise : Option ℤ → Result ℤ
int_or_raise none = raise value_error
int_or_raise (some z) = ok z

-- to_int is int of Python, where none stands for a TypeError or a ValueError
module _ (p : Primitives) (to_int : Value → Option ℤ) where
  -- for envelope in txs
  unfoldable pub take_txs : ℤ → ℕ → Ledger → List Value → Result (ℕ × Ledger)
  take_txs now count l [] = ok (count, l)
  take_txs now count l (e ∷ es) =
      if is_object e
      then (add_tx p now l e
          >>= (λ (status, l'). take_txs now (if is_fresh status then count + 1 else count) l' es))
      else take_txs now count l es

  -- the rounds that are left, over what the peer answers to a cursor in a round
  unfoldable pub pull_rounds :
      (ℕ → ℤ → Option Fields) → ℤ → PeerAddress → ℕ → ℤ → Pulled → Result Pulled
  pull_rounds answer now peer zero cursor s = ok s
  pull_rounds answer now peer (suc k) cursor s = elim (answer k cursor) [
    | none ↦ ok s
    | some r ↦
        if not (truthy (or_else (get "ok" r) (bool false)))
        then ok s
        else (let txs = or_else (get "txs" r) (arr nil) in
            iterate txs >>= (λ items. take_txs now s.count s.replica items >>= (λ (count, l).
              int_or_raise (to_int (or_else (get "cursor" r) (int cursor))) >>= (λ cursor'.
                let s' : Pulled = record {
                  count = count;
                  replica = l;
                  cursors = set_cursor peer cursor' s.cursors;
                } in
                elim (truthy txs) [
                  | false ↦ ok s'
                  | true ↦ pull_rounds answer now peer k cursor' s'
                ]))))
  ]

  unfoldable pub pull_from : (ℕ → ℤ → Option Fields) → ℤ → PeerAddress → Pulled → Result Pulled
  pull_from answer now peer s = pull_rounds answer now peer 20 (cursor_at peer s.cursors) s

  -- for peer in dict.fromkeys(peers)
  unfoldable pub sync_peers :
      (PeerAddress → ℕ → ℤ → Option Fields)
      → ℤ
      → List PeerAddress
      → List PeerAddress
      → Pulled
      → Result Pulled
  sync_peers network now asked [] s = ok s
  sync_peers network now asked (peer ∷ peers) s =
      if any (same_peer peer) asked
      then sync_peers network now asked peers s
      else (pull_from (network peer) now peer s
          >>= (λ s'. sync_peers network now (asked ++ peer ∷ []) peers s'))

  -- bootstrap peers first, then the contacts of the routing table
  unfoldable pub sync_ledger :
      (PeerAddress → ℕ → ℤ → Option Fields)
      → ℤ
      → List PeerAddress
      → List PeerAddress
      → Ledger
      → Cursors
      → Result Pulled
  sync_ledger network now bootstrap contacts l cursors =
      sync_peers network now [] (bootstrap ++ contacts)
        (record { count = 0; replica = l; cursors = cursors })

  -- the answer of _dispatch to ledger.pull, for a cursor below 2 ^ 63, which sqlite3 binds
  unfoldable pub on_ledger_pull : Ledger → Fields → Fields
  on_ledger_pull l message = elim (to_int (or_else (get "cursor" message) (int (pos 0)))) [
    | none ↦ error_reply "bad_request" "cursor must be an integer"
    | some cursor ↦
        (let (txs, cursor') = txs_after l (pos_part cursor) page_size in
          ok_reply (field "txs" (arr (of_list txs)) (field "cursor" (int (pos cursor')) end)))
  ]

abbrev pub pull_message : ℤ → Fields
pull_message cursor = field "type" (str "ledger.pull") (field "cursor" (int cursor) end)
