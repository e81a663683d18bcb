-- ===== src/Node/Pull/Caught.antt =====
-- A pull from a peer that answers as _dispatch does: it brings all that the peer has.
use mathlib.Core.List.{map-append}
use kemi.Prelude.{
  ℕ, zero, suc, ◌+◌, ◌*◌, ◌≤◌, ◌≡◌, refl, sym, ap, ◌∙◌, Bool, true, false, Option, some, List, [],
  ◌∷◌, ◌++◌, arith, map, keep, take, length, if◌then◌else◌, Bool-cases, inl, inr, ◌⊎◌,
}
use kemi.Prelude.Int.{ℤ, pos}
use kemi.Json.{end, field, Value, Fields, int, arr, get, of_list, to_list}
use kemi.Crypto.{Primitives}
use kemi.Ledger.{Row, Ledger, add_tx}
use kemi.Ledger.Gossip.{receive}
use kemi.Ledger.Tables.{IsValid}
use kemi.Ledger.Replication.{rows_after, txs_after}
use kemi.Ledger.Pulling.{after, next_cursor, pull_splits, shorter, nil_of_length}
use kemi.Dht.Contacts.{iterate}
use kemi.Node.{truthy, is_object}
use kemi.Protocol.{ok_reply}
use kemi.Result.{ok, ◌>>=◌, >>=-eq-ok, ok-injective, Result-cases}
use kemi.Node.Pull.{
  page_size, PeerAddress, Pulled, set_cursor, cursor_at, is_fresh, take_txs, pull_rounds, pull_from,
  on_ledger_pull, pull_message,
}

to_list-of_list : (vs : List Value) → to_list (of_list vs) ≡ vs
unfolding to_list of_list
to_list-of_list [] = refl
to_list-of_list (v ∷ vs) = ap (λ ws. v ∷ ws) (to_list-of_list vs)

keep-append : (q : Value → Bool) (xs ys : List Value) → keep q (xs ++ ys) ≡ keep q xs ++ keep q ys
keep-append q [] ys = refl
keep-append q (x ∷ xs) ys = elim (Bool-cases (q x)) [
  | inl in_it ↦ rw in_it (ap (λ zs. x ∷ zs) (keep-append q xs ys))
  | inr out ↦ rw out (keep-append q xs ys)
]

List-cases : (xs : List Value) → (xs ≡ []) ⊎ ((y : Value) × (ys : List Value) × (xs ≡ y ∷ ys))
List-cases [] = inl refl
List-cases (y ∷ ys) = inr (y, ys, refl)

module _ (p : Primitives) (now : ℤ) where
  receive-append :
      (xs ys : List Value) (l : Ledger)
      → receive p now l (xs ++ ys) ≡ (receive p now l xs >>= (λ m. receive p now m ys))
  unfolding receive
  receive-append [] ys l = refl
  receive-append (x ∷ xs) ys l = elim (Result-cases (add_tx p now l x)) [
    | inl (e, bad) ↦ rw bad refl
    | inr ((s, m), added) ↦ rw added (receive-append xs ys m)
  ]

  module _ (to_int : Value → Option ℤ) where
    take_txs-receive :
        (es : List Value) (count : ℕ) (l m : Ledger)
        → receive p now l (keep is_object es) ≡ ok m
        → (j : ℕ) × (take_txs p to_int now count l es ≡ ok (j, m))
    unfolding receive take_txs
    take_txs-receive [] count l m h = (count, ap (λ n. ok (count, n)) (ok-injective h))
    take_txs-receive (e ∷ es) count l m h = elim (Bool-cases (is_object e)) [
      | inr other ↦
          (let (j, done) = take_txs-receive es count l m (rw other at h) in (j, rw other done))
      | inl object ↦
          (let ((s, l'), added, rest) = >>=-eq-ok (add_tx p now l e) _ (rw object at h) in
            let (j, done) =
              take_txs-receive es (if is_fresh s then count + 1 else count) l' m rest in
            (j, rw (object, added) done))
    ]

module _ (p : Primitives) (now : ℤ) (to_int : Value → Option ℤ)
    (reads : (z : ℤ) → to_int (int z) ≡ some z) (peer : PeerAddress) (l : Ledger)
    (v : IsValid l) where
  abbrev pub honest : ℕ → ℤ → Option Fields
  honest k cursor = some (on_ledger_pull p to_int l (pull_message cursor))

  abbrev page : ℕ → List Value
  page c = map (λ (r : Row). r.envelope) (rows_after l c page_size)

  abbrev beyond : ℕ → List Value
  beyond c = map (λ (r : Row). r.envelope) (after c l.rows)

  abbrev next : ℕ → ℕ
  next = next_cursor l v page_size

  pull-reply :
      (c : ℕ)
      → on_ledger_pull p to_int l (pull_message (pos c))
        ≡ ok_reply (field "txs" (arr (of_list (page c))) (field "cursor" (int (pos (next c))) end))
  unfolding on_ledger_pull get txs_after
  pull-reply c = rw (reads (pos c), on_ledger_pull) refl

  abbrev after_page : ℕ → ℕ → Ledger → Pulled → Pulled
  after_page c j m s = record {
    count = j;
    replica = m;
    cursors = set_cursor peer (pos (next c)) s.cursors;
  }

  -- the round that asks from cursor c
  pull_round :
      (k c j : ℕ) (s : Pulled) (m : Ledger)
      → take_txs p to_int now s.count s.replica (page c) ≡ ok (j, m)
      → pull_rounds p to_int honest now peer (suc k) (pos c) s
        ≡ elim (truthy (arr (of_list (page c)))) [
          | false ↦ ok (after_page c j m s)
          | true ↦ pull_rounds p to_int honest now peer k (pos (next c)) (after_page c j m s)
        ]
  unfolding pull_rounds get ok_reply iterate truthy
  pull_round k c j s m taken =
      rw (pull-reply c, to_list-of_list (page c), taken, reads (pos (next c))) refl

  nothing_beyond : (c : ℕ) → page c ≡ [] → after c l.rows ≡ []
  unfolding rows_after
  nothing_beyond c none_left = empty (after c l.rows) none_left
    where
      empty : (rs : List Row) → map (λ (r : Row). r.envelope) (take page_size rs) ≡ [] → rs ≡ []
      empty [] h = refl
      empty (r ∷ rs) h = cc

  page_then_beyond : (c : ℕ) → beyond c ≡ page c ++ beyond (next c)
  page_then_beyond c =
      ap (map (λ (r : Row). r.envelope)) (sym (pull_splits l v page_size c))
      ∙ map-append (λ (r : Row). r.envelope) (rows_after l c page_size) (after (next c) l.rows)

  -- the transfers beyond a cursor, taken in a page and the rest
  split_receive :
      (c : ℕ) (m n : Ledger)
      → receive p now m (keep is_object (beyond c)) ≡ ok n
      → (m' : Ledger) × (receive p now m (keep is_object (page c)) ≡ ok m')
        × (receive p now m' (keep is_object (beyond (next c))) ≡ ok n)
  split_receive c m n h =
      >>=-eq-ok (receive p now m (keep is_object (page c)))
        (λ m'. receive p now m' (keep is_object (beyond (next c))))
        (sym (receive-append p now (keep is_object (page c)) (keep is_object (beyond (next c))) m)
          ∙ (ap (receive p now m) (
                sym (
                  ap (keep is_object) (page_then_beyond c)
                  ∙ keep-append is_object (page c) (beyond (next c))))
              ∙ h))

  abbrev Caught : ℕ → ℕ → Pulled → Ledger → Type 0
  Caught k c s n =
      (done : Pulled) × (pull_rounds p to_int honest now peer (suc k) (pos c) s ≡ ok done)
      × (done.replica ≡ n)

  last_round :
      (k c : ℕ) (s : Pulled) (n : Ledger)
      → page c ≡ []
      → receive p now s.replica (keep is_object (beyond c)) ≡ ok n
      → Caught k c s n
  unfolding receive take_txs of_list truthy
  last_round k c s n empty h =
      let all = nothing_beyond c empty in
      let same : s.replica ≡ n = ok-injective (rw all at h) in
      (
        after_page c s.count s.replica s,
        pull_round k c s.count s s.replica (rw empty refl) ∙ (rw empty refl),
        same,
      )

  no_page : (c : ℕ) → after c l.rows ≡ [] → page c ≡ []
  unfolding rows_after
  no_page c none_left = rw none_left refl

  full_page :
      (c : ℕ) (x : Value) (xs : List Value)
      → page c ≡ x ∷ xs
      → truthy (arr (of_list (page c))) ≡ true
  unfolding truthy of_list
  full_page c x xs h = rw h refl

  pull_rounds-Caught :
      (k c : ℕ) (s : Pulled) (n : Ledger)
      → length (after c l.rows) ≤ k * page_size
      → receive p now s.replica (keep is_object (beyond c)) ≡ ok n
      → Caught k c s n
  pull_rounds-Caught zero c s n short h =
      last_round zero c s n (no_page c (nil_of_length _ (omega arith))) h
  pull_rounds-Caught (suc k) c s n short h = elim (List-cases (page c)) [
    | inl empty ↦ last_round (suc k) c s n empty h
    | inr (x, xs, full) ↦
        (let (m, taken, rest) = split_receive c s.replica n h in
          let (j, took) = take_txs-receive p now to_int (page c) s.count s.replica m taken in
          let (done, pulled, same) =
            pull_rounds-Caught k (next c) (after_page c j m s) n (shorter l v page_size k c short)
              rest in
          (done, pull_round (suc k) c j s m took ∙ (rw (full_page c x xs full) pulled), same))
  ]

  -- From a peer that answers as _dispatch does on a well-formed table, with at most 9500 transfers
  -- beyond the cursor kept for it, _pull_from ends, and leaves the replica that add_tx makes of these
  -- transfers, one after the other, where none of them makes it raise.
  pub pull_from-receive :
      (c : ℕ) (s : Pulled) (n : Ledger)
      → cursor_at peer s.cursors ≡ pos c
      → length (after c l.rows) ≤ 9500
      → receive p now s.replica (keep is_object (map (λ (r : Row). r.envelope) (after c l.rows)))
        ≡ ok n
      → (done : Pulled) × (pull_from p to_int honest now peer s ≡ ok done) × (done.replica ≡ n)
  unfolding pull_from
  pull_from-receive c s n at_c short h = rw at_c (pull_rounds-Caught 19 c s n short h)
