-- ===== src/RateLimit/Evict.antt =====
-- _evict of ratelimit.py and the counts of connections.
use kemi.Prelude.{
  ℕ, zero, suc, ◌/◌, max, String, ◌≡◌, refl, sym, ◌∙◌, ap, true, false, List, [], ◌∷◌, ◌==◌, str_eq,
  str_eq_self, ==_iff, eq_iff, Bool-cases, inl, inr, All, take, length,
}
use kemi.Prelude.Assoc.{find, remove, find-remove, has_key, DistinctKeys, remove-DistinctKeys}
use kemi.RateLimit.{State, insert_seen, seen_le, idle, remove_all, evict, connections_of}

abbrev Idle : List (String × State) → ℕ × String → Type 0
Idle m (seen, ip) = connections_of (find ip m) ≡ 0

abbrev Listed : List (String × State) → ℕ × String → Type 0
Listed m (seen, ip) = (has_key ip m ≡ true) × Idle m (seen, ip)

module _ {κ} (P : ℕ × String → Type κ) where
  All-insert_seen :
      (q : ℕ × String) (qs : List (ℕ × String)) → P q → All P qs → All P (insert_seen q qs)
  unfolding insert_seen
  All-insert_seen q [] h hs = (h, tt)
  All-insert_seen (s, i) ((t, j) ∷ qs) h hs = elim (Bool-cases (seen_le (s, i) (t, j))) [
    | inl x ↦ rw x (h, hs)
    | inr x ↦ rw x (hs.0, All-insert_seen (s, i) qs h hs.1)
  ]

  All-take : (n : ℕ) (qs : List (ℕ × String)) → All P qs → All P (take n qs)
  All-take zero qs h = tt
  All-take (suc n) [] h = tt
  All-take (suc n) (q ∷ qs) h = (h.0, All-take n qs h.1)

module _ (ip : String) (s : State) (m : List (String × State)) where
  Listed-later : (q : ℕ × String) → has_key ip m ≡ false → Listed m q → Listed ((ip, s) ∷ m) q
  unfolding find
  Listed-later (seen, n) fresh h = elim (Bool-cases (str_eq ip n)) [
    | inl same ↦
        let clash = (eq_iff ip n).0 same in cc (sym h.0 ∙ ap (λ x. has_key x m) (sym clash) ∙ fresh)
    | inr other ↦ rw other h
  ]

  All-later :
      (qs : List (ℕ × String))
      → has_key ip m ≡ false
      → All (Listed m) qs
      → All (Listed ((ip, s) ∷ m)) qs
  All-later [] fresh h = tt
  All-later (q ∷ qs) fresh h = (Listed-later q fresh h.0, All-later qs fresh h.1)

  Listed-here : (seen : ℕ) → s.connections ≡ 0 → Listed ((ip, s) ∷ m) (seen, ip)
  unfolding find
  Listed-here seen none_open = rw (str_eq_self ip) (refl, none_open)

idle-Listed : (m : List (String × State)) → DistinctKeys m → All (Listed m) (idle m)
unfolding idle
idle-Listed [] d = tt
idle-Listed ((ip, s) ∷ m) d =
    let rest = All-later ip s m (idle m) d.0 (idle-Listed m d.1) in
    elim (Bool-cases (s.connections == 0)) [
      | inl free ↦ rw free (
          All-insert_seen (Listed ((ip, s) ∷ m)) (s.last_seen, ip) (idle m)
            (Listed-here ip s m s.last_seen ((==_iff s.connections 0).0 free)) rest)
      | inr busy ↦ rw busy rest
    ]

-- removing idle addresses changes no count
Idle-remove :
    (ip n : String) (m : List (String × State))
    → connections_of (find ip m) ≡ 0
    → connections_of (find n (remove ip m)) ≡ connections_of (find n m)
Idle-remove ip n m h = elim (Bool-cases (str_eq ip n)) [
  | inl same ↦
      rw (find-remove ip n m, same)
        (sym h ∙ ap (λ x. connections_of (find x m)) ((eq_iff ip n).0 same))
  | inr other ↦ rw (find-remove ip n m, other) refl
]

remove_all_keeps :
    (qs : List (ℕ × String)) (m : List (String × State)) (n : String)
    → All (Idle m) qs
    → connections_of (find n (remove_all qs m)) ≡ connections_of (find n m)
unfolding remove_all
remove_all_keeps [] m n h = refl
remove_all_keeps ((seen, ip) ∷ qs) m n h =
    remove_all_keeps qs (remove ip m) n (All-remove qs h.1) ∙ Idle-remove ip n m h.0
  where
    All-remove : (rs : List (ℕ × String)) → All (Idle m) rs → All (Idle (remove ip m)) rs
    All-remove [] hs = tt
    All-remove ((later, k) ∷ rs) hs = (Idle-remove ip k m h.0 ∙ hs.0, All-remove rs hs.1)

Idle-of_Listed :
    (m : List (String × State)) (qs : List (ℕ × String)) → All (Listed m) qs → All (Idle m) qs
Idle-of_Listed m [] h = tt
Idle-of_Listed m ((seen, ip) ∷ qs) h = (h.0.1, Idle-of_Listed m qs h.1)

pub evict_keeps :
    (m : List (String × State)) (n : String)
    → DistinctKeys m
    → connections_of (find n (evict m)) ≡ connections_of (find n m)
unfolding evict
evict_keeps m n d = remove_all_keeps (take (max 1 (length (idle m) / 4)) (idle m)) m n (
    All-take (Idle m) (max 1 (length (idle m) / 4)) (idle m)
      (Idle-of_Listed m (idle m) (idle-Listed m d)))

pub evict-DistinctKeys : (m : List (String × State)) → DistinctKeys m → DistinctKeys (evict m)
unfolding evict remove_all
evict-DistinctKeys m d = go (take (max 1 (length (idle m) / 4)) (idle m)) m d
  where
    go :
        (qs : List (ℕ × String)) (ns : List (String × State))
        → DistinctKeys ns
        → DistinctKeys (remove_all qs ns)
    go [] ns e = e
    go ((seen, ip) ∷ qs) ns e = go qs (remove ip ns) (remove-DistinctKeys ip ns e)
