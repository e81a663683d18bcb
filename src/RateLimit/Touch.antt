-- ===== src/RateLimit/Touch.antt =====
-- What _touch of IPGuard in ratelimit.py leaves of the counted connections.
use kemi.Prelude.{
  ℕ, String, ◌≡◌, refl, sym, ◌∙◌, ap, Bool, true, false, List, arith, leb, str_eq, eq_iff,
  if◌then◌else◌, Bool-cases, Option-cases, inl, inr, length,
}
use kemi.Prelude.Assoc.{find, upsert, find-upsert, DistinctKeys, upsert-DistinctKeys}
use kemi.RateLimit.{State, Guard, evict, fresh_state, touch, connections, connections_of}
use kemi.RateLimit.Evict.{evict_keeps, evict-DistinctKeys}

pub connections-upsert :
    (ip n : String) (s : State) (m : List (String × State))
    → connections_of (find n (upsert ip s m))
      ≡ (if str_eq ip n then s.connections else connections_of (find n m))
connections-upsert ip n s m = rw (find-upsert ip n s m) (ground arith)

-- an entry with the count that the table had
pub upsert_keeps :
    (ip n : String) (s : State) (m : List (String × State))
    → s.connections ≡ connections_of (find ip m)
    → connections_of (find n (upsert ip s m)) ≡ connections_of (find n m)
upsert_keeps ip n s m h = connections-upsert ip n s m ∙ (elim (Bool-cases (str_eq ip n)) [
  | inl same ↦ rw same (h ∙ ap (λ x. connections_of (find x m)) ((eq_iff ip n).0 same))
  | inr other ↦ rw other refl
])

pub record IsTouched (g : Guard) (ip : String) (s : State) (g' : Guard) : Type 0 where
  pub same_count : s.connections ≡ connections g ip
  pub others : (n : String) → connections g' n ≡ connections g n
  pub distinct : DistinctKeys g'.ips
  pub limit : g'.max_concurrent ≡ g.max_concurrent

pub touch-IsTouched :
    (now : ℕ) (g : Guard) (ip : String)
    → DistinctKeys g.ips
    → IsTouched g ip (touch now g ip).0 (touch now g ip).1
unfolding connections touch
touch-IsTouched now g ip d = elim (Option-cases (find ip g.ips)) [
  | inl gone ↦
      let kept = if leb g.max_tracked (length g.ips) then evict g.ips else g.ips in
      let (same, e) = kept_lem (leb g.max_tracked (length g.ips)) in
      rw (gone, touch)
        (record {
          same_count = unfold fresh_state in rw gone refl;
          others = λ n.
              upsert_keeps ip n (fresh_state now g) kept
                (unfold fresh_state in sym (same ip ∙ ap connections_of gone))
              ∙ same n;
          distinct = upsert-DistinctKeys ip (fresh_state now g) kept e;
          limit = refl;
        })
  | inr (s, found) ↦
      rw (found, touch)
        (record {
          same_count = rw found refl;
          others = λ n. upsert_keeps ip n (record s { last_seen = now }) g.ips (rw found refl);
          distinct = upsert-DistinctKeys ip (record s { last_seen = now }) g.ips d;
          limit = refl;
        })
]
  where
    kept_lem :
        (b : Bool)
        → ((n : String)
            → connections_of (find n (if b then evict g.ips else g.ips))
              ≡ connections_of (find n g.ips))
          × DistinctKeys (if b then evict g.ips else g.ips)
    kept_lem true = (λ n. evict_keeps g.ips n d, evict-DistinctKeys g.ips d)
    kept_lem false = (λ n. refl, d)
