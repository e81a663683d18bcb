-- ===== src/RateLimit/Connections.antt =====
-- The connections that IPGuard of ratelimit.py counts for an address.
use kemi.Prelude.{
  ℕ, ◌+◌, ◌-◌, ◌≤◌, String, ◌≡◌, refl, sym, ◌∙◌, ap, ap₂, true, false, List, [], ◌∷◌, arith, ltb,
  leb, str_eq, eq_iff, if◌then◌else◌, Bool-cases, Option-cases, inl, inr,
}
use kemi.Prelude.Assoc.{find, DistinctKeys, upsert-DistinctKeys}
use kemi.RateLimit.{
  Guard, touch, allow_request, try_connect, disconnect, connections, connections_of,
}
use kemi.RateLimit.Touch.{connections-upsert, upsert_keeps, touch-IsTouched}

pub data Call : Type 0 where
  request connect : ℕ → String → Call
  leave : String → Call

unfoldable pub step : Guard → Call → Guard
step g (request now ip) = (allow_request now g ip).1
step g (connect now ip) = (try_connect now g ip).1
step g (leave ip) = disconnect g ip

unfoldable pub run : Guard → List Call → Guard
run g [] = g
run g (c ∷ cs) = run (step g c) cs

-- the count that an address should have
abbrev pub count_step : String → ℕ → ℕ → Call → ℕ
count_step n limit count (request now ip) = count
count_step n limit count (connect now ip) =
    if str_eq ip n then (if leb limit count then count else count + 1) else count
count_step n limit count (leave ip) = if str_eq ip n then count - 1 else count

unfoldable pub count_run : String → ℕ → ℕ → List Call → ℕ
count_run n limit count [] = count
count_run n limit count (c ∷ cs) = count_run n limit (count_step n limit count c) cs

record IsCounted (g g' : Guard) (c : Call) : Type 0 where
  count_is : (n : String) → connections g' n ≡ count_step n g.max_concurrent (connections g n) c
  still_distinct : DistinctKeys g'.ips
  same_limit : g'.max_concurrent ≡ g.max_concurrent

request-IsCounted :
    (g : Guard) (now : ℕ) (ip : String)
    → DistinctKeys g.ips
    → IsCounted g (allow_request now g ip).1 (request now ip)
unfolding allow_request connections
request-IsCounted g now ip d =
    let t = touch-IsTouched now g ip d in
    let (s, g') = touch now g ip in
    record {
      count_is = λ n. upsert_keeps ip n _ g'.ips (t.same_count ∙ sym (t.others ip)) ∙ t.others n;
      still_distinct = upsert-DistinctKeys ip _ g'.ips t.distinct;
      same_limit = t.limit;
    }

connect-IsCounted :
    (g : Guard) (now : ℕ) (ip : String)
    → DistinctKeys g.ips
    → IsCounted g (try_connect now g ip).1 (connect now ip)
unfolding connections try_connect
connect-IsCounted g now ip d =
    let t = touch-IsTouched now g ip d in
    let (s, g') = touch now g ip in
    elim (Bool-cases (leb g.max_concurrent s.connections)) [
      | inl full ↦
          rw (full, try_connect)
            (record {
              count_is = λ n. t.others n ∙ sym (refused n t.same_count full);
              still_distinct = t.distinct;
              same_limit = t.limit;
            })
      | inr room ↦
          rw (room, try_connect)
            (record {
              count_is = λ n.
                  connections-upsert ip n _ g'.ips
                  ∙ accepted n (connections g' n) t.same_count (t.others n) room;
              still_distinct = upsert-DistinctKeys ip _ g'.ips t.distinct;
              same_limit = t.limit;
            })
    ]
  where
    refused :
        (n : String) {k : ℕ}
        → k ≡ connections g ip
        → leb g.max_concurrent k ≡ true
        → count_step n g.max_concurrent (connections g n) (connect now ip) ≡ connections g n
    refused n same full = elim (Bool-cases (str_eq ip n)) [
      | inl x ↦ rw (x, ← (eq_iff ip n).0 x, ← same, full) refl
      | inr x ↦ rw x refl
    ]

    accepted :
        (n : String) (old : ℕ) {k : ℕ}
        → k ≡ connections g ip
        → old ≡ connections g n
        → leb g.max_concurrent k ≡ false
        → (if str_eq ip n then k + 1 else old)
          ≡ count_step n g.max_concurrent (connections g n) (connect now ip)
    accepted n old same others room = elim (Bool-cases (str_eq ip n)) [
      | inl x ↦ rw (x, ← (eq_iff ip n).0 x, ← same, room) refl
      | inr x ↦ rw x others
    ]

leave-IsCounted :
    (g : Guard) (ip : String) → DistinctKeys g.ips → IsCounted g (disconnect g ip) (leave ip)
unfolding connections disconnect
leave-IsCounted g ip d = elim (Option-cases (find ip g.ips)) [
  | inl gone ↦
      rw (gone, disconnect)
        (record {
          count_is = λ n. idle_leave n (ap connections_of gone);
          still_distinct = d;
          same_limit = refl;
        })
  | inr (s, found) ↦ elim (Bool-cases (ltb 0 s.connections)) [
    | inl some_open ↦
        rw (found, disconnect, some_open)
          (record {
            count_is = λ n. connections-upsert ip n _ g.ips ∙ lowered n (ap connections_of found);
            still_distinct = upsert-DistinctKeys ip _ g.ips d;
            same_limit = refl;
          })
    | inr none_open ↦
        rw (found, disconnect, none_open)
          (record {
            count_is = λ n. idle_leave n (ap connections_of found ∙ ground arith);
            still_distinct = d;
            same_limit = refl;
          })
  ]
]
  where
    idle_leave :
        (n : String)
        → connections g ip ≡ 0
        → connections g n ≡ count_step n g.max_concurrent (connections g n) (leave ip)
    idle_leave n h = elim (Bool-cases (str_eq ip n)) [
      | inl x ↦
          let here : connections g n ≡ 0 = ap (connections g) (sym ((eq_iff ip n).0 x)) ∙ h in
          rw (x, here) (ground arith)
      | inr x ↦ rw x refl
    ]

    lowered :
        (n : String) {k : ℕ}
        → connections g ip ≡ k
        → (if str_eq ip n then k - 1 else connections g n)
          ≡ count_step n g.max_concurrent (connections g n) (leave ip)
    lowered n h = elim (Bool-cases (str_eq ip n)) [
      | inl x ↦ let here = ap (connections g) (sym ((eq_iff ip n).0 x)) ∙ h in rw (x, here) refl
      | inr x ↦ rw x refl
    ]

step-IsCounted : (g : Guard) (c : Call) → DistinctKeys g.ips → IsCounted g (step g c) c
unfolding step
step-IsCounted g (request now ip) d = request-IsCounted g now ip d
step-IsCounted g (connect now ip) d = connect-IsCounted g now ip d
step-IsCounted g (leave ip) d = leave-IsCounted g ip d

-- After any calls, the guard reports for each address the connections it accepted and has not seen
-- close, evictions notwithstanding.
pub connections-run :
    (cs : List Call) (g : Guard) (n : String)
    → DistinctKeys g.ips
    → connections (run g cs) n ≡ count_run n g.max_concurrent (connections g n) cs
unfolding run count_run
connections-run [] g n d = refl
connections-run (c ∷ cs) g n d =
    let s = step-IsCounted g c d in
    connections-run cs (step g c) n s.still_distinct
    ∙ ap₂ (λ limit count. count_run n limit count cs) s.same_limit (s.count_is n)

count_run-le :
    (cs : List Call) (n : String) (limit count : ℕ)
    → count ≤ limit
    → count_run n limit count cs ≤ limit
unfolding count_run
count_run-le [] n limit count h = h
count_run-le (request now ip ∷ cs) n limit count h = count_run-le cs n limit count h
count_run-le (connect now ip ∷ cs) n limit count h = count_run-le cs n limit _ (ground arith)
count_run-le (leave ip ∷ cs) n limit count h = count_run-le cs n limit _ (ground arith)

-- An address that has at most max_concurrent connections has no more after any calls.
pub connections-le :
    (cs : List Call) (g : Guard) (n : String)
    → DistinctKeys g.ips
    → connections g n ≤ g.max_concurrent
    → connections (run g cs) n ≤ g.max_concurrent
connections-le cs g n d h =
    rw (connections-run cs g n d) (count_run-le cs n g.max_concurrent (connections g n) h)
