-- ===== src/RateLimit.antt =====
-- kemi/ratelimit.py: the token bucket and the guard per source address.
-- Time is counted in ticks of the monotonic clock, tokens in the units in which one tick refills a
-- whole number of them.
pub mod Burst
pub mod Evict
pub mod Touch
pub mod Connections
mod Tests
use kemi.Prelude.{
  ℕ, ◌+◌, ◌-◌, ◌*◌, ◌/◌, min, max, String, Bool, true, false, not, ◌&&◌, ◌||◌, Option, none, some,
  List, [], ◌∷◌, ltb, leb, ◌==◌, length, take, or_else, if◌then◌else◌, keep,
}
use kemi.Prelude.Assoc.{find, upsert, remove}
use kemi.Ledger.Checkpoint.{text_le}

-- ------------------------------------------------------------ TokenBucket

pub record Bucket : Type 0 where
  pub rate : ℕ
  pub burst : ℕ
  pub tokens : ℕ
  pub stamp : ℕ

unfoldable pub new_bucket : ℕ → ℕ → ℕ → Bucket
new_bucket now rate burst = record { rate = rate; burst = burst; tokens = burst; stamp = now }

unfoldable pub refill : ℕ → Bucket → Bucket
refill now b = record b { tokens = min b.burst (b.tokens + (now - b.stamp) * b.rate); stamp = now }

unfoldable pub take_tokens : ℕ → ℕ → Bucket → Bool × Bucket
unfolding refill
take_tokens now amount b =
    let filled = refill now b in
    if leb amount filled.tokens
    then (true, record filled { tokens = filled.tokens - amount })
    else (false, filled)

-- ------------------------------------------------------------ IPGuard

-- _IPState
pub record State : Type 0 where
  pub bucket : Bucket
  pub connections : ℕ
  pub last_seen : ℕ

pub record Guard : Type 0 where
  pub rate : ℕ
  pub burst : ℕ
  pub max_concurrent : ℕ
  pub max_tracked : ℕ
  pub ips : List (String × State)

unfoldable pub new_guard : ℕ → ℕ → ℕ → ℕ → Guard
new_guard rate burst max_concurrent max_tracked = record {
  rate = rate;
  burst = burst;
  max_concurrent = max_concurrent;
  max_tracked = max_tracked;
  ips = [];
}

-- sorted() of the pairs (last_seen, ip)
abbrev seen_le : ℕ × String → ℕ × String → Bool
seen_le (s, i) (t, j) = ltb s t || (s == t && text_le i j)

insert_seen : ℕ × String → List (ℕ × String) → List (ℕ × String)
insert_seen p [] = p ∷ []
insert_seen p (q ∷ qs) = if seen_le p q then p ∷ q ∷ qs else q ∷ insert_seen p qs

-- the addresses without an open connection, longest idle first
unfoldable pub idle : List (String × State) → List (ℕ × String)
unfolding insert_seen
idle [] = []
idle ((ip, s) ∷ m) =
    let rest = idle m in if s.connections == 0 then insert_seen (s.last_seen, ip) rest else rest

unfoldable pub remove_all : List (ℕ × String) → List (String × State) → List (String × State)
remove_all [] m = m
remove_all ((seen, ip) ∷ qs) m = remove_all qs (remove ip m)

unfoldable pub evict : List (String × State) → List (String × State)
evict m = let found = idle m in remove_all (take (max 1 (length found / 4)) found) m

unfoldable pub fresh_state : ℕ → Guard → State
unfolding new_bucket
fresh_state now g = record {
  bucket = new_bucket now g.rate g.burst;
  connections = 0;
  last_seen = now;
}

-- _state: the entry of an address, made where it is missing
unfoldable pub touch : ℕ → Guard → String → State × Guard
touch now g ip = elim (find ip g.ips) [
  | some s ↦
      let seen = record s { last_seen = now } in (seen, record g { ips = upsert ip seen g.ips })
  | none ↦
      let kept = if leb g.max_tracked (length g.ips) then evict g.ips else g.ips in
      let made = fresh_state now g in (made, record g { ips = upsert ip made kept })
]

unfoldable pub allow_request : ℕ → Guard → String → Bool × Guard
allow_request now g ip =
    let (s, g') = touch now g ip in
    let (allowed, b) = take_tokens now 1 s.bucket in
    (allowed, record g' { ips = upsert ip (record s { bucket = b }) g'.ips })

unfoldable pub try_connect : ℕ → Guard → String → Bool × Guard
try_connect now g ip =
    let (s, g') = touch now g ip in
    if leb g.max_concurrent s.connections
    then (false, g')
    else (true, record g' { ips = upsert ip (record s { connections = s.connections + 1 }) g'.ips })

unfoldable pub disconnect : Guard → String → Guard
disconnect g ip = elim (find ip g.ips) [
  | none ↦ g
  | some s ↦
      if ltb 0 s.connections
      then record g { ips = upsert ip (record s { connections = s.connections - 1 }) g.ips }
      else g
]

abbrev connections_of : Option State → ℕ
connections_of none = 0
connections_of (some s) = s.connections

unfoldable pub connections : Guard → String → ℕ
connections g ip = connections_of (find ip g.ips)
