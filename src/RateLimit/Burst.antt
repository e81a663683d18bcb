-- ===== src/RateLimit/Burst.antt =====
-- TokenBucket of ratelimit.py over a sequence of takes.
use native.Mathlib.Nat.{mul-le-mul_right}
use kemi.Prelude.{
  ℕ, ◌+◌, ◌-◌, ◌*◌, ◌≤◌, ◌≡◌, refl, sym, ap₂, subst, Bool, true, ◌&&◌, List, [], ◌∷◌, arith,
  if◌then◌else◌,
}
use kemi.RateLimit.{Bucket, refill, take_tokens}

-- calls of take, each with its time and amount
abbrev pub Times : ℕ → List (ℕ × ℕ) → ℕ → Type 0
Times start [] last = start ≤ last
Times start ((now, amount) ∷ cs) last = (start ≤ now) × Times now cs last

-- the amounts granted
unfoldable pub granted : Bucket → List (ℕ × ℕ) → ℕ
granted b [] = 0
granted b ((now, amount) ∷ cs) =
    let (allowed, b') = take_tokens now amount b in (if allowed then amount else 0) + granted b' cs

take-le :
    (now amount : ℕ) (b : Bucket)
    → (if (take_tokens now amount b).0 then amount else 0) + (take_tokens now amount b).1.tokens
      ≤ b.tokens + (now - b.stamp) * b.rate
unfolding take_tokens refill
take-le now amount b = ground arith

take_keeps :
    (now amount : ℕ) (b : Bucket)
    → ((take_tokens now amount b).1.rate ≡ b.rate) × ((take_tokens now amount b).1.stamp ≡ now)
unfolding take_tokens refill
take_keeps now amount b = ground arith

Times-le : (cs : List (ℕ × ℕ)) (start last : ℕ) → Times start cs last → start ≤ last
Times-le [] start last h = h
Times-le ((now, amount) ∷ cs) start last h = omega (arith, Times-le cs now last h.1, h.0)

split_time :
    (start now last rate : ℕ)
    → start ≤ now
    → now ≤ last
    → (now - start) * rate + (last - now) * rate ≡ (last - start) * rate
split_time start now last rate h k =
    let whole : last - start ≡ (now - start) + (last - now) = omega arith in rw whole (omega arith)

-- Takes at times that do not decrease are granted at most the tokens held at the start and what the
-- rate adds until the last time.
pub granted-le :
    (cs : List (ℕ × ℕ)) (b : Bucket) (last : ℕ)
    → Times b.stamp cs last
    → granted b cs ≤ b.tokens + (last - b.stamp) * b.rate
unfolding granted
granted-le [] b last h = omega arith
granted-le ((now, amount) ∷ cs) b last h =
    let (rate_is, stamp_is) = take_keeps now amount b in
    let after = (take_tokens now amount b).1 in
    let rest = granted-le cs after last (subst (λ s. Times s cs last) (sym stamp_is) h.1) in
    let gap = ap₂ (λ s r. (last - s) * r) stamp_is rate_is in
    let split = split_time b.stamp now last b.rate h.0 (Times-le cs now last h.1) in
    omega (arith, take-le now amount b)

-- ------------------------------------------------------------ a client within the rate

-- takes that come at least a period after the one before
abbrev pub Spaced : ℕ → ℕ → List ℕ → Type 0
Spaced start period [] = Unit {0}
Spaced start period (now ∷ times) = (start + period ≤ now) × Spaced now period times

unfoldable pub all_allowed : ℕ → Bucket → List ℕ → Bool
all_allowed amount b [] = true
all_allowed amount b (now ∷ times) =
    let (allowed, b') = take_tokens now amount b in allowed && all_allowed amount b' times

take_refilled :
    (now amount period : ℕ) (b : Bucket)
    → amount ≤ b.burst
    → amount ≤ period * b.rate
    → b.stamp + period ≤ now
    → ((take_tokens now amount b).0 ≡ true) × ((take_tokens now amount b).1.burst ≡ b.burst)
unfolding take_tokens refill
take_refilled now amount period b fits pays late =
    let wait : period ≤ now - b.stamp = omega arith in
    let gained = mul-le-mul_right b.rate wait in ground arith

-- A client whose requests fit the burst, and come no faster than the rate pays for them, is refused
-- none of them.
pub steady-allowed :
    (times : List ℕ) (amount period : ℕ) (b : Bucket)
    → amount ≤ b.burst
    → amount ≤ period * b.rate
    → Spaced b.stamp period times
    → all_allowed amount b times ≡ true
unfolding all_allowed
steady-allowed [] amount period b fits pays h = refl
steady-allowed (now ∷ times) amount period b fits pays h =
    let (rate_is, stamp_is) = take_keeps now amount b in
    let (allowed, burst_is) = take_refilled now amount period b fits pays h.0 in
    let after = (take_tokens now amount b).1 in
    let rest =
      steady-allowed times amount period after (subst (λ x. amount ≤ x) (sym burst_is) fits)
        (subst (λ r. amount ≤ period * r) (sym rate_is) pays)
        (subst (λ s. Spaced s period times) (sym stamp_is) h.1) in
    rw (allowed, rest) refl
