-- ===== src/RateLimit/Tests.antt =====
-- Buckets and guards on concrete calls.
use kemi.Prelude.{ℕ, ◌+◌, ◌-◌, ◌*◌, ◌≤◌, ◌≡◌, true, List, [], ◌∷◌, arith}
use kemi.RateLimit.{Bucket, Guard, connections}
use kemi.RateLimit.Burst.{granted, granted-le, all_allowed, steady-allowed}
use kemi.RateLimit.Connections.{Call, request, connect, leave, run, count_run, connections-run}

-- three tokens, and one more every ten ticks of ten units each
abbrev bucket : Bucket
bucket = record { rate = 1; burst = 30; tokens = 30; stamp = 0 }

abbrev takes : List (ℕ × ℕ)
takes = (0, 10) ∷ (0, 10) ∷ (1, 10) ∷ (2, 10) ∷ (25, 10) ∷ []

granted-le_example : granted bucket takes ≤ 30 + (30 - 0) * 1
granted-le_example =
    granted-le takes bucket 30
      (omega arith, (omega arith, (omega arith, (omega arith, (omega arith, omega arith)))))

steady-allowed_example : all_allowed 10 bucket (10 ∷ 21 ∷ 31 ∷ []) ≡ true
steady-allowed_example =
    steady-allowed (10 ∷ 21 ∷ 31 ∷ []) 10 10 bucket (omega arith) (omega arith)
      (omega arith, (omega arith, (omega arith, tt)))

-- one connection each and one tracked address
abbrev guard : Guard
guard = record { rate = 1; burst = 30; max_concurrent = 1; max_tracked = 1; ips = [] }

abbrev calls : List Call
calls =
    connect 0 "a" ∷ connect 1 "a" ∷ request 2 "b" ∷ connect 3 "c" ∷ leave "a" ∷ connect 4 "a" ∷ []

connections-run_example :
    connections (run guard calls) "a" ≡ count_run "a" 1 (connections guard "a") calls
connections-run_example = connections-run calls guard "a" tt
