-- ===== src/Consumer/Job/Running.antt =====
-- kemi/consumer.py: the start of run_job, and what a reply changes, keep what is known of a job.
use kemi.Prelude.{
  ℕ, zero, suc, ◌+◌, ◌*◌, String, ◌≡◌, refl, subst, Bool, true, false, List, [], ◌∷◌, arith, length,
  drop, max, if◌then◌else◌, length-take-le,
}
use kemi.Prelude.Int.{ℤ}
use kemi.Json.{Value}
use kemi.Crypto.{Primitives}
use kemi.Node.{Node}
use kemi.Result.{ok, raise, job_error, >>=-eq-ok, ok-injective}
use kemi.Scheduler.{Chunk, fail, complete, new_chunk}
use kemi.Consumer.Hiring.{Provider}
use kemi.Consumer.Replies.{Verdict, unreachable, refused, malformed, delivered}
use kemi.Consumer.Stream.{mirror}
use kemi.Consumer.Job.{
  Pending, Job, on_chunk, without_wait, strike, expose, accept_results, end_chunk, split_items,
  start_job,
}
use kemi.Consumer.Job.Flights.{Flights, IsBelow}
use kemi.Consumer.Job.Turns.{Flights-without_wait}
use kemi.Consumer.Job.Steady.{
  HasSizes, IsSteady, IsRunning, on_chunk-HasSizes, All-keep_waits, Takes, complete-Takes,
  fail-Takes, on_chunk-IsBelow,
}

module _ (p : Primitives) (max_price size redundancy : ℕ) where
  -- a reply takes its wait away, and its provider out of flight
  taken_off :
      (g : Chunk Value → Chunk Value) (id : String) (i : ℕ) (cs : List (Chunk Value))
      (ps : List Pending)
      → ((c : Chunk Value) → Takes id c (g c))
      → IsSteady max_price size cs ps
      → IsSteady max_price size (on_chunk i g cs) (without_wait id i ps)
  taken_off g id i cs ps takes h =
      let same : 0 + i ≡ i = omega arith in
      record {
        flights =
            subst (λ m. Flights 0 (on_chunk i g cs) (without_wait id m ps)) same
              (Flights-without_wait g id 0 i cs ps (λ c. (takes c).0) h.flights);
        below =
            on_chunk-IsBelow (max_price * size) i g cs _
              (All-keep_waits (IsBelow (max_price * size) (length cs)) id i ps h.below);
        sizes = on_chunk-HasSizes size i g cs (λ c. (takes c).1) h.sizes;
      }

  module _ (fingerprint : List Value → ℕ) where
    pub end_chunk-IsRunning :
        (now : ℤ) (x : Pending) (v : Verdict) (j : Job) {j' : Job}
        → IsRunning max_price size j
        → end_chunk p max_price size redundancy fingerprint now x v j ≡ ok j'
        → IsRunning max_price size j'
    unfolding end_chunk strike expose accept_results
    end_chunk-IsRunning now x unreachable j h e =
        subst (IsRunning max_price size) (ok-injective e) (
          taken_off (fail x.provider) x.provider x.index j.chunks j.pending (fail-Takes x.provider)
            h)
    end_chunk-IsRunning now x refused j h e = subst (IsRunning max_price size) (ok-injective e) (
        taken_off (fail x.provider) x.provider x.index j.chunks j.pending (fail-Takes x.provider) h)
    end_chunk-IsRunning now x malformed j h e = subst (IsRunning max_price size) (ok-injective e) (
        taken_off (fail x.provider) x.provider x.index j.chunks j.pending (fail-Takes x.provider) h)
    end_chunk-IsRunning now x (delivered results) j h e =
        let (n, _, e') = >>=-eq-ok (mirror p now x.tx j.node) _ e in
        subst (IsRunning max_price size) (ok-injective e') (
          taken_off (λ c. (complete fingerprint redundancy c x.provider results).1) x.provider
            x.index j.chunks j.pending (complete-Takes fingerprint redundancy x.provider results) h)

split_items-IsSteady :
    (max_price size redundancy k n : ℕ) (items : List Value)
    → Flights k (split_items n size redundancy items) []
      × HasSizes size (split_items n size redundancy items)
unfolding split_items new_chunk
split_items-IsSteady max_price size redundancy k zero items = (tt, tt)
split_items-IsSteady max_price size redundancy k (suc n) [] = (tt, tt)
split_items-IsSteady max_price size redundancy k (suc n) (v ∷ vs) =
    let rest = split_items-IsSteady max_price size redundancy (suc k) n (drop size (v ∷ vs)) in
    ((refl, rest.0), (length-take-le size (v ∷ vs), rest.1))

pub start_job-IsRunning :
    (rs : List Provider) (max_price chunk_size redundancy : ℕ) (items : List Value) (n : Node)
    {j : Job}
    → start_job rs chunk_size redundancy items n ≡ ok j
    → IsRunning max_price (max 1 chunk_size) j
unfolding start_job
start_job-IsRunning [] max_price chunk_size redundancy items n e = cc
start_job-IsRunning (r ∷ rs) max_price chunk_size redundancy items n {j} e = started_if _ e
  where
    started_if :
        (b : Bool)
        → (if b
            then raise job_error
            else ok (record {
              chunks = split_items (length items) (max 1 chunk_size) redundancy items;
              spent = 0;
              exposure = 0;
              providers_used = [];
              encrypted_chunks = 0;
              strikes = [];
              pending = [];
              node = n;
            }))
          ≡ ok j
        → IsRunning max_price (max 1 chunk_size) j
    started_if true q = cc
    started_if false q =
        let both =
          split_items-IsSteady max_price (max 1 chunk_size) redundancy 0 (length items) items in
        subst (IsRunning max_price (max 1 chunk_size)) (ok-injective q)
          (record { flights = both.0; below = tt; sizes = both.1 })
