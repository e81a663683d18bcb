-- ===== src/Consumer/Job/Covered.antt =====
-- No payment of a job is signed that the balance does not cover, with all that are on their way.
use kemi.Prelude.{ℕ, ◌≤◌, ◌≡◌, Bool, List, max}
use kemi.Prelude.Int.{ℤ}
use kemi.Json.{Value}
use kemi.Crypto.{Primitives}
use kemi.Node.{Node}
use kemi.Result.{ok}
use kemi.Consumer.Hiring.{Provider}
use kemi.Consumer.Replies.{Verdict}
use kemi.Consumer.Job.{Pending, Job, begin_chunk, end_chunk, start_job}
use kemi.Consumer.Job.Steady.{IsRunning}
use kemi.Consumer.Job.Signed.{IsCovered, begin_chunk-IsSound}
use kemi.Consumer.Job.Running.{end_chunk-IsRunning, start_job-IsRunning}

module _ (p : Primitives) (max_price size redundancy : ℕ) where
  module _ (fingerprint : List Value → ℕ) where
    -- the turns of the workers of providers at no more than the highest price, in any order
    pub data Reached (start : Job) : Job → Type 0 where
      started : Reached start start
      begun :
          {j : Job} (now : ℤ) (encrypted : Bool) (r : Provider)
          → Reached start j
          → r.price ≤ max_price
          → Reached start (begin_chunk p max_price size redundancy now encrypted r j)
      replied :
          {j j' : Job} (now : ℤ) (x : Pending) (v : Verdict)
          → Reached start j
          → end_chunk p max_price size redundancy fingerprint now x v j ≡ ok j'
          → Reached start j'

    Reached-IsRunning :
        {start j : Job}
        → Reached start j
        → IsRunning max_price size start
        → IsRunning max_price size j
    Reached-IsRunning started h = h
    Reached-IsRunning (begun {j} now encrypted r reach cheap) h =
        (begin_chunk-IsSound p max_price size redundancy now encrypted r j cheap
          (Reached-IsRunning reach h)).0
    Reached-IsRunning (replied {j} now x v reach e) h =
        end_chunk-IsRunning p max_price size redundancy fingerprint now x v j
          (Reached-IsRunning reach h) e

-- In every state that the workers of a job reach, a worker's next turn signs no payment, or leaves the
-- amounts of all payments that are on their way within the balance.
pub begin_chunk-IsCovered :
    (p : Primitives) (fingerprint : List Value → ℕ) (max_price chunk_size redundancy : ℕ)
    (rs : List Provider) (items : List Value) (n : Node) {start j : Job}
    → start_job rs chunk_size redundancy items n ≡ ok start
    → Reached p max_price (max 1 chunk_size) redundancy fingerprint start j
    → (now : ℤ) (encrypted : Bool) (r : Provider) → r.price ≤ max_price
    → IsCovered p max_price
        (max 1 chunk_size)
        redundancy
        j
        (begin_chunk p max_price (max 1 chunk_size) redundancy now encrypted r j)
begin_chunk-IsCovered p fingerprint max_price chunk_size redundancy rs items n {start} {j} starts
      reach now encrypted r cheap =
    (begin_chunk-IsSound p max_price (max 1 chunk_size) redundancy now encrypted r j cheap (
      Reached-IsRunning p max_price (max 1 chunk_size) redundancy fingerprint reach
        (start_job-IsRunning rs max_price chunk_size redundancy items n starts))).1
