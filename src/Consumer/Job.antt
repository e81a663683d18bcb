-- ===== src/Consumer/Job.antt =====
-- kemi/consumer.py: run_job. A worker's turn runs between two waits: one turn acquires a chunk and signs
-- its payment, another takes the provider's reply. The turns of all workers interleave in any order.
pub mod Flights
pub mod Turns
pub mod Steady
pub mod Signed
pub mod Running
pub mod Covered
use kemi.Prelude.{
  ℕ, zero, suc, ◌+◌, ◌-◌, ◌*◌, String, Bool, true, false, not, ◌&&◌, ◌||◌, Option, none, some, List,
  [], ◌∷◌, ◌++◌, all, any, keep, length, or_else, ltb, leb, ◌==◌, str_eq, is_some, take, drop, min,
  max, if◌then◌else◌,
}
use kemi.Prelude.Sums.{sum_by}
use kemi.Prelude.Assoc.{find, upsert}
use kemi.Prelude.Int.{ℤ, pos, ◌-ℤ◌, ltb_ℤ}
use kemi.Json.{Value}
use kemi.Crypto.{Primitives}
use kemi.Ledger.{make_tx}
use kemi.Ledger.Queries.{balance}
use kemi.Reputation.{chunk_ok, chunk_fail, mismatch}
use kemi.Node.{Node, note, with_ledger}
use kemi.Result.{Result, ok, raise, job_error, ◌>>=◌}
use kemi.Scheduler.{Chunk, done, acquire, fail, complete, new_chunk, in_list}
use kemi.Consumer.Hiring.{Provider}
use kemi.Consumer.Replies.{Verdict, unreachable, refused, malformed, delivered}
use kemi.Consumer.Stream.{mirror}

abbrev pub max_provider_strikes : ℕ
max_provider_strikes = 3

-- a request that is on its way: its worker waits for the reply
pub record Pending : Type 0 where
  pub provider : String
  pub index : ℕ
  pub amount : ℕ
  pub tx : Value
  pub encrypted : Bool

-- the scheduler's chunks, run_job's counters, the workers' strikes and waits, and the node
pub record Job : Type 0 where
  pub chunks : List (Chunk Value)
  pub spent : ℕ
  pub exposure : ℕ
  pub providers_used : List (String × ℕ)
  pub encrypted_chunks : ℕ
  pub strikes : List (String × ℕ)
  pub pending : List Pending
  pub node : Node

abbrev pub strikes_of : Job → String → ℕ
strikes_of j id = or_else (find id j.strikes) 0

abbrev pub items_at : ℕ → List (Chunk Value) → List Value
items_at i [] = []
items_at zero (c ∷ cs) = c.items
items_at (suc i) (c ∷ cs) = items_at i cs

-- the chunk at a position is changed
unfoldable pub on_chunk : ℕ → (Chunk Value → Chunk Value) → List (Chunk Value) → List (Chunk Value)
on_chunk i f [] = []
on_chunk zero f (c ∷ cs) = f c ∷ cs
on_chunk (suc i) f (c ∷ cs) = c ∷ on_chunk i f cs

abbrev pub in_flight_total : List (Chunk Value) → ℕ
in_flight_total = sum_by (λ (c : Chunk Value). length c.in_flight)

-- the wait of a worker for a chunk ends
abbrev pub without_wait : String → ℕ → List Pending → List Pending
without_wait id i = keep (λ (x : Pending). not (x.index == i && str_eq x.provider id))

-- max_price and chunk_size are run_job's
unfoldable pub spent_pending : ℕ → ℕ → Job → ℕ
spent_pending max_price chunk_size j = in_flight_total j.chunks * (max_price * chunk_size)

module _ (p : Primitives) (max_price chunk_size redundancy : ℕ) where
  -- a chunk has been acquired: the payment is signed, or the worker gives up
  unfoldable pub sign_payment : ℤ → Bool → Provider → ℕ → Job → Job
  sign_payment now encrypted r i j =
      let amount = r.price * length (items_at i j.chunks) in
      let (tx, l) = make_tx p now j.node.ledger j.node.identity r.node_id amount in
      if ltb_ℤ
        (balance j.node.ledger j.node.identity.node_id
          -ℤ pos (spent_pending max_price chunk_size j))
        (pos amount)
      then record j {
        chunks = on_chunk i (fail r.node_id) j.chunks;
        strikes = upsert r.node_id max_provider_strikes j.strikes;
      }
      else record j {
        node = with_ledger j.node l;
        pending =
            j.pending
            ++ record {
              provider = r.node_id;
              index = i;
              amount = amount;
              tx = tx;
              encrypted = encrypted;
            }
              ∷ [];
      }

  abbrev acquired : ℤ → Bool → Provider → Job → Option ℕ × List (Chunk Value) → Job
  acquired now encrypted r j (none, chunks) = j
  acquired now encrypted r j (some i, chunks) =
      sign_payment now encrypted r i (record j { chunks = chunks })

  -- a worker's turn from the test of its loop to the request, or to its next sleep
  unfoldable pub begin_chunk : ℤ → Bool → Provider → Job → Job
  begin_chunk now encrypted r j =
      let turn = acquired now encrypted r j (acquire r.node_id j.chunks) in
      if all done j.chunks || leb max_provider_strikes (strikes_of j r.node_id) then j else turn

  -- a failure: the scheduler is told, a strike is counted and noted
  unfoldable pub strike : Pending → Job → Job
  strike x j = record j {
    chunks = on_chunk x.index (fail x.provider) j.chunks;
    strikes = upsert x.provider (strikes_of j x.provider + 1) j.strikes;
    node = note j.node x.provider chunk_fail;
  }

  unfoldable pub expose : Pending → Job → Job
  expose x j = record (strike x j) { exposure = j.exposure + x.amount }

  unfoldable pub note_losers : List String → Node → Node
  note_losers [] n = n
  note_losers (id ∷ ids) n = note_losers ids (note n id mismatch)

  abbrev reward : String → List String → Node → Node
  reward id losers n =
      if in_list id losers then note_losers losers n else note (note_losers losers n) id chunk_ok

  abbrev chunk_at : ℕ → List (Chunk Value) → Option (Chunk Value)
  chunk_at i [] = none
  chunk_at zero (c ∷ cs) = some c
  chunk_at (suc i) (c ∷ cs) = chunk_at i cs

  module _ (fingerprint : List Value → ℕ) where
    abbrev losers_at : Pending → List Value → List (Chunk Value) → List String
    losers_at x results cs = elim (chunk_at x.index cs) [
      | none ↦ []
      | some c ↦ (complete fingerprint redundancy c x.provider results).0
    ]

    -- results of the right length: the payment is in force
    unfoldable pub accept_results : ℤ → Pending → List Value → Job → Result Job
    accept_results now x results j = do
      n ← mirror p now x.tx j.node
      ok (record j {
        chunks =
            on_chunk x.index (λ c. (complete fingerprint redundancy c x.provider results).1)
              j.chunks;
        spent = j.spent + x.amount;
        providers_used =
            upsert x.provider (or_else (find x.provider j.providers_used) 0 + 1) j.providers_used;
        encrypted_chunks = j.encrypted_chunks + (if x.encrypted then 1 else 0);
        strikes = upsert x.provider 0 j.strikes;
        node = reward x.provider (losers_at x results j.chunks) n;
      })

    abbrev by_verdict : ℤ → Pending → Verdict → Job → Result Job
    by_verdict now x unreachable j = ok (strike x j)
    by_verdict now x refused j = ok (expose x j)
    by_verdict now x malformed j = ok (expose x j)
    by_verdict now x (delivered results) j = accept_results now x results j

    -- a worker's turn from a reply to its next sleep or request
    unfoldable pub end_chunk : ℤ → Pending → Verdict → Job → Result Job
    end_chunk now x verdict j =
        by_verdict now x verdict (record j { pending = without_wait x.provider x.index j.pending })

-- job.items in pieces of chunk_size, at least 1
unfoldable pub split_items : ℕ → ℕ → ℕ → List Value → List (Chunk Value)
split_items zero chunk_size redundancy items = []
split_items (suc n) chunk_size redundancy [] = []
split_items (suc n) chunk_size redundancy (v ∷ vs) =
    new_chunk redundancy (take chunk_size (v ∷ vs))
    ∷ split_items n chunk_size redundancy (drop chunk_size (v ∷ vs))

unfoldable pub min_price : List Provider → ℕ → ℕ
min_price [] least = least
min_price (r ∷ rs) least = min_price rs (min r.price least)

-- the checks of run_job before its workers start; the job's items are not empty
unfoldable pub start_job : List Provider → ℕ → ℕ → List Value → Node → Result Job
start_job [] chunk_size redundancy items n = raise job_error
start_job (r ∷ rs) chunk_size redundancy items n =
    let min_cost = min_price rs r.price * length items * redundancy in
    if (redundancy == 0 || ltb (length (r ∷ rs)) redundancy)
      || ltb_ℤ (balance n.ledger n.identity.node_id) (pos min_cost)
    then raise job_error
    else ok (record {
      chunks = split_items (length items) (max 1 chunk_size) redundancy items;
      spent = 0;
      exposure = 0;
      providers_used = [];
      encrypted_chunks = 0;
      strikes = [];
      pending = [];
      node = n;
    })

-- results.extend(chunk.accepted) for each chunk, or the error of an incomplete job
unfoldable pub job_results : List (Chunk Value) → Result (List Value)
job_results [] = ok []
job_results (c ∷ cs) = elim c.accepted [
  | none ↦ raise job_error
  | some results ↦ do rest ← job_results cs; ok (results ++ rest)
]
