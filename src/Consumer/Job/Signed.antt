-- ===== src/Consumer/Job/Signed.antt =====
-- kemi/consumer.py: the turns of a worker of run_job that start a chunk. What is signed is covered.
use kemi.Prelude.{
  ℕ, ◌*◌, ◌≤◌, ◌<◌, ◌≡◌, ◌⊎◌, inl, inr, refl, sym, subst, Bool, false, ◌||◌, Option, none, some,
  List, [], ◌∷◌, ◌++◌, arith, all, length, leb, if_both, Bool-cases,
}
use native.Mathlib.Nat.{mul-le-mul}
use kemi.Prelude.Int.{ℤ, pos, ◌-ℤ◌, ltb_ℤ, ◌≤ℤ◌, int_laws}
use kemi.Json.{Value}
use kemi.Crypto.{Primitives}
use kemi.Crypto.Octets.{All-append}
use kemi.Ledger.{make_tx}
use kemi.Ledger.Queries.{balance}
use kemi.Node.{with_ledger}
use kemi.Prelude.Assoc.{upsert}
use kemi.Scheduler.{Chunk, done, acquire, assign_to, fail}
use kemi.Consumer.Hiring.{Provider}
use kemi.Consumer.Job.{
  Pending, Job, on_chunk, in_flight_total, items_at, strikes_of, max_provider_strikes,
  spent_pending, sign_payment, acquired, begin_chunk,
}
use kemi.Consumer.Job.Flights.{pending-le}
use kemi.Consumer.Job.Turns.{Flights-assign, Flights-given_up, IsTaken, acquire-IsTaken, IsFree}
use kemi.Consumer.Job.Steady.{
  total_due, HasSizes, IsRunning, on_chunk-HasSizes, length-items_at-le, fail-Takes,
  on_chunk-IsBelow,
}

module _ (p : Primitives) (max_price size redundancy : ℕ) where
  -- what a turn adds to the awaited replies is covered
  abbrev pub IsCovered : Job → Job → Type 0
  IsCovered j j' =
      (j'.pending ≡ j.pending)
      ⊎ (pos (total_due j'.pending) ≤ℤ balance j.node.ledger j.node.identity.node_id)

  abbrev pub IsSound : Job → Job → Type 0
  IsSound j j' = IsRunning max_price size j' × IsCovered j j'

  covers :
      (b : ℤ) (margin amount due : ℕ)
      → ltb_ℤ (b -ℤ pos margin) (pos amount) ≡ false
      → due ≤ margin
      → pos due ≤ℤ b
  covers b margin amount due h le =
      let enough : pos amount ≤ℤ b -ℤ pos margin = ground arith in omega int_laws

  module _ (r : Provider) (i : ℕ) (j : Job) (cheap : r.price ≤ max_price)
      (below : i < length j.chunks) (free : IsFree r.node_id i j.chunks)
      (h : IsRunning max_price size j) where
    abbrev taken : Job
    taken = record j { chunks = on_chunk i (assign_to r.node_id) j.chunks }

    taken-HasSizes : HasSizes size taken.chunks
    unfolding assign_to
    taken-HasSizes = on_chunk-HasSizes size i (assign_to r.node_id) j.chunks (λ c. refl) h.sizes

    sign_payment-IsSound :
        (now : ℤ) (encrypted : Bool)
        → IsSound j (sign_payment p max_price size redundancy now encrypted r i taken)
    unfolding sign_payment spent_pending
    sign_payment-IsSound now encrypted =
        elim (Bool-cases (
          ltb_ℤ
            (balance j.node.ledger j.node.identity.node_id
              -ℤ pos (in_flight_total taken.chunks * (max_price * size)))
            (pos amount))) [
              | inl short ↦ rw short (given_up, inl refl)
              | inr rich ↦ rw rich (
                signed,
                inr (
                    covers _ _ amount _ rich (
                      pending-le (max_price * size) taken.chunks waits signed.below
                        signed.flights)),
              )
            ]
      where
        amount : ℕ
        amount = r.price * length (items_at i taken.chunks)

        tx : Value
        tx =
            (make_tx p now j.node.ledger j.node.identity r.node_id
              (r.price * length (items_at i taken.chunks))).0

        waits : List Pending
        waits =
            j.pending
            ++ record {
              provider = r.node_id;
              index = i;
              amount = r.price * length (items_at i taken.chunks);
              tx = tx;
              encrypted = encrypted;
            }
              ∷ []

        given_up : IsRunning max_price size (record taken {
          chunks = on_chunk i (fail r.node_id) taken.chunks;
          strikes = upsert r.node_id max_provider_strikes j.strikes;
        })
        given_up = record {
          flights = Flights-given_up r.node_id 0 i j.chunks j.pending free h.flights;
          below = on_chunk-IsBelow (max_price * size) i (fail r.node_id) taken.chunks j.pending (
              on_chunk-IsBelow (max_price * size) i (assign_to r.node_id) j.chunks j.pending
                h.below);
          sizes =
              on_chunk-HasSizes size i (fail r.node_id) taken.chunks
                (λ c. (fail-Takes r.node_id c).1) taken-HasSizes;
        }

        signed : IsRunning max_price size (record taken {
          node =
              with_ledger j.node
                (make_tx p now j.node.ledger j.node.identity r.node_id
                  (r.price * length (items_at i taken.chunks))).1;
          pending = waits;
        })
        signed = record {
          flights = Flights-assign 0 i j.chunks j.pending _ (omega arith) below h.flights;
          below = on_chunk-IsBelow (max_price * size) i (assign_to r.node_id) j.chunks waits (
              All-append _ j.pending _ h.below (
                (mul-le-mul cheap (length-items_at-le size i taken.chunks taken-HasSizes), below),
                tt,
              ));
          sizes = taken-HasSizes;
        }

  acquired-IsSound :
      (now : ℤ) (encrypted : Bool) (r : Provider) (j : Job) (turn : Option ℕ × List (Chunk Value))
      → r.price ≤ max_price
      → IsRunning max_price size j
      → IsTaken r.node_id j.chunks turn
      → IsSound j (acquired p max_price size redundancy now encrypted r j turn)
  acquired-IsSound now encrypted r j (none, cs) cheap h got = (h, inl refl)
  acquired-IsSound now encrypted r j (some i, cs) cheap h (is, below, free) =
      subst
        (λ x.
          IsSound j
            (sign_payment p max_price size redundancy now encrypted r i (record j { chunks = x })))
        (sym is) (sign_payment-IsSound r i j cheap below free h now encrypted)

  pub begin_chunk-IsSound :
      (now : ℤ) (encrypted : Bool) (r : Provider) (j : Job)
      → r.price ≤ max_price
      → IsRunning max_price size j
      → IsSound j (begin_chunk p max_price size redundancy now encrypted r j)
  unfolding begin_chunk
  begin_chunk-IsSound now encrypted r j cheap h =
      if_both (IsSound j) (all done j.chunks || leb max_provider_strikes (strikes_of j r.node_id)) _
        _ (h, inl refl)
        (acquired-IsSound now encrypted r j (acquire r.node_id j.chunks) cheap h
          (acquire-IsTaken r.node_id j.chunks))
