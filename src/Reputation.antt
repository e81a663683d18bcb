-- ===== src/Reputation.antt =====
-- kemi/reputation.py: the private, local evidence about other peers.
-- good and bad are exact: multiples of 1 / scale, where decay multiplies the scale.
pub mod Rows
pub mod History
mod Tests
use kemi.Prelude.{
  ℕ, ◌+◌, ◌*◌, min, ◌<◌, String, Bool, true, false, ◌&&◌, ◌||◌, Option, none, some, List, [], ltb,
  leb, or_else,
}
use kemi.Prelude.Int.{ℤ, pos, negsuc}
use kemi.Prelude.Assoc.{find, upsert, map_values}

pub data Event : Type 0 where
  chunk_ok chunk_fail mismatch payment_reneged double_spend : Event

-- WEIGHTS
unfoldable pub weights : Event → ℕ × ℕ
weights chunk_ok = (1, 0)
weights chunk_fail = (0, 1)
weights mismatch = (0, 5)
weights payment_reneged = (0, 5)
weights double_spend = (0, 100)

abbrev pub min_events_for_ban : ℕ
min_events_for_ban = 3

-- a row of the table reputation
pub record Evidence : Type 0 where
  pub good : ℕ
  pub bad : ℕ
  pub events : ℕ
  pub condemned : Bool

pub record Store : Type 0 where
  pub scale : ℕ
  pub rows : List (String × Evidence)

unfoldable pub new_store : Store
new_store = record { scale = 1; rows = [] }

abbrev pub condemns : Event → Bool
condemns double_spend = true
condemns _ = false

abbrev pub no_evidence : Evidence
no_evidence = record { good = 0; bad = 0; events = 0; condemned = false }

-- the row that INSERT makes, or DO UPDATE leaves
unfoldable pub add_event : ℕ → Event → Evidence → Evidence
unfolding weights
add_event scale event e = record {
  good = e.good + (weights event).0 * scale;
  bad = e.bad + (weights event).1 * scale;
  events = e.events + 1;
  condemned = e.condemned || condemns event;
}

unfoldable pub record_event : Store → String → Event → Store
record_event s node_id event = record s {
  rows =
      upsert node_id (add_event s.scale event (or_else (find node_id s.rows) no_evidence)) s.rows;
}

-- max(0.0, min(1.0, factor)), as a fraction over the same denominator
unfoldable pub clamp : ℤ → ℕ → ℕ
clamp (pos n) d = min n d
clamp (negsuc n) d = 0

unfoldable pub fade : ℕ → Evidence → Evidence
fade c e = record e { good = e.good * c; bad = e.bad * c }

-- decay(n / d)
unfoldable pub decay : Store → ℤ → ℕ → Store
unfolding clamp
decay s n d = record { scale = s.scale * d; rows = map_values (fade (clamp n d)) s.rows }

-- (good + 1.0) / (good + bad + 2.0), as a fraction
unfoldable pub evidence_score : ℕ → Evidence → ℕ × ℕ
evidence_score scale e = (e.good + scale, e.good + e.bad + 2 * scale)

unfoldable pub score : Store → String → ℕ × ℕ
unfolding evidence_score
score s node_id = elim (find node_id s.rows) [ none ↦ (1, 2) | some e ↦ evidence_score s.scale e ]

-- score < BAN_THRESHOLD, which is 1 / 5
abbrev below_threshold : ℕ × ℕ → Bool
below_threshold (n, d) = ltb (5 * n) d

unfoldable pub evidence_banned : ℕ → Evidence → Bool
unfolding evidence_score
evidence_banned scale e =
    e.condemned || (leb min_events_for_ban e.events && below_threshold (evidence_score scale e))

unfoldable pub is_banned : Store → String → Bool
unfolding evidence_banned
is_banned s node_id = elim (find node_id s.rows) [
  | none ↦ false
  | some e ↦ evidence_banned s.scale e
]
