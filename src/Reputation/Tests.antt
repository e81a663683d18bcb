-- ===== src/Reputation/Tests.antt =====
-- The reputation store on concrete events.
use kemi.Prelude.{
  String, ◌≡◌, refl, false, ◌&&◌, ◌||◌, List, [], ◌∷◌, ◌+◌, ◌*◌, any, leb, ltb, length,
}
use kemi.Prelude.Assoc.{find, upsert}
use kemi.Reputation.{
  Event, chunk_ok, chunk_fail, mismatch, new_store, record_event, is_banned, condemns, add_event,
}
use kemi.Reputation.History.{record_all, events_of, good_marks, bad_marks, is_banned-history}

-- a good chunk and a wrong one, of two nodes
abbrev seen : List (String × Event)
seen = ("ann", chunk_ok) ∷ ("ben", mismatch) ∷ ("ann", chunk_fail) ∷ ("ann", mismatch) ∷ []

ann_at_the_edge : is_banned (record_all new_store seen) "ann" ≡ false
unfolding record_all record_event new_store is_banned find upsert add_event
ann_at_the_edge = refl

is_banned-history_example : is_banned (record_all new_store seen) "ann" ≡ (
    any condemns (events_of "ann" seen)
    || (leb 3 (length (events_of "ann" seen))
        && ltb (4 * good_marks (events_of "ann" seen) + 3) (bad_marks (events_of "ann" seen))))
is_banned-history_example = is_banned-history seen "ann"
