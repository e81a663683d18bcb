-- ===== src/Reputation/Rows.antt =====
-- What the store of reputation.py holds of one node, whether it has a row or not.
use kemi.Prelude.{
  ℕ, String, ◌≡◌, refl, sym, false, str_eq, eq_iff, if◌then◌else◌, or_else, Option-cases,
  Bool-cases, inl, inr,
}
use kemi.Prelude.Int.{ℤ}
use native.Mathlib.Nat.{zero-mul}
use kemi.Prelude.Assoc.{find, find-upsert, find-map_values}
use kemi.Reputation.{
  Event, Evidence, Store, add_event, record_event, fade, clamp, decay, evidence_banned, is_banned,
  no_evidence,
}

abbrev pub evidence_of : Store → String → Evidence
evidence_of s n = or_else (find n s.rows) no_evidence

evidence_banned-nothing : (scale : ℕ) → evidence_banned scale no_evidence ≡ false
unfolding evidence_banned
evidence_banned-nothing scale = refl

fade-nothing : (c : ℕ) → fade c no_evidence ≡ no_evidence
unfolding fade
fade-nothing c = rw (zero-mul c) refl

-- what a node without a row is judged by
pub is_banned-evidence :
    (s : Store) (n : String) → is_banned s n ≡ evidence_banned s.scale (evidence_of s n)
unfolding is_banned
is_banned-evidence s n = elim (Option-cases (find n s.rows)) [
  | inl q ↦ rw (q, is_banned) (sym (evidence_banned-nothing s.scale))
  | inr (e, q) ↦ rw (q, is_banned) refl
]

pub evidence-record :
    (s : Store) (k n : String) (event : Event)
    → evidence_of (record_event s k event) n
      ≡ (if str_eq k n then add_event s.scale event (evidence_of s n) else evidence_of s n)
unfolding record_event
evidence-record s k n event = elim (Bool-cases (str_eq k n)) [
  | inl same ↦ rw (find-upsert k n _ s.rows, same, (eq_iff k n).0 same) refl
  | inr other ↦ rw (find-upsert k n _ s.rows, other) refl
]

pub evidence-decay :
    (s : Store) (z : ℤ) (d : ℕ) (n : String)
    → evidence_of (decay s z d) n ≡ fade (clamp z d) (evidence_of s n)
unfolding decay
evidence-decay s z d n = elim (Option-cases (find n s.rows)) [
  | inl q ↦ rw (find-map_values (fade (clamp z d)) n s.rows, q) (sym (fade-nothing (clamp z d)))
  | inr (e, q) ↦ rw (find-map_values (fade (clamp z d)) n s.rows, q) refl
]
