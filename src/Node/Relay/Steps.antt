-- ===== src/Node/Relay/Steps.antt =====
-- What each happening of a session but a reply does to one request or stream.
use kemi.Prelude.{
  ℕ, ◌+◌, ◌<◌, String, ◌≡◌, refl, ap, true, false, Option, none, some, List, [], ◌∷◌, ◌++◌, arith,
  ◌==◌, ==_iff, str_eq, eq_iff, if◌then◌else◌, Bool-cases, Option-cases, inl, inr,
}
use kemi.Prelude.Assoc.{find, find-upsert, find-remove, find-map_values, map_option}
use kemi.Json.{Value}
use kemi.Node.Relay.{
  waiting, Queue, Session, ask, ask_stream, settled, taken, left, broken, fail_future, drop_first,
  put_queue, id_text, fail_all, happen,
}
use kemi.Node.Relay.Alone.{
  Single, absent, request, stream, break_single, settle_single, queue_or_absent, take_single,
  leave_single, Shows, Tracks,
}

module _ (show : Value → String) (k : ℕ)
    (injective : (a b : ℕ) → id_text show a ≡ id_text show b → a ≡ b) where
  abbrev me : String
  me = id_text show k

  id_eq : (j : ℕ) → str_eq (id_text show j) me ≡ (j == k)
  id_eq j = elim (Bool-cases (j == k)) [
    | inl same ↦ rw same ((eq_iff (id_text show j) me).1 (ap (id_text show) ((==_iff j k).0 same)))
    | inr other ↦ elim (Bool-cases (str_eq (id_text show j) me)) [
      | inr apart ↦ rw (other, apart) refl
      | inl alike ↦
          (let same : (j == k) ≡ true =
              (==_iff j k).1 (injective j k ((eq_iff (id_text show j) me).0 alike)) in
            cc)
    ]
  ]

  pub ask-Tracks :
      (s : Session) (x : Single)
      → Tracks show k s x
      → Tracks show k (happen show s ask) (if s.counter + 1 == k then request waiting else x)
  unfolding happen
  ask-Tracks s x (shown, fresh) = elim (Bool-cases (s.counter + 1 == k)) [
    | inr other ↦
        rw
          (
            other,
            find-upsert (id_text show (s.counter + 1)) me waiting s.pending,
            id_eq (s.counter + 1),
            other,
          )
          (shown, λ lt. fresh (omega arith))
    | inl mine ↦
        (let none_yet = fresh (ground arith) in
          let shown' = (rw none_yet at shown) in
          rw
            (
              mine,
              find-upsert (id_text show (s.counter + 1)) me waiting s.pending,
              id_eq (s.counter + 1),
              mine,
            )
            ((refl, shown'.1), λ lt. absurd (ground arith)))
  ]

  pub ask_stream-Tracks :
      (s : Session) (x : Single)
      → Tracks show k s x
      → Tracks show k (happen show s ask_stream) (if s.counter + 1 == k then stream [] else x)
  unfolding happen
  ask_stream-Tracks s x (shown, fresh) = elim (Bool-cases (s.counter + 1 == k)) [
    | inr other ↦
        rw
          (
            other,
            find-upsert (id_text show (s.counter + 1)) me [] s.streams,
            id_eq (s.counter + 1),
            other,
          )
          (shown, λ lt. fresh (omega arith))
    | inl mine ↦
        (let none_yet = fresh (ground arith) in
          let shown' = (rw none_yet at shown) in
          rw
            (
              mine,
              find-upsert (id_text show (s.counter + 1)) me [] s.streams,
              id_eq (s.counter + 1),
              mine,
            )
            ((shown'.0, refl), λ lt. absurd (ground arith)))
  ]

  pub settled-Tracks :
      (s : Session) (x : Single) (j : ℕ)
      → Tracks show k s x
      → Tracks show k (happen show s (settled j)) (if j == k then settle_single x else x)
  unfolding happen
  settled-Tracks s x j (shown, fresh) =
      rw (find-remove (id_text show j) me s.pending, id_eq j)
        (elim (Bool-cases (j == k)) [
          | inr other ↦ rw other (shown, fresh)
          | inl mine ↦ rw mine (each x shown fresh)
        ])
    where
      each :
          (y : Single)
          → Shows show k y (find me s.pending) (find me s.streams)
          → (s.counter < k → y ≡ absent)
          → Shows show k (settle_single y) none (find me s.streams)
            × (s.counter < k → settle_single y ≡ absent)
      each absent h f = ((refl, h.1), f)
      each (request v) h f = ((refl, h.1), λ lt. refl)
      each (stream q) h f = ((refl, h.1), f)

  pub left-Tracks :
      (s : Session) (x : Single) (j : ℕ)
      → Tracks show k s x
      → Tracks show k (happen show s (left j)) (if j == k then leave_single x else x)
  unfolding happen
  left-Tracks s x j (shown, fresh) =
      rw (find-remove (id_text show j) me s.streams, id_eq j)
        (elim (Bool-cases (j == k)) [
          | inr other ↦ rw other (shown, fresh)
          | inl mine ↦ rw mine (each x shown fresh)
        ])
    where
      each :
          (y : Single)
          → Shows show k y (find me s.pending) (find me s.streams)
          → (s.counter < k → y ≡ absent)
          → Shows show k (leave_single y) (find me s.pending) none
            × (s.counter < k → leave_single y ≡ absent)
      each absent h f = ((h.0, refl), f)
      each (request v) h f = ((h.0, refl), f)
      each (stream q) h f = ((h.0, refl), λ lt. refl)

  pub broken-Tracks :
      (s : Session) (x : Single)
      → Tracks show k s x
      → Tracks show k (happen show s broken) (break_single x)
  unfolding happen fail_all
  broken-Tracks s x (shown, fresh) =
      rw
        (
          find-map_values fail_future me s.pending,
          find-map_values (λ (q : Queue). q ++ none ∷ []) me s.streams,
        )
        (each x shown fresh)
    where
      each :
          (y : Single)
          → Shows show k y (find me s.pending) (find me s.streams)
          → (s.counter < k → y ≡ absent)
          → Shows show k
              (break_single y)
              (map_option fail_future (find me s.pending))
              (map_option (λ (q : Queue). q ++ none ∷ []) (find me s.streams))
            × (s.counter < k → break_single y ≡ absent)
      each absent h f = ((rw h.0 refl, rw h.1 refl), f)
      each (request v) h f = ((rw h.0 refl, rw h.1 refl), λ lt. ap break_single (f lt))
      each (stream q) h f = ((rw h.0 refl, rw h.1 refl), λ lt. ap break_single (f lt))

  find-put_queue :
      (id : String) (o : Option Queue) (m : List (String × Queue))
      → find me (put_queue id o m) ≡ (if str_eq id me then o else find me m)
  find-put_queue id none m = find-remove id me m
  find-put_queue id (some q) m = find-upsert id me q m

  take_from :
      (s : Session) (j : ℕ) (q : Queue)
      → find (id_text show j) s.streams ≡ some q
      → happen show s (taken j)
        ≡ record s { streams = put_queue (id_text show j) (drop_first q) s.streams }
  unfolding happen
  take_from s j q h = rw (h, happen) refl

  take_nothing :
      (s : Session) (j : ℕ) → find (id_text show j) s.streams ≡ none → happen show s (taken j) ≡ s
  unfolding happen
  take_nothing s j h = rw (h, happen) refl

  pub taken_other :
      (s : Session) (x : Single) (j : ℕ)
      → (j == k) ≡ false
      → Tracks show k s x
      → Tracks show k (happen show s (taken j)) x
  taken_other s x j other (shown, fresh) = elim (Option-cases (find (id_text show j) s.streams)) [
    | inl empty ↦ rw (take_nothing s j empty) (shown, fresh)
    | inr (q, there) ↦
        rw
          (
            take_from s j q there,
            find-put_queue (id_text show j) (drop_first q) s.streams,
            id_eq j,
            other,
          )
          (shown, fresh)
  ]

  pub taken_mine :
      (s : Session) (x : Single)
      → Tracks show k s x
      → Tracks show k (happen show s (taken k)) (take_single x)
  taken_mine s absent (shown, fresh) = rw (take_nothing s k shown.1) (shown, fresh)
  taken_mine s (request f) (shown, fresh) = rw (take_nothing s k shown.1) (shown, fresh)
  taken_mine s (stream q) (shown, fresh) =
      let mine : str_eq me me ≡ true = (eq_iff me me).1 refl in
      rw (take_from s k q shown.1, find-put_queue me (drop_first q) s.streams, mine)
        (after (drop_first q), λ lt. absurd (not_yet lt))
    where
      not_yet : s.counter < k → ⊥
      not_yet lt = (let no = fresh lt in cc)

      after : (o : Option Queue) → Shows show k (queue_or_absent o) (find me s.pending) o
      after none = (shown.0, refl)
      after (some r) = (shown.0, refl)
