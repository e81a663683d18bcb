-- ===== src/Dht/Lookup/Steps.antt =====
-- What one round of the lookup does to the shortlist and the queried ids.
use kemi.Prelude.{
  String, ◌≡◌, ◌⊎◌, inl, inr, refl, sym, ap, subst, ◌∙◌, true, false, not, ◌&&◌, ◌||◌, Option, none,
  some, List, [], ◌∷◌, ◌++◌, arith, str_eq, eq_iff, Bool-cases, any-append,
}
use kemi.Prelude.Int.{ℤ}
use kemi.Json.{Value, Fields}
use kemi.Result.{Result, ok, >>=-eq-ok, ok-injective}
use kemi.Dht.Contacts.{Contact, has_id}
use kemi.Dht.Lookup.{member, ids, absorb, named, absorb_answer, absorb_answers}

has_id_str :
    (id : String) (c : Contact)
    → str_eq c.node_id id ≡ true
    → (cs : List Contact) → has_id c.node_id cs ≡ has_id id cs
has_id_str id c h cs = ap (λ j. has_id j cs) ((eq_iff _ _).0 h)

-- absorb keeps what is there, and adds every named id but the own one
pub has_id-absorb :
    (own id : String) (cs shortlist : List Contact)
    → has_id id (absorb own cs shortlist)
      ≡ (has_id id shortlist || (has_id id cs && not (str_eq id own)))
unfolding absorb
has_id-absorb own id [] shortlist = ground arith
has_id-absorb own id (c ∷ cs) shortlist =
    elim (Bool-cases (str_eq c.node_id own || has_id c.node_id shortlist)) [
      | inl skip ↦ rw skip (
          has_id-absorb own id cs shortlist
          ∙ ground
              (arith, eq_iff c.node_id id, eq_iff c.node_id own, eq_iff id own, has_id_str id c))
      | inr new ↦ rw new (
          has_id-absorb own id cs (shortlist ++ c ∷ [])
          ∙ rw (any-append (λ (d : Contact). str_eq d.node_id id) shortlist (c ∷ []))
              (ground (arith, eq_iff c.node_id id, eq_iff c.node_id own, eq_iff id own)))
    ]

module _ (int16 : String → Result ℤ) (show : Value → String) (to_int : Value → Option ℤ)
    (answers : String → Option Fields) where
  abbrev names : Fields → Result (List Contact)
  names = named int16 show to_int answers

  -- the id is among those that the answer to this request names
  abbrev pub Names : String → String → Type 0
  Names id j =
      (response : Fields) × (cs : List Contact) × (answers id ≡ some response)
      × (names response ≡ ok cs)
      × (has_id j cs ≡ true)

  module _ (own : String) where
    abbrev step_one : String → List Contact → Result (List Contact)
    step_one id = absorb_answer int16 show to_int answers own (answers id)

    abbrev steps : List Contact → List Contact → Result (List Contact)
    steps = absorb_answers int16 show to_int answers own

    -- an answer that is absorbed, case by case
    absorbed :
        (id : String) (shortlist : List Contact) {s : List Contact}
        → step_one id shortlist ≡ ok s
        → ((answers id ≡ none) × (shortlist ≡ s))
          ⊎ ((response : Fields) × (cs : List Contact) × (answers id ≡ some response)
              × (names response ≡ ok cs)
              × (absorb own cs shortlist ≡ s))
    unfolding absorb_answer
    absorbed id shortlist {s} h = by_answer (answers id) refl h
      where
        by_answer :
            (o : Option Fields)
            → answers id ≡ o
            → absorb_answer int16 show to_int answers own o shortlist ≡ ok s
            → ((answers id ≡ none) × (shortlist ≡ s))
              ⊎ ((response : Fields) × (cs : List Contact) × (answers id ≡ some response)
                  × (names response ≡ ok cs)
                  × (absorb own cs shortlist ≡ s))
        by_answer none e g = inl (e, ok-injective g)
        by_answer (some response) e g =
            let (cs, hcs, g') = >>=-eq-ok (names response) (λ cs. ok (absorb own cs shortlist)) g in
            inr (response, cs, e, hcs, ok-injective g')

    step_one_keeps :
        (id j : String) (shortlist : List Contact) {s : List Contact}
        → step_one id shortlist ≡ ok s
        → has_id j shortlist ≡ true
        → has_id j s ≡ true
    step_one_keeps id j shortlist h old = elim (absorbed id shortlist h) [
      | inl (_, same) ↦ ap (has_id j) (sym same) ∙ old
      | inr (response, cs, _, _, is) ↦
          ap (has_id j) (sym is) ∙ has_id-absorb own j cs shortlist ∙ rw old refl
    ]

    step_one_adds :
        (id j : String) (shortlist : List Contact) {s : List Contact}
        → step_one id shortlist ≡ ok s
        → Names id j
        → str_eq j own ≡ false
        → has_id j s ≡ true
    step_one_adds id j shortlist h (response, cs, answer, reads, named_here) other =
        elim (absorbed id shortlist h) [
          | inl (silent, _) ↦ cc
          | inr (response', cs', answer', reads', is) ↦
              let one : cs' ≡ cs =
                ok-injective (sym reads' ∙ ap names (some_inj answer' answer) ∙ reads) in
              ap (has_id j) (sym is)
              ∙ has_id-absorb own j cs' shortlist
              ∙ rw (one, named_here, other) (ground arith)
        ]
      where
        some_inj : {o : Option Fields} {a b : Fields} → o ≡ some a → o ≡ some b → a ≡ b
        some_inj p q = cc

    step_one_within :
        (u : List String)
        → ((id j : String) → Names id j → member j u ≡ true)
        → (id : String) (shortlist : List Contact) {s : List Contact} → step_one id shortlist ≡ ok s
        → ((j : String) → has_id j shortlist ≡ true → member j u ≡ true)
        → (j : String) → has_id j s ≡ true
        → member j u ≡ true
    step_one_within u closed id shortlist h within j there = elim (absorbed id shortlist h) [
      | inl (_, same) ↦ within j (ap (has_id j) same ∙ there)
      | inr (response, cs, answer, reads, is) ↦
          let either : (has_id j shortlist || (has_id j cs && not (str_eq j own))) ≡ true =
            sym (has_id-absorb own j cs shortlist) ∙ ap (has_id j) is ∙ there in
          elim (Bool-cases (has_id j shortlist)) [
            | inl old ↦ within j old
            | inr new ↦ closed id j (response, cs, answer, reads, ground arith)
          ]
    ]

    steps-eq-ok :
        (c : Contact) (cs shortlist : List Contact) {s : List Contact}
        → steps (c ∷ cs) shortlist ≡ ok s
        → (m : List Contact) × (step_one c.node_id shortlist ≡ ok m) × (steps cs m ≡ ok s)
    unfolding absorb_answers
    steps-eq-ok c cs shortlist h = >>=-eq-ok (step_one c.node_id shortlist) (steps cs) h

    steps_nil :
        (shortlist : List Contact) {s : List Contact} → steps [] shortlist ≡ ok s → shortlist ≡ s
    unfolding absorb_answers
    steps_nil shortlist h = ok-injective h

    pub steps_keep :
        (j : String) (cs shortlist : List Contact) {s : List Contact}
        → steps cs shortlist ≡ ok s
        → has_id j shortlist ≡ true
        → has_id j s ≡ true
    steps_keep j [] shortlist h old = ap (has_id j) (sym (steps_nil shortlist h)) ∙ old
    steps_keep j (c ∷ cs) shortlist h old =
        let (m, h1, h2) = steps-eq-ok c cs shortlist h in
        steps_keep j cs m h2 (step_one_keeps c.node_id j shortlist h1 old)

    pub steps_add :
        (id j : String) (cs shortlist : List Contact) {s : List Contact}
        → steps cs shortlist ≡ ok s
        → member id (ids cs) ≡ true
        → Names id j
        → str_eq j own ≡ false
        → has_id j s ≡ true
    steps_add id j [] shortlist h asked names_it other = cc
    steps_add id j (c ∷ cs) shortlist h asked names_it other =
        let (m, h1, h2) = steps-eq-ok c cs shortlist h in
        elim (Bool-cases (str_eq c.node_id id)) [
          | inl here ↦ steps_keep j cs m h2 (
              step_one_adds c.node_id j shortlist h1
                (subst (λ i. Names i j) (sym ((eq_iff _ _).0 here)) names_it) other)
          | inr later ↦ steps_add id j cs m h2 (rw later at asked) names_it other
        ]

    pub steps_within :
        (u : List String)
        → ((id j : String) → Names id j → member j u ≡ true)
        → (cs shortlist : List Contact) {s : List Contact} → steps cs shortlist ≡ ok s
        → ((j : String) → has_id j shortlist ≡ true → member j u ≡ true)
        → (j : String) → has_id j s ≡ true
        → member j u ≡ true
    steps_within u closed [] shortlist h within j there =
        within j (ap (has_id j) (steps_nil shortlist h) ∙ there)
    steps_within u closed (c ∷ cs) shortlist h within j there =
        let (m, h1, h2) = steps-eq-ok c cs shortlist h in
        steps_within u closed cs m h2 (step_one_within u closed c.node_id shortlist h1 within) j
          there
