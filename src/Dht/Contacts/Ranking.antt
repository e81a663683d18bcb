-- ===== src/Dht/Contacts/Ranking.antt =====
-- What ranked gives: contacts of the list, the nearest ones, and all of them or as many as asked for.
use kemi.Prelude.{
  ℕ, zero, suc, ◌<◌, String, ◌≡◌, ◌⊎◌, inl, inr, refl, sym, ap, subst, ◌∙◌, Bool, true, ◌||◌, List,
  [], ◌∷◌, arith, map, take, length, any, All, str_eq, eq_iff, length-take,
}
use kemi.Prelude.Int.{ℤ, ◌≤ℤ◌}
use kemi.Result.{Result, ok, >>=-eq-ok, ok-injective}
use kemi.Crypto.Octets.{All-take}
use kemi.Dht.Contacts.{Contact, has_id, distance, keyed, sort_keyed, ranked}
use kemi.Dht.Contacts.Sorting.{
  Entry, of_id, any-sort_keyed, All-sort_keyed, sort_keyed-Sorted, length-sort_keyed, any-take,
}

-- ------------------------------------------------------------ ranked

any-map :
    {A B : Type 0} (f : B → Bool) (g : A → B) (xs : List A)
    → any f (map g xs) ≡ any (λ x. f (g x)) xs
any-map f g [] = refl
any-map f g (x ∷ xs) = ap (◌||◌ (f (g x))) (any-map f g xs)

length-contacts : (xs : List Entry) → length (map (λ (d, c). c) xs) ≡ length xs
length-contacts [] = refl
length-contacts (x ∷ xs) = ap (λ (k : ℕ). suc k) (length-contacts xs)

any-take-le :
    (f : Entry → Bool) (n : ℕ) (xs : List Entry) → any f (take n xs) ≡ true → any f xs ≡ true
any-take-le f zero xs h = cc
any-take-le f (suc n) [] h = h
any-take-le f (suc n) (x ∷ xs) h = ground (arith, any-take-le f n xs)

module _ (int16 : String → Result ℤ) (target : String) where
  abbrev IsKeyed : Entry → Type 0
  IsKeyed e = distance int16 e.1.node_id target ≡ ok e.0

  keyed-eq-ok :
      (cs : List Contact) {ks : List Entry}
      → keyed int16 target cs ≡ ok ks
      → (map (λ (d, c). c) ks ≡ cs) × All IsKeyed ks
  unfolding keyed
  keyed-eq-ok [] {ks} h =
      subst (λ l. (map (λ (d, c). c) l ≡ []) × All IsKeyed l) (ok-injective h) (refl, tt)
  keyed-eq-ok (c ∷ cs) {ks} h =
      let (d, hd, h') = >>=-eq-ok (distance int16 c.node_id target) _ h in
      let (rest, hrest, h'') = >>=-eq-ok (keyed int16 target cs) _ h' in
      let (same, all) = keyed-eq-ok cs hrest in
      subst (λ l. (map (λ (d, c). c) l ≡ c ∷ cs) × All IsKeyed l) (ok-injective h'')
        (ap (◌∷◌ c) same, (hd, all))

  -- a contact that is nearer to the target than an id, or as near
  abbrev pub IsNearer : String → Contact → Type 0
  IsNearer id c =
      (a : ℤ) × (b : ℤ) × (distance int16 c.node_id target ≡ ok a)
      × (distance int16 id target ≡ ok b)
      × (a ≤ℤ b)

  module _ (n : ℕ) (cs : List Contact) {found : List Contact}
      (h : ranked int16 target n cs ≡ ok found) where
    ranked-eq-ok :
        (ks : List Entry) × (map (λ (d, c). c) ks ≡ cs)
        × All IsKeyed ks
        × (map (λ (d, c). c) (take n (sort_keyed ks)) ≡ found)
    unfolding ranked
    ranked-eq-ok =
        let (ks, hk, h') = >>=-eq-ok (keyed int16 target cs) _ h in
        let (same, all) = keyed-eq-ok cs hk in (ks, same, all, cc)

    any_found :
        (f : Contact → Bool) (ks : List Entry)
        → map (λ (d, c). c) ks ≡ cs
        → any (λ (e : Entry). f e.1) (sort_keyed ks) ≡ any f cs
    any_found f ks same =
        any-sort_keyed (λ (e : Entry). f e.1) ks
        ∙ sym (any-map f (λ (e : Entry). e.1) ks)
        ∙ ap (any f) same

    -- only contacts of the list are ranked
    pub any_of_ranked : (f : Contact → Bool) → any f found ≡ true → any f cs ≡ true
    any_of_ranked f hf =
        let (ks, same, all, is) = ranked-eq-ok in
        let inside : any f (map (λ (d, c). c) (take n (sort_keyed ks))) ≡ true =
          ap (any f) is ∙ hf in
        sym (any_found f ks same)
        ∙ any-take-le _ n (sort_keyed ks)
            (sym (any-map f (λ (e : Entry). e.1) (take n (sort_keyed ks))) ∙ inside)

    -- a contact of the list is ranked, or there are n ranked ones and all are nearer
    pub ranked_or_beyond :
        (id : String)
        → has_id id cs ≡ true
        → (has_id id found ≡ true) ⊎ ((length found ≡ n) × All (IsNearer id) found)
    ranked_or_beyond id hid =
        let (ks, same, all, is) = ranked-eq-ok in
        let inside : any (of_id id) (sort_keyed ks) ≡ true =
          any_found (λ (c : Contact). str_eq c.node_id id) ks same ∙ hid in
        elim (any-take (of_id id) n (sort_keyed ks) IsKeyed (sort_keyed-Sorted ks)
          (All-sort_keyed IsKeyed ks all) inside) [
            | inl taken ↦ inl (
                rw (sym is)
                  (any-map (λ (c : Contact). str_eq c.node_id id) (λ (e : Entry). e.1) _ ∙ taken))
            | inr (e, fe, pe, full, near) ↦ inr (
              rw (sym is) (length-contacts _ ∙ full),
              rw (sym is) (
                  nearer e (subst (λ j. distance int16 j target ≡ ok e.0) ((eq_iff _ _).0 fe) pe) _
                    near (All-take IsKeyed n _ (All-sort_keyed IsKeyed ks all))),
            )
          ]
      where
        nearer :
            (e : Entry)
            → distance int16 id target ≡ ok e.0
            → (xs : List Entry) → All (λ (y : Entry). y.0 ≤ℤ e.0) xs
            → All IsKeyed xs
            → All (IsNearer id) (map (λ (d, c). c) xs)
        nearer e pe [] near keys = tt
        nearer e pe (x ∷ xs) (near, nears) (k, keys) =
            ((x.0, e.0, k, pe, near), nearer e pe xs nears keys)

    -- nothing is ranked only if there is nothing
    pub nil_of_ranked : found ≡ [] → (0 < n) → cs ≡ []
    nil_of_ranked none_found pos_n =
        let (ks, same, all, is) = ranked-eq-ok in
        let short : length (map (λ (d, c). c) (take n (sort_keyed ks))) ≡ 0 =
          ap length (is ∙ none_found) in
        let empty : length ks ≡ 0 = omega (
          arith,
          length-contacts (take n (sort_keyed ks)),
          length-take n (sort_keyed ks),
          length-sort_keyed ks,
        ) in
        sym same ∙ ap (map (λ (d, c). c)) (nil_of_length ks empty)
      where
        nil_of_length : (xs : List Entry) → length xs ≡ 0 → xs ≡ []
        nil_of_length [] e = refl
        nil_of_length (x ∷ xs) e = absurd (omega arith)
