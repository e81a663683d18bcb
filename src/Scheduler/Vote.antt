-- ===== src/Scheduler/Vote.antt =====
-- The vote in _Scheduler.complete of consumer.py.
use kemi.Prelude.{
  ℕ, ◌+◌, ◌≤◌, ◌<◌, String, ◌≡◌, refl, sym, ◌∙◌, ap, subst, true, false, Option, some, List, [],
  ◌∷◌, ◌++◌, arith, leb, ◌==◌, ==_iff, str_eq, str_eq_self, eq_iff, if◌then◌else◌, all, length,
  length-append, is_some, All, Bool-cases, inl, inr, ◌⊎◌,
}
use kemi.Prelude.Sums.{sum_by}
use kemi.Prelude.Assoc.{find, has_key, DistinctKeys}
use kemi.Scheduler.{Chunk, Groups, add_group, winner, first_result, groups_from, fingerprints}

-- the providers of a group
group_size : ℕ → Groups → ℕ
group_size fp = sum_by (λ (g, ps). if g == fp then length ps else 0)

group_size-add_group :
    (fp f : ℕ) (p : String) (gs : Groups)
    → group_size fp (add_group f p gs) ≡ group_size fp gs + (if f == fp then 1 else 0)
unfolding add_group group_size
group_size-add_group fp f p [] = ground arith
group_size-add_group fp f p ((g, ps) ∷ gs) =
    ground (arith, group_size-add_group fp f p gs, length-append ps (p ∷ []))

first_pair :
    (g f : ℕ) (qs ps : List String)
    → ◌≡◌ {A = Option (ℕ × List String)} (some (g, qs)) (some (f, ps))
    → (g ≡ f) × (qs ≡ ps)
first_pair g f qs ps h = (cc, cc)

module _ (P : ℕ → String → Type 0) where
  abbrev pub AllGroups : Groups → Type 0
  AllGroups [] = Unit {0}
  AllGroups ((g, ps) ∷ gs) = All (P g) ps × AllGroups gs

  All-snoc :
      (fp : ℕ) (p : String) (ps : List String) → All (P fp) ps → P fp p → All (P fp) (ps ++ p ∷ [])
  All-snoc fp p [] h k = (k, tt)
  All-snoc fp p (q ∷ ps) h k = (h.0, All-snoc fp p ps h.1 k)

  AllGroups-add_group :
      (fp : ℕ) (p : String) (gs : Groups) → AllGroups gs → P fp p → AllGroups (add_group fp p gs)
  unfolding add_group
  AllGroups-add_group fp p [] h k = ((k, tt), tt)
  AllGroups-add_group fp p ((g, ps) ∷ gs) h k = elim (Bool-cases (g == fp)) [
    | inl same ↦
        rw same (All-snoc g p ps h.0 (subst (λ f. P f p) (sym ((==_iff g fp).0 same)) k), h.1)
    | inr other ↦ rw other (h.0, AllGroups-add_group fp p gs h.1 k)
  ]

  winner-AllGroups :
      (n fp : ℕ) (ps : List String) (gs : Groups)
      → winner n gs ≡ some (fp, ps)
      → AllGroups gs
      → All (P fp) ps
  unfolding winner
  winner-AllGroups n fp ps [] h k = cc
  winner-AllGroups n fp ps ((g, qs) ∷ gs) h k = elim (Bool-cases (leb n (length qs))) [
    | inl x ↦
        let both : (g ≡ fp) × (qs ≡ ps) = first_pair g fp qs ps (rw x at h) in
        subst (λ f. All (P f) ps) both.0 (subst (All (P g)) both.1 k.0)
    | inr x ↦ winner-AllGroups n fp ps gs (rw x at h) k.1
  ]

winner-le :
    (n fp : ℕ) (ps : List String) (gs : Groups)
    → winner n gs ≡ some (fp, ps)
    → (n ≤ length ps) × (length ps ≤ group_size fp gs)
unfolding winner group_size
winner-le n fp ps [] h = cc
winner-le n fp ps ((g, qs) ∷ gs) h = elim (Bool-cases (leb n (length qs))) [
  | inl x ↦
      let both = first_pair g fp qs ps (rw x at h) in
      let size = ap length both.1 in let same = (==_iff g fp).1 both.0 in ground arith
  | inr x ↦ let rest = winner-le n fp ps gs (rw x at h) in (rest.0, ground arith)
]

module _ {V : Type 0} (fingerprint : List V → ℕ) where
  -- the providers whose results have a fingerprint
  abbrev pub votes : ℕ → List (String × List V) → ℕ
  votes fp = sum_by (λ (p, r). if fingerprint r == fp then 1 else 0)

  group_size-groups_from :
      (fp : ℕ) (gs : Groups) (m : List (String × List V))
      → group_size fp (groups_from fingerprint gs m) ≡ group_size fp gs + votes fp m
  unfolding groups_from
  group_size-groups_from fp gs [] = omega arith
  group_size-groups_from fp gs ((p, r) ∷ m) = omega (
    arith,
    group_size-groups_from fp (add_group (fingerprint r) p gs) m,
    group_size-add_group fp (fingerprint r) p gs,
  )

  -- what a provider of a group returned
  abbrev pub Returned : List (String × List V) → ℕ → String → Type 0
  Returned m fp p = (r : List V) × (find p m ≡ some r) × (fingerprint r ≡ fp)

  AllGroups-groups_from :
      (all : List (String × List V)) (gs : Groups) (m : List (String × List V))
      → All (λ (p, r). find p all ≡ some r) m
      → AllGroups (Returned all) gs
      → AllGroups (Returned all) (groups_from fingerprint gs m)
  unfolding groups_from
  AllGroups-groups_from all gs [] h k = k
  AllGroups-groups_from all gs ((p, r) ∷ m) h k =
      AllGroups-groups_from all (add_group (fingerprint r) p gs) m h.1
        (AllGroups-add_group (Returned all) (fingerprint r) p gs k (r, h.0, refl))

  -- a dictionary holds what its rows say
  find_rows : (m : List (String × List V)) → DistinctKeys m → All (λ (p, r). find p m ≡ some r) m
  unfolding find
  find_rows [] d = tt
  find_rows ((k, v) ∷ m) d = (rw (str_eq_self k) refl, later m (find_rows m d.1))
    where
      later :
          (rows : List (String × List V))
          → All (λ (p, r). find p m ≡ some r) rows
          → All (λ (p, r). find p ((k, v) ∷ m) ≡ some r) rows
      later [] h = tt
      later ((p, r) ∷ rows) h = (here (Bool-cases (str_eq k p)), later rows h.1)
        where
          here : (str_eq k p ≡ true) ⊎ (str_eq k p ≡ false) → find p ((k, v) ∷ m) ≡ some r
          here (inl same) =
              let clash : has_key k m ≡ true =
                ap (λ x. has_key x m) ((eq_iff k p).0 same) ∙ ap is_some h.0 in
              cc (clash, d.0)
          here (inr other) = rw other h.0

  pub fingerprints-Returned :
      (c : Chunk V)
      → DistinctKeys c.results
      → AllGroups (Returned c.results) (fingerprints fingerprint c)
  unfolding fingerprints
  fingerprints-Returned c d =
      AllGroups-groups_from c.results [] c.results (find_rows c.results d) tt

  -- what the vote decides
  pub majority_result :
      (n fp : ℕ) (ps : List String) (c : Chunk V)
      → DistinctKeys c.results
      → 0 < n
      → winner n (fingerprints fingerprint c) ≡ some (fp, ps)
      → (v : List V) × (first_result ps c.results ≡ some v)
        × (fingerprint v ≡ fp)
        × (n ≤ votes fp c.results)
  unfolding first_result fingerprints group_size
  majority_result n fp [] c d pos_n h =
      let size = winner-le n fp [] (fingerprints fingerprint c) h in absurd (omega arith)
  majority_result n fp (p ∷ ps) c d pos_n h =
      let size = winner-le n fp (p ∷ ps) (fingerprints fingerprint c) h in
      let sum = group_size-groups_from fp [] c.results in
      let (v, found, same) =
        (winner-AllGroups (Returned c.results) n fp (p ∷ ps) (fingerprints fingerprint c) h
          (fingerprints-Returned c d)).0 in
      (v, found, same, omega arith)
