-- ===== src/Node/Cache.antt =====
-- kemi/node.py: the content-addressed result cache of _execute_chunk.
-- A key is the digest of the task, the items and the parameters; compute is the run of the task, sandboxed
-- or not, taken to be a function of the key.
use kemi.Prelude.{
  ℕ, zero, suc, ◌+◌, ◌-◌, ◌≤◌, ◌≡◌, refl, sym, ◌∙◌, ap, not, Option, none, some, List, [], ◌∷◌,
  ◌++◌, ◌==◌, ==_iff, arith, drop, keep, length, length-append, length-drop, length-keep-le,
  if◌then◌else◌, All, Bool-cases, Option-cases, inl, inr,
}

pub record Cache (R : Type 0) : Type 0 where
  pub capacity : ℕ
  -- the least recently used entry first
  pub entries : List (ℕ × R)
  pub hits : ℕ
  pub misses : ℕ

module _ {R : Type 0} where
  unfoldable pub lookup : ℕ → List (ℕ × R) → Option R
  lookup k [] = none
  lookup k ((j, r) ∷ m) = if j == k then some r else lookup k m

  abbrev pub without : ℕ → List (ℕ × R) → List (ℕ × R)
  without k = keep (λ (j, r). not (j == k))

  -- move_to_end
  unfoldable pub touch_entry : ℕ → R → List (ℕ × R) → List (ℕ × R)
  touch_entry k r m = without k m ++ (k, r) ∷ []

  -- cache[key] = results, then popitem(last=False) while it is too long; the key was not there
  unfoldable pub insert_entry : ℕ → ℕ → R → List (ℕ × R) → List (ℕ × R)
  insert_entry capacity k r m =
      let longer = m ++ (k, r) ∷ [] in drop (length longer - capacity) longer

  abbrev store_result : ℕ → Option R → Cache R → Option R × Cache R
  store_result k none c = (none, c)
  store_result k (some r) c = (some r, record c { entries = insert_entry c.capacity k r c.entries })

  abbrev serve_key : ℕ → Option R → Option R → Cache R → Option R × Cache R
  serve_key k (some r) computed c =
      (some r, record c { entries = touch_entry k r c.entries; hits = c.hits + 1 })
  serve_key k none computed c = store_result k computed (record c { misses = c.misses + 1 })

  -- a task that may not be cached has no key; none is a task that fails
  unfoldable pub execute_chunk : (ℕ → Option R) → Option ℕ → Option R → Cache R → Option R × Cache R
  execute_chunk compute none uncached c = (uncached, c)
  execute_chunk compute (some k) uncached c = serve_key k (lookup k c.entries) (compute k) c

  -- entries that hold what the tasks compute, no more of them than the capacity
  pub record IsFaithful (compute : ℕ → Option R) (c : Cache R) : Type 0 where
    pub correct : All (λ (k, r). compute k ≡ some r) c.entries
    pub fits : length c.entries ≤ c.capacity

  module _ (compute : ℕ → Option R) where
    abbrev Correct : List (ℕ × R) → Type 0
    Correct = All (λ (k, r). compute k ≡ some r)

    lookup-Correct :
        (k : ℕ) (r : R) (m : List (ℕ × R)) → Correct m → lookup k m ≡ some r → compute k ≡ some r
    unfolding lookup
    lookup-Correct k r [] h q = cc
    lookup-Correct k r ((j, s) ∷ m) h q = elim (Bool-cases (j == k)) [
      | inl same ↦ sym (ap compute ((==_iff j k).0 same)) ∙ h.0 ∙ (rw same at q)
      | inr other ↦ lookup-Correct k r m h.1 (rw other at q)
    ]

    without-Correct : (k : ℕ) (m : List (ℕ × R)) → Correct m → Correct (without k m)
    without-Correct k [] h = tt
    without-Correct k ((j, s) ∷ m) h = elim (Bool-cases (j == k)) [
      | inl same ↦ rw same (without-Correct k m h.1)
      | inr other ↦ rw other (h.0, without-Correct k m h.1)
    ]

    snoc-Correct :
        (k : ℕ) (r : R) (m : List (ℕ × R))
        → Correct m
        → compute k ≡ some r
        → Correct (m ++ (k, r) ∷ [])
    snoc-Correct k r [] h q = (q, tt)
    snoc-Correct k r ((j, s) ∷ m) h q = (h.0, snoc-Correct k r m h.1 q)

    drop-Correct : (n : ℕ) (m : List (ℕ × R)) → Correct m → Correct (drop n m)
    drop-Correct zero m h = h
    drop-Correct (suc n) [] h = tt
    drop-Correct (suc n) (e ∷ m) h = drop-Correct n m h.1

    without-lt :
        (k : ℕ) (r : R) (m : List (ℕ × R))
        → lookup k m ≡ some r
        → length (without k m) + 1 ≤ length m
    unfolding lookup
    without-lt k r [] q = cc
    without-lt k r ((j, s) ∷ m) q = elim (Bool-cases (j == k)) [
      | inl same ↦
          rw same (let shorter = length-keep-le (λ ((i, t) : ℕ × R). not (i == k)) m in omega arith)
      | inr other ↦ rw other (let rest = without-lt k r m (rw other at q) in omega arith)
    ]

    -- On a faithful cache, a cacheable chunk is answered with what its task computes, from memory or
    -- afresh, and the cache stays faithful: its entries are right and no more than the capacity.
    pub execute_chunk-IsFaithful :
        (k : ℕ) (uncached : Option R) (c : Cache R)
        → IsFaithful compute c
        → ((execute_chunk compute (some k) uncached c).0 ≡ compute k)
          × IsFaithful compute (execute_chunk compute (some k) uncached c).1
    unfolding execute_chunk
    execute_chunk-IsFaithful k uncached c h = elim (Option-cases (lookup k c.entries)) [
      | inr (r, hit) ↦
          rw (hit, execute_chunk)
            (
              sym (lookup-Correct k r c.entries h.correct hit),
              record {
                correct =
                    unfold touch_entry in
                    snoc-Correct k r (without k c.entries) (without-Correct k c.entries h.correct)
                      (lookup-Correct k r c.entries h.correct hit);
                fits =
                    unfold touch_entry in
                    (let sum = length-append (without k c.entries) ((k, r) ∷ []) in
                      let shorter = without-lt k r c.entries hit in
                      let old = h.fits in omega arith);
              },
            )
      | inl missing ↦ elim (Option-cases (compute k)) [
        | inl failed ↦
            rw (missing, failed, execute_chunk)
              (refl, record { correct = h.correct; fits = h.fits })
        | inr (r, computed) ↦
            rw (missing, computed, execute_chunk)
              (
                refl,
                record {
                  correct =
                      unfold insert_entry in
                      drop-Correct (length (c.entries ++ (k, r) ∷ []) - c.capacity)
                        (c.entries ++ (k, r) ∷ []) (snoc-Correct k r c.entries h.correct computed);
                  fits =
                      unfold insert_entry in
                      (let rest =
                          length-drop (length (c.entries ++ (k, r) ∷ []) - c.capacity)
                            (c.entries ++ (k, r) ∷ []) in
                        omega arith);
                },
              )
      ]
    ]
