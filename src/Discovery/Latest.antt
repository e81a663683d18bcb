-- ===== src/Discovery/Latest.antt =====
-- What find_providers gives: of each node the latest record that passes the tests.
use kemi.Prelude.{
  ℕ, zero, suc, String, ◌≡◌, refl, sym, ap, some, List, [], ◌∷◌, ◌⊎◌, inl, inr, map, All, get_elem?,
  ◌∙◌,
}
use kemi.Prelude.Int.{ℤ}
use kemi.Prelude.Assoc.{DistinctKeys}
use kemi.Json.{Value}
use kemi.Crypto.{Primitives}
use kemi.Result.{Error, Result-cases, ok, raise, >>=-eq-ok, ok-injective}
use kemi.Discovery.{Found, check_envelope, keep_latest, collect, find_providers}
use kemi.Discovery.Offered.{IsOffered, check-offered, check_envelope-IsOffered}
use kemi.Discovery.Table.{
  Table, HasAsNew, Keyed, keep_latest-has, keep_latest-keeps, keep_latest-Keyed,
}

module _ (p : Primitives) (difficulty : ℕ) (now : ℤ) (task : String) where
  collect-keeps :
      (es : List Value) (fresh out : Table) (r : Found)
      → collect p difficulty now task es fresh ≡ ok out
      → HasAsNew fresh r
      → HasAsNew out r
  unfolding collect
  collect-keeps [] fresh out r done has = rw (sym (ok-injective done)) has
  collect-keeps (e ∷ es) fresh out r done has =
      let (o, checked, rest) = >>=-eq-ok (check_envelope p difficulty now task e) _ done in
      collect-keeps es (keep_latest o fresh) out r rest (keep_latest-keeps o fresh r has)

  collect-has :
      (es : List Value) (fresh out : Table) (i : ℕ) (e : Value) (r : Found)
      → collect p difficulty now task es fresh ≡ ok out
      → get_elem? es i ≡ some e
      → check_envelope p difficulty now task e ≡ ok (some r)
      → HasAsNew out r
  unfolding collect
  collect-has [] fresh out i e r done there good = cc
  collect-has (x ∷ es) fresh out zero e r done there good =
      let (o, checked, rest) = >>=-eq-ok (check_envelope p difficulty now task x) _ done in
      let same : o ≡ some r = (let x_is : x ≡ e = cc in cc) in
      collect-keeps es (keep_latest o fresh) out r rest (rw same (keep_latest-has r fresh))
  collect-has (x ∷ es) fresh out (suc i) e r done there good =
      let (o, checked, rest) = >>=-eq-ok (check_envelope p difficulty now task x) _ done in
      collect-has es (keep_latest o fresh) out i e r rest there good

  collect-Keyed :
      (Q : Found → Type 0) (es : List Value) (fresh out : Table)
      → ((i : ℕ) (e : Value) (r : Found)
          → get_elem? es i ≡ some e
          → check_envelope p difficulty now task e ≡ ok (some r)
          → Q r)
      → collect p difficulty now task es fresh ≡ ok out
      → Keyed Q fresh × DistinctKeys fresh
      → Keyed Q out × DistinctKeys out
  unfolding collect
  collect-Keyed Q [] fresh out q done inv = rw (sym (ok-injective done)) inv
  collect-Keyed Q (x ∷ es) fresh out q done inv =
      let (o, checked, rest) = >>=-eq-ok (check_envelope p difficulty now task x) _ done in
      collect-Keyed Q es (keep_latest o fresh) out (λ i. q (suc i)) rest
        (keep_latest-Keyed Q o fresh (λ r same. q 0 x r refl (checked ∙ ap ok same)) inv)

  collect_raises :
      (es : List Value) (fresh : Table)
      → ((i : ℕ) × (e : Value) × (x : Error) × (get_elem? es i ≡ some e)
          × (check_envelope p difficulty now task e ≡ raise x)
          × (collect p difficulty now task es fresh ≡ raise x))
        ⊎ ((out : Table) × (collect p difficulty now task es fresh ≡ ok out))
  unfolding collect
  collect_raises [] fresh = inr (fresh, refl)
  collect_raises (e ∷ es) fresh = elim (Result-cases (check_envelope p difficulty now task e)) [
    | inl (x, bad) ↦ inl (0, e, x, refl, bad, rw bad refl)
    | inr (o, good) ↦ elim (collect_raises es (keep_latest o fresh)) [
      | inl (i, e', x, there, bad, raised) ↦ inl (suc i, e', x, there, bad, rw (good, raised) refl)
      | inr (out, done) ↦ inr (out, rw (good, done) refl)
    ]
  ]

-- the table of the records by their node ids
abbrev pub by_id : List Found → Table
by_id = map (λ (r : Found). (r.node_id, r))

values_by_id :
    (Q : Found → Type 0) (fresh : Table)
    → Keyed Q fresh
    → by_id (map (λ ((k, r) : String × Found). r) fresh) ≡ fresh
values_by_id Q [] ks = refl
values_by_id Q ((k, r) ∷ m) ks = rw (ks.0.0, values_by_id Q m ks.1) refl

values-All :
    (Q : Found → Type 0) (fresh : Table)
    → Keyed Q fresh
    → All Q (map (λ ((k, r) : String × Found). r) fresh)
values-All Q [] ks = tt
values-All Q ((k, r) ∷ m) ks = (ks.0.1, values-All Q m ks.1)

module _ (p : Primitives) (difficulty : ℕ) (now : ℤ) (task : String) (envelopes : List Value) where
  abbrev pub IsListed : Found → Type 0
  IsListed r =
      (i : ℕ) × (e : Value) × (get_elem? envelopes i ≡ some e) × IsOffered p difficulty now task e r

  -- one record of each node that offers the task, none of them older than another offer of the node
  pub record IsLatest (found : List Found) : Type 0 where
    pub distinct : DistinctKeys (by_id found)
    pub listed : All IsListed found
    pub latest :
        (i : ℕ) (e : Value) (r : Found)
        → get_elem? envelopes i ≡ some e
        → IsOffered p difficulty now task e r
        → HasAsNew (by_id found) r

  collected-IsLatest :
      (fresh : Table)
      → collect p difficulty now task envelopes [] ≡ ok fresh
      → IsLatest (map (λ ((k, r) : String × Found). r) fresh)
  collected-IsLatest fresh done =
      let (keyed, distinct) =
        collect-Keyed p difficulty now task IsListed envelopes [] fresh
          (λ i e r there good.
            (i, e, there, check_envelope-IsOffered p difficulty now task e r good))
          done (tt, tt) in
      let same = values_by_id IsListed fresh keyed in
      record {
        distinct = rw same distinct;
        listed = values-All IsListed fresh keyed;
        latest = λ i e r there offered. rw same (
            collect-has p difficulty now task envelopes [] fresh i e r done there
              (check-offered p difficulty now task e r offered));
      }

  abbrev pub IsRaised : Type 0
  IsRaised =
      (i : ℕ) × (e : Value) × (x : Error) × (get_elem? envelopes i ≡ some e)
      × (check_envelope p difficulty now task e ≡ raise x)
      × (find_providers p difficulty now task envelopes ≡ raise x)

  -- Either find_providers raises what the tests of one of the envelopes raise, or it gives at most
  -- one record for each node id, each of them an offer of the task that is among the envelopes, and
  -- to every offer among them one of the same node that is no older.
  pub find_providers-IsLatest :
      IsRaised
      ⊎ ((found : List Found) × (find_providers p difficulty now task envelopes ≡ ok found)
          × IsLatest found)
  unfolding find_providers
  find_providers-IsLatest = elim (collect_raises p difficulty now task envelopes []) [
    | inr (fresh, done) ↦
        inr
          (map (λ ((k, r) : String × Found). r) fresh, rw done refl, collected-IsLatest fresh done)
    | inl (i, e, x, there, bad, raised) ↦ inl (i, e, x, there, bad, rw raised refl)
  ]
