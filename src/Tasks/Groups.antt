-- ===== src/Tasks/Groups.antt =====
-- What data.aggregate makes of one group: the operation on the values of the group's records.
use kemi.Prelude.{
  String, ◌≡◌, refl, sym, ap, ◌∙◌, Option, none, some, List, [], ◌∷◌, ◌++◌, str_eq, eq_iff, or_else,
  if◌then◌else◌, Bool-cases, inl, inr,
}
use mathlib.Core.List.{append_assoc, append-nil}
use kemi.Prelude.Int.{ℤ}
use kemi.Prelude.Assoc.{find, find-upsert, find-map_values, map_option}
use kemi.Json.{Value, Fields, null, bool, int, float, str, arr, obj}
use kemi.Result.{ok, >>=-eq-ok, ok-injective}
use kemi.Tasks.{
  AggregateOp, Groups, add_value, value_of, reduce_group, add_if_some, group_key, group_records,
  aggregate,
}

-- a group without values is none
abbrev pub group : List ℤ → Option (List ℤ)
group [] = none
group (v ∷ vs) = some (v ∷ vs)

or_else-group : (vs : List ℤ) → or_else (group vs) [] ≡ vs
or_else-group [] = refl
or_else-group (v ∷ vs) = refl

group-append : (vs : List ℤ) (v : ℤ) → group (vs ++ v ∷ []) ≡ some (vs ++ v ∷ [])
group-append [] v = refl
group-append (w ∷ vs) v = refl

abbrev pub listed : Option ℤ → List ℤ
listed none = []
listed (some v) = v ∷ []

module _ (show : Value → String) (op : AggregateOp) (group_by name : String) (k : String) where
  -- what a record contributes to group k
  abbrev pub contributed : Fields → List ℤ
  contributed r = if str_eq (group_key show group_by r) k then listed (value_of op name r) else []

  -- the values that the records of group k contribute
  unfoldable pub values_in : List Value → List ℤ
  values_in [] = []
  values_in (obj r ∷ rs) = contributed r ++ values_in rs
  values_in (_ ∷ rs) = values_in rs

  add_value-find :
      (key : String) (o : Option ℤ) (groups : Groups) (vs : List ℤ)
      → find k groups ≡ group vs
      → find k (add_if_some key o groups) ≡ group (vs ++ (if str_eq key k then listed o else []))
  unfolding add_value
  add_value-find key none groups vs h = elim (Bool-cases (str_eq key k)) [
    | inl same ↦ rw (same, append-nil vs) h
    | inr other ↦ rw (other, append-nil vs) h
  ]
  add_value-find key (some v) groups vs h =
      rw (find-upsert key k (or_else (find key groups) [] ++ v ∷ []) groups)
        (elim (Bool-cases (str_eq key k)) [
          | inr other ↦ rw (other, append-nil vs) h
          | inl same ↦ rw (same, (eq_iff key k).0 same, h, or_else-group vs, group-append vs v) refl
        ])

  group_records-find :
      (rs : List Value) (groups done : Groups) (vs : List ℤ)
      → find k groups ≡ group vs
      → group_records show op group_by name rs groups ≡ ok done
      → find k done ≡ group (vs ++ values_in rs)
  unfolding group_records values_in
  group_records-find [] groups done vs h run = rw (sym (ok-injective run), append-nil vs) h
  group_records-find (obj r ∷ rs) groups done vs h run =
      let key = group_key show group_by r in
      group_records-find rs (add_if_some key (value_of op name r) groups) done (vs ++ contributed r)
        (add_value-find key (value_of op name r) groups vs h) run
      ∙ ap group (append_assoc vs (contributed r) (values_in rs))
  group_records-find (null ∷ rs) groups done vs h run = cc
  group_records-find (bool b ∷ rs) groups done vs h run = cc
  group_records-find (int n ∷ rs) groups done vs h run = cc
  group_records-find (float x ∷ rs) groups done vs h run = cc
  group_records-find (str t ∷ rs) groups done vs h run = cc
  group_records-find (arr ws ∷ rs) groups done vs h run = cc

  -- Where aggregate gives a dictionary, its entry for a key is the operation on the values of the
  -- records with that key, in their order, and there is none if these records have no value.
  pub aggregate-find :
      (rs : List Value) (reduced : List (String × ℤ))
      → aggregate show op group_by name rs ≡ ok reduced
      → find k reduced ≡ map_option (reduce_group op) (group (values_in rs))
  unfolding aggregate find
  aggregate-find rs reduced h =
      let (done, run, mapped) = >>=-eq-ok (group_records show op group_by name rs []) _ h in
      rw (sym (ok-injective mapped), find-map_values (reduce_group op) k done)
        (ap (map_option (reduce_group op)) (group_records-find rs [] done [] refl run))
