-- ===== src/Tasks/Merge.antt =====
-- The partial results of the chunks of a dataset merge to the result of the whole.
use kemi.Prelude.{
  String, ◌≡◌, refl, sym, ap, ap₂, ◌∙◌, Bool, true, false, List, [], ◌∷◌, ◌++◌, Option, none, some,
  arith, if◌then◌else◌,
}
use mathlib.Core.List.{append_assoc, append-nil}
use kemi.Prelude.Int.{ℤ, pos, ◌+ℤ◌, ltb_ℤ, int_laws, eq_of_parts}
use kemi.Prelude.Assoc.{find, map_values, map_option}
use kemi.Json.{Value, null, bool, int, float, str, arr, obj}
use kemi.Result.{ok, ◌>>=◌, >>=-eq-ok}
use kemi.Tasks.{
  AggregateOp, sum_op, avg_op, min_op, max_op, count_op, Groups, total, least, greatest,
  reduce_group, group_records, aggregate,
}
use kemi.Tasks.Groups.{group, values_in, contributed, aggregate-find}

total-append : (xs ys : List ℤ) → total (xs ++ ys) ≡ total xs +ℤ total ys
unfolding total
total-append [] ys = eq_of_parts (total ys) (pos 0 +ℤ total ys) (omega int_laws)
total-append (x ∷ xs) ys =
    ap (λ (t : ℤ). x +ℤ t) (total-append xs ys)
    ∙ eq_of_parts (x +ℤ (total xs +ℤ total ys)) ((x +ℤ total xs) +ℤ total ys) (omega int_laws)

-- the operations whose partial results are exact: sum and avg round what each chunk gives
abbrev pub is_mergeable : AggregateOp → Bool
is_mergeable count_op = true
is_mergeable min_op = true
is_mergeable max_op = true
is_mergeable _ = false

abbrev pub lesser : ℤ → ℤ → ℤ
lesser a b = if ltb_ℤ b a then b else a

abbrev pub greater : ℤ → ℤ → ℤ
greater a b = if ltb_ℤ a b then b else a

abbrev pub combine : AggregateOp → ℤ → ℤ → ℤ
combine min_op a b = lesser a b
combine max_op a b = greater a b
combine _ a b = a +ℤ b

-- the entries that two chunks have for a key, where a chunk may have none
abbrev pub merged : AggregateOp → Option ℤ → Option ℤ → Option ℤ
merged op none o = o
merged op (some a) none = some a
merged op (some a) (some b) = some (combine op a b)

lesser_assoc : (a b c : ℤ) → lesser (lesser a b) c ≡ lesser a (lesser b c)
lesser_assoc a b c = ground arith

greater_assoc : (a b c : ℤ) → greater (greater a b) c ≡ greater a (greater b c)
greater_assoc a b c = ground arith

least-lesser : (a b : ℤ) (vs : List ℤ) → least (lesser a b) vs ≡ lesser a (least b vs)
unfolding least
least-lesser a b [] = refl
least-lesser a b (v ∷ vs) =
    ap (λ x. least x vs) (lesser_assoc a b v) ∙ least-lesser a (lesser b v) vs

least-append :
    (a b : ℤ) (vs ws : List ℤ) → least a (vs ++ b ∷ ws) ≡ lesser (least a vs) (least b ws)
unfolding least
least-append a b [] ws = least-lesser a b ws
least-append a b (v ∷ vs) ws = least-append (lesser a v) b vs ws

greatest-greater : (a b : ℤ) (vs : List ℤ) → greatest (greater a b) vs ≡ greater a (greatest b vs)
unfolding greatest
greatest-greater a b [] = refl
greatest-greater a b (v ∷ vs) =
    ap (λ x. greatest x vs) (greater_assoc a b v) ∙ greatest-greater a (greater b v) vs

greatest-append :
    (a b : ℤ) (vs ws : List ℤ) → greatest a (vs ++ b ∷ ws) ≡ greater (greatest a vs) (greatest b ws)
unfolding greatest
greatest-append a b [] ws = greatest-greater a b ws
greatest-append a b (v ∷ vs) ws = greatest-append (greater a v) b vs ws

reduced : AggregateOp → List ℤ → Option ℤ
reduced op vs = map_option (reduce_group op) (group vs)

reduced-append :
    (op : AggregateOp) (vs ws : List ℤ)
    → is_mergeable op ≡ true
    → reduced op (vs ++ ws) ≡ merged op (reduced op vs) (reduced op ws)
unfolding reduced reduce_group
reduced-append op [] ws h = refl
reduced-append op (v ∷ vs) [] h = rw (append-nil vs) refl
reduced-append count_op (v ∷ vs) (w ∷ ws) h =
    ap (λ (x : ℤ). some x) (total-append (v ∷ vs) (w ∷ ws))
reduced-append min_op (v ∷ vs) (w ∷ ws) h = ap (λ (x : ℤ). some x) (least-append v w vs ws)
reduced-append max_op (v ∷ vs) (w ∷ ws) h = ap (λ (x : ℤ). some x) (greatest-append v w vs ws)
reduced-append sum_op (v ∷ vs) (w ∷ ws) h = cc
reduced-append avg_op (v ∷ vs) (w ∷ ws) h = cc

module _ (show : Value → String) (op : AggregateOp) (group_by name : String) where
  group_records-append :
      (xs ys : List Value) (groups : Groups)
      → group_records show op group_by name (xs ++ ys) groups ≡ (
          group_records show op group_by name xs groups
          >>= (λ g. group_records show op group_by name ys g))
  unfolding group_records
  group_records-append [] ys groups = refl
  group_records-append (obj r ∷ xs) ys groups = group_records-append xs ys _
  group_records-append (null ∷ xs) ys groups = refl
  group_records-append (bool b ∷ xs) ys groups = refl
  group_records-append (int n ∷ xs) ys groups = refl
  group_records-append (float x ∷ xs) ys groups = refl
  group_records-append (str s ∷ xs) ys groups = refl
  group_records-append (arr vs ∷ xs) ys groups = refl

  -- records that are all objects are grouped onto any groups
  group_records-onto :
      (xs : List Value) (groups onto : Groups) {done : Groups}
      → group_records show op group_by name xs groups ≡ ok done
      → (d : Groups) × (group_records show op group_by name xs onto ≡ ok d)
  unfolding group_records
  group_records-onto [] groups onto h = (onto, refl)
  group_records-onto (obj r ∷ xs) groups onto h = group_records-onto xs _ _ h
  group_records-onto (null ∷ xs) groups onto h = cc
  group_records-onto (bool b ∷ xs) groups onto h = cc
  group_records-onto (int n ∷ xs) groups onto h = cc
  group_records-onto (float x ∷ xs) groups onto h = cc
  group_records-onto (str s ∷ xs) groups onto h = cc
  group_records-onto (arr vs ∷ xs) groups onto h = cc

  values_in-append :
      (k : String) (xs ys : List Value)
      → values_in show op group_by name k (xs ++ ys)
        ≡ values_in show op group_by name k xs ++ values_in show op group_by name k ys
  unfolding values_in
  values_in-append k [] ys = refl
  values_in-append k (obj r ∷ xs) ys = rw (values_in-append k xs ys) (
      sym (
        append_assoc (contributed show op group_by name k r) (values_in show op group_by name k xs)
          (values_in show op group_by name k ys)))
  values_in-append k (null ∷ xs) ys = values_in-append k xs ys
  values_in-append k (bool b ∷ xs) ys = values_in-append k xs ys
  values_in-append k (int n ∷ xs) ys = values_in-append k xs ys
  values_in-append k (float x ∷ xs) ys = values_in-append k xs ys
  values_in-append k (str s ∷ xs) ys = values_in-append k xs ys
  values_in-append k (arr vs ∷ xs) ys = values_in-append k xs ys

  aggregate_both :
      (xs ys : List Value) (a b : List (String × ℤ))
      → aggregate show op group_by name xs ≡ ok a
      → aggregate show op group_by name ys ≡ ok b
      → (c : List (String × ℤ)) × (aggregate show op group_by name (xs ++ ys) ≡ ok c)
  unfolding aggregate
  aggregate_both xs ys a b ha hb =
      let (g, first, rest) = >>=-eq-ok (group_records show op group_by name xs []) _ ha in
      let (g', second, rest') = >>=-eq-ok (group_records show op group_by name ys []) _ hb in
      let (d, onto) = group_records-onto ys [] g second in
      (map_values (reduce_group op) d, rw (group_records-append xs ys [], first, onto) refl)

  -- Where two chunks of records can be aggregated, so can the records of both together. For count,
  -- min and max, the whole has for a key the sum, the lesser or the greater of the values that the
  -- chunks have for it, the one value where one chunk has none, and none where both have none.
  pub aggregate-merge :
      (k : String) (xs ys : List Value) (a b : List (String × ℤ))
      → is_mergeable op ≡ true
      → aggregate show op group_by name xs ≡ ok a
      → aggregate show op group_by name ys ≡ ok b
      → (c : List (String × ℤ)) × (aggregate show op group_by name (xs ++ ys) ≡ ok c)
        × (find k c ≡ merged op (find k a) (find k b))
  unfolding reduced
  aggregate-merge k xs ys a b exact ha hb =
      let (c, whole) = aggregate_both xs ys a b ha hb in
      let values = values_in show op group_by name k in
      (
        c,
        whole,
        aggregate-find show op group_by name k (xs ++ ys) c whole
            ∙ ap (reduced op) (values_in-append k xs ys)
            ∙ reduced-append op (values xs) (values ys) exact
            ∙ ap₂ (merged op) (sym (aggregate-find show op group_by name k xs a ha))
                (sym (aggregate-find show op group_by name k ys b hb)),
      )
