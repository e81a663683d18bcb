-- ===== src/Tasks/Tests.antt =====
-- Two chunks of records, by city.
use kemi.Prelude.{ℕ, String, ◌≡◌, refl, some, List, [], ◌∷◌, ◌++◌}
use kemi.Prelude.Int.{ℤ, pos, ◌+ℤ◌}
use kemi.Prelude.Assoc.{find, upsert, map_values, map_option}
use kemi.Json.{Value, str, float, int, obj, arr, end, field, get, number, to_list, of_list}
use kemi.Result.{ok, raise, task_error}
use kemi.Tasks.{
  sum_op, min_op, least, add_value, value_of, total, reduce_group, group_records, aggregate,
  parse_op, data_aggregate, aggregate_items, run_task, mean, round_quotient,
}
use kemi.Tasks.Groups.{values_in, group, aggregate-find}
use kemi.Tasks.Merge.{merged, aggregate-merge}

abbrev show : Value → String
show v = ""

abbrev sale : String → ℕ → Value
sale city n = obj (field "city" (str city) (field "n" (float (pos n)) end))

abbrev monday : List Value
monday = sale "izmir" 3 ∷ sale "ankara" 5 ∷ sale "izmir" 4 ∷ []

-- a sale without a number
abbrev tuesday : List Value
tuesday = sale "izmir" 2 ∷ obj (field "city" (str "ankara") end) ∷ []

abbrev monday_sums : List (String × ℤ)
monday_sums = ("izmir", pos 7) ∷ ("ankara", pos 5) ∷ []

monday_is_summed : aggregate show sum_op "city" "n" monday ≡ ok monday_sums
unfolding aggregate group_records add_value value_of total reduce_group get number find upsert
    map_values ◌+ℤ◌
monday_is_summed = refl

-- 3.5 billionths go to the even 4
mean_of_izmir :
    run_task
      (λ name. some (data_aggregate show))
      "data.aggregate"
      (arr (of_list monday) ∷ [])
      (field "op" (str "avg") (field "group_by" (str "city") (field "field" (str "n") end)))
    ≡ ok (obj (field "izmir" (float (pos 4)) (field "ankara" (float (pos 5)) end)) ∷ [])
unfolding run_task data_aggregate aggregate_items parse_op aggregate group_records add_value
    value_of total reduce_group mean round_quotient get number find upsert map_values to_list
    of_list ◌+ℤ◌
mean_of_izmir = refl

not_a_list :
    run_task (λ name. some (data_aggregate show)) "data.aggregate" (int (pos 1) ∷ []) end
    ≡ raise task_error
unfolding run_task data_aggregate aggregate_items parse_op get
not_a_list = refl

aggregate-find_example :
    find "izmir" monday_sums
    ≡ map_option (reduce_group sum_op) (group (values_in show sum_op "city" "n" "izmir" monday))
aggregate-find_example =
    aggregate-find show sum_op "city" "n" "izmir" monday monday_sums monday_is_summed

abbrev monday_least : List (String × ℤ)
monday_least = ("izmir", pos 3) ∷ ("ankara", pos 5) ∷ []

abbrev tuesday_least : List (String × ℤ)
tuesday_least = ("izmir", pos 2) ∷ []

monday_has_least : aggregate show min_op "city" "n" monday ≡ ok monday_least
unfolding aggregate group_records add_value value_of least reduce_group get number find upsert
    map_values
monday_has_least = refl

tuesday_has_least : aggregate show min_op "city" "n" tuesday ≡ ok tuesday_least
unfolding aggregate group_records add_value value_of least reduce_group get number find upsert
    map_values
tuesday_has_least = refl

aggregate-merge_example :
    (c : List (String × ℤ)) × (aggregate show min_op "city" "n" (monday ++ tuesday) ≡ ok c)
    × (find "izmir" c ≡ merged min_op (find "izmir" monday_least) (find "izmir" tuesday_least))
aggregate-merge_example =
    aggregate-merge show min_op "city" "n" "izmir" monday tuesday monday_least tuesday_least refl
      monday_has_least tuesday_has_least
