-- ===== src/Tasks.antt =====
-- kemi/tasks.py: run_task, and the tasks hash.sha256, data.aggregate, ai.generate and ai.embed. A task
-- is a function of the items and the parameters; numbers are in billionths.
pub mod Groups
pub mod Merge
mod Tests
use kemi.Prelude.{
  ℕ, zero, suc, ◌+◌, ◌*◌, ◌/◌, ◌%◌, String, Bool, true, false, not, ◌||◌, Option, none, some, List,
  [], ◌∷◌, ◌++◌, length, max, ltb, ◌==◌, str_eq, or_else, if◌then◌else◌,
}
use kemi.Prelude.Int.{ℤ, pos, negsuc, pos_part, ◌+ℤ◌, ltb_ℤ}
use kemi.Prelude.Assoc.{find, upsert, map_values}
use kemi.Json.{
  Value, Fields, null, bool, int, float, str, arr, obj, end, field, get, number, to_list, billion,
}
use kemi.Crypto.Hex.{Bytes, to_hex}
use kemi.Node.{text_of}
use kemi.Result.{Result, ok, raise, task_error, value_error, ◌>>=◌}

abbrev pub Task : Type 0
Task = List Value → Fields → Result (List Value)

-- TASKS[name](items, params), with as many results as items
unfoldable pub run_task :
    (String → Option Task) → String → List Value → Fields → Result (List Value)
run_task tasks name items params = elim (tasks name) [
  | none ↦ raise task_error
  | some task ↦
      task items params
      >>= (λ results. if length results == length items then ok results else raise task_error)
]

-- show is str, to_int is int, encode is str.encode of Python; int of what is no number raises
module _ (show : Value → String) (to_int : Value → Option ℤ) where
  abbrev pub int_param : String → ℤ → Fields → Result ℤ
  int_param name default params = elim (to_int (or_else (get name params) (int default))) [
    | none ↦ raise value_error
    | some n ↦ ok n
  ]

  abbrev pub str_param : String → String → Fields → String
  str_param name default params = text_of show (or_else (get name params) (str default))

  module _ (encode : String → Bytes) (sha256 : Bytes → Bytes) where
    -- max(1, rounds) rounds of SHA-256
    unfoldable pub hash_rounds : ℕ → Bytes → Bytes
    hash_rounds zero digest = digest
    hash_rounds (suc n) digest = hash_rounds n (sha256 digest)

    unfoldable pub hash_items : ℕ → List Value → List Value
    hash_items rounds [] = []
    hash_items rounds (item ∷ items) =
        str (to_hex (hash_rounds rounds (encode (text_of show item)))) ∷ hash_items rounds items

    unfoldable pub hash_sha256 : Task
    hash_sha256 items params = do
      rounds ← int_param "rounds" (pos 1) params
      ok (hash_items (max 1 (pos_part rounds)) items)

  -- one call of the backend for each item
  unfoldable pub generate_items : (String → Result Value) → List Value → Result (List Value)
  generate_items backend [] = ok []
  generate_items backend (item ∷ items) = do
    first ← backend (text_of show item)
    later ← generate_items backend items
    ok (first ∷ later)

  -- backend.generate of a prompt and a number of tokens, if there is a backend
  unfoldable pub ai_generate : Option (String → ℤ → Result Value) → Task
  ai_generate none items params = raise task_error
  ai_generate (some generate) items params = do
    max_tokens ← int_param "max_tokens" (pos 64) params
    generate_items (λ prompt. generate prompt max_tokens) items

  -- the method embed of the backend, if there is a backend and if it has one
  unfoldable pub ai_embed : Option (Option (String → Result Value)) → Task
  ai_embed none items params = raise task_error
  ai_embed (some none) items params = raise task_error
  ai_embed (some (some embed)) items params = generate_items embed items

-- ------------------------------------------------------------ data.aggregate

pub data AggregateOp : Type 0 where
  sum_op avg_op min_op max_op count_op : AggregateOp

unfoldable pub parse_op : String → Option AggregateOp
parse_op s =
    if str_eq s "sum"
    then some sum_op
    else if str_eq s "avg"
    then some avg_op
    else if str_eq s "min"
    then some min_op
    else if str_eq s "max"
    then some max_op
    else if str_eq s "count"
    then some count_op
    else none

-- the values of each group, in the order of the records
abbrev pub Groups : Type 0
Groups = List (String × List ℤ)

-- groups.setdefault(key, []).append(value)
unfoldable pub add_value : String → ℤ → Groups → Groups
add_value key v groups = upsert key (or_else (find key groups) [] ++ v ∷ []) groups

-- what a record adds to its group: nothing, if the field is no number
unfoldable pub value_of : AggregateOp → String → Fields → Option ℤ
value_of count_op name record_ = some (pos billion)
value_of _ name record_ = number (get name record_)

unfoldable pub total : List ℤ → ℤ
total [] = pos 0
total (v ∷ vs) = v +ℤ total vs

-- round(n / d, 9), of billionths: to the nearest, ties to even
unfoldable pub round_quotient : ℕ → ℕ → ℕ
round_quotient n d =
    let q = n / d in
    let r = 2 * (n % d) in if ltb r d then q else if ltb d r then q + 1 else q + q % 2

unfoldable pub mean : ℤ → ℕ → ℤ
mean (pos n) d = pos (round_quotient n d)
mean (negsuc n) d = elim (round_quotient (suc n) d) [ zero ↦ pos 0 | suc m ↦ negsuc m ]

unfoldable pub least : ℤ → List ℤ → ℤ
least best [] = best
least best (v ∷ vs) = least (if ltb_ℤ v best then v else best) vs

unfoldable pub greatest : ℤ → List ℤ → ℤ
greatest best [] = best
greatest best (v ∷ vs) = greatest (if ltb_ℤ best v then v else best) vs

-- a group is never empty; round(…, 9) leaves a whole number of billionths as it is
unfoldable pub reduce_group : AggregateOp → List ℤ → ℤ
reduce_group op [] = pos 0
reduce_group sum_op vs = total vs
reduce_group count_op vs = total vs
reduce_group avg_op vs = mean (total vs) (length vs)
reduce_group min_op (v ∷ vs) = least v vs
reduce_group max_op (v ∷ vs) = greatest v vs

abbrev pub add_if_some : String → Option ℤ → Groups → Groups
add_if_some key none groups = groups
add_if_some key (some v) groups = add_value key v groups

-- the key of a record: str(record.get(group_by, "∅"))
abbrev pub group_key : (Value → String) → String → Fields → String
group_key show group_by r = text_of show (or_else (get group_by r) (str "∅"))

module _ (show : Value → String) (op : AggregateOp) (group_by name : String) where
  unfoldable pub group_records : List Value → Groups → Result Groups
  group_records [] groups = ok groups
  group_records (obj r ∷ rs) groups =
      group_records rs (add_if_some (group_key show group_by r) (value_of op name r) groups)
  group_records (_ ∷ rs) groups = raise task_error

  -- what one item becomes, as the entries of a dictionary
  unfoldable pub aggregate : List Value → Result (List (String × ℤ))
  aggregate records = do groups ← group_records records []; ok (map_values (reduce_group op) groups)

  abbrev float_fields : List (String × ℤ) → Fields
  float_fields [] = end
  float_fields ((k, v) ∷ m) = field k (float v) (float_fields m)

  unfoldable pub aggregate_items : List Value → Result (List Value)
  aggregate_items [] = ok []
  aggregate_items (arr records ∷ items) = do
    reduced ← aggregate (to_list records)
    later ← aggregate_items items
    ok (obj (float_fields reduced) ∷ later)
  aggregate_items (_ ∷ items) = raise task_error

unfoldable pub data_aggregate : (Value → String) → Task
data_aggregate show items params =
    let op = text_of show (or_else (get "op" params) (str "sum")) in
    elim (parse_op op) [
      | none ↦ raise task_error
      | some op' ↦
          aggregate_items show op' (text_of show (or_else (get "group_by" params) (str "")))
            (text_of show (or_else (get "field" params) (str ""))) items
    ]
