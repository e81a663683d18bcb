-- ===== src/Json.antt =====
-- The JSON values that Python's json module hands to kemi/*.py, and the tests made on them.
-- A float is a whole number of billionths: amounts and times are decimal fractions, and the
-- non-finite floats that json.loads also reads are left out.
use kemi.Prelude.{
  ℕ, suc, ◌+◌, ◌-◌, ◌*◌, ◌/◌, ◌%◌, String, Bool, true, false, Option, none, some, List, [], ◌∷◌,
  ltb, str_eq, if◌then◌else◌,
}
use kemi.Prelude.Int.{ℤ, pos, negsuc}

mutual
  pub data Value : Type 0 where
    null : Value
    bool : Bool → Value
    int : ℤ → Value
    float : ℤ → Value
    str : String → Value
    obj : Fields → Value
    arr : Items → Value

  -- the key-value pairs of an object
  pub data Fields : Type 0 where
    end : Fields
    field : String → Value → Fields → Fields

  pub data Items : Type 0 where
    nil : Items
    cons : Value → Items → Items

-- d.get(k): the keys of a parsed object are distinct
unfoldable pub get : String → Fields → Option Value
get k end = none
get k (field j v fs) = if str_eq j k then some v else get k fs

unfoldable pub to_list : Items → List Value
to_list nil = []
to_list (cons v vs) = v ∷ to_list vs

unfoldable pub of_list : List Value → Items
of_list [] = nil
of_list (v ∷ vs) = cons v (of_list vs)

abbrev pub billion : ℕ
billion = 1_000_000_000

-- n * 10^9
abbrev pub billions : ℤ → ℤ
billions (pos n) = pos (n * billion)
billions (negsuc n) = negsuc (suc n * billion - 1)

-- the number that passes isinstance(v, (int, float)), in billionths: a bool is an int
unfoldable pub number : Option Value → Option ℤ
number (some (bool true)) = some (pos billion)
number (some (bool false)) = some (pos 0)
number (some (int n)) = some (billions n)
number (some (float x)) = some x
number _ = none

-- the number that passes isinstance(v, int)
unfoldable pub integer : Option Value → Option ℤ
integer (some (bool true)) = some (pos 1)
integer (some (bool false)) = some (pos 0)
integer (some (int n)) = some n
integer _ = none

unfoldable pub text : Option Value → Option String
text (some (str s)) = some s
text _ = none

-- v == s for a text s
unfoldable pub is_text : String → Option Value → Bool
is_text s (some (str t)) = str_eq t s
is_text s _ = false

-- round(x, 6) of a non-negative float: to the nearest millionth, ties to even
unfoldable pub round_micro : ℕ → ℕ
round_micro x =
    let q = x / 1000 in
    let r = x % 1000 in if ltb r 500 then q else if ltb 500 r then q + 1 else q + q % 2
