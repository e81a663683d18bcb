-- ===== src/Dht/Contacts.antt =====
-- kemi/dht.py: contacts, their form on the wire, and the XOR distance of two ids.
pub mod Sorting
pub mod Ranking
use Prim.Native.Nat.{bit_xor}
use kemi.Prelude.{
  ℕ, suc, ◌+◌, String, Bool, true, false, Option, none, some, List, [], ◌∷◌, map, take, ◌==◌, any,
  str_eq, if◌then◌else◌,
}
use kemi.Prelude.Int.{ℤ, pos, negsuc, ltb_ℤ}
use kemi.Json.{
  Value, Fields, Items, null, bool, int, float, str, obj, arr, end, field, nil, cons, to_list,
}
use kemi.Result.{Result, ok, raise, type_error, ◌>>=◌}

-- K, ALPHA
abbrev pub bucket_size : ℕ
bucket_size = 8

abbrev pub alpha : ℕ
alpha = 3

pub record Contact : Type 0 where
  pub node_id : String
  pub host : String
  pub port : ℤ

unfoldable pub as_wire : Contact → Value
as_wire c = arr (cons (str c.node_id) (cons (str c.host) (cons (int c.port) nil)))

-- a ^ b of Python: ~n is -(n + 1)
unfoldable pub xor_ℤ : ℤ → ℤ → ℤ
xor_ℤ (pos a) (pos b) = pos (bit_xor a b)
xor_ℤ (pos a) (negsuc b) = negsuc (bit_xor a b)
xor_ℤ (negsuc a) (pos b) = negsuc (bit_xor a b)
xor_ℤ (negsuc a) (negsuc b) = pos (bit_xor a b)

abbrev pub has_id : String → List Contact → Bool
has_id id = any (λ (c : Contact). str_eq c.node_id id)

-- the three values that item unpacks to; of a text they are single characters, and no id
unfoldable pub unpack : Value → Option (Value × Value × Value)
unpack (arr (cons a (cons b (cons c nil)))) = some (a, b, c)
unpack (obj (field a u (field b v (field c w end)))) = some (str a, str b, str c)
unpack _ = none

-- show is str of Python, to_int is int, where none stands for a TypeError or a ValueError
module _ (show : Value → String) (to_int : Value → Option ℤ) where
  abbrev contact_of : Value → Value → Value → Option Contact
  contact_of (str node_id) host port =
      if Prim.Native.String.count node_id == 64
      then elim (to_int port) [
        | none ↦ none
        | some n ↦ some (record { node_id = node_id; host = show host; port = n })
      ]
      else none
  contact_of _ host port = none

  unfoldable pub from_wire : Value → Option Contact
  from_wire item = elim (unpack item) [ none ↦ none | some (a, b, c) ↦ contact_of a b c ]

  unfoldable pub decode : List Value → List Contact
  decode [] = []
  decode (item ∷ items) = elim (from_wire item) [ none ↦ decode items | some c ↦ c ∷ decode items ]

-- `for item in nodes`: the characters of a text and the keys of an object are no contacts
unfoldable pub iterate : Value → Result (List Value)
iterate (arr vs) = ok (to_list vs)
iterate (str s) = ok []
iterate (obj fs) = ok []
iterate _ = raise type_error

-- int16 is int(s, 16) of Python
module _ (int16 : String → Result ℤ) where
  unfoldable pub distance : String → String → Result ℤ
  distance a b = do x ← int16 a; y ← int16 b; ok (xor_ℤ x y)

  -- the sort keys of the contacts
  unfoldable pub keyed : String → List Contact → Result (List (ℤ × Contact))
  keyed target [] = ok []
  keyed target (c ∷ cs) = do
    d ← distance c.node_id target
    rest ← keyed target cs
    ok ((d, c) ∷ rest)

-- list.sort is stable: an equal key stays behind those before it
unfoldable pub insert_keyed : ℤ × Contact → List (ℤ × Contact) → List (ℤ × Contact)
insert_keyed x [] = x ∷ []
insert_keyed x (y ∷ ys) = if ltb_ℤ y.0 x.0 then y ∷ insert_keyed x ys else x ∷ y ∷ ys

unfoldable pub sort_keyed : List (ℤ × Contact) → List (ℤ × Contact)
sort_keyed [] = []
sort_keyed (x ∷ xs) = insert_keyed x (sort_keyed xs)

module _ (int16 : String → Result ℤ) where
  unfoldable pub ranked : String → ℕ → List Contact → Result (List Contact)
  ranked target count cs = do
    ks ← keyed int16 target cs
    ok (map (λ (d, c). c) (take count (sort_keyed ks)))
