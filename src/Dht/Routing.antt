-- ===== src/Dht/Routing.antt =====
-- kemi/dht.py: RoutingTable, the k-buckets by the length of the prefix shared with the own id.
pub mod Bounds
use kemi.Prelude.{
  ℕ, zero, suc, ◌+◌, ◌-◌, String, Bool, true, false, not, Option, none, some, List, [], ◌∷◌, ◌++◌,
  keep, length, drop, ◌==◌, str_eq, if◌then◌else◌,
}
use kemi.Prelude.Int.{ℤ, pos, negsuc}
use kemi.Crypto.{bit_length}
use kemi.Result.{Result, ok, ◌>>=◌}
use kemi.Dht.Contacts.{Contact, bucket_size, distance, ranked}

-- a bucket is in the order of insertion, the most recently seen last
pub record RoutingTable : Type 0 where
  pub own_id : String
  pub buckets : List (ℕ × List Contact)

unfoldable pub new_table : String → RoutingTable
new_table own_id = record { own_id = own_id; buckets = [] }

-- |d|.bit_length() - 1, and 0 at 0
unfoldable pub index_of : ℤ → ℕ
index_of (pos n) = bit_length n n - 1
index_of (negsuc n) = bit_length (suc n) (suc n) - 1

abbrev pub without : String → List Contact → List Contact
without id = keep (λ (c : Contact). not (str_eq c.node_id id))

-- the contact moves to the end, and the oldest leave
unfoldable pub refresh : Contact → List Contact → List Contact
refresh contact bucket =
    let renewed = without contact.node_id bucket ++ contact ∷ [] in
    drop (length renewed - bucket_size) renewed

-- the bucket of an index is made by f, from an empty one if it is missing
unfoldable pub update_bucket :
    (List Contact → List Contact) → ℕ → List (ℕ × List Contact) → List (ℕ × List Contact)
update_bucket f i [] = (i, f []) ∷ []
update_bucket f i ((j, bucket) ∷ bs) =
    if j == i then (j, f bucket) ∷ bs else (j, bucket) ∷ update_bucket f i bs

unfoldable pub shrink_bucket : String → ℕ → List (ℕ × List Contact) → List (ℕ × List Contact)
shrink_bucket id i [] = []
shrink_bucket id i ((j, bucket) ∷ bs) =
    if j == i then (j, without id bucket) ∷ bs else (j, bucket) ∷ shrink_bucket id i bs

unfoldable pub all_contacts : List (ℕ × List Contact) → List Contact
all_contacts [] = []
all_contacts ((i, bucket) ∷ bs) = bucket ++ all_contacts bs

module _ (int16 : String → Result ℤ) where
  unfoldable pub bucket_index : RoutingTable → String → Result ℕ
  bucket_index t node_id = do d ← distance int16 t.own_id node_id; ok (index_of d)

  unfoldable pub add : RoutingTable → Contact → Result RoutingTable
  add t contact = if str_eq contact.node_id t.own_id then ok t else do
    i ← bucket_index t contact.node_id
    ok (record t { buckets = update_bucket (refresh contact) i t.buckets })

  unfoldable pub remove : RoutingTable → String → Result RoutingTable
  remove t node_id = do
    i ← bucket_index t node_id
    ok (record t { buckets = shrink_bucket node_id i t.buckets })

  unfoldable pub closest : RoutingTable → String → ℕ → Result (List Contact)
  closest t target count = ranked int16 target count (all_contacts t.buckets)
