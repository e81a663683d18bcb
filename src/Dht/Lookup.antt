-- ===== src/Dht/Lookup.antt =====
-- kemi/dht.py: the iterative lookup. The network is what it answers to the request of each id: a
-- lookup asks no id twice. No answer stands for a timeout.
pub mod Steps
pub mod Ends
pub mod Closest
use kemi.Prelude.{
  ℕ, zero, suc, String, Bool, true, false, not, ◌||◌, Option, none, some, List, [], ◌∷◌, ◌++◌, map,
  keep, take, any, or_else, str_eq, if◌then◌else◌,
}
use kemi.Prelude.Int.{ℤ}
use kemi.Json.{Value, Fields, arr, nil, get}
use kemi.Result.{Result, ok, raise, ◌>>=◌}
use kemi.Dht.Contacts.{Contact, alpha, bucket_size, has_id, decode, iterate, ranked}
use kemi.Dht.Routing.{RoutingTable, closest}

abbrev pub member : String → List String → Bool
member id = any (λ j. str_eq j id)

abbrev pub ids : List Contact → List String
ids = map (λ (c : Contact). c.node_id)

abbrev pub unqueried : List String → List Contact → List Contact
unqueried queried = keep (λ (c : Contact). not (member c.node_id queried))

-- the contacts of an answer join the shortlist, but for the node itself and known ids
unfoldable pub absorb : String → List Contact → List Contact → List Contact
absorb own [] shortlist = shortlist
absorb own (c ∷ cs) shortlist =
    absorb own cs (
      if str_eq c.node_id own || has_id c.node_id shortlist then shortlist else shortlist ++ c ∷ [])

module _ (int16 : String → Result ℤ) (show : Value → String) (to_int : Value → Option ℤ)
    (answers : String → Option Fields) where
  -- the contacts that an answer names
  unfoldable pub named : Fields → Result (List Contact)
  named response = do
    items ← iterate (or_else (get "nodes" response) (arr nil))
    ok (decode show to_int items)

  unfoldable pub absorb_answer : String → Option Fields → List Contact → Result (List Contact)
  absorb_answer own none shortlist = ok shortlist
  absorb_answer own (some response) shortlist = do cs ← named response; ok (absorb own cs shortlist)

  unfoldable pub absorb_answers : String → List Contact → List Contact → Result (List Contact)
  absorb_answers own [] shortlist = ok shortlist
  absorb_answers own (c ∷ cs) shortlist = do
    shortlist' ← absorb_answer own (answers c.node_id) shortlist
    absorb_answers own cs shortlist'

  -- one round of the loop with these candidates: none left ends it
  unfoldable pub round :
      String
      → List Contact
      → List String
      → List Contact
      → Result (Option (List Contact × List String))
  round own shortlist queried [] = ok none
  round own shortlist queried (c ∷ cs) = do
    shortlist' ← absorb_answers own (c ∷ cs) shortlist
    ok (some (shortlist', queried ++ ids (c ∷ cs)))

  unfoldable pub step :
      String → String → List Contact → List String → Result (Option (List Contact × List String))
  step own target shortlist queried = do
    candidates ← ranked int16 target alpha (unqueried queried shortlist)
    round own shortlist queried candidates

  -- the loop and the last ranking; none is out of fuel
  unfoldable pub search_from :
      String → String → ℕ → List Contact → List String → Option (Result (List Contact))
  search_from own target zero shortlist queried = none
  search_from own target (suc fuel) shortlist queried = elim (step own target shortlist queried) [
    | raise e ↦ some (raise e)
    | ok none ↦ some (ranked int16 target bucket_size shortlist)
    | ok (some (shortlist', queried')) ↦ search_from own target fuel shortlist' queried'
  ]

  unfoldable pub lookup : RoutingTable → String → ℕ → Option (Result (List Contact))
  lookup t target fuel = elim (closest int16 t target bucket_size) [
    | raise e ↦ some (raise e)
    | ok shortlist ↦ search_from t.own_id target fuel shortlist []
  ]
