-- ===== src/Dht/Tests.antt =====
-- A lookup on a small network: bob names carol, who does not answer.
use kemi.Prelude.{
  String, ◌≡◌, ◌⊎◌, refl, sym, ap, ◌∙◌, true, Option, none, some, List, [], ◌∷◌, arith, All, length,
  str_eq, if◌then◌else◌, Bool-cases, inl, inr,
}
use kemi.Prelude.Int.{ℤ, pos}
use kemi.Json.{Value, Fields, str, int, arr, nil, cons, end, field, get, to_list, integer}
use kemi.Result.{Result, ok, raise, value_error}
use kemi.Fixtures.{alice, bob, carol}
use kemi.Dht.Contacts.{
  Contact, has_id, from_wire, decode, iterate, unpack, distance, keyed, insert_keyed, sort_keyed,
  ranked, xor_ℤ,
}
use kemi.Dht.Contacts.Ranking.{IsNearer}
use kemi.Dht.Routing.{RoutingTable, new_table, closest, all_contacts}
use kemi.Dht.Routing.Bounds.{seen, lost, run, IsTable, new_table-IsTable}
use kemi.Dht.Lookup.{
  member, absorb, absorb_answer, absorb_answers, named, round, step, search_from, lookup,
}
use kemi.Dht.Lookup.Steps.{Names}
use kemi.Dht.Lookup.Ends.{lookup_total}
use kemi.Dht.Lookup.Closest.{Reached, known, through, lookup-IsNearest}

-- the last digit of an id
abbrev toy_int16 : String → Result ℤ
toy_int16 s =
    if str_eq s bob
    then ok (pos 1)
    else if str_eq s carol
    then ok (pos 2)
    else if str_eq s alice
    then ok (pos 0)
    else raise value_error

abbrev toy_show : Value → String
toy_show v = "10.0.0.2"

abbrev toy_int : Value → Option ℤ
toy_int v = integer (some v)

abbrev bob_contact : Contact
bob_contact = record { node_id = bob; host = "10.0.0.1"; port = pos 9000 }

abbrev carol_contact : Contact
carol_contact = record { node_id = carol; host = "10.0.0.2"; port = pos 9001 }

abbrev reply : Fields
reply =
    field "nodes"
      (arr (cons (arr (cons (str carol) (cons (str "10.0.0.2") (cons (int (pos 9001)) nil)))) nil))
      end

abbrev answers : String → Option Fields
answers id = if str_eq id bob then some reply else none

abbrev table : RoutingTable
table = record { own_id = alice; buckets = (0, bob_contact ∷ []) ∷ [] }

new_table-IsTable_example :
    IsTable toy_int16 alice
      (run toy_int16 (seen bob_contact ∷ seen carol_contact ∷ lost bob ∷ []) (new_table alice))
new_table-IsTable_example =
    new_table-IsTable toy_int16 alice (seen bob_contact ∷ seen carol_contact ∷ lost bob ∷ [])

reply_names :
    ◌≡◌ {A = Result (List Contact)}
      (named toy_int16 toy_show toy_int answers reply)
      (ok (carol_contact ∷ []))
unfolding named iterate to_list get decode from_wire unpack integer
reply_names = refl

abbrev ids_of_net : List String
ids_of_net = bob ∷ carol ∷ []

Names-closed :
    (id j : String) → Names toy_int16 toy_show toy_int answers id j → member j ids_of_net ≡ true
Names-closed id j (response, cs, answer, reads, here) = elim (Bool-cases (str_eq id bob)) [
  | inl is_bob ↦
      let one : reply ≡ response = some_inj (rw is_bob at answer) in
      let list : carol_contact ∷ [] ≡ cs =
        ok_inj (sym reply_names ∙ ap (named toy_int16 toy_show toy_int answers) one ∙ reads) in
      let at : has_id j (carol_contact ∷ []) ≡ true = ap (has_id j) list ∙ here in ground arith
  | inr other ↦ cc (rw other at answer)
]
  where
    some_inj : {a b : Fields} → ◌≡◌ {A = Option Fields} (some a) (some b) → a ≡ b
    some_inj e = cc

    ok_inj : {a b : List Contact} → ◌≡◌ {A = Result (List Contact)} (ok a) (ok b) → a ≡ b
    ok_inj e = cc

table_within :
    (j : String) → has_id j (all_contacts table.buckets) ≡ true → member j ids_of_net ≡ true
unfolding all_contacts
table_within j h = ground arith

lookup_total_example :
    (r : Result (List Contact)) × (lookup toy_int16 toy_show toy_int answers table carol 3 ≡ some r)
lookup_total_example =
    lookup_total toy_int16 toy_show toy_int answers table carol ids_of_net Names-closed table_within

first_contacts :
    ◌≡◌ {A = Result (List Contact)} (closest toy_int16 table carol 8) (ok (bob_contact ∷ []))
unfolding closest ranked keyed sort_keyed insert_keyed distance xor_ℤ all_contacts
first_contacts = refl

found_contacts :
    ◌≡◌ {A = Option (Result (List Contact))}
      (lookup toy_int16 toy_show toy_int answers table carol 3)
      (some (ok (carol_contact ∷ bob_contact ∷ [])))
unfolding lookup search_from step round absorb_answers absorb_answer absorb named iterate to_list
    get decode from_wire unpack integer closest ranked keyed sort_keyed insert_keyed distance xor_ℤ
    all_contacts
found_contacts = refl

carol-Reached : Reached (Names toy_int16 toy_show toy_int answers) alice (bob_contact ∷ []) carol
carol-Reached =
    through bob carol (known bob refl) (reply, carol_contact ∷ [], refl, reply_names, refl) refl

lookup-IsNearest_example :
    (has_id carol (carol_contact ∷ bob_contact ∷ []) ≡ true)
    ⊎ ((length (carol_contact ∷ bob_contact ∷ []) ≡ 8)
        × All (IsNearer toy_int16 carol carol) (carol_contact ∷ bob_contact ∷ []))
lookup-IsNearest_example =
    lookup-IsNearest toy_int16 toy_show toy_int answers table carol 3 first_contacts found_contacts
      carol carol-Reached
