-- ===== src/Dht/Routing/Bounds.antt =====
-- What every bucket holds, whatever contacts are seen and lost.
use kemi.Prelude.{
  ℕ, zero, suc, ◌-◌, ◌≤◌, String, ◌≡◌, refl, sym, subst, Bool, false, not, List, [], ◌∷◌, ◌++◌,
  arith, keep, length, drop, ◌==◌, ==_iff, str_eq, str_eq_self, str_eq_sym, eq_iff, if◌then◌else◌,
  Bool-cases, inl, inr, All, length-keep-le, length-drop, any-append,
}
use kemi.Prelude.Int.{ℤ}
use kemi.Crypto.Octets.{All-append, All-drop}
use kemi.Result.{Result, ok, raise, ◌>>=◌}
use kemi.Dht.Contacts.{Contact, bucket_size, has_id, distance}
use kemi.Dht.Routing.{
  RoutingTable, new_table, without, refresh, update_bucket, shrink_bucket, bucket_index, index_of,
  add, remove,
}

abbrev DistinctIds : List Contact → Type 0
DistinctIds [] = Unit {0}
DistinctIds (c ∷ cs) = (has_id c.node_id cs ≡ false) × DistinctIds cs

has_id-without :
    (id j : String) (cs : List Contact)
    → has_id j (without id cs) ≡ (if str_eq id j then false else has_id j cs)
has_id-without id j [] = ground arith
has_id-without id j (c ∷ cs) =
    ground (arith, eq_iff c.node_id id, eq_iff c.node_id j, eq_iff id j, has_id-without id j cs)

without-DistinctIds :
    (id : String) (cs : List Contact) → DistinctIds cs → DistinctIds (without id cs)
without-DistinctIds id [] h = tt
without-DistinctIds id (c ∷ cs) (h, hs) = elim (Bool-cases (str_eq c.node_id id)) [
  | inl same ↦ rw same (without-DistinctIds id cs hs)
  | inr other ↦
      rw other (ground (arith, has_id-without id c.node_id cs), without-DistinctIds id cs hs)
]

append-DistinctIds :
    (c : Contact) (cs : List Contact)
    → has_id c.node_id cs ≡ false
    → DistinctIds cs
    → DistinctIds (cs ++ c ∷ [])
append-DistinctIds c [] h d = (refl, tt)
append-DistinctIds c (x ∷ cs) h (fresh, d) = (
  rw (any-append (λ (y : Contact). str_eq y.node_id x.node_id) cs (c ∷ []), fresh)
      (ground (arith, str_eq_sym c.node_id x.node_id)),
  append-DistinctIds c cs (ground arith) d,
)

drop-DistinctIds : (n : ℕ) (cs : List Contact) → DistinctIds cs → DistinctIds (drop n cs)
drop-DistinctIds zero cs h = h
drop-DistinctIds (suc n) [] h = tt
drop-DistinctIds (suc n) (c ∷ cs) h = drop-DistinctIds n cs h.1

module _ {ℓ κ} {A : Type ℓ} (P : A → Type κ) where
  All-keep : (f : A → Bool) (xs : List A) → All P xs → All P (keep f xs)
  All-keep f [] h = tt
  All-keep f (x ∷ xs) (h, hs) = elim (Bool-cases (f x)) [
    | inl in_it ↦ rw in_it (h, All-keep f xs hs)
    | inr out ↦ rw out (All-keep f xs hs)
  ]

module _ (int16 : String → Result ℤ) (own : String) where
  -- the contact is not the node itself, and its distance gives the bucket's index
  abbrev Belongs : ℕ → Contact → Type 0
  Belongs i c =
      (str_eq c.node_id own ≡ false)
      × ((distance int16 own c.node_id >>= λ d. ok (index_of d)) ≡ ok i)

  pub record IsBucket (i : ℕ) (bucket : List Contact) : Type 0 where
    pub size : length bucket ≤ 8
    pub distinct : DistinctIds bucket
    pub placed : All (Belongs i) bucket

  refresh-IsBucket :
      (i : ℕ) (c : Contact) (bucket : List Contact)
      → Belongs i c
      → IsBucket i bucket
      → IsBucket i (refresh c bucket)
  unfolding refresh
  refresh-IsBucket i c bucket b h =
      let rest = without c.node_id bucket in
      let n = length (rest ++ c ∷ []) - bucket_size in
      let gone : has_id c.node_id rest ≡ false =
        rw (has_id-without c.node_id c.node_id bucket, str_eq_self c.node_id) refl in
      record {
        size = omega (arith, length-drop n (rest ++ c ∷ []));
        distinct =
            drop-DistinctIds n _
              (append-DistinctIds c rest gone (without-DistinctIds c.node_id bucket h.distinct));
        placed = All-drop _ n _ (All-append _ rest (c ∷ []) (All-keep _ _ bucket h.placed) (b, tt));
      }

  without-IsBucket :
      (i : ℕ) (id : String) (bucket : List Contact)
      → IsBucket i bucket
      → IsBucket i (without id bucket)
  without-IsBucket i id bucket h = record {
    size =
        omega (arith, length-keep-le (λ (c : Contact). not (str_eq c.node_id id)) bucket, h.size);
    distinct = without-DistinctIds id bucket h.distinct;
    placed = All-keep _ _ bucket h.placed;
  }

  empty-IsBucket : (i : ℕ) → IsBucket i []
  empty-IsBucket i = record { size = omega arith; distinct = tt; placed = tt }

  pub AreBuckets : List (ℕ × List Contact) → Type 0
  AreBuckets [] = Unit {0}
  AreBuckets ((i, bucket) ∷ bs) = IsBucket i bucket × AreBuckets bs

  update_bucket-AreBuckets :
      (i : ℕ) (c : Contact) (bs : List (ℕ × List Contact))
      → Belongs i c
      → AreBuckets bs
      → AreBuckets (update_bucket (refresh c) i bs)
  unfolding update_bucket AreBuckets
  update_bucket-AreBuckets i c [] b h = (refresh-IsBucket i c [] b (empty-IsBucket i), tt)
  update_bucket-AreBuckets i c ((j, bucket) ∷ bs) b (h, hs) = elim (Bool-cases (j == i)) [
    | inl same ↦
        rw same (
          refresh-IsBucket j c bucket (subst (λ k. Belongs k c) (sym ((==_iff j i).0 same)) b) h,
          hs,
        )
    | inr other ↦ rw other (h, update_bucket-AreBuckets i c bs b hs)
  ]

  shrink_bucket-AreBuckets :
      (i : ℕ) (id : String) (bs : List (ℕ × List Contact))
      → AreBuckets bs
      → AreBuckets (shrink_bucket id i bs)
  unfolding shrink_bucket AreBuckets
  shrink_bucket-AreBuckets i id [] h = tt
  shrink_bucket-AreBuckets i id ((j, bucket) ∷ bs) (h, hs) = elim (Bool-cases (j == i)) [
    | inl same ↦ rw same (without-IsBucket j id bucket h, hs)
    | inr other ↦ rw other (h, shrink_bucket-AreBuckets i id bs hs)
  ]

-- what a node hears of another: a datagram, or no answer to a request
pub data Call : Type 0 where
  seen : Contact → Call
  lost : String → Call

module _ (int16 : String → Result ℤ) where
  -- a call that raises leaves the table as it is
  pub after : Result RoutingTable → RoutingTable → RoutingTable
  after (ok t') t = t'
  after (raise e) t = t

  pub run : List Call → RoutingTable → RoutingTable
  unfolding after
  run [] t = t
  run (seen c ∷ calls) t = run calls (after (add int16 t c) t)
  run (lost id ∷ calls) t = run calls (after (remove int16 t id) t)

  abbrev pub IsTable : String → RoutingTable → Type 0
  IsTable own t = (t.own_id ≡ own) × AreBuckets int16 own t.buckets

  -- a table whose bucket of a computed index is changed
  placed-IsTable :
      (own : String) (t : RoutingTable) (f : ℕ → List (ℕ × List Contact)) (place : Result ℕ)
      → IsTable own t
      → ((i : ℕ) → place ≡ ok i → AreBuckets int16 own (f i))
      → IsTable own (after (place >>= λ i. ok (record t { buckets = f i })) t)
  unfolding after
  placed-IsTable own t f (ok i) h hf = (h.0, hf i refl)
  placed-IsTable own t f (raise e) h hf = h

  add-IsTable :
      (own : String) (t : RoutingTable) (c : Contact)
      → IsTable own t
      → IsTable own (after (add int16 t c) t)
  unfolding add after
  add-IsTable own t c (same, h) = elim (Bool-cases (str_eq c.node_id t.own_id)) [
    | inl self ↦ rw self (same, h)
    | inr other ↦ rw other (
        placed-IsTable own t (λ i. update_bucket (refresh c) i t.buckets)
          (bucket_index int16 t c.node_id) (same, h)
          (λ i place.
            update_bucket-AreBuckets int16 own i c t.buckets
              (subst (λ o. Belongs int16 o i c) same (other, opened i place)) h))
  ]
    where
      opened :
          (i : ℕ)
          → bucket_index int16 t c.node_id ≡ ok i
          → (distance int16 t.own_id c.node_id >>= λ d. ok (index_of d)) ≡ ok i
      opened i place = unfold bucket_index in place

  remove-IsTable :
      (own : String) (t : RoutingTable) (id : String)
      → IsTable own t
      → IsTable own (after (remove int16 t id) t)
  unfolding remove
  remove-IsTable own t id h =
      placed-IsTable own t (λ i. shrink_bucket id i t.buckets) (bucket_index int16 t id) h
        (λ i place. shrink_bucket-AreBuckets int16 own i id t.buckets h.1)

  run-IsTable :
      (own : String) (calls : List Call) (t : RoutingTable)
      → IsTable own t
      → IsTable own (run calls t)
  unfolding run
  run-IsTable own [] t h = h
  run-IsTable own (seen c ∷ calls) t h =
      run-IsTable own calls (after (add int16 t c) t) (add-IsTable own t c h)
  run-IsTable own (lost id ∷ calls) t h =
      run-IsTable own calls (after (remove int16 t id) t) (remove-IsTable own t id h)

  -- Whatever contacts a new table has seen and lost, every bucket has at most 8 contacts, each id once
  -- and never the own one, and each contact is in the bucket of its distance to the own id.
  pub new_table-IsTable :
      (own : String) (calls : List Call) → IsTable own (run calls (new_table own))
  unfolding new_table AreBuckets
  new_table-IsTable own calls = run-IsTable own calls (new_table own) (refl, tt)
