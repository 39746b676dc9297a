-- ===== src/Gtfs/Parser/Indexed.antt =====
-- The list of trips and the index of their ids, of parseTrips in pkg/gtfs/parser.go.
use wabus_backend.Prelude.{
  ℕ, zero, suc, ◌%◌, ◌^◌, ◌≤◌, ◌<◌, ◌≡◌, ◌∙◌, ap, refl, subst, ite, none, some, List, [], ◌∷◌, ◌++◌,
  arith, String, string_key, string_discrete, ℕ_discrete, length, get_elem?,
}
use native.Mathlib.Nat.{mod-eq_of_lt}
use wabus_backend.GoMap.{GoMap, lookup, insert}
use wabus_backend.GoMap.Laws.{lookup-insert}
use wabus_backend.Gtfs.{TripMeta}

get_elem?-append :
    {A : Type 0} (x : A) (xs : List A) (i : ℕ)
    → get_elem? (xs ++ x ∷ []) i ≡ ite (ℕ_discrete i (length xs)) (some x) (get_elem? xs i)
get_elem?-append x [] zero = ground arith
get_elem?-append x [] (suc i) = ground arith
get_elem?-append x (y ∷ ys) zero = ground arith
get_elem?-append x (y ∷ ys) (suc i) = ground (arith, get_elem?-append x ys i)

get_elem?-none : {A : Type 0} (xs : List A) (i : ℕ) → length xs ≤ i → get_elem? xs i ≡ none
get_elem?-none [] i h = refl
get_elem?-none (x ∷ xs) zero h = absurd (omega (arith, h))
get_elem?-none (x ∷ xs) (suc i) h = get_elem?-none xs i (omega (arith, h))

-- The index and the list of trips name each other.
pub record IsIndexed (trips : List TripMeta) (index : GoMap String ℕ) : Type 0 where
  pub found :
      (id : String) (i : ℕ)
      → lookup id index ≡ some i
      → (t : TripMeta) × (get_elem? trips i ≡ some t) × (t.id ≡ id)
  pub listed : (i : ℕ) (t : TripMeta) → get_elem? trips i ≡ some t → lookup t.id index ≡ some i

pub carried-IsIndexed :
    {trips trips' : List TripMeta} {index index' : GoMap String ℕ}
    → trips' ≡ trips
    → index' ≡ index
    → IsIndexed trips index
    → IsIndexed trips' index'
carried-IsIndexed e f i = rw (e, f) i

pub new_trip-IsIndexed :
    (trip : TripMeta) (trips : List TripMeta) (index : GoMap String ℕ)
    → length trips < 2 ^ 32
    → lookup trip.id index ≡ none
    → IsIndexed trips index
    → IsIndexed (trips ++ trip ∷ []) (insert trip.id (length trips % 2 ^ 32) index)
new_trip-IsIndexed trip trips index small fresh i = record {
  found = found_new;
  listed = listed_new;
}
  where
    at_end :
        (j : String)
        → lookup j (insert trip.id (length trips % 2 ^ 32) index)
          ≡ ite (string_discrete trip.id j) (some (length trips)) (lookup j index)
    at_end j =
        lookup-insert j trip.id (length trips % 2 ^ 32) index
        ∙ ap (λ n. ite (string_discrete trip.id j) (some n) (lookup j index)) (mod-eq_of_lt small)

    found_new :
        (id : String) (n : ℕ)
        → lookup id (insert trip.id (length trips % 2 ^ 32) index) ≡ some n
        → (t : TripMeta) × (get_elem? (trips ++ trip ∷ []) n ≡ some t) × (t.id ≡ id)
    found_new id n e = elim (string_discrete trip.id id) [
      | yes p ↦ (trip, ground (arith, e, p, at_end id, get_elem?-append trip trips n), p)
      | no p ↦
          let (t, at, named) = i.found id n (ground (arith, e, p, at_end id)) in
          (t, ground (arith, at, get_elem?-append trip trips n, get_elem?-none trips n), named)
    ]

    listed_new :
        (n : ℕ) (t : TripMeta)
        → get_elem? (trips ++ trip ∷ []) n ≡ some t
        → lookup t.id (insert trip.id (length trips % 2 ^ 32) index) ≡ some n
    listed_new n t e = elim (ℕ_discrete n (length trips)) [
      | yes p ↦
          let same_trip : trip ≡ t = ground (arith, e, p, get_elem?-append trip trips n) in
          subst (λ u. lookup u.id (insert trip.id (length trips % 2 ^ 32) index) ≡ some n) same_trip
            (ground (arith, p, at_end trip.id))
      | no p ↦
          let before = i.listed n t (ground (arith, e, p, get_elem?-append trip trips n)) in
          ground (
            arith,
            before,
            fresh,
            at_end t.id,
            (λ (q : trip.id ≡ t.id). ap (λ j. lookup j index) q),
          )
    ]
