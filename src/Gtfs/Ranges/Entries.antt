-- ===== src/Gtfs/Ranges/Entries.antt =====
-- The entries that `buildTripTimeRanges` of pkg/gtfs/parser.go lists for each route.
use wabus_backend.Prelude.{
  ℕ, zero, suc, ◌≡◌, ◌≢◌, refl, sym, subst, inl, inr, ite, false, Option, none, some, List, [], ◌∷◌,
  ◌++◌, arith, String, string_key, string_discrete, same, get_elem?, In, In-append_left,
  In-append_right, Bool-cases,
}
use wabus_backend.GoMap.{GoMap, lookup}
use wabus_backend.GoMap.Laws.{lookup-insert}
use wabus_backend.Gtfs.{TripMeta, TripTimeEntry}
use wabus_backend.Gtfs.Parser.{append_at, ids_or_nil}
use wabus_backend.Gtfs.Ranges.{Range, entry_of, add_entry, entry_loop}

-- The entry is listed for the route.
abbrev Listed : String → TripTimeEntry → GoMap String (List TripTimeEntry) → Type 0
Listed route entry m = In entry (ids_or_nil (lookup route m))

-- The list of the route after an append.
append_at-lookup :
    (k j : String) (y : TripTimeEntry) (m : GoMap String (List TripTimeEntry))
    → ids_or_nil (lookup k (append_at j y m))
      ≡ ite (string_discrete j k) (ids_or_nil (lookup k m) ++ y ∷ []) (ids_or_nil (lookup k m))
unfolding append_at
append_at-lookup k j y m = ground (arith, lookup-insert k j (ids_or_nil (lookup j m) ++ y ∷ []) m)

append_at-keeps :
    (k j : String) (x y : TripTimeEntry) (m : GoMap String (List TripTimeEntry))
    → Listed k x m
    → Listed k x (append_at j y m)
append_at-keeps k j x y m h = elim (string_discrete j k) [
  | no p ↦
      let same_list : ids_or_nil (lookup k (append_at j y m)) ≡ ids_or_nil (lookup k m) =
        ground (arith, p, append_at-lookup k j y m) in
      subst (In x) (sym same_list) h
  | yes p ↦
      let longer : ids_or_nil (lookup k (append_at j y m)) ≡ ids_or_nil (lookup k m) ++ y ∷ [] =
        ground (arith, p, append_at-lookup k j y m) in
      subst (In x) (sym longer) (In-append_left x (ids_or_nil (lookup k m)) (y ∷ []) h)
]

append_at-Listed :
    (k : String) (y : TripTimeEntry) (m : GoMap String (List TripTimeEntry))
    → Listed k y (append_at k y m)
append_at-Listed k y m =
    let longer : ids_or_nil (lookup k (append_at k y m)) ≡ ids_or_nil (lookup k m) ++ y ∷ [] =
      ground (arith, append_at-lookup k k y m) in
    subst (In y) (sym longer) (In-append_right y (ids_or_nil (lookup k m)) (y ∷ []) (inl refl))

add_entry-keeps :
    (k : String) (x : TripTimeEntry) (trip : TripMeta) (o : Option Range)
    (m : GoMap String (List TripTimeEntry))
    → Listed k x m
    → Listed k x (add_entry trip o m)
unfolding add_entry
add_entry-keeps k x trip none m h = h
add_entry-keeps k x trip (some range) m h = elim (Bool-cases (same trip.shape_id "")) [
  | inl shapeless ↦ rw shapeless h
  | inr shaped ↦ rw shaped (append_at-keeps k trip.route_id x (entry_of trip range) m h)
]

entry_loop-keeps :
    (k : String) (x : TripTimeEntry) (trips : List TripMeta) (ranges : List (Option Range))
    (m : GoMap String (List TripTimeEntry))
    → Listed k x m
    → Listed k x (entry_loop trips ranges m)
unfolding entry_loop
entry_loop-keeps k x [] ranges m h = h
entry_loop-keeps k x (trip ∷ trips) [] m h = h
entry_loop-keeps k x (trip ∷ trips) (o ∷ ranges) m h =
    entry_loop-keeps k x trips ranges _ (add_entry-keeps k x trip o m h)

add_entry-Listed :
    (trip : TripMeta) (range : Range) (m : GoMap String (List TripTimeEntry))
    → trip.shape_id ≢ ""
    → Listed trip.route_id (entry_of trip range) (add_entry trip (some range) m)
unfolding add_entry
add_entry-Listed trip range m n =
    let shaped : same trip.shape_id "" ≡ false = ground (arith, n) in
    rw shaped (append_at-Listed trip.route_id (entry_of trip range) m)

pub entry_loop-Listed :
    (i : ℕ) (trip : TripMeta) (range : Range) (trips : List TripMeta) (ranges : List (Option Range))
    (m : GoMap String (List TripTimeEntry))
    → get_elem? trips i ≡ some trip
    → get_elem? ranges i ≡ some (some range)
    → trip.shape_id ≢ ""
    → Listed trip.route_id (entry_of trip range) (entry_loop trips ranges m)
unfolding entry_loop
entry_loop-Listed i trip range [] ranges m e f n = cc
entry_loop-Listed i trip range (t ∷ trips) [] m e f n = cc
entry_loop-Listed zero trip range (t ∷ trips) (o ∷ ranges) m e f n =
    let same_trip : t ≡ trip = cc in
    let same_range : o ≡ some range = cc in
    entry_loop-keeps trip.route_id (entry_of trip range) trips ranges _
      (rw (same_trip, same_range) (add_entry-Listed trip range m n))
entry_loop-Listed (suc i) trip range (t ∷ trips) (o ∷ ranges) m e f n =
    entry_loop-Listed i trip range trips ranges _ e f n
