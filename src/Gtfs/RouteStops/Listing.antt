-- ===== src/Gtfs/RouteStops/Listing.antt =====
-- The stops that buildRouteStops of pkg/gtfs/parser.go lists for a route, and their order.
use mathlib.Core.List.{Permᴰ}
use wabus_backend.Prelude.{
  ℕ, ◌≡◌, ◌≢◌, ◌∙◌, ap, refl, sym, subst, Option, none, some, List, [], ◌∷◌, arith, String,
  string_key, string_discrete, same, ltb, Option-cases, Bool-cases, inl, inr,
}
use wabus_backend.GoMap.{GoMap, lookup, insert, Distinct}
use wabus_backend.GoMap.Laws.{lookup-insert, insert-Distinct, lookup-insert_each}
use wabus_backend.Sorting.{SliceSort, IsSorted, IsWeakOrder}
use wabus_backend.Gtfs.{Feed, TripMeta, StopTimeCompact}
use wabus_backend.Gtfs.RouteStops.{
  StopEntry, RouteStopMap, stops_or_nil, lower, enter_stop, enter_loop, schedules_loop, by_sequence,
  stored_stops, build_route_stops,
}
use wabus_backend.Gtfs.RouteStops.Order.{place_after, schedules_loop-held}

-- No key stands twice in the map, nor in the map of a route.
abbrev IsTidy : RouteStopMap → Type 0
IsTidy m = Distinct m × ((r : String) → Distinct (stops_or_nil (lookup r m)))

lower-Distinct :
    (stop : String) (seq : ℕ) (o : Option ℕ) (stop_map : GoMap String ℕ)
    → Distinct stop_map
    → Distinct (lower stop seq o stop_map)
unfolding lower
lower-Distinct stop seq none stop_map d = insert-Distinct stop seq stop_map d
lower-Distinct stop seq (some old) stop_map d = elim (Bool-cases (ltb seq old)) [
  | inl less ↦ rw less (insert-Distinct stop seq stop_map d)
  | inr more ↦ rw more d
]

enter_stop-IsTidy :
    (stop : String) (seq : ℕ) (o : Option TripMeta) (m : RouteStopMap)
    → IsTidy m
    → IsTidy (enter_stop stop seq o m)
unfolding enter_stop
enter_stop-IsTidy stop seq none m d = d
enter_stop-IsTidy stop seq (some trip) m d = elim (Bool-cases (same trip.route_id "")) [
  | inl nameless ↦ rw nameless d
  | inr named ↦
      let q = trip.route_id in
      let next =
        lower stop seq (lookup stop (stops_or_nil (lookup q m))) (stops_or_nil (lookup q m)) in
      let next_tidy : Distinct next = lower-Distinct stop seq _ _ (d.1 q) in
      rw named (
        insert-Distinct q next m d.0,
        λ r. elim (string_discrete q r) [
          | yes p ↦
              let now : lookup r (insert q next m) ≡ some next =
                ground (arith, p, lookup-insert r q next m) in
              subst (λ o. Distinct (stops_or_nil o)) (sym now) next_tidy
          | no p ↦
              let kept : lookup r (insert q next m) ≡ lookup r m =
                ground (arith, p, lookup-insert r q next m) in
              subst (λ o. Distinct (stops_or_nil o)) (sym kept) (d.1 r)
        ],
      )
]

enter_loop-IsTidy :
    (trips : List TripMeta) (stop : String) (stop_times : List StopTimeCompact) (m : RouteStopMap)
    → IsTidy m
    → IsTidy (enter_loop trips stop stop_times m)
unfolding enter_loop
enter_loop-IsTidy trips stop [] m d = d
enter_loop-IsTidy trips stop (st ∷ stop_times) m d =
    enter_loop-IsTidy trips stop stop_times _ (enter_stop-IsTidy stop _ _ m d)

schedules_loop-IsTidy :
    (trips : List TripMeta) (schedules : GoMap String (List StopTimeCompact)) (m : RouteStopMap)
    → IsTidy m
    → IsTidy (schedules_loop trips schedules m)
unfolding schedules_loop
schedules_loop-IsTidy trips [] m d = d
schedules_loop-IsTidy trips ((j, stop_times) ∷ schedules) m d =
    schedules_loop-IsTidy trips schedules _ (enter_loop-IsTidy trips j stop_times m d)

by_sequence-IsWeakOrder : IsWeakOrder by_sequence
by_sequence-IsWeakOrder = (λ a b h. ground (arith, h), λ a b c h k. ground (arith, h, k))

-- The lowest place of a stop in the trips of a route, if one of them stops there.
abbrev pub place : {F : Type 0} → String → String → Feed F → Option ℕ
place r stop feed = place_after r feed.trips (lookup stop feed.stop_schedules) none

-- A route of which some trip stops somewhere gets the list of its stops: there is one entry for each
-- stop at which a trip of the route stops, with the lowest place that the stop has in these trips,
-- and no other; the entries are ordered by that place; and the stops listed are the stored stops of
-- the entries, in this order.
pub build_route_stops_lem :
    {F : Type 0} (slices : SliceSort) (feed : Feed F) (r some_stop : String) (seq : ℕ)
    → Distinct feed.stop_schedules
    → r ≢ ""
    → place r some_stop feed ≡ some seq
    → (entries : List StopEntry) × (lookup r (build_route_stops slices feed).route_stops
        ≡ some (stored_stops feed.stops entries))
      × IsSorted by_sequence entries
      × (stop_map : GoMap String ℕ) × Permᴰ entries stop_map
      × Distinct stop_map
      × ((stop : String) → lookup stop stop_map ≡ place r stop feed)
unfolding build_route_stops lookup
build_route_stops_lem slices feed r some_stop seq d named placed =
    let m = schedules_loop feed.trips feed.stop_schedules [] in
    let tidy = schedules_loop-IsTidy feed.trips feed.stop_schedules [] (tt, λ r'. tt) in
    let found : (stop : String) → lookup stop (stops_or_nil (lookup r m)) ≡ place r stop feed =
      λ stop. schedules_loop-held r named stop feed.trips feed.stop_schedules [] d in
    elim (Option-cases (lookup r m)) [
      | inl e ↦
          let missing : none ≡ place r some_stop feed =
            ap (λ o. lookup some_stop (stops_or_nil o)) (sym e) ∙ found some_stop in
          absurd (ground (arith, missing, placed))
      | inr (stop_map, e) ↦ (
        slices.sort by_sequence stop_map,
        lookup-insert_each _ r m feed.route_stops tidy.0 ∙ rw e refl,
        slices.sort-IsSorted by_sequence stop_map by_sequence-IsWeakOrder,
        stop_map,
        slices.sort-perm by_sequence stop_map,
        subst (λ o. Distinct (stops_or_nil o)) e (tidy.1 r),
        λ stop. ap (λ o. lookup stop (stops_or_nil o)) (sym e) ∙ found stop,
      )
    ]
