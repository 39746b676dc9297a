-- ===== src/Gtfs/RouteStops/Order.antt =====
-- The stops that buildRouteStops of pkg/gtfs/parser.go lists for a route, and their order.
use wabus_backend.Prelude.{
  ℕ, ◌≡◌, ◌≢◌, ◌∙◌, ap, refl, subst, ite, Option, none, some, List, [], ◌∷◌, arith, String,
  string_key, string_discrete, same, if◌then◌else◌, ltb, get_elem?, Option-cases, inl, inr,
}
use wabus_backend.GoMap.{GoMap, lookup, Distinct}
use wabus_backend.GoMap.Laws.{lookup-insert}
use wabus_backend.Gtfs.{TripMeta, StopTimeCompact}
use wabus_backend.Gtfs.RouteStops.{
  RouteStopMap, stops_or_nil, lower, enter_stop, enter_loop, schedules_loop,
}

-- The lower of two places, where there is one.
unfoldable pub least : Option ℕ → ℕ → Option ℕ
least none seq = some seq
least (some old) seq = if ltb seq old then some seq else some old

-- The lowest place that a stop has in the trips of a route.
unfoldable pub lowest : String → List TripMeta → List StopTimeCompact → Option ℕ → Option ℕ
lowest r trips [] o = o
lowest r trips (st ∷ stop_times) o = elim (get_elem? trips st.trip_index) [
  | none ↦ lowest r trips stop_times o
  | some trip ↦
      lowest r trips stop_times (if same trip.route_id r then least o st.stop_sequence else o)
]

-- The lowest place of a stop, from its stop times in the map of schedules.
abbrev pub place_after :
    String → List TripMeta → Option (List StopTimeCompact) → Option ℕ → Option ℕ
place_after r trips none o = o
place_after r trips (some stop_times) o = lowest r trips stop_times o

-- The place that the map holds for a stop of a route.
abbrev pub held : String → String → RouteStopMap → Option ℕ
held r stop m = lookup stop (stops_or_nil (lookup r m))

held-lower :
    (stop j : String) (seq : ℕ) (stop_map : GoMap String ℕ)
    → lookup stop (lower j seq (lookup j stop_map) stop_map)
      ≡ ite (string_discrete j stop) (least (lookup stop stop_map) seq) (lookup stop stop_map)
unfolding lower least
held-lower stop j seq stop_map = elim (string_discrete j stop) [
  | yes p ↦ elim (Option-cases (lookup j stop_map)) [
    | inl e ↦ ground (arith, p, e, lookup-insert stop j seq stop_map, ap (λ x. lookup x stop_map) p)
    | inr (old, e) ↦
        ground (arith, p, e, lookup-insert stop j seq stop_map, ap (λ x. lookup x stop_map) p)
  ]
  | no p ↦ elim (Option-cases (lookup j stop_map)) [
    | inl e ↦ ground (arith, p, e, lookup-insert stop j seq stop_map)
    | inr (old, e) ↦ ground (arith, p, e, lookup-insert stop j seq stop_map)
  ]
]

enter_stop-none : (j : String) (seq : ℕ) (m : RouteStopMap) → enter_stop j seq none m ≡ m
unfolding enter_stop
enter_stop-none j seq m = refl

module _ (r : String) (named : r ≢ "") (stop : String) where
  held-enter_stop :
      (j : String) (seq : ℕ) (trip : TripMeta) (m : RouteStopMap)
      → held r stop (enter_stop j seq (some trip) m)
        ≡ ite
            (string_discrete trip.route_id r)
            (ite (string_discrete j stop) (least (held r stop m) seq) (held r stop m))
            (held r stop m)
  unfolding enter_stop
  held-enter_stop j seq trip m =
      let q = trip.route_id in
      let stop_map = stops_or_nil (lookup q m) in
      let next = lower j seq (lookup j stop_map) stop_map in
      elim (string_discrete q r) [
        | yes p ↦ ground (
          arith,
          p,
          named,
          lookup-insert r q next m,
          held-lower stop j seq stop_map,
          ap (λ x. lookup x m) p,
        )
        | no p ↦ ground (arith, p, lookup-insert r q next m)
      ]

  own_step :
      (seq : ℕ) (o : Option TripMeta) (m : RouteStopMap)
      → held r stop (enter_stop stop seq o m) ≡ elim o [
        | none ↦ held r stop m
        | some trip ↦ if same trip.route_id r then least (held r stop m) seq else held r stop m
      ]
  unfolding enter_stop
  own_step seq none m = refl
  own_step seq (some trip) m = ground (arith, held-enter_stop stop seq trip m)

  other_step :
      (j : String) (seq : ℕ) (o : Option TripMeta) (m : RouteStopMap)
      → j ≢ stop
      → held r stop (enter_stop j seq o m) ≡ held r stop m
  unfolding enter_stop
  other_step j seq none m p = refl
  other_step j seq (some trip) m p = ground (arith, p, held-enter_stop j seq trip m)

  own_loop :
      (trips : List TripMeta) (stop_times : List StopTimeCompact) (m : RouteStopMap)
      → held r stop (enter_loop trips stop stop_times m) ≡ lowest r trips stop_times (held r stop m)
  unfolding enter_loop lowest
  own_loop trips [] m = refl
  own_loop trips (st ∷ stop_times) m =
      own_loop trips stop_times (enter_stop stop st.stop_sequence (get_elem? trips st.trip_index) m)
      ∙ ap (lowest r trips stop_times) (own_step st.stop_sequence (get_elem? trips st.trip_index) m)
      ∙ by_trip (get_elem? trips st.trip_index)
    where
      by_trip :
          (o : Option TripMeta)
          → lowest r trips stop_times (elim o [
            | none ↦ held r stop m
            | some trip ↦
                if same trip.route_id r
                then least (held r stop m) st.stop_sequence
                else held r stop m
          ])
            ≡ elim o [
              | none ↦ lowest r trips stop_times (held r stop m)
              | some trip ↦ lowest r trips stop_times (
                  if same trip.route_id r
                  then least (held r stop m) st.stop_sequence
                  else held r stop m)
            ]
      by_trip none = refl
      by_trip (some trip) = refl

  other_loop :
      (trips : List TripMeta) (j : String) (stop_times : List StopTimeCompact) (m : RouteStopMap)
      → j ≢ stop
      → held r stop (enter_loop trips j stop_times m) ≡ held r stop m
  unfolding enter_loop
  other_loop trips j [] m p = refl
  other_loop trips j (st ∷ stop_times) m p =
      other_loop trips j stop_times _ p
      ∙ other_step j st.stop_sequence (get_elem? trips st.trip_index) m p

  pub schedules_loop-held :
      (trips : List TripMeta) (schedules : GoMap String (List StopTimeCompact)) (m : RouteStopMap)
      → Distinct schedules
      → held r stop (schedules_loop trips schedules m)
        ≡ place_after r trips (lookup stop schedules) (held r stop m)
  unfolding schedules_loop lookup
  schedules_loop-held trips [] m d = refl
  schedules_loop-held trips ((j, stop_times) ∷ schedules) m d =
      elim (string_discrete j stop)
        as (λ x.
          held r stop (schedules_loop trips schedules (enter_loop trips j stop_times m))
          ≡ place_after r trips (ite x (some stop_times) (lookup stop schedules)) (held r stop m)) [
            | yes p ↦
                schedules_loop-held trips schedules _ d.1
                ∙ ap (λ o. place_after r trips o (held r stop (enter_loop trips j stop_times m)))
                    (subst (λ x. lookup x schedules ≡ none) p d.0)
                ∙ ap (λ x. held r stop (enter_loop trips x stop_times m)) p
                ∙ own_loop trips stop_times m
            | no p ↦
                schedules_loop-held trips schedules _ d.1
                ∙ ap (place_after r trips (lookup stop schedules))
                    (other_loop trips j stop_times m p)
          ]
