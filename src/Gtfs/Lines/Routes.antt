-- ===== src/Gtfs/Lines/Routes.antt =====
-- Which lines buildStopLines of pkg/gtfs/parser.go lists at a stop, described route by route.
use wabus_backend.Prelude.{
  ◌≡◌, ◌≢◌, ◌∙◌, ap, refl, sym, subst, inl, inr, Bool, true, false, ◌&&◌, ◌||◌, not, Option, none,
  some, List, [], ◌∷◌, ◌++◌, arith, String, string_key, string_discrete, same, if◌then◌else◌, ite,
  get_elem?, Option-cases, Bool-cases,
}
use wabus_backend.GoMap.{GoMap, lookup, insert}
use wabus_backend.GoMap.Laws.{lookup-insert}
use wabus_backend.Gtfs.{Route, TripMeta, StopLine, StopTimeCompact}
use wabus_backend.Gtfs.Parser.{flags_or_nil}
use wabus_backend.Gtfs.Services.{flag}
use wabus_backend.Gtfs.Lines.{
  LineMaps, new_line, add_headsign, line_of_trip, line_step, line_maps_loop,
}

abbrev pub mem : String → List String → Bool
mem h [] = false
mem h (x ∷ xs) = same x h || mem h xs

-- The trips of one route among those that stop times name.
unfoldable pub trips_of : String → List TripMeta → List StopTimeCompact → List TripMeta
trips_of r trips [] = []
trips_of r trips (st ∷ stop_times) =
    let rest = trips_of r trips stop_times in
    elim (get_elem? trips st.trip_index) [
      | none ↦ rest
      | some trip ↦ if same trip.route_id r then trip ∷ rest else rest
    ]

unfoldable pub add_new : String → List String → List String
add_new h hs = if not (same h "") && not (mem h hs) then hs ++ h ∷ [] else hs

-- The headsigns of the trips, each once, without the empty one.
unfoldable pub distinct_headsigns : List String → List TripMeta → List String
distinct_headsigns hs [] = hs
distinct_headsigns hs (trip ∷ trips) = distinct_headsigns (add_new trip.headsign hs) trips

-- The line of a route at a stop, from the route and its trips that stop there.
abbrev pub expected_line : String → Option Route → List TripMeta → Option StopLine
expected_line r none trips = none
expected_line r (some route) [] = none
expected_line r (some route) (trip ∷ trips) =
    some (record (new_line r route) { headsigns = distinct_headsigns [] (trip ∷ trips) })

flag-insert :
    (h k : String) (m : GoMap String Bool)
    → flag h (insert k true m) ≡ ite (string_discrete k h) true (flag h m)
unfolding flag
flag-insert h k m = ground (arith, lookup-insert h k true m)

mem-append :
    (h x : String) (xs : List String)
    → mem h (xs ++ x ∷ []) ≡ ite (string_discrete x h) true (mem h xs)
mem-append h x [] = ground arith
mem-append h x (y ∷ ys) = ground (arith, mem-append h x ys)

-- The two maps hold the line of the route, and the set of its headsigns.
abbrev Knows : String → LineMaps → StopLine → Type 0
Knows r maps line =
    (lookup r maps.line_map ≡ some line)
    × ((h : String) → flag h (flags_or_nil (lookup r maps.headsign_map)) ≡ mem h line.headsigns)

abbrev with_headsigns : StopLine → List String → StopLine
with_headsigns line hs = record line { headsigns = hs }

add_headsign-Knows :
    (trip : TripMeta) (line : StopLine) (seen : GoMap String Bool) (maps : LineMaps)
    → lookup trip.route_id maps.line_map ≡ some line
    → flags_or_nil (lookup trip.route_id maps.headsign_map) ≡ seen
    → ((h : String) → flag h seen ≡ mem h line.headsigns)
    → Knows trip.route_id
        (add_headsign trip line seen maps)
        (with_headsigns line (add_new trip.headsign line.headsigns))
unfolding add_headsign add_new
add_headsign-Knows trip line seen maps held flags same_set =
    elim (Bool-cases (not (same trip.headsign "") && not (flag trip.headsign seen))) [
      | inl new ↦
          let grown = insert trip.headsign true seen in
          (
            ground (
              arith,
              new,
              same_set trip.headsign,
              lookup-insert trip.route_id trip.route_id
                  (with_headsigns line (line.headsigns ++ trip.headsign ∷ [])) maps.line_map,
            ),
            λ h. ground (
              arith,
              new,
              same_set trip.headsign,
              same_set h,
              flag-insert h trip.headsign seen,
              mem-append h trip.headsign line.headsigns,
              lookup-insert trip.route_id trip.route_id grown maps.headsign_map,
            ),
          )
      | inr old ↦ (
        ground (arith, old, same_set trip.headsign, held),
        λ h. ground (arith, old, same_set trip.headsign, same_set h, flags),
      )
    ]

abbrev Same : String → LineMaps → LineMaps → Type 0
Same r maps maps' =
    (lookup r maps'.line_map ≡ lookup r maps.line_map)
    × (lookup r maps'.headsign_map ≡ lookup r maps.headsign_map)

add_headsign-Same :
    (r : String) (trip : TripMeta) (line : StopLine) (seen : GoMap String Bool) (maps : LineMaps)
    → trip.route_id ≢ r
    → Same r maps (add_headsign trip line seen maps)
unfolding add_headsign
add_headsign-Same r trip line seen maps p = ground (
  arith,
  p,
  lookup-insert r trip.route_id (with_headsigns line (line.headsigns ++ trip.headsign ∷ []))
      maps.line_map,
  lookup-insert r trip.route_id (insert trip.headsign true seen) maps.headsign_map,
)

-- A trip of another route changes nothing of this one.
other_route :
    (r : String) (routes : GoMap String Route) (trip : TripMeta) (maps : LineMaps)
    → trip.route_id ≢ r
    → Same r maps (line_step routes (some trip) maps)
unfolding line_step line_of_trip
other_route r routes trip maps p = elim (Option-cases (lookup trip.route_id maps.line_map)) [
  | inr (line, e) ↦ rw (e, line_of_trip) (add_headsign-Same r trip line _ maps p)
  | inl e ↦ elim (Option-cases (lookup trip.route_id routes)) [
    | inl f ↦ rw (e, f, line_of_trip) (refl, refl)
    | inr (route, f) ↦
        let line = new_line trip.route_id route in
        let maps' : LineMaps = record {
          line_map = insert trip.route_id line maps.line_map;
          headsign_map = insert trip.route_id [] maps.headsign_map;
        } in
        let (l, s) = add_headsign-Same r trip line [] maps' p in
        rw (e, f, line_of_trip)
          (
            l ∙ ground (arith, p, lookup-insert r trip.route_id line maps.line_map),
            s ∙ ground (arith, p, lookup-insert r trip.route_id [] maps.headsign_map),
          )
  ]
]

known_route :
    (routes : GoMap String Route) (trip : TripMeta) (maps : LineMaps) (line : StopLine)
    → Knows trip.route_id maps line
    → Knows trip.route_id
        (line_step routes (some trip) maps)
        (with_headsigns line (add_new trip.headsign line.headsigns))
unfolding line_step line_of_trip
known_route routes trip maps line k =
    rw (k.0, line_of_trip) (add_headsign-Knows trip line _ maps k.0 refl k.1)

new_route :
    (routes : GoMap String Route) (trip : TripMeta) (maps : LineMaps) (route : Route)
    → lookup trip.route_id maps.line_map ≡ none
    → lookup trip.route_id routes ≡ some route
    → Knows trip.route_id
        (line_step routes (some trip) maps)
        (with_headsigns (new_line trip.route_id route) (add_new trip.headsign []))
unfolding line_step line_of_trip flag lookup new_line
new_route routes trip maps route e f =
    let line = new_line trip.route_id route in
    rw (e, f, line_of_trip)
      (add_headsign-Knows trip line []
        (record {
          line_map = insert trip.route_id line maps.line_map;
          headsign_map = insert trip.route_id [] maps.headsign_map;
        })
        (ground (arith, lookup-insert trip.route_id trip.route_id line maps.line_map))
        (ground (arith, lookup-insert trip.route_id trip.route_id [] maps.headsign_map))
        (λ h. refl))

no_route :
    (routes : GoMap String Route) (trip : TripMeta) (maps : LineMaps)
    → lookup trip.route_id maps.line_map ≡ none
    → lookup trip.route_id routes ≡ none
    → line_step routes (some trip) maps ≡ maps
unfolding line_step line_of_trip
no_route routes trip maps e f = rw (e, f, line_of_trip) refl

Knows-Same :
    (r : String) (maps maps' : LineMaps) (line : StopLine)
    → Same r maps maps'
    → Knows r maps line
    → Knows r maps' line
Knows-Same r maps maps' line (l, s) k = (l ∙ k.0, λ h. ap (λ o. flag h (flags_or_nil o)) s ∙ k.1 h)

module _ (r : String) (routes : GoMap String Route) (trips : List TripMeta) where
  trips_of-other :
      (st : StopTimeCompact) (stop_times : List StopTimeCompact) (trip : TripMeta)
      → get_elem? trips st.trip_index ≡ some trip
      → trip.route_id ≢ r
      → trips_of r trips (st ∷ stop_times) ≡ trips_of r trips stop_times
  unfolding trips_of
  trips_of-other st stop_times trip e p = rw (e, trips_of) (ground (arith, p))

  trips_of-own :
      (st : StopTimeCompact) (stop_times : List StopTimeCompact) (trip : TripMeta)
      → get_elem? trips st.trip_index ≡ some trip
      → trip.route_id ≡ r
      → trips_of r trips (st ∷ stop_times) ≡ trip ∷ trips_of r trips stop_times
  unfolding trips_of
  trips_of-own st stop_times trip e p = rw (e, trips_of) (ground (arith, p))

  trips_of-none :
      (st : StopTimeCompact) (stop_times : List StopTimeCompact)
      → get_elem? trips st.trip_index ≡ none
      → trips_of r trips (st ∷ stop_times) ≡ trips_of r trips stop_times
  unfolding trips_of
  trips_of-none st stop_times e = rw (e, trips_of) refl

  -- One round of the loop.
  loop-step :
      (st : StopTimeCompact) (stop_times : List StopTimeCompact) (o : Option TripMeta)
      (maps : LineMaps)
      → get_elem? trips st.trip_index ≡ o
      → lookup r (line_maps_loop routes trips (st ∷ stop_times) maps).line_map
        ≡ lookup r (line_maps_loop routes trips stop_times (line_step routes o maps)).line_map
  unfolding line_maps_loop
  loop-step st stop_times o maps e =
      ap (λ x. lookup r (line_maps_loop routes trips stop_times (line_step routes x maps)).line_map)
        e

  known_loop :
      (stop_times : List StopTimeCompact) (maps : LineMaps) (line : StopLine)
      → Knows r maps line
      → lookup r (line_maps_loop routes trips stop_times maps).line_map
        ≡ some
            (with_headsigns line (distinct_headsigns line.headsigns (trips_of r trips stop_times)))
  unfolding line_maps_loop trips_of distinct_headsigns line_step
  known_loop [] maps line k = k.0
  known_loop (st ∷ stop_times) maps line k = elim (Option-cases (get_elem? trips st.trip_index)) [
    | inl e ↦
        loop-step st stop_times none maps e
        ∙ known_loop stop_times maps line k
        ∙ ap (λ ts. some (with_headsigns line (distinct_headsigns line.headsigns ts)))
            (sym (trips_of-none st stop_times e))
    | inr (trip, e) ↦ elim (string_discrete trip.route_id r) [
      | yes p ↦
          let k' : Knows trip.route_id maps line = subst (λ x. Knows x maps line) (sym p) k in
          loop-step st stop_times (some trip) maps e
          ∙ known_loop stop_times (line_step routes (some trip) maps)
              (with_headsigns line (add_new trip.headsign line.headsigns))
              (subst
                (λ x.
                  Knows x (line_step routes (some trip) maps)
                    (with_headsigns line (add_new trip.headsign line.headsigns)))
                p (known_route routes trip maps line k'))
          ∙ ap (λ ts. some (with_headsigns line (distinct_headsigns line.headsigns ts)))
              (sym (trips_of-own st stop_times trip e p))
      | no p ↦
          loop-step st stop_times (some trip) maps e
          ∙ known_loop stop_times (line_step routes (some trip) maps) line
              (Knows-Same r maps _ line (other_route r routes trip maps p) k)
          ∙ ap (λ ts. some (with_headsigns line (distinct_headsigns line.headsigns ts)))
              (sym (trips_of-other st stop_times trip e p))
    ]
  ]

  pub line_maps_loop_lem :
      (stop_times : List StopTimeCompact) (maps : LineMaps)
      → lookup r maps.line_map ≡ none
      → lookup r (line_maps_loop routes trips stop_times maps).line_map
        ≡ expected_line r (lookup r routes) (trips_of r trips stop_times)
  unfolding line_maps_loop trips_of line_step distinct_headsigns new_line
  line_maps_loop_lem [] maps k = ground (arith, k)
  line_maps_loop_lem (st ∷ stop_times) maps k =
      elim (Option-cases (get_elem? trips st.trip_index)) [
        | inl e ↦
            loop-step st stop_times none maps e
            ∙ line_maps_loop_lem stop_times maps k
            ∙ ap (expected_line r (lookup r routes)) (sym (trips_of-none st stop_times e))
        | inr (trip, e) ↦ elim (string_discrete trip.route_id r) [
          | no p ↦
              loop-step st stop_times (some trip) maps e
              ∙ line_maps_loop_lem stop_times (line_step routes (some trip) maps)
                  ((other_route r routes trip maps p).0 ∙ k)
              ∙ ap (expected_line r (lookup r routes)) (sym (trips_of-other st stop_times trip e p))
          | yes p ↦
              let k' : lookup trip.route_id maps.line_map ≡ none =
                subst (λ x. lookup x maps.line_map ≡ none) (sym p) k in
              loop-step st stop_times (some trip) maps e
              ∙ elim (Option-cases (lookup r routes)) [
                | inl f ↦
                    ap (λ m. lookup r (line_maps_loop routes trips stop_times m).line_map)
                      (no_route routes trip maps k' (subst (λ x. lookup x routes ≡ none) (sym p) f))
                    ∙ line_maps_loop_lem stop_times maps k
                    ∙ rw f refl
                | inr (route, f) ↦
                    known_loop stop_times (line_step routes (some trip) maps)
                      (with_headsigns (new_line r route) (add_new trip.headsign []))
                      (subst
                        (λ x.
                          Knows x (line_step routes (some trip) maps)
                            (with_headsigns (new_line x route) (add_new trip.headsign [])))
                        p
                        (new_route routes trip maps route k'
                          (subst (λ x. lookup x routes ≡ some route) (sym p) f)))
                    ∙ rw f refl
              ]
              ∙ ap (expected_line r (lookup r routes)) (sym (trips_of-own st stop_times trip e p))
        ]
      ]
