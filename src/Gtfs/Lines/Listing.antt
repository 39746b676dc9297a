-- ===== src/Gtfs/Lines/Listing.antt =====
-- The lines that buildStopLines of pkg/gtfs/parser.go lists at a stop.
use mathlib.Core.List.Permᴰ
use wabus_backend.Prelude.{
  ◌≡◌, ◌∙◌, ◌↔◌, refl, sym, ◌&&◌, not, Option, none, some, List, [], ◌∷◌, String, string_key, same,
  get_elem?, In, Option-cases, Bool-cases, inl, inr, ltb_text-asymmetric, ltb_text-ties,
}
use wabus_backend.GoMap.{GoMap, lookup, values, Distinct}
use wabus_backend.GoMap.Laws.{
  insert-Distinct, lookup-insert_each, In-lookup, lookup-In, values-In, In-values,
}
use wabus_backend.Sorting.{SliceSort, IsSorted, IsWeakOrder, In-Perm}
use wabus_backend.Gtfs.{Feed, Route, TripMeta, StopLine, StopTimeCompact}
use wabus_backend.Gtfs.Services.{flag}
use wabus_backend.Gtfs.Lines.{
  LineMaps, add_headsign, line_of_trip, line_step, line_maps_loop, by_name, lines_at,
  build_stop_lines,
}
use wabus_backend.Gtfs.Lines.Routes.{trips_of, expected_line, line_maps_loop_lem}

abbrev IsTidy : LineMaps → Type 0
IsTidy maps = Distinct maps.line_map

add_headsign-IsTidy :
    (trip : TripMeta) (line : StopLine) (seen : GoMap String _) (maps : LineMaps)
    → IsTidy maps
    → IsTidy (add_headsign trip line seen maps)
unfolding add_headsign
add_headsign-IsTidy trip line seen maps d =
    elim (Bool-cases (not (same trip.headsign "") && not (flag trip.headsign seen))) [
      | inl new ↦ rw new (insert-Distinct _ _ maps.line_map d)
      | inr old ↦ rw old d
    ]

line_step-IsTidy :
    (routes : GoMap String Route) (o : Option TripMeta) (maps : LineMaps)
    → IsTidy maps
    → IsTidy (line_step routes o maps)
unfolding line_step line_of_trip
line_step-IsTidy routes none maps d = d
line_step-IsTidy routes (some trip) maps d =
    elim (Option-cases (lookup trip.route_id maps.line_map)) [
      | inr (line, e) ↦ rw (e, line_of_trip) (add_headsign-IsTidy trip line _ maps d)
      | inl e ↦ elim (Option-cases (lookup trip.route_id routes)) [
        | inl f ↦ rw (e, f, line_of_trip) d
        | inr (route, f) ↦
            rw (e, f, line_of_trip)
              (add_headsign-IsTidy trip _ [] _ (insert-Distinct _ _ maps.line_map d))
      ]
    ]

line_maps_loop-IsTidy :
    (routes : GoMap String Route) (trips : List TripMeta) (stop_times : List StopTimeCompact)
    (maps : LineMaps)
    → IsTidy maps
    → IsTidy (line_maps_loop routes trips stop_times maps)
unfolding line_maps_loop
line_maps_loop-IsTidy routes trips [] maps d = d
line_maps_loop-IsTidy routes trips (st ∷ stop_times) maps d =
    line_maps_loop-IsTidy routes trips stop_times _
      (line_step-IsTidy routes (get_elem? trips st.trip_index) maps d)

by_name-IsWeakOrder : IsWeakOrder by_name
by_name-IsWeakOrder = (
  λ a b h. ltb_text-asymmetric a.line b.line h,
  λ a b c h k. ltb_text-ties a.line b.line c.line h k,
)

module _ (slices : SliceSort) (routes : GoMap String Route) (trips : List TripMeta)
    (stop_times : List StopTimeCompact) where
  lines_at-In :
      (line : StopLine)
      → In line (lines_at slices routes trips stop_times) ↔ (
          (r : String) × (expected_line r (lookup r routes) (trips_of r trips stop_times)
            ≡ some line))
  unfolding lines_at lookup
  lines_at-In line =
      let start : LineMaps = record { line_map = []; headsign_map = [] } in
      let m = (line_maps_loop routes trips stop_times start).line_map in
      let tidy = line_maps_loop-IsTidy routes trips stop_times start tt in
      let order = slices.sort-perm by_name (values m) in
      (
        λ i.
            let (r, j) = values-In line m (In-Perm order line i) in
            (
              r,
              sym (line_maps_loop_lem r routes trips stop_times start refl)
                  ∙ In-lookup r line m tidy j,
            ),
        λ (r, e). In-Perm (Permᴰ.symm order) line (
            In-values r line m
              (lookup-In r line m (line_maps_loop_lem r routes trips stop_times start refl ∙ e))),
      )

-- Each stop with stop times gets a list of lines. For every stored route of which some trip stops
-- there it has the line with the route's names, type and color, and with the headsigns of these
-- trips, each once and in the order of the trips, without the empty one; it has no other line; and
-- it is ordered by the lines' names.
pub build_stop_lines_lem :
    {F : Type 0} (slices : SliceSort) (feed : Feed F) (stop : String)
    (stop_times : List StopTimeCompact)
    → Distinct feed.stop_schedules
    → lookup stop feed.stop_schedules ≡ some stop_times
    → (lines : List StopLine) × (lookup stop (build_stop_lines slices feed).stop_lines ≡ some lines)
      × IsSorted by_name lines
      × ((line : StopLine)
          → In line lines ↔ (
              (r : String) × (expected_line r
                  (lookup r feed.routes)
                  (trips_of r feed.trips stop_times)
                ≡ some line)))
unfolding build_stop_lines lines_at
build_stop_lines_lem slices feed stop stop_times d e = (
  lines_at slices feed.routes feed.trips stop_times,
  lookup-insert_each _ stop feed.stop_schedules feed.stop_lines d ∙ rw e refl,
  slices.sort-IsSorted by_name _ by_name-IsWeakOrder,
  lines_at-In slices feed.routes feed.trips stop_times,
)
