-- ===== src/Gtfs/RouteStops.antt =====
-- `buildRouteStops` of pkg/gtfs/parser.go: the stops of each route, in the order of the trips.
pub mod Order
pub mod Listing
use wabus_backend.Prelude.{
  ℕ, ltb, Bool, Option, none, some, List, [], ◌∷◌, String, string_key, same, if◌then◌else◌,
  get_elem?,
}
use wabus_backend.GoMap.{GoMap, lookup, insert, insert_each}
use wabus_backend.Sorting.{SliceSort}
use wabus_backend.Gtfs.{Feed, Stop, TripMeta, StopTimeCompact}

-- `stopEntry`: the stop's id and the lowest place that it has in a trip of the route.
abbrev pub StopEntry : Type 0
StopEntry = String × ℕ

abbrev pub RouteStopMap : Type 0
RouteStopMap = GoMap String (GoMap String ℕ)

-- `routeStopMap[routeID]`, an empty map where it is missing.
abbrev pub stops_or_nil : Option (GoMap String ℕ) → GoMap String ℕ
stops_or_nil none = []
stops_or_nil (some m) = m

-- `if !exists || seq < existing.minSeq`
unfoldable pub lower : String → ℕ → Option ℕ → GoMap String ℕ → GoMap String ℕ
lower stop_id seq none stop_map = insert stop_id seq stop_map
lower stop_id seq (some least) stop_map =
    if ltb seq least then insert stop_id seq stop_map else stop_map

unfoldable pub enter_stop : String → ℕ → Option TripMeta → RouteStopMap → RouteStopMap
enter_stop stop_id seq none m = m
enter_stop stop_id seq (some trip) m =
    let stop_map = stops_or_nil (lookup trip.route_id m) in
    if same trip.route_id ""
    then m
    else insert trip.route_id (lower stop_id seq (lookup stop_id stop_map) stop_map) m

unfoldable pub enter_loop :
    List TripMeta → String → List StopTimeCompact → RouteStopMap → RouteStopMap
enter_loop trips stop_id [] m = m
enter_loop trips stop_id (st ∷ stop_times) m =
    enter_loop trips stop_id stop_times
      (enter_stop stop_id st.stop_sequence (get_elem? trips st.trip_index) m)

unfoldable pub schedules_loop :
    List TripMeta → GoMap String (List StopTimeCompact) → RouteStopMap → RouteStopMap
schedules_loop trips [] m = m
schedules_loop trips ((stop_id, stop_times) ∷ schedules) m =
    schedules_loop trips schedules (enter_loop trips stop_id stop_times m)

abbrev pub by_sequence : StopEntry → StopEntry → Bool
by_sequence a b = ltb a.1 b.1

module _ {F : Type 0} where
  unfoldable pub stored_stops : GoMap String (Stop F) → List StopEntry → List (Stop F)
  stored_stops stops [] = []
  stored_stops stops ((stop_id, seq) ∷ entries) =
      let rest = stored_stops stops entries in
      elim (lookup stop_id stops) [ none ↦ rest | some stop ↦ stop ∷ rest ]

  unfoldable pub build_route_stops : SliceSort → Feed F → Feed F
  build_route_stops slices feed = record feed {
    route_stops =
        insert_each
          (λ route_id stop_map. stored_stops feed.stops (slices.sort by_sequence stop_map))
          (schedules_loop feed.trips feed.stop_schedules []) feed.route_stops;
  }
