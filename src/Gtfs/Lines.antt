-- ===== src/Gtfs/Lines.antt =====
-- `buildStopLines` of pkg/gtfs/parser.go: the lines that stop at each stop.
pub mod Routes
pub mod Listing
use wabus_backend.Prelude.{
  Bool, true, ◌&&◌, not, Option, none, some, List, [], ◌∷◌, ◌++◌, String, string_key, same,
  ltb_text, if◌then◌else◌, get_elem?,
}
use wabus_backend.GoMap.{GoMap, lookup, insert, insert_each, values}
use wabus_backend.Sorting.{SliceSort}
use wabus_backend.Gtfs.{Feed, Route, TripMeta, StopLine, StopTimeCompact}
use wabus_backend.Gtfs.Parser.{flags_or_nil}
use wabus_backend.Gtfs.Services.{flag}

-- `lineMap` and `headsignMap`. A line that is changed through its pointer is written back.
pub record LineMaps : Type 0 where
  pub line_map : GoMap String StopLine
  pub headsign_map : GoMap String (GoMap String Bool)

unfoldable pub new_line : String → Route → StopLine
new_line route_id route = record {
  route_id = route_id;
  line = route.short_name;
  long_name = route.long_name;
  route_type = route.route_type;
  color = route.color;
  headsigns = [];
}

-- The second `if`, for the line of the trip's route and the headsigns that it has.
unfoldable pub add_headsign : TripMeta → StopLine → GoMap String Bool → LineMaps → LineMaps
add_headsign trip line seen maps =
    if not (same trip.headsign "") && not (flag trip.headsign seen)
    then record {
      line_map =
          insert trip.route_id (record line { headsigns = line.headsigns ++ trip.headsign ∷ [] })
            maps.line_map;
      headsign_map = insert trip.route_id (insert trip.headsign true seen) maps.headsign_map;
    }
    else maps

-- The first `if`: the line is there, or is made from the route, or there is no such route.
unfoldable pub line_of_trip : GoMap String Route → TripMeta → Option StopLine → LineMaps → LineMaps
line_of_trip routes trip (some line) maps =
    add_headsign trip line (flags_or_nil (lookup trip.route_id maps.headsign_map)) maps
line_of_trip routes trip none maps = elim (lookup trip.route_id routes) [
  | none ↦ maps
  | some route ↦ add_headsign trip (new_line trip.route_id route) [] (record {
    line_map = insert trip.route_id (new_line trip.route_id route) maps.line_map;
    headsign_map = insert trip.route_id [] maps.headsign_map;
  })
]

-- `tripIdx >= len(result.Trips)` goes on to the next stop time.
unfoldable pub line_step : GoMap String Route → Option TripMeta → LineMaps → LineMaps
line_step routes none maps = maps
line_step routes (some trip) maps =
    line_of_trip routes trip (lookup trip.route_id maps.line_map) maps

unfoldable pub line_maps_loop :
    GoMap String Route → List TripMeta → List StopTimeCompact → LineMaps → LineMaps
line_maps_loop routes trips [] maps = maps
line_maps_loop routes trips (st ∷ stop_times) maps =
    line_maps_loop routes trips stop_times (line_step routes (get_elem? trips st.trip_index) maps)

abbrev pub by_name : StopLine → StopLine → Bool
by_name a b = ltb_text a.line b.line

unfoldable pub lines_at :
    SliceSort → GoMap String Route → List TripMeta → List StopTimeCompact → List StopLine
lines_at slices routes trips stop_times =
    let maps =
      line_maps_loop routes trips stop_times (record { line_map = []; headsign_map = [] }) in
    slices.sort by_name (values maps.line_map)

unfoldable pub build_stop_lines : {F : Type 0} → SliceSort → Feed F → Feed F
build_stop_lines slices feed = record feed {
  stop_lines =
      insert_each (λ stop_id stop_times. lines_at slices feed.routes feed.trips stop_times)
        feed.stop_schedules feed.stop_lines;
}
