-- ===== src/Gtfs/Ranges.antt =====
-- `buildTripTimeRanges` of pkg/gtfs/parser.go: the time range of each trip. The slices `seen`,
-- `minTime` and `maxTime` are one list: none for a trip that is not seen.
pub mod Cover
pub mod Entries
pub mod Attained
use wabus_backend.Prelude.{
  ℕ, zero, suc, ℤ, pos, ◌/◌, ◌==◌, Bool, true, false, ◌||◌, ltb, Option, none, some, List, [], ◌∷◌,
  ◌++◌, String, string_key, same, if◌then◌else◌, length,
}
use wabus_backend.GoMap.{GoMap, values}
use wabus_backend.Gtfs.{Feed, TripMeta, StopTimeCompact, TripTimeEntry}
use wabus_backend.Gtfs.Parser.{append_at}

abbrev pub Range : Type 0
Range = ℕ × ℕ

unfoldable pub widen : StopTimeCompact → Option Range → Option Range
widen st none = some (st.departure_seconds / 60, st.arrival_seconds / 60)
widen st (some (low, high)) =
    let dep = st.departure_seconds / 60 in
    let arr = st.arrival_seconds / 60 in
    some (if ltb dep low then dep else low, if ltb high arr then arr else high)

-- Only a trip that the index names is widened: `tripIdx >= tripCount` goes on to the next.
unfoldable pub widen_at : ℕ → StopTimeCompact → List (Option Range) → List (Option Range)
widen_at i st [] = []
widen_at zero st (o ∷ ranges) = widen st o ∷ ranges
widen_at (suc i) st (o ∷ ranges) = o ∷ widen_at i st ranges

unfoldable pub stop_times_ranges : List StopTimeCompact → List (Option Range) → List (Option Range)
stop_times_ranges [] ranges = ranges
stop_times_ranges (st ∷ stop_times) ranges =
    stop_times_ranges stop_times (widen_at st.trip_index st ranges)

unfoldable pub schedules_ranges :
    List (List StopTimeCompact) → List (Option Range) → List (Option Range)
schedules_ranges [] ranges = ranges
schedules_ranges (stop_times ∷ schedules) ranges =
    schedules_ranges schedules (stop_times_ranges stop_times ranges)

unfoldable pub unseen : List TripMeta → List (Option Range)
unseen [] = []
unseen (trip ∷ trips) = none ∷ unseen trips

abbrev pub entry_of : TripMeta → Range → TripTimeEntry
entry_of trip range = record {
  shape_id = trip.shape_id;
  service_id = trip.service_id;
  direction_id = trip.direction_id;
  start_minutes = pos range.0;
  end_minutes = pos range.1;
}

unfoldable pub add_entry :
    TripMeta → Option Range → GoMap String (List TripTimeEntry) → GoMap String (List TripTimeEntry)
add_entry trip none m = m
add_entry trip (some range) m =
    if same trip.shape_id "" then m else append_at trip.route_id (entry_of trip range) m

-- The second loop, over the trips and their ranges.
unfoldable pub entry_loop :
    List TripMeta
    → List (Option Range)
    → GoMap String (List TripTimeEntry)
    → GoMap String (List TripTimeEntry)
entry_loop [] ranges m = m
entry_loop (trip ∷ trips) [] m = m
entry_loop (trip ∷ trips) (o ∷ ranges) m = entry_loop trips ranges (add_entry trip o m)

-- `buildTripTimeRanges`
unfoldable pub build_trip_time_ranges : {F : Type 0} → Feed F → Feed F
build_trip_time_ranges feed = if length feed.trips == 0 then feed else record feed {
  route_trip_times =
      entry_loop feed.trips (schedules_ranges (values feed.stop_schedules) (unseen feed.trips))
        feed.route_trip_times;
}
