-- ===== src/Tests/Archives.antt =====
-- Tests of the GTFS parser (pkg/gtfs/parser.go).
use wabus_backend.Prelude.{
  ℤ, ◌≡◌, refl, inl, Option, none, some, List, [], ◌∷◌, arith, string_key, string_discrete,
  Bool-cases, In, split, scan, atoi,
}
use wabus_backend.GoMap.{lookup, insert}
use wabus_backend.Gtfs.{StopTimeCompact, TripTimeEntry}
use wabus_backend.Gtfs.Parser.{
  Record, ParseResult, parse_gtfs_time, seconds_of_parts, parse_trips, parse_stop_times, ids_or_nil,
  trips_loop, trip_row, read_trip, add_trip, add_route_shape, stop_times_loop, stop_time_row,
  add_stop_time, read_stop_time, append_at, make_index, index_loop, get_field, parse_direction,
}
use wabus_backend.Gtfs.Parser.Times.{parse-format}
use wabus_backend.Gtfs.Store.{format_gtfs_time}
use wabus_backend.Gtfs.Ranges.{build_trip_time_ranges}
use wabus_backend.Gtfs.Ranges.Cover.{IsStart, IsEnd, trip_ranges_lem}
use wabus_backend.Tests.Timetables.{feed, trip, morning}

past_midnight : parse_gtfs_time "25:10:05" ≡ 90605
unfolding parse_gtfs_time seconds_of_parts split atoi scan
past_midnight = refl

abbrev no_result : ParseResult ℤ
no_result = record { feed = record feed { trips = []; stop_schedules = [] }; trip_index = [] }

abbrev pub trip_header : Record
trip_header = "route_id" ∷ "trip_id" ∷ "service_id" ∷ "shape_id" ∷ []

abbrev trip_rows : List (Option Record)
trip_rows =
    some ("r1" ∷ "t1" ∷ "wk" ∷ "s1" ∷ [])
    ∷ some ("r1" ∷ "t2" ∷ "wk" ∷ "" ∷ [])
    ∷ none
    ∷ some ("r2" ∷ "t3" ∷ "wk" ∷ "s2" ∷ [])
    ∷ []

abbrev pub time_header : Record
time_header = "trip_id" ∷ "arrival_time" ∷ "departure_time" ∷ "stop_id" ∷ "stop_sequence" ∷ []

abbrev pub time_rows : List (Option Record)
time_rows =
    some ("t2" ∷ "25:10:00" ∷ "25:10:30" ∷ "7001" ∷ "3" ∷ [])
    ∷ some ("t9" ∷ "05:10:00" ∷ "05:10:30" ∷ "7001" ∷ "4" ∷ [])
    ∷ []

trip_ranges_example :
    (entry : TripTimeEntry) × In entry
      (ids_or_nil (lookup trip.route_id (build_trip_time_ranges feed).route_trip_times))
    × (entry.shape_id ≡ trip.shape_id)
    × (entry.service_id ≡ trip.service_id)
    × (entry.direction_id ≡ trip.direction_id)
    × IsStart feed 0 entry.start_minutes
    × IsEnd feed 0 entry.end_minutes
trip_ranges_example =
    trip_ranges_lem feed 0 trip morning refl (λ e. absurd (cc)) ((_, inl refl, inl refl), refl)

parse-format_example : parse_gtfs_time (format_gtfs_time 90605) ≡ 90605
parse-format_example = parse-format 90605 (omega arith)

abbrev parsed : ParseResult ℤ
parsed = (parse_stop_times time_header time_rows (parse_trips trip_header trip_rows no_result).0).0

abbrev pub late_stop : StopTimeCompact
late_stop = record {
  trip_index = 1;
  arrival_seconds = 90600;
  departure_seconds = 90630;
  stop_sequence = 3;
}

parsed_schedule : lookup "7001" parsed.feed.stop_schedules ≡ some (late_stop ∷ [])
unfolding parse_stop_times parse_trips trips_loop trip_row read_trip add_trip add_route_shape
    stop_times_loop stop_time_row add_stop_time read_stop_time append_at make_index index_loop
    get_field parse_gtfs_time seconds_of_parts parse_direction split atoi scan lookup insert
    string_discrete Bool-cases
parsed_schedule = refl
