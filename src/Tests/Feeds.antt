-- ===== src/Tests/Feeds.antt =====
-- Tests of the whole parser (pkg/gtfs/parser.go) on a small archive.
use wabus_backend.Prelude.{
  ℕ, ℤ, pos, ◌≡◌, ◌↔◌, In, refl, Option, some, List, [], ◌∷◌, arith, String, string_key,
  string_discrete, Bool-cases, split, scan, atoi, length,
}
use mathlib.Core.List.{Permᴰ}
use wabus_backend.GoMap.{GoMap, Distinct, lookup, insert}
use wabus_backend.Sorting.{IsSorted, by_insertion}
use wabus_backend.Gtfs.{Shape, StopLine, StopTime}
use wabus_backend.Gtfs.Parser.{
  Record, ParseResult, parse_gtfs_time, seconds_of_parts, parse_trips, parse_stop_times, trips_loop,
  trip_row, read_trip, add_trip, add_route_shape, stop_times_loop, stop_time_row, add_stop_time,
  read_stop_time, append_at, make_index, index_loop, get_field, parse_direction,
}
use wabus_backend.Gtfs.Parser.Rows.{
  rows_loop, parse_shapes, earlier_point, parse_routes, parse_stops, parse_calendar,
  parse_calendar_dates,
}
use wabus_backend.Gtfs.Lines.{build_stop_lines, by_name}
use wabus_backend.Gtfs.RouteStops.{StopEntry, by_sequence, build_route_stops, stored_stops}
use wabus_backend.Gtfs.Ranges.{build_trip_time_ranges}
use wabus_backend.Gtfs.Archive.{
  CsvFile, csv, unreadable, Result, ok, failed, file_map, on_feed, parse_csv, parse_file,
  new_result, build_indices, parse_files, parse,
}
use wabus_backend.Gtfs.Archive.Readable.{is_ok, all_readable, parse-is_ok}
use wabus_backend.Gtfs.Archive.Complete.{parse_complete}
use wabus_backend.Gtfs.Store.{new_gtfs_store, get_stop_schedule, update_all}
use wabus_backend.Tests.Archives.{trip_header, time_header, time_rows, late_stop}
use wabus_backend.Tests.Timetables.{feed, morning, dangling}
use wabus_backend.Gtfs.Parser.Shapes.{points_of, parse_shapes_lem}
use wabus_backend.Gtfs.Lines.Routes.{trips_of, expected_line}
use wabus_backend.Gtfs.Lines.Listing.{build_stop_lines_lem}
use wabus_backend.Gtfs.RouteStops.Order.{lowest, least}
use wabus_backend.Gtfs.RouteStops.Listing.{place, build_route_stops_lem}

abbrev to_number : String → ℤ
to_number s = (atoi s).0

abbrev shape_header : Record
shape_header = "shape_id" ∷ "shape_pt_lat" ∷ "shape_pt_lon" ∷ "shape_pt_sequence" ∷ []

abbrev shape_rows : List (Option Record)
shape_rows = some ("s1" ∷ "52" ∷ "21" ∷ "7" ∷ []) ∷ some ("s1" ∷ "53" ∷ "22" ∷ "3" ∷ []) ∷ []

abbrev archive : List (String × CsvFile)
archive =
    ("agency.txt", unreadable)
    ∷ (
      "trips.txt",
      csv trip_header
          (some ("r1" ∷ "t1" ∷ "wk" ∷ "s1" ∷ []) ∷ some ("r1" ∷ "t2" ∷ "wk" ∷ "" ∷ []) ∷ []),
    )
    ∷ ("routes.txt", csv ("route_id" ∷ "route_short_name" ∷ []) (some ("r1" ∷ "17" ∷ []) ∷ []))
    ∷ ("stops.txt", csv ("stop_id" ∷ "stop_name" ∷ []) (some ("7001" ∷ "Centrum" ∷ []) ∷ []))
    ∷ ("stop_times.txt", csv time_header time_rows)
    ∷ ("shapes.txt", csv shape_header shape_rows)
    ∷ []

abbrev result_or : Result (ParseResult ℤ) → ParseResult ℤ
result_or (ok r) = r
result_or (failed e) = new_result

abbrev parsed_archive : ParseResult ℤ
parsed_archive = result_or (parse to_number by_insertion archive)

archive_parses : parse to_number by_insertion archive ≡ ok parsed_archive
unfolding parse parse_files parse_file parse_csv on_feed file_map new_result parse_routes
    parse_shapes parse_stops parse_trips parse_calendar parse_calendar_dates parse_stop_times
    rows_loop trips_loop stop_times_loop lookup insert string_discrete Bool-cases
archive_parses = refl

parse-is_ok_example :
    is_ok (parse to_number by_insertion archive) ≡ all_readable (file_map archive [])
parse-is_ok_example = parse-is_ok to_number by_insertion archive

parse_complete_example :
    (shown : List StopTime) × (get_stop_schedule "7001"
        (update_all parsed_archive.feed (pos 5) new_gtfs_store)
      ≡ some shown)
    × (length shown ≡ 1)
unfolding parse parse_files parse_file parse_csv on_feed file_map new_result parse_routes
    parse_shapes parse_stops parse_trips parse_calendar parse_calendar_dates parse_stop_times
    rows_loop trips_loop stop_times_loop lookup insert string_discrete Bool-cases trip_row read_trip
    add_trip add_route_shape stop_time_row add_stop_time read_stop_time append_at make_index
    index_loop get_field parse_gtfs_time seconds_of_parts parse_direction split atoi scan
    build_indices build_stop_lines build_route_stops build_trip_time_ranges
parse_complete_example =
    parse_complete to_number by_insertion archive parsed_archive (pos 5) new_gtfs_store "7001"
      (late_stop ∷ []) (omega arith) archive_parses refl

parse_shapes_example :
    (shape : Shape ℤ) × (lookup "s1"
        (parse_shapes to_number by_insertion shape_header shape_rows feed).0.shapes
      ≡ some shape)
    × (shape.id ≡ "s1")
    × Permᴰ shape.points (points_of to_number "s1" (make_index shape_header) shape_rows)
    × IsSorted earlier_point shape.points
unfolding parse_shapes rows_loop points_of get_field make_index index_loop lookup insert
    string_discrete Bool-cases
parse_shapes_example =
    parse_shapes_lem to_number by_insertion shape_header shape_rows feed "s1" refl
      (λ e. absurd (cc))

build_stop_lines_example :
    (lines : List StopLine) × (lookup "7001" (build_stop_lines by_insertion feed).stop_lines
      ≡ some lines)
    × IsSorted by_name lines
    × ((line : StopLine)
        → In line lines ↔ (
            (r : String) × (expected_line r
                (lookup r feed.routes)
                (trips_of r feed.trips (morning ∷ dangling ∷ []))
              ≡ some line)))
unfolding lookup string_discrete Bool-cases
build_stop_lines_example =
    build_stop_lines_lem by_insertion feed "7001" (morning ∷ dangling ∷ []) (refl, tt) refl

build_route_stops_example :
    (entries : List StopEntry) × (lookup "r1" (build_route_stops by_insertion feed).route_stops
      ≡ some (stored_stops feed.stops entries))
    × IsSorted by_sequence entries
    × (stop_map : GoMap String ℕ) × Permᴰ entries stop_map
    × Distinct stop_map
    × ((stop : String) → lookup stop stop_map ≡ place "r1" stop feed)
unfolding lookup string_discrete Bool-cases lowest least
build_route_stops_example =
    build_route_stops_lem by_insertion feed "r1" "7001" 3 (refl, tt) (λ e. absurd (cc)) refl
