-- ===== src/Gtfs/Archive.antt =====
-- `Parse` of pkg/gtfs/parser.go: the files of an archive, in the order in which the parser reads them.
pub mod Readable
pub mod Complete
use wabus_backend.Prelude.{
  ◌≡◌, Bool, true, false, ◌&&◌, Option, none, some, List, [], ◌∷◌, String, string_key, is_some,
  if◌then◌else◌,
}
use wabus_backend.GoMap.{GoMap, lookup, insert}
use wabus_backend.Sorting.{SliceSort}
use wabus_backend.Gtfs.{Feed}
use wabus_backend.Gtfs.Parser.{Record, ParseResult, parse_trips, parse_stop_times}
use wabus_backend.Gtfs.Parser.Rows.{
  parse_routes, parse_shapes, parse_stops, parse_calendar, parse_calendar_dates,
}
use wabus_backend.Gtfs.Lines.{build_stop_lines}
use wabus_backend.Gtfs.RouteStops.{build_route_stops}
use wabus_backend.Gtfs.Ranges.{build_trip_time_ranges}

-- A file of the archive: it cannot be opened or has no header that can be read, or it is a header and
-- rows, with none for a row that the CSV reader refuses.
pub data CsvFile : Type 0 where
  unreadable : CsvFile
  csv : List String → List (Option Record) → CsvFile

-- A value, or an error that is wrapped in a text.
pub data Result (A : Type 0) : Type 0 where
  ok : A → Result A
  failed : String → Result A

infixl 5 ◌>>=◌
abbrev pub ◌>>=◌ : {A B : Type 0} → Result A → (A → Result B) → Result B
ok a >>= f = f a
failed e >>= f = failed e

-- The loop that fills `fileMap`: of two files of one name the later one stays.
unfoldable pub file_map : List (String × CsvFile) → GoMap String CsvFile → GoMap String CsvFile
file_map [] files = files
file_map ((name, file) ∷ archive) files = file_map archive (insert name file files)

-- One of the parse functions.
abbrev pub Reader : Type 0 → Type 0
Reader F = List String → List (Option Record) → ParseResult F → ParseResult F × Bool

module _ {F : Type 0} where
  -- A function that only writes the part of the result that is handed on.
  unfoldable pub on_feed : (List String → List (Option Record) → Feed F → Feed F × Bool) → Reader F
  on_feed parse header rows r = let o = parse header rows r.feed in (record r { feed = o.0 }, o.1)

  unfoldable pub parse_csv : String → Reader F → CsvFile → ParseResult F → Result (ParseResult F)
  parse_csv error parse unreadable r = failed error
  parse_csv error parse (csv header rows) r =
      let o = parse header rows r in if o.1 then ok o.0 else failed error

  -- A file that the archive does not have is left out.
  unfoldable pub parse_file :
      String → String → Reader F → GoMap String CsvFile → ParseResult F → Result (ParseResult F)
  parse_file name error parse files r = elim (lookup name files) [
    | none ↦ ok r
    | some file ↦ parse_csv error parse file r
  ]

  unfoldable pub new_result : ParseResult F
  new_result = record {
    feed = record {
      routes = [];
      shapes = [];
      stops = [];
      route_shapes = [];
      stop_schedules = [];
      stop_lines = [];
      route_stops = [];
      route_trip_times = [];
      trips = [];
      calendars = [];
      calendar_dates = [];
      shape_directions = [];
    };
    trip_index = [];
  }

  -- The three indices, and then `tripIndex` is dropped.
  unfoldable pub build_indices : SliceSort → ParseResult F → ParseResult F
  build_indices slices r = record {
    feed = build_trip_time_ranges (build_route_stops slices (build_stop_lines slices r.feed));
    trip_index = [];
  }

  -- The seven files.
  unfoldable pub parse_files :
      (String → F) → SliceSort → GoMap String CsvFile → ParseResult F → Result (ParseResult F)
  parse_files parse_float slices files r = do
    r1 ← parse_file "routes.txt" "parse routes" (on_feed parse_routes) files r
    r2 ← parse_file "shapes.txt" "parse shapes" (on_feed (parse_shapes parse_float slices)) files r1
    r3 ← parse_file "stops.txt" "parse stops" (on_feed (parse_stops parse_float)) files r2
    r4 ← parse_file "trips.txt" "parse trips" parse_trips files r3
    r5 ← parse_file "calendar.txt" "parse calendar" (on_feed parse_calendar) files r4
    r6 ←
        parse_file "calendar_dates.txt" "parse calendar_dates" (on_feed parse_calendar_dates) files
          r5
    parse_file "stop_times.txt" "parse stop_times" parse_stop_times files r6

  unfoldable pub parse : (String → F) → SliceSort → List (String × CsvFile) → Result (ParseResult F)
  parse parse_float slices archive = do
    r ← parse_files parse_float slices (file_map archive []) new_result
    ok (build_indices slices r)
