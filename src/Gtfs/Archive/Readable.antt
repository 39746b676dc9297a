-- ===== src/Gtfs/Archive/Readable.antt =====
-- When `Parse` of pkg/gtfs/parser.go fails: only the archive's files decide it, not what they say.
use wabus_backend.Prelude.{
  ◌≡◌, refl, inl, inr, Bool, true, false, ◌&&◌, Option, none, some, List, [], ◌∷◌, arith, String,
  string_key, is_some, Option-cases,
}
use wabus_backend.GoMap.{GoMap, lookup}
use wabus_backend.Sorting.{SliceSort}
use wabus_backend.Gtfs.{Feed}
use wabus_backend.Gtfs.Parser.{
  Record, ParseResult, TripLoop, trips_loop, parse_trips, stop_times_loop, parse_stop_times,
  make_index,
}
use wabus_backend.Gtfs.Parser.Rows.{
  rows_loop, parse_routes, parse_shapes, point_row, parse_stops, parse_calendar,
  parse_calendar_dates,
}
use wabus_backend.Gtfs.Archive.{
  CsvFile, unreadable, csv, Result, ok, failed, ◌>>=◌, Reader, on_feed, parse_csv, parse_file,
  parse_files, file_map, new_result, parse,
}

abbrev pub rows_accepted : List (Option Record) → Bool
rows_accepted [] = true
rows_accepted (row ∷ rows) = is_some row && rows_accepted rows

-- The file is missing, or it can be read to its end.
abbrev pub is_readable : Option CsvFile → Bool
is_readable none = true
is_readable (some unreadable) = false
is_readable (some (csv header rows)) = rows_accepted rows

abbrev pub is_ok : {A : Type 0} → Result A → Bool
is_ok (ok a) = true
is_ok (failed e) = false

abbrev pub all_readable : GoMap String CsvFile → Bool
all_readable files =
    is_readable (lookup "routes.txt" files)
    && (is_readable (lookup "shapes.txt" files)
        && (is_readable (lookup "stops.txt" files)
            && (is_readable (lookup "trips.txt" files)
                && (is_readable (lookup "calendar.txt" files)
                    && (is_readable (lookup "calendar_dates.txt" files)
                        && is_readable (lookup "stop_times.txt" files))))))

rows_loop-accepted :
    {S : Type 0} (step : Record → S → S) (rows : List (Option Record)) (s : S)
    → (rows_loop step rows s).1 ≡ rows_accepted rows
unfolding rows_loop
rows_loop-accepted step [] s = refl
rows_loop-accepted step (none ∷ rows) s = refl
rows_loop-accepted step (some row ∷ rows) s = rows_loop-accepted step rows (step row s)

module _ {F : Type 0} where
  trips_loop-accepted :
      (idx : GoMap String _) (rows : List (Option Record)) (l : TripLoop F)
      → (trips_loop idx rows l).1 ≡ rows_accepted rows
  unfolding trips_loop
  trips_loop-accepted idx [] l = refl
  trips_loop-accepted idx (none ∷ rows) l = refl
  trips_loop-accepted idx (some row ∷ rows) l = trips_loop-accepted idx rows _

  stop_times_loop-accepted :
      (idx : GoMap String _) (rows : List (Option Record)) (r : ParseResult F)
      → (stop_times_loop idx rows r).1 ≡ rows_accepted rows
  unfolding stop_times_loop
  stop_times_loop-accepted idx [] r = refl
  stop_times_loop-accepted idx (none ∷ rows) r = refl
  stop_times_loop-accepted idx (some row ∷ rows) r = stop_times_loop-accepted idx rows _

  -- A reader that fails only at a refused row.
  abbrev Accepts : Reader F → Type 0
  Accepts parse =
      (header : List String) (rows : List (Option Record)) (r : ParseResult F)
      → (parse header rows r).1 ≡ rows_accepted rows

  parse_file-is_ok :
      (name error : String) (parse_it : Reader F) (files : GoMap String CsvFile) (r : ParseResult F)
      → Accepts parse_it
      → is_ok (parse_file name error parse_it files r) ≡ is_readable (lookup name files)
  unfolding parse_file parse_csv
  parse_file-is_ok name error parse_it files r h = elim (Option-cases (lookup name files)) [
    | inl e ↦ rw (e, parse_file) refl
    | inr (unreadable, e) ↦ rw (e, parse_file) refl
    | inr (csv header rows, e) ↦ ground (arith, e, h header rows r)
  ]

  -- One more file.
  then_file :
      (a b : Bool) (m : Result (ParseResult F)) (f : ParseResult F → Result (ParseResult F))
      → is_ok m ≡ a
      → ((r : ParseResult F) → is_ok (f r) ≡ b)
      → is_ok (m >>= f) ≡ (a && b)
  then_file a b (ok r) f e h = ground (arith, e, h r)
  then_file a b (failed x) f e h = ground (arith, e)

  feed_file-is_ok :
      (name error : String) (parse_it : List String → List (Option Record) → Feed F → Feed F × Bool)
      (files : GoMap String CsvFile) (r : ParseResult F)
      → ((header : List String) (rows : List (Option Record)) (feed : Feed F)
          → (parse_it header rows feed).1 ≡ rows_accepted rows)
      → is_ok (parse_file name error (on_feed parse_it) files r) ≡ is_readable (lookup name files)
  unfolding on_feed
  feed_file-is_ok name error parse_it files r h =
      parse_file-is_ok name error (on_feed parse_it) files r
        (λ header rows r'. h header rows r'.feed)

  parse_shapes-accepted :
      (parse_float : String → F) (slices : SliceSort) (header : List String)
      (rows : List (Option Record)) (feed : Feed F)
      → (parse_shapes parse_float slices header rows feed).1 ≡ rows_accepted rows
  unfolding parse_shapes
  parse_shapes-accepted parse_float slices header rows feed =
      ground (arith, rows_loop-accepted (point_row parse_float (make_index header)) rows [])

  parse_files-is_ok :
      (parse_float : String → F) (slices : SliceSort) (files : GoMap String CsvFile)
      (r : ParseResult F)
      → is_ok (parse_files parse_float slices files r) ≡ all_readable files
  unfolding parse_files parse_routes parse_stops parse_trips parse_calendar parse_calendar_dates
      parse_stop_times
  parse_files-is_ok parse_float slices files r =
      then_file _ _ _ _
        (feed_file-is_ok _ _ parse_routes files r (λ header rows s. rows_loop-accepted _ rows _))
        (λ r1.
          then_file _ _ _ _
            (feed_file-is_ok _ _ (parse_shapes parse_float slices) files r1
              (parse_shapes-accepted parse_float slices))
            (λ r2.
              then_file _ _ _ _
                (feed_file-is_ok _ _ (parse_stops parse_float) files r2
                  (λ header rows s. rows_loop-accepted _ rows _))
                (λ r3.
                  then_file _ _ _ _
                    (parse_file-is_ok _ _ parse_trips files r3
                      (λ header rows s. trips_loop-accepted _ rows _))
                    (λ r4.
                      then_file _ _ _ _
                        (feed_file-is_ok _ _ parse_calendar files r4
                          (λ header rows s. rows_loop-accepted _ rows _))
                        (λ r5.
                          then_file _ _ _ _
                            (feed_file-is_ok _ _ parse_calendar_dates files r5
                              (λ header rows s. rows_loop-accepted _ rows _))
                            (λ r6.
                              parse_file-is_ok _ _ parse_stop_times files r6
                                (λ header rows s. stop_times_loop-accepted _ rows s)))))))

  -- `Parse` succeeds exactly when each of the seven files is missing from the archive, or can be read
  -- to its end: no content of a row, a missing column, an empty field or a number that cannot be
  -- read, makes it fail.
  pub parse-is_ok :
      (parse_float : String → F) (slices : SliceSort) (archive : List (String × CsvFile))
      → is_ok (parse parse_float slices archive) ≡ all_readable (file_map archive [])
  unfolding parse
  parse-is_ok parse_float slices archive =
      ground (arith, parse_files-is_ok parse_float slices (file_map archive []) new_result)
