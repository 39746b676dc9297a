-- ===== src/Gtfs/Archive/Complete.antt =====
-- What `Parse` of pkg/gtfs/parser.go stores and internal/store/gtfs_store.go shows of it: the stop
-- times of a whole archive.
use wabus_backend.Prelude.{
  ◌^◌, ◌≤◌, ◌≡◌, ◌∙◌, ap, refl, sym, subst, inl, inr, Bool, Option, none, some, List, [], arith,
  String, string_key, length, get_elem?, In, Bool-cases, Option-cases,
}
use wabus_backend.Domain.{Time}
use wabus_backend.GoMap.{GoMap, lookup}
use wabus_backend.Sorting.{SliceSort}
use wabus_backend.Gtfs.{Feed, StopTime, StopTimeCompact}
use wabus_backend.Gtfs.Parser.{
  Record, ParseResult, parse_trips, parse_stop_times, make_index, ids_or_nil,
}
use wabus_backend.Gtfs.Parser.Rows.{
  parse_routes, parse_shapes, parse_stops, parse_calendar, parse_calendar_dates,
}
use wabus_backend.Gtfs.Parser.Trips.{
  AreIndexed, Resolves, trips_loop-AreIndexed, stop_times_loop-Resolves,
}
use wabus_backend.Gtfs.Parser.Indexed.{carried-IsIndexed}
use wabus_backend.Gtfs.Parser.Decoded.{decode_loop-length}
use wabus_backend.Gtfs.Lines.{build_stop_lines}
use wabus_backend.Gtfs.RouteStops.{build_route_stops}
use wabus_backend.Gtfs.Ranges.{build_trip_time_ranges}
use wabus_backend.Gtfs.Store.{GtfsStore, update_all, decode_loop, get_stop_schedule}
use wabus_backend.Gtfs.Archive.{
  CsvFile, unreadable, csv, Result, ok, failed, ◌>>=◌, Reader, on_feed, parse_csv, parse_file,
  parse_files, file_map, new_result, build_indices, parse,
}

-- The rows of trips.txt that the archive has.
abbrev pub rows_of : Option CsvFile → List (Option Record)
rows_of none = []
rows_of (some unreadable) = []
rows_of (some (csv header rows)) = rows

module _ {F : Type 0} where
  ok-injective : {r s : ParseResult F} → ok r ≡ ok s → r ≡ s
  ok-injective e = cc

  -- A chain that comes to a value went through its first part.
  >>=-ok :
      (m : Result (ParseResult F)) (f : ParseResult F → Result (ParseResult F)) {r : ParseResult F}
      → (m >>= f) ≡ ok r
      → (s : ParseResult F) × (m ≡ ok s) × (f s ≡ ok r)
  >>=-ok (ok s) f e = (s, refl, e)
  >>=-ok (failed x) f e = cc

  -- The trips, their index and the stop times stay.
  abbrev Keeps : ParseResult F → ParseResult F → Type 0
  Keeps r s =
      (s.feed.trips ≡ r.feed.trips)
      × (s.trip_index ≡ r.trip_index)
      × (s.feed.stop_schedules ≡ r.feed.stop_schedules)

  Keeps-trans : (r s t : ParseResult F) → Keeps r s → Keeps s t → Keeps r t
  Keeps-trans r s t h k = (k.0 ∙ h.0, k.1 ∙ h.1, k.2 ∙ h.2)

  -- What every reader keeps, a file that is read keeps.
  parse_file-holds :
      (P : ParseResult F → ParseResult F → Type 0) (name error : String) (parse_it : Reader F)
      (files : GoMap String CsvFile) (r s : ParseResult F)
      → P r r
      → ((header : List String) → P r (parse_it header (rows_of (lookup name files)) r).0)
      → parse_file name error parse_it files r ≡ ok s
      → P r s
  unfolding parse_file parse_csv
  parse_file-holds P name error parse_it files r s same read e =
      elim (Option-cases (lookup name files)) [
        | inl missing ↦ subst (P r) (ok-injective (sym (rw (missing, parse_file) refl) ∙ e)) same
        | inr (unreadable, found) ↦ absurd (ground (arith, found, e))
        | inr (csv header rows, found) ↦ elim (Bool-cases (parse_it header rows r).1) [
          | inl read_whole ↦
              subst (P r) (ground (arith, found, read_whole, e)) (rw found at read header)
          | inr broken ↦ absurd (ground (arith, found, broken, e))
        ]
      ]

  feed_file-Keeps :
      (name error : String) (parse_it : List String → List (Option Record) → Feed F → Feed F × Bool)
      (files : GoMap String CsvFile) (r s : ParseResult F)
      → ((header : List String) (rows : List (Option Record)) (feed : Feed F)
          → ((parse_it header rows feed).0.trips ≡ feed.trips)
            × ((parse_it header rows feed).0.stop_schedules ≡ feed.stop_schedules))
      → parse_file name error (on_feed parse_it) files r ≡ ok s
      → Keeps r s
  unfolding on_feed
  feed_file-Keeps name error parse_it files r s h =
      parse_file-holds Keeps name error (on_feed parse_it) files r s (refl, refl, refl)
        (λ header.
          let (trips, schedules) = h header (rows_of (lookup name files)) r.feed in
          (trips, refl, schedules))

  parse_shapes-frame :
      (parse_float : String → F) (slices : SliceSort) (header : List String)
      (rows : List (Option Record)) (feed : Feed F)
      → ((parse_shapes parse_float slices header rows feed).0.trips ≡ feed.trips)
        × ((parse_shapes parse_float slices header rows feed).0.stop_schedules
            ≡ feed.stop_schedules)
  unfolding parse_shapes
  parse_shapes-frame parse_float slices header rows feed = ground arith

  abbrev IsFresh : ParseResult F → Type 0
  IsFresh r = (r.feed.trips ≡ []) × (r.trip_index ≡ []) × (r.feed.stop_schedules ≡ [])

  abbrev HasTrips : ParseResult F → Type 0
  HasTrips r = AreIndexed r × (r.feed.stop_schedules ≡ [])

  trips_file-HasTrips :
      (files : GoMap String CsvFile) (r s : ParseResult F)
      → length (rows_of (lookup "trips.txt" files)) ≤ 2 ^ 32
      → IsFresh r
      → parse_file "trips.txt" "parse trips" parse_trips files r ≡ ok s
      → HasTrips s
  unfolding parse_trips lookup
  trips_file-HasTrips files r s small (no_trips, no_index, no_times) =
      let none_yet =
        carried-IsIndexed no_trips no_index
          (record { found = λ id i e. absurd (cc); listed = λ i t e. absurd (cc) }) in
      parse_file-holds (λ _ q. HasTrips q) "trips.txt" "parse trips" parse_trips files r s
        (none_yet, no_times)
        (λ header.
          let (indexed, kept) =
            trips_loop-AreIndexed (make_index header) (rows_of (lookup "trips.txt" files))
              (record { result = r; seen = [] }) (omega (arith, small, ap length no_trips))
              none_yet in
          (indexed, kept ∙ no_times))

  times_file-Resolves :
      (files : GoMap String CsvFile) (r s : ParseResult F)
      → HasTrips r
      → parse_file "stop_times.txt" "parse stop_times" parse_stop_times files r ≡ ok s
      → Resolves s
  unfolding parse_stop_times lookup
  times_file-Resolves files r s (indexed, no_times) =
      let none_yet : Resolves r =
        λ stop st m. absurd (subst (λ x. In st (ids_or_nil (lookup stop x))) no_times m) in
      parse_file-holds (λ _ q. Resolves q) "stop_times.txt" "parse stop_times" parse_stop_times
        files r s none_yet
        (λ header.
          stop_times_loop-Resolves (make_index header) (rows_of (lookup "stop_times.txt" files)) r
            indexed none_yet)

  Keeps-HasTrips : (r s : ParseResult F) → Keeps r s → HasTrips r → HasTrips s
  Keeps-HasTrips r s (trips, index, schedules) (indexed, no_times) =
      (carried-IsIndexed trips index indexed, schedules ∙ no_times)

  Keeps-IsFresh : (r s : ParseResult F) → Keeps r s → IsFresh r → IsFresh s
  Keeps-IsFresh r s (trips, index, schedules) (no_trips, no_index, no_times) =
      (trips ∙ no_trips, index ∙ no_index, schedules ∙ no_times)

  parse_files-Resolves :
      (parse_float : String → F) (slices : SliceSort) (files : GoMap String CsvFile)
      (r s : ParseResult F)
      → length (rows_of (lookup "trips.txt" files)) ≤ 2 ^ 32
      → IsFresh r
      → parse_files parse_float slices files r ≡ ok s
      → Resolves s
  unfolding parse_files parse_routes parse_stops parse_calendar parse_calendar_dates
  parse_files-Resolves parse_float slices files r s small fresh e =
      let (r1, e1, k1) = >>=-ok _ _ e in
      let (r2, e2, k2) = >>=-ok _ _ k1 in
      let (r3, e3, k3) = >>=-ok _ _ k2 in
      let (r4, e4, k4) = >>=-ok _ _ k3 in
      let (r5, e5, k5) = >>=-ok _ _ k4 in
      let (r6, e6, e7) = >>=-ok _ _ k5 in
      let fresh1 =
        Keeps-IsFresh r r1 (feed_file-Keeps _ _ parse_routes files r r1 (λ _ _ _. (refl, refl)) e1)
          fresh in
      let fresh2 =
        Keeps-IsFresh r1 r2
          (feed_file-Keeps _ _ (parse_shapes parse_float slices) files r1 r2
            (parse_shapes-frame parse_float slices) e2)
          fresh1 in
      let fresh3 =
        Keeps-IsFresh r2 r3
          (feed_file-Keeps _ _ (parse_stops parse_float) files r2 r3 (λ _ _ _. (refl, refl)) e3)
          fresh2 in
      let trips4 = trips_file-HasTrips files r3 r4 small fresh3 e4 in
      let trips5 =
        Keeps-HasTrips r4 r5
          (feed_file-Keeps _ _ parse_calendar files r4 r5 (λ _ _ _. (refl, refl)) e5) trips4 in
      let trips6 =
        Keeps-HasTrips r5 r6
          (feed_file-Keeps _ _ parse_calendar_dates files r5 r6 (λ _ _ _. (refl, refl)) e6)
          trips5 in
      times_file-Resolves files r6 s trips6 e7

  build_indices-frame :
      (slices : SliceSort) (r : ParseResult F)
      → ((build_indices slices r).feed.trips ≡ r.feed.trips)
        × ((build_indices slices r).feed.stop_schedules ≡ r.feed.stop_schedules)
  unfolding build_indices build_stop_lines build_route_stops build_trip_time_ranges
  build_indices-frame slices r = ground arith

  -- Of an archive that parses, and that has at most 2^32 rows of trips, the timetable store that is
  -- updated with the result shows, for each stop that has stop times, all of them: none of them is
  -- dropped because its trip cannot be found.
  pub parse_complete :
      (parse_float : String → F) (slices : SliceSort) (archive : List (String × CsvFile))
      (r : ParseResult F) (now : Time) (s : GtfsStore F) (stop : String)
      (schedule : List StopTimeCompact)
      → length (rows_of (lookup "trips.txt" (file_map archive []))) ≤ 2 ^ 32
      → parse parse_float slices archive ≡ ok r
      → lookup stop r.feed.stop_schedules ≡ some schedule
      → (shown : List StopTime) × (get_stop_schedule stop (update_all r.feed now s) ≡ some shown)
        × (length shown ≡ length schedule)
  unfolding parse get_stop_schedule update_all new_result
  parse_complete parse_float slices archive r now s stop schedule small e stored =
      let (q, eq, built) = >>=-ok _ _ e in
      let resolved =
        parse_files-Resolves parse_float slices (file_map archive []) new_result q small
          (refl, refl, refl) eq in
      let (trips, schedules) = build_indices-frame slices q in
      let is_built : build_indices slices q ≡ r = ok-injective built in
      let same_trips : r.feed.trips ≡ q.feed.trips =
        ap (λ x. x.feed.trips) (sym is_built) ∙ trips in
      let same_times : r.feed.stop_schedules ≡ q.feed.stop_schedules =
        ap (λ x. x.feed.stop_schedules) (sym is_built) ∙ schedules in
      (
        decode_loop schedule (update_all r.feed now s),
        rw (stored, get_stop_schedule) refl,
        decode_loop-length schedule (update_all r.feed now s) (λ st i.
            let found : lookup stop q.feed.stop_schedules ≡ some schedule =
              ap (lookup stop) (sym same_times) ∙ stored in
            let (t, at, _) = resolved stop st (subst (λ o. In st (ids_or_nil o)) (sym found) i) in
            (t, ap (λ l. get_elem? l st.trip_index) same_trips ∙ at)),
      )
