-- ===== src/Gtfs/Store.antt =====
-- internal/store/gtfs_store.go: the timetable store. `feed` is the store's fields that `UpdateAll`
-- replaces whole. A slice that may be nil is an option, with none for nil.
pub mod Lines
pub mod Schedule
pub mod Shapes
use wabus_backend.Prelude.{
  ℕ, ℤ, pos, negsuc, ◌+ℤ◌, ◌-ℤ◌, ltb_ℤ, ◌+◌, ◌*◌, ◌/◌, ◌%◌, ◌≡◌, refl, ite, Bool, true, false, ◌||◌,
  ◌&&◌, not, ◌==◌, Option, none, some, List, [], ◌∷◌, ◌++◌, map, String, string_key, int_key, same,
  if◌then◌else◌, length, get_elem?, two_digits, ◌<>◌,
}
use wabus_backend.Domain.{Time}
use wabus_backend.GoMap.{GoMap, lookup, insert, keys, values}
use wabus_backend.Gtfs.{
  Route, Shape, Stop, StopTime, Calendar, CalendarDate, TripTimeEntry, TripMeta, StopTimeCompact,
  StopLine, Feed,
}
use wabus_backend.Gtfs.Dates.{Date, yesterday, weekday, compact_date}
use wabus_backend.Gtfs.Services.{flag, get_active_services}

pub record GtfsStore (F : Type 0) : Type 0 where
  pub feed : Feed F
  pub routes_by_line : GoMap String Route
  pub last_update : Time

pub record GtfsStats : Type 0 where
  pub routes_count : ℕ
  pub shapes_count : ℕ
  pub stops_count : ℕ
  pub stats_update : Time
  pub is_loaded : Bool

-- `fmt.Sprintf("%02d:%02d:%02d", ...)`
unfoldable pub format_gtfs_time : ℕ → String
format_gtfs_time total_seconds =
    two_digits (total_seconds / 3600)
    <> ":"
    <> two_digits (total_seconds % 3600 / 60)
    <> ":"
    <> two_digits (total_seconds % 60)

-- The loop of `UpdateAll`.
unfoldable pub line_loop : List Route → GoMap String Route → GoMap String Route
line_loop [] by_line = by_line
line_loop (route ∷ routes) by_line = line_loop routes (insert route.short_name route by_line)

abbrev line_of : Option Route → String
line_of none = ""
line_of (some route) = route.short_name

abbrev pub none_if_empty {ℓ} : {A : Type ℓ} → List A → Option (List A)
none_if_empty [] = none
none_if_empty (x ∷ xs) = some (x ∷ xs)

-- The window of half an hour around the time.
unfoldable pub in_window : ℤ → TripTimeEntry → Bool
in_window minutes tt =
    not (ltb_ℤ (minutes +ℤ pos 30) tt.start_minutes)
    && not (ltb_ℤ tt.end_minutes (minutes -ℤ pos 30))

-- The body of the loop of `GetActiveRouteShapes`, over the services of today and yesterday.
unfoldable pub trip_time_step :
    GoMap String Bool
    → GoMap String Bool
    → ℤ
    → TripTimeEntry
    → GoMap String Bool
    → GoMap String Bool
trip_time_step today before minutes tt active =
    let active' =
      if flag tt.service_id today
      then (if in_window minutes tt then insert tt.shape_id true active else active)
      else active in
    if flag tt.service_id before && ltb_ℤ (pos 1440) tt.end_minutes
    then (if in_window (minutes +ℤ pos 1440) tt then insert tt.shape_id true active' else active')
    else active'

unfoldable pub trip_time_loop :
    GoMap String Bool
    → GoMap String Bool
    → ℤ
    → List TripTimeEntry
    → GoMap String Bool
    → GoMap String Bool
trip_time_loop today before minutes [] active = active
trip_time_loop today before minutes (tt ∷ trip_times) active =
    trip_time_loop today before minutes trip_times (trip_time_step today before minutes tt active)

unfoldable pub date_loop : List (List CalendarDate) → List CalendarDate
date_loop [] = []
date_loop (dates ∷ rest) = dates ++ date_loop rest

module _ {F : Type 0} where
  -- `NewGTFSStore`; the zero time is 0.
  unfoldable pub new_gtfs_store : GtfsStore F
  new_gtfs_store = record {
    feed = record {
      routes = [];
      shapes = [];
      stops = [];
      route_shapes = [];
      stop_schedules = [];
      stop_lines = [];
      route_stops = [];
      route_trip_times = [];
      trips = [];
      calendars = [];
      calendar_dates = [];
      shape_directions = [];
    };
    routes_by_line = [];
    last_update = pos 0;
  }

  unfoldable pub update_all : Feed F → Time → GtfsStore F → GtfsStore F
  update_all feed now s = record {
    feed = feed;
    routes_by_line = line_loop (values feed.routes) [];
    last_update = now;
  }

  unfoldable pub get_all_routes : GtfsStore F → List Route
  get_all_routes s = values s.feed.routes

  unfoldable pub get_route_by_id : String → GtfsStore F → Option Route
  get_route_by_id id s = lookup id s.feed.routes

  unfoldable pub get_route_by_line : String → GtfsStore F → Option Route
  get_route_by_line line s = lookup line s.routes_by_line

  unfoldable pub get_all_stops : GtfsStore F → List (Stop F)
  get_all_stops s = values s.feed.stops

  unfoldable pub get_stop_by_id : String → GtfsStore F → Option (Stop F)
  get_stop_by_id id s = lookup id s.feed.stops

  unfoldable pub get_route_stops : String → GtfsStore F → Option (List (Stop F))
  get_route_stops route_id s = lookup route_id s.feed.route_stops

  unfoldable pub get_stop_lines : String → GtfsStore F → Option (List StopLine)
  get_stop_lines stop_id s = lookup stop_id s.feed.stop_lines

  unfoldable pub get_stats : GtfsStore F → GtfsStats
  get_stats s = record {
    routes_count = length s.feed.routes;
    shapes_count = length s.feed.shapes;
    stops_count = length s.feed.stops;
    stats_update = s.last_update;
    is_loaded = not (same s.last_update (pos 0));
  }

  -- `decodeStopTimeLocked`, once the trip has been read.
  unfoldable pub decode_trip : StopTimeCompact → Option TripMeta → GtfsStore F → Option StopTime
  decode_trip st none s = none
  decode_trip st (some trip) s = some (record {
    trip_id = trip.id;
    route_id = trip.route_id;
    service_id = trip.service_id;
    line = line_of (lookup trip.route_id s.feed.routes);
    headsign = trip.headsign;
    arrival_time = format_gtfs_time st.arrival_seconds;
    departure_time = format_gtfs_time st.departure_seconds;
    stop_sequence = st.stop_sequence;
  })

  unfoldable pub decode_stop_time : StopTimeCompact → GtfsStore F → Option StopTime
  decode_stop_time st s = decode_trip st (get_elem? s.feed.trips st.trip_index) s

  -- The loop of `GetStopSchedule`.
  unfoldable pub decode_loop : List StopTimeCompact → GtfsStore F → List StopTime
  decode_loop [] s = []
  decode_loop (st ∷ schedule) s =
      let rest = decode_loop schedule s in
      elim (decode_stop_time st s) [ none ↦ rest | some decoded ↦ decoded ∷ rest ]

  unfoldable pub get_stop_schedule : String → GtfsStore F → Option (List StopTime)
  get_stop_schedule stop_id s = elim (lookup stop_id s.feed.stop_schedules) [
    | none ↦ none
    | some schedule ↦ some (decode_loop schedule s)
  ]

  -- The loop of `GetStopScheduleForDate`.
  unfoldable pub decode_active_loop :
      GoMap String Bool → List StopTimeCompact → GtfsStore F → List StopTime
  decode_active_loop active [] s = []
  decode_active_loop active (st ∷ schedule) s =
      let rest = decode_active_loop active schedule s in
      elim (get_elem? s.feed.trips st.trip_index) [
        | none ↦ rest
        | some trip ↦
            if not (flag trip.service_id active)
            then rest
            else elim (decode_stop_time st s) [ none ↦ rest | some decoded ↦ decoded ∷ rest ]
      ]

  unfoldable pub services_on : Date → GtfsStore F → GoMap String Bool
  services_on date s =
      get_active_services s.feed.calendars s.feed.calendar_dates (compact_date date) (weekday date)

  unfoldable pub get_stop_schedule_for_date : String → Date → GtfsStore F → Option (List StopTime)
  get_stop_schedule_for_date stop_id date s = elim (lookup stop_id s.feed.stop_schedules) [
    | none ↦ none
    | some schedule ↦ some (decode_active_loop (services_on date s) schedule s)
  ]

  -- The copy of a shape that the two loops over shape ids append.
  unfoldable pub shape_copy : String → Shape F → GtfsStore F → Shape F
  shape_copy shape_id shape s = record shape {
    direction_id = elim (lookup shape_id s.feed.shape_directions) [
      | none ↦ some (pos 0)
      | some dir ↦ some dir
    ];
  }

  unfoldable pub shape_loop : List String → GtfsStore F → List (Shape F)
  shape_loop [] s = []
  shape_loop (shape_id ∷ shape_ids) s =
      let rest = shape_loop shape_ids s in
      elim (lookup shape_id s.feed.shapes) [
        | none ↦ rest
        | some shape ↦ shape_copy shape_id shape s ∷ rest
      ]

  -- `getRouteShapesLocked`, `GetRouteShapes`
  unfoldable pub get_route_shapes : String → GtfsStore F → Option (List (Shape F))
  get_route_shapes route_id s = elim (lookup route_id s.feed.route_shapes) [
    | none ↦ none
    | some shape_ids ↦ some (shape_loop shape_ids s)
  ]

  -- `GetActiveRouteShapes`, once the shapes of the running trips are known.
  unfoldable pub shapes_or_all : String → GoMap String Bool → GtfsStore F → Option (List (Shape F))
  shapes_or_all route_id active s =
      if length active == 0
      then get_route_shapes route_id s
      else none_if_empty (shape_loop (keys active) s)

  unfoldable pub get_active_route_shapes : String → Date → ℤ → GtfsStore F → Option (List (Shape F))
  get_active_route_shapes route_id date minutes s = elim (lookup route_id s.feed.route_trip_times) [
    | none ↦ get_route_shapes route_id s
    | some trip_times ↦
        shapes_or_all route_id
          (trip_time_loop (services_on date s) (services_on (yesterday date) s) minutes trip_times
            [])
          s
  ]

  -- `GetCalendarsAndDates`
  unfoldable pub get_calendars_and_dates : GtfsStore F → List Calendar × List CalendarDate
  get_calendars_and_dates s = (values s.feed.calendars, date_loop (values s.feed.calendar_dates))
