-- ===== src/Gtfs/Parser/Rows.antt =====
-- pkg/gtfs/parser.go: the rows of routes.txt, shapes.txt, stops.txt, calendar.txt and
-- calendar_dates.txt. `parse_float` is the number that `strconv.ParseFloat` returns, also with an
-- error, which the code drops.
use wabus_backend.Prelude.{
  ℕ, ℤ, pos, ltb_ℤ, Bool, true, false, not, Option, none, some, List, [], ◌∷◌, String, string_key,
  same, if◌then◌else◌, atoi,
}
use wabus_backend.GoMap.{GoMap, insert, insert_each}
use wabus_backend.Sorting.{SliceSort}
use wabus_backend.Gtfs.{Route, ShapePoint, Shape, Stop, Calendar, CalendarDate, Feed}
use wabus_backend.Gtfs.Parser.{Record, make_index, get_field, append_at}

-- The loop that each function runs over the rows. It stops at a row that is refused, with false.
unfoldable pub rows_loop : {S : Type 0} → (Record → S → S) → List (Option Record) → S → S × Bool
rows_loop step [] s = (s, true)
rows_loop step (none ∷ rows) s = (s, false)
rows_loop step (some row ∷ rows) s = rows_loop step rows (step row s)

unfoldable pub parse_route_type : String → ℤ
parse_route_type v = if not (same v "") then (if (atoi v).1 then (atoi v).0 else pos 3) else pos 3

unfoldable pub read_route : Record → GoMap String ℕ → Route
read_route row idx = record {
  id = get_field row idx "route_id";
  short_name = get_field row idx "route_short_name";
  long_name = get_field row idx "route_long_name";
  route_type = parse_route_type (get_field row idx "route_type");
  color = get_field row idx "route_color";
  text_color = get_field row idx "route_text_color";
}

abbrev pub one : String → Bool
one v = same v "1"

unfoldable pub read_calendar : Record → GoMap String ℕ → Calendar
read_calendar row idx = record {
  service_id = get_field row idx "service_id";
  monday = one (get_field row idx "monday");
  tuesday = one (get_field row idx "tuesday");
  wednesday = one (get_field row idx "wednesday");
  thursday = one (get_field row idx "thursday");
  friday = one (get_field row idx "friday");
  saturday = one (get_field row idx "saturday");
  sunday = one (get_field row idx "sunday");
  start_date = get_field row idx "start_date";
  end_date = get_field row idx "end_date";
}

unfoldable pub calendar_row :
    GoMap String ℕ → Record → GoMap String Calendar → GoMap String Calendar
calendar_row idx row calendars =
    let service = get_field row idx "service_id" in
    if same service "" then calendars else insert service (read_calendar row idx) calendars

unfoldable pub read_calendar_date : Record → GoMap String ℕ → CalendarDate
read_calendar_date row idx = record {
  service_id = get_field row idx "service_id";
  date = get_field row idx "date";
  exception_type = (atoi (get_field row idx "exception_type")).0;
}

unfoldable pub calendar_date_row :
    GoMap String ℕ → Record → GoMap String (List CalendarDate) → GoMap String (List CalendarDate)
calendar_date_row idx row dates =
    let service = get_field row idx "service_id" in
    if same service "" then dates else append_at service (read_calendar_date row idx) dates

unfoldable pub route_row : GoMap String ℕ → Record → GoMap String Route → GoMap String Route
route_row idx row routes = let route = read_route row idx in insert route.id route routes

module _ {F : Type 0} where
  -- `parseRoutes`
  unfoldable pub parse_routes : List String → List (Option Record) → Feed F → Feed F × Bool
  parse_routes header rows feed =
      let o = rows_loop (route_row (make_index header)) rows feed.routes in
      (record feed { routes = o.0 }, o.1)

  unfoldable pub parse_calendar : List String → List (Option Record) → Feed F → Feed F × Bool
  parse_calendar header rows feed =
      let o = rows_loop (calendar_row (make_index header)) rows feed.calendars in
      (record feed { calendars = o.0 }, o.1)

  unfoldable pub parse_calendar_dates : List String → List (Option Record) → Feed F → Feed F × Bool
  parse_calendar_dates header rows feed =
      let o = rows_loop (calendar_date_row (make_index header)) rows feed.calendar_dates in
      (record feed { calendar_dates = o.0 }, o.1)

  -- The order of the points of a shape.
  unfoldable pub earlier_point : ShapePoint F → ShapePoint F → Bool
  earlier_point a b = ltb_ℤ a.sequence b.sequence

  -- The body of the second loop of `parseShapes`.
  unfoldable pub shape_of : SliceSort → String → List (ShapePoint F) → Shape F
  shape_of slices shape_id pts = record {
    id = shape_id;
    points = slices.sort earlier_point pts;
    direction_id = none;
  }

  module _ (parse_float : String → F) where
    unfoldable pub read_point : Record → GoMap String ℕ → ShapePoint F
    read_point row idx = record {
      lat = parse_float (get_field row idx "shape_pt_lat");
      lon = parse_float (get_field row idx "shape_pt_lon");
      sequence = (atoi (get_field row idx "shape_pt_sequence")).0;
    }

    unfoldable pub point_row :
        GoMap String ℕ
        → Record
        → GoMap String (List (ShapePoint F))
        → GoMap String (List (ShapePoint F))
    point_row idx row points = append_at (get_field row idx "shape_id") (read_point row idx) points

    -- `parseShapes`. A refused row ends it before the shapes are stored.
    unfoldable pub parse_shapes :
        SliceSort → List String → List (Option Record) → Feed F → Feed F × Bool
    parse_shapes slices header rows feed =
        let o = rows_loop (point_row (make_index header)) rows [] in
        if o.1
        then (record feed { shapes = insert_each (shape_of slices) o.0 feed.shapes }, true)
        else (feed, false)

    unfoldable pub read_stop : Record → GoMap String ℕ → Stop F
    read_stop row idx = record {
      id = get_field row idx "stop_id";
      code = get_field row idx "stop_code";
      name = get_field row idx "stop_name";
      lat = parse_float (get_field row idx "stop_lat");
      lon = parse_float (get_field row idx "stop_lon");
      zone = get_field row idx "zone_id";
    }

    unfoldable pub stop_row :
        GoMap String ℕ → Record → GoMap String (Stop F) → GoMap String (Stop F)
    stop_row idx row stops = let stop = read_stop row idx in insert stop.id stop stops

    unfoldable pub parse_stops : List String → List (Option Record) → Feed F → Feed F × Bool
    parse_stops header rows feed =
        let o = rows_loop (stop_row (make_index header)) rows feed.stops in
        (record feed { stops = o.0 }, o.1)
