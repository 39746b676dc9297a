-- ===== src/Gtfs.antt =====
-- internal/domain/gtfs.go: the types of a GTFS timetable. A pointer to a value that is never changed
-- is the value. `int` is ℤ, or ℕ where the code only counts or indexes with it.
pub mod Dates
pub mod Services
pub mod Store
pub mod Parser
pub mod Ranges
pub mod Lines
pub mod RouteStops
pub mod Archive
pub mod Download
pub mod ParseCache
use wabus_backend.Prelude.{
  ℕ, ℤ, pos, String, Bool, Option, none, some, List, [], ◌∷◌, ite, ℤ-discrete, if◌then◌else◌, same,
  int_key,
}
use wabus_backend.GoMap.{GoMap}

abbrev pub RouteType : Type 0
RouteType = ℤ

-- `String`
unfoldable pub route_type_name : RouteType → String
route_type_name t =
    if same t (pos 0)
    then "tram"
    else if same t (pos 1)
    then "subway"
    else if same t (pos 2)
    then "rail"
    else if same t (pos 3)
    then "bus"
    else if same t (pos 4)
    then "ferry"
    else if same t (pos 5)
    then "cable_tram"
    else if same t (pos 6)
    then "aerial_lift"
    else if same t (pos 7)
    then "funicular"
    else "unknown"

pub record Route : Type 0 where
  pub id : String
  pub short_name : String
  pub long_name : String
  pub route_type : RouteType
  pub color : String
  pub text_color : String

pub record ShapePoint (F : Type 0) : Type 0 where
  pub lat : F
  pub lon : F
  pub sequence : ℤ

pub record Shape (F : Type 0) : Type 0 where
  pub id : String
  pub points : List (ShapePoint F)
  pub direction_id : Option ℤ

pub record Stop (F : Type 0) : Type 0 where
  pub id : String
  pub code : String
  pub name : String
  pub lat : F
  pub lon : F
  pub zone : String

pub record StopTime : Type 0 where
  pub trip_id : String
  pub route_id : String
  pub service_id : String
  pub line : String
  pub headsign : String
  pub arrival_time : String
  pub departure_time : String
  pub stop_sequence : ℕ

pub record Calendar : Type 0 where
  pub service_id : String
  pub monday : Bool
  pub tuesday : Bool
  pub wednesday : Bool
  pub thursday : Bool
  pub friday : Bool
  pub saturday : Bool
  pub sunday : Bool
  pub start_date : String
  pub end_date : String

pub record CalendarDate : Type 0 where
  pub service_id : String
  pub date : String
  pub exception_type : ℤ

pub record TripTimeEntry : Type 0 where
  pub shape_id : String
  pub service_id : String
  pub direction_id : ℤ
  pub start_minutes : ℤ
  pub end_minutes : ℤ

pub record TripMeta : Type 0 where
  pub id : String
  pub route_id : String
  pub service_id : String
  pub shape_id : String
  pub headsign : String
  pub direction_id : ℤ

-- The first three fields are `uint32`, the last is `uint16`.
pub record StopTimeCompact : Type 0 where
  pub trip_index : ℕ
  pub arrival_seconds : ℕ
  pub departure_seconds : ℕ
  pub stop_sequence : ℕ

pub record StopLine : Type 0 where
  pub route_id : String
  pub line : String
  pub long_name : String
  pub route_type : RouteType
  pub color : String
  pub headsigns : List String

-- What the parser (pkg/gtfs/parser.go) hands to the store: the arguments of `UpdateAll`.
pub record Feed (F : Type 0) : Type 0 where
  pub routes : GoMap String Route
  pub shapes : GoMap String (Shape F)
  pub stops : GoMap String (Stop F)
  pub route_shapes : GoMap String (List String)
  pub stop_schedules : GoMap String (List StopTimeCompact)
  pub stop_lines : GoMap String (List StopLine)
  pub route_stops : GoMap String (List (Stop F))
  pub route_trip_times : GoMap String (List TripTimeEntry)
  pub trips : List TripMeta
  pub calendars : GoMap String Calendar
  pub calendar_dates : GoMap String (List CalendarDate)
  pub shape_directions : GoMap String ℤ
