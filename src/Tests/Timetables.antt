-- ===== src/Tests/Timetables.antt =====
-- Tests of the timetable store (internal/store/gtfs_store.go).
use mathlib.Core.Option
use wabus_backend.Prelude.{
  string_discrete, Bool-cases, ℤ, pos, ◌≡◌, ◌↔◌, refl, true, false, none, [], ◌∷◌, String,
  string_key, In,
}
use wabus_backend.GoMap.{lookup, values}
use wabus_backend.Gtfs.{
  Route, Shape, Calendar, CalendarDate, TripTimeEntry, TripMeta, StopTimeCompact, Feed,
}
use wabus_backend.Gtfs.Dates.{Date, yesterday}
use wabus_backend.Gtfs.Services.{flag, get_active_services}
use wabus_backend.Gtfs.Services.Active.{covers, excepted, exceptions, active_services_lem}
use wabus_backend.Gtfs.Store.{
  GtfsStore, new_gtfs_store, update_all, get_route_by_line, services_on, get_stop_schedule,
  get_stop_schedule_for_date, get_route_shapes, get_active_route_shapes,
}
use wabus_backend.Gtfs.Store.Lines.{IsFor, route_by_line_lem}
use wabus_backend.Gtfs.Store.Schedule.{running, schedule_for_date_lem}
use wabus_backend.Gtfs.Store.Shapes.{Runs, IsCopy, listed, active_shapes_lem}

abbrev weekdays : Calendar
weekdays = record {
  service_id = "wk";
  monday = true;
  tuesday = true;
  wednesday = true;
  thursday = true;
  friday = true;
  saturday = false;
  sunday = false;
  start_date = "20240101";
  end_date = "20241231";
}

abbrev new_year_off : CalendarDate
new_year_off = record { service_id = "wk"; date = "20240101"; exception_type = pos 2 }

abbrev route_523 : Route
route_523 = record {
  id = "r1";
  short_name = "523";
  long_name = "Olszynka - Esperanto";
  route_type = pos 3;
  color = "";
  text_color = "";
}

abbrev pub trip : TripMeta
trip = record {
  id = "t1";
  route_id = "r1";
  service_id = "wk";
  shape_id = "s1";
  headsign = "Esperanto";
  direction_id = pos 0;
}

abbrev pub morning : StopTimeCompact
morning = record {
  trip_index = 0;
  arrival_seconds = 25200;
  departure_seconds = 25230;
  stop_sequence = 3;
}

abbrev pub dangling : StopTimeCompact
dangling = record morning { trip_index = 5 }

abbrev morning_run : TripTimeEntry
morning_run = record {
  shape_id = "s1";
  service_id = "wk";
  direction_id = pos 0;
  start_minutes = pos 410;
  end_minutes = pos 470;
}

abbrev pub feed : Feed ℤ
feed = record {
  routes = ("r1", route_523) ∷ [];
  shapes = ("s1", record { id = "s1"; points = []; direction_id = none }) ∷ [];
  stops = [];
  route_shapes = ("r1", "s1" ∷ []) ∷ [];
  stop_schedules = ("7001", morning ∷ dangling ∷ []) ∷ [];
  stop_lines = [];
  route_stops = [];
  route_trip_times = ("r1", morning_run ∷ []) ∷ [];
  trips = trip ∷ [];
  calendars = ("wk", weekdays) ∷ [];
  calendar_dates = ("wk", new_year_off ∷ []) ∷ [];
  shape_directions = ("s1", pos 1) ∷ [];
}

abbrev pub timetable : GtfsStore ℤ
timetable = update_all feed (pos 9) new_gtfs_store

abbrev pub tuesday : Date
tuesday = record { year = 2024; month = 1; day = 2 }

active_services_example :
    flag "wk" (get_active_services feed.calendars feed.calendar_dates "20240101" 1)
    ≡ excepted "20240101"
        (exceptions (lookup "wk" feed.calendar_dates))
        (covers "20240101" 1 (lookup "wk" feed.calendars))
unfolding lookup
active_services_example =
    active_services_lem "20240101" 1 feed.calendars feed.calendar_dates "wk" (refl, tt) (refl, tt)

route_by_line_example :
    IsFor "523"
      (values feed.routes)
      none
      (get_route_by_line "523" (update_all feed (pos 9) timetable))
route_by_line_example = route_by_line_lem "523" feed (pos 9) timetable

schedule_for_date_example :
    get_stop_schedule_for_date "7001" tuesday timetable
    ≡ Option.map (running (services_on tuesday timetable)) (get_stop_schedule "7001" timetable)
schedule_for_date_example = schedule_for_date_lem "7001" tuesday timetable

active_shapes_example :
    (((k : String)
        → Runs
            (services_on tuesday timetable)
            (services_on (yesterday tuesday) timetable)
            (pos 420)
            k
            (morning_run ∷ [])
        → ⊥)
      → get_active_route_shapes "r1" tuesday (pos 420) timetable ≡ get_route_shapes "r1" timetable)
    × ((k : String)
        → Runs
            (services_on tuesday timetable)
            (services_on (yesterday tuesday) timetable)
            (pos 420)
            k
            (morning_run ∷ [])
        → (shape : Shape ℤ)
        → In shape (listed (get_active_route_shapes "r1" tuesday (pos 420) timetable))
          ↔ IsCopy
              (λ id.
                Runs
                  (services_on tuesday timetable)
                  (services_on (yesterday tuesday) timetable)
                  (pos 420)
                  id
                  (morning_run ∷ []))
              timetable
              shape)
unfolding update_all lookup string_discrete Bool-cases
active_shapes_example = active_shapes_lem "r1" tuesday (pos 420) timetable (morning_run ∷ []) refl
