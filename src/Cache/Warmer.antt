-- ===== src/Cache/Warmer.antt =====
-- internal/cache/warmer.go: what the warmer writes into the cache.
use wabus_backend.Prelude.{
  Bool, true, false, Option, none, some, List, [], ◌∷◌, map, String, if◌then◌else◌,
}
use wabus_backend.Domain.{Time, Duration}
use wabus_backend.Gtfs.{Stop, StopTime, StopLine, Route, Calendar, CalendarDate}
use wabus_backend.Gtfs.Dates.{Date, tomorrow, iso_date}
use wabus_backend.Gtfs.Store.{
  GtfsStore, get_all_stops, get_all_routes, get_stop_schedule_for_date, get_stop_lines,
  get_calendars_and_dates, get_stats,
}
use wabus_backend.Cache.{
  Redis, Json, Gzip, key_sync_full, key_schedule_today, key_schedule_tomorrow, key_stop_lines,
  set_json, set_json_compressed,
}

-- `SyncData`, and `SyncResponse` of internal/handler/gtfs_handler.go, which has the same fields.
pub record SyncData (F : Type 0) : Type 0 where
  pub routes : List Route
  pub stops : List (Stop F)
  pub calendars : List Calendar
  pub calendar_dates : List CalendarDate
  pub version : String
  pub generated_at : Time

-- What the warmer and the handlers use of the cache: the server, gzip, JSON for the three types that
-- are cached; and the local day of a time.
pub record CacheLink (F R B : Type 0) : Type 0 where
  pub redis : Redis R B
  pub gzip : Gzip B
  pub schedule_json : Json (Option (List StopTime)) B
  pub lines_json : Json (Option (List StopLine)) B
  pub sync_json : Json (SyncData F) B
  pub date_of : Time → Date

-- The tag of `StopTime.ServiceID` is `json:"-"`: JSON leaves the field out, and it is empty when the
-- value is read back.
unfoldable pub shown : StopTime → StopTime
shown st = record st { service_id = "" }

abbrev pub shown_schedule : Option (List StopTime) → Option (List StopTime)
shown_schedule none = none
shown_schedule (some sts) = some (map shown sts)

abbrev pub is_empty : {A : Type 0} → Option (List A) → Bool
is_empty none = true
is_empty (some []) = true
is_empty (some (x ∷ xs)) = false

module _ {F R B : Type 0} (w : CacheLink F R B) where
  unfoldable pub build_sync_data : Time → GtfsStore F → SyncData F
  build_sync_data now s = record {
    routes = get_all_routes s;
    stops = get_all_stops s;
    calendars = (get_calendars_and_dates s).0;
    calendar_dates = (get_calendars_and_dates s).1;
    version = iso_date (w.date_of (get_stats s).stats_update);
    generated_at = now;
  }

  module _ (ttl : Duration) where
    unfoldable pub warm_sync_data : Time → GtfsStore F → R → R
    warm_sync_data now s r =
        (set_json_compressed w.redis w.sync_json w.gzip now key_sync_full (build_sync_data now s)
          ttl r).0

    -- A schedule that is empty is not written, and counts as written.
    unfoldable pub warm_schedule : Time → String → Option (List StopTime) → R → R × Bool
    warm_schedule now key schedule r =
        if is_empty schedule
        then (r, true)
        else set_json w.redis w.schedule_json now key schedule ttl r

    -- The body of the loop of `warmSchedules`: a failed write for today skips the one for tomorrow.
    unfoldable pub warm_stop : Time → Date → GtfsStore F → String → R → R
    warm_stop now today s id r =
        let o =
          warm_schedule now (key_schedule_today id) (get_stop_schedule_for_date id today s) r in
        if o.1
        then (warm_schedule now (key_schedule_tomorrow id)
            (get_stop_schedule_for_date id (tomorrow today) s) o.0).0
        else o.0

    unfoldable pub schedules_loop : Time → Date → GtfsStore F → List (Stop F) → R → R
    schedules_loop now today s [] r = r
    schedules_loop now today s (stop ∷ stops) r =
        schedules_loop now today s stops (warm_stop now today s stop.id r)

    unfoldable pub warm_schedules : Time → Date → GtfsStore F → R → R
    warm_schedules now today s r = schedules_loop now today s (get_all_stops s) r

    unfoldable pub warm_lines : Time → GtfsStore F → String → R → R
    warm_lines now s id r =
        let lines = get_stop_lines id s in
        if is_empty lines
        then r
        else (set_json w.redis w.lines_json now (key_stop_lines id) lines ttl r).0

    unfoldable pub lines_loop : Time → GtfsStore F → List (Stop F) → R → R
    lines_loop now s [] r = r
    lines_loop now s (stop ∷ stops) r = lines_loop now s stops (warm_lines now s stop.id r)

    unfoldable pub warm_stop_lines : Time → GtfsStore F → R → R
    warm_stop_lines now s r = lines_loop now s (get_all_stops s) r

    -- `WarmAll`. An error of one part is logged, and the next part goes on.
    unfoldable pub warm_all : Time → Date → GtfsStore F → R → R
    warm_all now today s r =
        warm_stop_lines now s (warm_schedules now today s (warm_sync_data now s r))
