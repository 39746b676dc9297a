-- ===== src/Handler/Timetable.antt =====
-- internal/handler/gtfs_handler.go: the requests for the timetable. The clock is read once in a request:
-- its time, the day and the minute of the day on the wall. A slice that may be nil is an option.
pub mod Transparent
use wabus_backend.Prelude.{
  ℕ, zero, suc, ℤ, pos, ◌≡◌, ◌+◌, ◌-◌, ◌*◌, ◌/◌, ◌%◌, ◌^◌, ◌+ℤ◌, ◌-ℤ◌, ◌*ℤ◌, negsuc, hex_ℤ, Bool,
  true, false, not, ◌&&◌, ◌||◌, ltb, ltb_ℤ, ◌==◌, Option, none, some, List, [], ◌∷◌, String,
  string_key, same, if◌then◌else◌, atoi, wrap_int, scan, split, length, pos_part, ◌<>◌,
}
use wabus_backend.Domain.{Time}
use wabus_backend.GoMap.{GoMap, lookup, insert}
use wabus_backend.Gtfs.{Route, Shape, Stop, StopTime, StopLine}
use wabus_backend.Gtfs.Dates.{Date, tomorrow, iso_date, parse_iso_date, midnight}
use wabus_backend.Gtfs.Store.{
  GtfsStore, GtfsStats, get_all_routes, get_route_by_line, get_route_shapes,
  get_active_route_shapes, get_route_stops, get_all_stops, get_stop_by_id, get_stats,
  get_stop_schedule, get_stop_schedule_for_date, get_stop_lines, get_calendars_and_dates,
}
use wabus_backend.Cache.{
  Redis, Json, Gzip, Fetched, found, missing, failed, get_json, get_json_compressed, key_sync_full,
  key_schedule_today, key_schedule_tomorrow, key_stop_lines,
}
use wabus_backend.Cache.Warmer.{CacheLink, SyncData, build_sync_data}
use wabus_backend.Handler.{Headers, Response, no_body, respond_json, respond_error}

pub record Clock : Type 0 where
  pub now : Time
  pub today : Date
  pub minute_of_day : ℤ

-- `RoutesResponse`, `ShapesResponse` and the others that hold a slice and its length.
pub record Listing (A : Type 0) : Type 0 where
  pub items : Option (List A)
  pub count : ℕ
  pub server_time : Time

abbrev pub length_or_zero : {A : Type 0} → Option (List A) → ℕ
length_or_zero none = 0
length_or_zero (some xs) = length xs

unfoldable pub listing : {A : Type 0} → Clock → Option (List A) → Response (Listing A)
listing clock items =
    respond_json [] 200
      (record { items = items; count = length_or_zero items; server_time = clock.now })

pub record SyncCheckResponse : Type 0 where
  pub version : String
  pub has_updates : Bool
  pub last_update : Time

unfoldable pub minutes_of_parts : List String → ℤ
minutes_of_parts [] = pos 0
minutes_of_parts (hours ∷ []) = pos 0
minutes_of_parts (hours ∷ minutes ∷ more) = wrap_int ((atoi hours).0 *ℤ 60 +ℤ (atoi minutes).0)

unfoldable pub parse_time_to_minutes : Clock → String → ℤ
parse_time_to_minutes clock s =
    if same s "now" then clock.minute_of_day else minutes_of_parts (split 58 s)

-- `LastUpdate.Unix()`: whole seconds, rounded down, from 1970.
unfoldable pub unix_seconds : Time → ℤ
unix_seconds (pos n) = pos (n / 10 ^ 9) -ℤ pos 62135596800
unix_seconds (negsuc n) = negsuc (n / 10 ^ 9) -ℤ pos 62135596800

unfoldable pub etag_of : Time → String
etag_of t = "\"" <> hex_ℤ (unix_seconds t) <> "\""

abbrev pub sync_headers : Time → Headers
sync_headers t = insert "Cache-Control" "public, max-age=3600" (insert "ETag" (etag_of t) [])

unfoldable pub not_loaded : {A : Type 0} → Response A
not_loaded = respond_error (insert "Retry-After" "30" []) 503 "GTFS data is loading, please retry"

abbrev pub bad_date : String
bad_date = "invalid date format, use YYYY-MM-DD, 'today', or 'tomorrow'"

-- `err == nil && found`, with the value
abbrev pub if_found : {A : Type 0} → Fetched A → Option A
if_found (found a) = some a
if_found missing = none
if_found failed = none

-- What the cache gave, or else what the store gives.
abbrev pub cached_or : {A : Type 0} → Option A → A → A
cached_or none a = a
cached_or (some c) a = c

-- `hasUpdates`
unfoldable pub has_updates : Time → String → Bool
has_updates last_update since =
    if not (same since "")
    then elim (parse_iso_date since) [
      | none ↦ true
      | some since_date ↦ ltb_ℤ (midnight since_date) last_update
    ]
    else true

module _ {F : Type 0} where
  unfoldable pub list_routes : Clock → GtfsStore F → Response (Listing Route)
  list_routes clock s = listing clock (some (get_all_routes s))

  -- The guards of the three requests for a line: the answer for its route, or an error.
  unfoldable pub with_route :
      {A : Type 0} → String → (Route → Response A) → GtfsStore F → Response A
  with_route line answer s =
      if same line ""
      then respond_error [] 400 "missing line parameter"
      else elim (get_route_by_line line s) [
        | none ↦ respond_error [] 404 "route not found"
        | some route ↦ answer route
      ]

  unfoldable pub get_route : String → GtfsStore F → Response Route
  get_route line s = with_route line (λ route. respond_json [] 200 route) s

  unfoldable pub get_route_shape :
      Clock → String → String → GtfsStore F → Response (Listing (Shape F))
  get_route_shape clock line time_param s =
      with_route line
        (λ route. listing clock (
          if not (same time_param "")
          then get_active_route_shapes route.id clock.today (parse_time_to_minutes clock time_param)
              s
          else get_route_shapes route.id s))
        s

  unfoldable pub get_stops_of_line : Clock → String → GtfsStore F → Response (Listing (Stop F))
  get_stops_of_line clock line s =
      with_route line (λ route. listing clock (get_route_stops route.id s)) s

  unfoldable pub list_stops : Clock → GtfsStore F → Response (Listing (Stop F))
  list_stops clock s = listing clock (some (get_all_stops s))

  -- The guards of the three requests for a stop.
  unfoldable pub with_stop :
      {A : Type 0} → String → (Stop F → Response A) → GtfsStore F → Response A
  with_stop id answer s =
      if same id "" then respond_error [] 400 "missing stop id" else elim (get_stop_by_id id s) [
        | none ↦ respond_error [] 404 "stop not found"
        | some stop ↦ answer stop
      ]

  unfoldable pub get_stop : String → GtfsStore F → Response (Stop F)
  get_stop id s = with_stop id (λ stop. respond_json [] 200 stop) s

  unfoldable pub stats_response : GtfsStore F → Response GtfsStats
  stats_response s = respond_json [] 200 (get_stats s)

  unfoldable pub check_sync : (Time → Date) → String → GtfsStore F → Response SyncCheckResponse
  check_sync date_of since s =
      let stats = get_stats s in
      if not stats.is_loaded
      then not_loaded
      else respond_json [] 200 (record {
        version = iso_date (date_of stats.stats_update);
        has_updates = has_updates stats.stats_update since;
        last_update = stats.stats_update;
      })

  module _ {R B : Type 0} (w : CacheLink F R B) where
    -- `tryGetFromCache`: none is false. Without a cache it is false.
    unfoldable pub try_get_from_cache :
        {A : Type 0} → Json A B → Time → String → Option R → Option A
    try_get_from_cache json now key none = none
    try_get_from_cache json now key (some r) = if_found (get_json w.redis json now key r)

    -- The schedule for the parameter "date", or none for a bad one.
    unfoldable pub schedule_for :
        Clock → String → String → Option R → GtfsStore F → Option (Option (List StopTime))
    schedule_for clock id date_param cache s =
        let on_day = λ (date : Date). get_stop_schedule_for_date id date s in
        let cached = λ (key : String). try_get_from_cache w.schedule_json clock.now key cache in
        if not (same date_param "")
        then (if same date_param "today"
            then some (cached_or (cached (key_schedule_today id)) (on_day clock.today))
            else if same date_param "tomorrow"
            then some
                (cached_or (cached (key_schedule_tomorrow id)) (on_day (tomorrow clock.today)))
            else elim (parse_iso_date date_param) [ none ↦ none | some date ↦ some (on_day date) ])
        else some (get_stop_schedule id s)

    unfoldable pub schedule_response :
        Clock → String → String → Option R → GtfsStore F → Response (Listing StopTime)
    schedule_response clock id date_param cache s =
        with_stop id
          (λ stop. elim (schedule_for clock id date_param cache s) [
            | none ↦ respond_error [] 400 bad_date
            | some schedule ↦ listing clock schedule
          ])
          s

    unfoldable pub lines_response :
        Clock → String → Option R → GtfsStore F → Response (Listing StopLine)
    lines_response clock id cache s =
        with_stop id
          (λ stop. listing clock (
            cached_or (try_get_from_cache w.lines_json clock.now (key_stop_lines id) cache)
              (get_stop_lines id s)))
          s

    unfoldable pub cached_sync : Time → Option R → Option (SyncData F)
    cached_sync now none = none
    cached_sync now (some r) =
        if_found (get_json_compressed w.redis w.sync_json w.gzip now key_sync_full r)

    -- `GetSync`, for the header "If-None-Match".
    unfoldable pub get_sync : Clock → String → Option R → GtfsStore F → Response (SyncData F)
    get_sync clock if_none_match cache s =
        let stats = get_stats s in
        if not stats.is_loaded
        then not_loaded
        else if same if_none_match (etag_of stats.stats_update)
        then record { headers = []; status = 304; body = no_body }
        else respond_json (sync_headers stats.stats_update) 200
            (cached_or (cached_sync clock.now cache) (build_sync_data w clock.now s))
