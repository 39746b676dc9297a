-- ===== src/Gtfs/Parser.antt =====
-- pkg/gtfs/parser.go: the rows of trips.txt and stop_times.txt, and the time range of each trip. A
-- file is its header and its rows, none for a row that the CSV reader refuses.
pub mod Trips
pub mod Times
pub mod Decoded
pub mod Indexed
pub mod Rows
pub mod Shapes
use wabus_backend.Prelude.{
  ℕ, ℤ, pos, negsuc, suc, ◌+◌, ◌*◌, ◌/◌, ◌%◌, ◌^◌, ◌≡◌, refl, ite, Bool, true, false, ◌||◌, ◌&&◌,
  not, ltb, ltb_ℤ, Option, none, some, List, [], ◌∷◌, ◌++◌, map, String, string_key, nat_key, same,
  if◌then◌else◌, length, get_elem?, pos_part, is_some, split, atoi,
}
use wabus_backend.GoMap.{GoMap, lookup, insert}
use wabus_backend.Gtfs.{Feed, TripMeta, StopTimeCompact, TripTimeEntry}

abbrev pub Record : Type 0
Record = List String

-- The loop of `makeIndex`, from the position `i` on.
unfoldable pub index_loop : ℕ → List String → GoMap String ℕ → GoMap String ℕ
index_loop i [] idx = idx
index_loop i (name ∷ header) idx = index_loop (suc i) header (insert name i idx)

unfoldable pub make_index : List String → GoMap String ℕ
make_index header = index_loop 0 header []

abbrev text_or_empty : Option String → String
text_or_empty none = ""
text_or_empty (some s) = s

unfoldable pub get_field : Record → GoMap String ℕ → String → String
get_field row idx field = elim (lookup field idx) [
  | none ↦ ""
  | some i ↦ text_or_empty (get_elem? row i)
]

-- `if n < 0 { n = 0 }`, and then the number as ℕ
abbrev pub not_negative : ℤ → ℕ
not_negative n = pos_part n

-- `parseGTFSTimeToSeconds`, from the parts of the text.
unfoldable pub seconds_of_parts : List String → ℕ
seconds_of_parts [] = 0
seconds_of_parts (hours ∷ []) = 0
seconds_of_parts (hours ∷ minutes ∷ []) =
    not_negative (atoi hours).0 * 3600 + not_negative (atoi minutes).0 * 60
seconds_of_parts (hours ∷ minutes ∷ seconds ∷ more) =
    not_negative (atoi hours).0 * 3600
    + not_negative (atoi minutes).0 * 60
    + not_negative (atoi seconds).0

unfoldable pub parse_gtfs_time : String → ℕ
parse_gtfs_time text = seconds_of_parts (split 58 text)

-- The parse-only part of `ParseResult` is `trip_index`; the rest is `feed`.
pub record ParseResult (F : Type 0) : Type 0 where
  pub feed : Feed F
  pub trip_index : GoMap String ℕ

abbrev pub ids_or_nil {ℓ} : {A : Type ℓ} → Option (List A) → List A
ids_or_nil none = []
ids_or_nil (some xs) = xs

-- `m[k] = append(m[k], x)`
unfoldable pub append_at : {V : Type 0} → String → V → GoMap String (List V) → GoMap String (List V)
append_at k x m = insert k (ids_or_nil (lookup k m) ++ x ∷ []) m

unfoldable pub parse_direction : String → ℤ
parse_direction v = if not (same v "") then (if (atoi v).1 then (atoi v).0 else pos 0) else pos 0

unfoldable pub read_trip : Record → GoMap String ℕ → TripMeta
read_trip row idx = record {
  id = get_field row idx "trip_id";
  route_id = get_field row idx "route_id";
  service_id = get_field row idx "service_id";
  shape_id = get_field row idx "shape_id";
  headsign = get_field row idx "trip_headsign";
  direction_id = parse_direction (get_field row idx "direction_id");
}

-- A row's stop time, for the trip that it names: `uint32` and `uint16` cut off or cap the numbers.
unfoldable pub read_stop_time : Record → GoMap String ℕ → ℕ → StopTimeCompact
read_stop_time row idx trip =
    let seq = not_negative (atoi (get_field row idx "stop_sequence")).0 in
    record {
      trip_index = trip;
      arrival_seconds = parse_gtfs_time (get_field row idx "arrival_time") % 2 ^ 32;
      departure_seconds = parse_gtfs_time (get_field row idx "departure_time") % 2 ^ 32;
      stop_sequence = if ltb 65535 seq then 65535 else seq;
    }

-- The state of the loop of `parseTrips`: `seen` are the pairs of `seenRouteShapes`.
pub record TripLoop (F : Type 0) : Type 0 where
  pub result : ParseResult F
  pub seen : GoMap String (GoMap String Bool)

abbrev pub flags_or_nil : Option (GoMap String Bool) → GoMap String Bool
flags_or_nil none = []
flags_or_nil (some flags) = flags

module _ {F : Type 0} where
  -- The trip gets the next index, when it is new.
  unfoldable pub add_trip : TripMeta → ParseResult F → ParseResult F
  add_trip trip r =
      if not (same trip.id "") && not (same trip.route_id "")
      then (if not (is_some (lookup trip.id r.trip_index))
          then record {
            feed = record (r.feed) { trips = r.feed.trips ++ trip ∷ [] };
            trip_index = insert trip.id (length r.feed.trips % 2 ^ 32) r.trip_index;
          }
          else r)
      else r

  -- The shape is added to its route, when the pair is new.
  unfoldable pub add_route_shape : TripMeta → TripLoop F → TripLoop F
  add_route_shape trip l =
      if same trip.route_id "" || same trip.shape_id ""
      then l
      else (let flags = flags_or_nil (lookup trip.route_id l.seen) in
          let directed = insert trip.shape_id trip.direction_id l.result.feed.shape_directions in
          if is_some (lookup trip.shape_id flags)
          then record l {
            result = record (l.result) {
              feed = record (l.result.feed) { shape_directions = directed };
            };
          }
          else record {
            result = record (l.result) {
              feed = record (l.result.feed) {
                shape_directions = directed;
                route_shapes = append_at trip.route_id trip.shape_id l.result.feed.route_shapes;
              };
            };
            seen = insert trip.route_id (insert trip.shape_id true flags) l.seen;
          })

  unfoldable pub trip_row : GoMap String ℕ → Record → TripLoop F → TripLoop F
  trip_row idx row l =
      let trip = read_trip row idx in
      add_route_shape trip (record l { result = add_trip trip l.result })

  -- The loop of `parseTrips`. It stops at a row that is refused, with false.
  unfoldable pub trips_loop : GoMap String ℕ → List (Option Record) → TripLoop F → TripLoop F × Bool
  trips_loop idx [] l = (l, true)
  trips_loop idx (none ∷ rows) l = (l, false)
  trips_loop idx (some row ∷ rows) l = trips_loop idx rows (trip_row idx row l)

  unfoldable pub parse_trips :
      List String → List (Option Record) → ParseResult F → ParseResult F × Bool
  parse_trips header rows r =
      let o = trips_loop (make_index header) rows (record { result = r; seen = [] }) in
      (o.0.result, o.1)

  -- One row of stop_times.txt, once the trip that it names has been looked up.
  unfoldable pub add_stop_time : GoMap String ℕ → Record → Option ℕ → ParseResult F → ParseResult F
  add_stop_time idx row none r = r
  add_stop_time idx row (some trip) r =
      let stop = get_field row idx "stop_id" in
      if same stop "" then r else record r {
        feed = record (r.feed) {
          stop_schedules = append_at stop (read_stop_time row idx trip) r.feed.stop_schedules;
        };
      }

  unfoldable pub stop_time_row : GoMap String ℕ → Record → ParseResult F → ParseResult F
  stop_time_row idx row r =
      add_stop_time idx row (lookup (get_field row idx "trip_id") r.trip_index) r

  -- The loop of `parseStopTimes`.
  unfoldable pub stop_times_loop :
      GoMap String ℕ → List (Option Record) → ParseResult F → ParseResult F × Bool
  stop_times_loop idx [] r = (r, true)
  stop_times_loop idx (none ∷ rows) r = (r, false)
  stop_times_loop idx (some row ∷ rows) r = stop_times_loop idx rows (stop_time_row idx row r)

  unfoldable pub parse_stop_times :
      List String → List (Option Record) → ParseResult F → ParseResult F × Bool
  parse_stop_times header rows r = stop_times_loop (make_index header) rows r
