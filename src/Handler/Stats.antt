-- ===== src/Handler/Stats.antt =====
-- internal/handler/stats_handler.go: the counters of the server and the request for them. What the Go
-- runtime reports is a parameter.
use wabus_backend.Prelude.{ℕ, ℤ, pos, ◌+◌, ◌+ℤ◌, ◌-ℤ◌, ltb_ℤ, String, string_key, [], if◌then◌else◌}
use wabus_backend.Domain.{Time, Duration}
use wabus_backend.GoMap.{insert}
use wabus_backend.Store.{Store, count_by_type}
use wabus_backend.Gtfs.Store.{GtfsStore, GtfsStats, get_stats}
use wabus_backend.Handler.{Response, json}

pub record Stats : Type 0 where
  pub start_time : Time
  pub request_count : ℤ
  pub ws_connections : ℤ
  pub ws_messages_in : ℤ
  pub ws_messages_out : ℤ
  pub cache_hits : ℤ
  pub cache_misses : ℤ
  pub rate_limit_blocked : ℤ

pub data Counter : Type 0 where
  requests ws_opened ws_closed messages_in messages_out hits misses blocked : Counter

-- `IncRequests`, `IncWSConnections`, `DecWSConnections` and the others, in the order of the file.
unfoldable pub count_one : Counter → Stats → Stats
count_one requests s = record s { request_count = s.request_count +ℤ pos 1 }
count_one ws_opened s = record s { ws_connections = s.ws_connections +ℤ pos 1 }
count_one ws_closed s = record s { ws_connections = s.ws_connections -ℤ pos 1 }
count_one messages_in s = record s { ws_messages_in = s.ws_messages_in +ℤ pos 1 }
count_one messages_out s = record s { ws_messages_out = s.ws_messages_out +ℤ pos 1 }
count_one hits s = record s { cache_hits = s.cache_hits +ℤ pos 1 }
count_one misses s = record s { cache_misses = s.cache_misses +ℤ pos 1 }
count_one blocked s = record s { rate_limit_blocked = s.rate_limit_blocked +ℤ pos 1 }

pub record ServerStatsResponse : Type 0 where
  pub uptime : Duration
  pub start_time : Time
  pub request_count : ℤ
  pub rate_limited : ℤ
  pub version : String

pub record VehicleStatsResponse : Type 0 where
  pub total : ℕ
  pub buses : ℕ
  pub trams : ℕ

pub record WebSocketStatsResponse : Type 0 where
  pub connections : ℤ
  pub messages_in : ℤ
  pub messages_out : ℤ

pub record CacheStatsResponse (Q : Type 0) : Type 0 where
  pub hits : ℤ
  pub misses : ℤ
  pub ratio : Q

pub record StatsResponse (Q M : Type 0) : Type 0 where
  pub server : ServerStatsResponse
  pub vehicles : VehicleStatsResponse
  pub gtfs : GtfsStats
  pub web_socket : WebSocketStatsResponse
  pub cache : CacheStatsResponse Q
  pub go : M

unfoldable pub vehicle_stats : {F : Type 0} → Store F → VehicleStatsResponse
vehicle_stats s =
    let counted = count_by_type s in
    record { total = counted.0 + counted.1; buses = counted.0; trams = counted.1 }

-- `ratio`
unfoldable pub hit_ratio : {Q : Type 0} → (ℤ → ℤ → Q) → Q → ℤ → ℤ → Q
hit_ratio divide zero_ratio hit_count miss_count =
    let total = hit_count +ℤ miss_count in
    if ltb_ℤ (pos 0) total then divide hit_count total else zero_ratio

module _ {F Q M : Type 0} (divide : ℤ → ℤ → Q) (zero_ratio : Q) where
  -- `GetStats`: the counters afterwards, and the answer. The request itself is counted first.
  unfoldable pub get_server_stats :
      Time → M → Store F → GtfsStore F → Stats → Stats × Response (StatsResponse Q M)
  get_server_stats now runtime vehicles timetable stats =
      let s = count_one requests stats in
      (
        s,
        record {
          headers = insert "Cache-Control" "no-cache" (insert "Content-Type" "application/json" []);
          status = 200;
          body = json (record {
            server = record {
              uptime = now -ℤ s.start_time;
              start_time = s.start_time;
              request_count = s.request_count;
              rate_limited = s.rate_limit_blocked;
              version = "1.0.0";
            };
            vehicles = vehicle_stats vehicles;
            gtfs = get_stats timetable;
            web_socket = record {
              connections = s.ws_connections;
              messages_in = s.ws_messages_in;
              messages_out = s.ws_messages_out;
            };
            cache = record {
              hits = s.cache_hits;
              misses = s.cache_misses;
              ratio = hit_ratio divide zero_ratio s.cache_hits s.cache_misses;
            };
            go = runtime;
          });
        },
      )
