-- ===== src/Tests/Answers.antt =====
-- Tests of the cache (internal/cache) and of the requests (internal/handler).
use wabus_backend.Prelude.{
  ℤ, pos, ◌≡◌, sym, inl, inr, true, Option, none, some, List, [], arith, String, string_key,
  string_discrete, ◌⊎◌, same, if◌then◌else◌,
}
use wabus_backend.Prelude.Outcome.{done}
use wabus_backend.GoMap.{GoMap, lookup, insert, delete, keys}
use wabus_backend.GoMap.Laws.{lookup-insert}
use wabus_backend.Gtfs.{StopTime, StopLine}
use wabus_backend.Cache.{Reply, bytes, redis_nil}
use wabus_backend.Cache.Warmer.{CacheLink, SyncData, shown_schedule, warm_all}
use wabus_backend.Cache.Fresh.{IsLinked, IsFresh, warm_all-IsFresh}
use wabus_backend.Handler.{Response}
use wabus_backend.Handler.Timetable.{Clock, schedule_response, lines_response, get_sync}
use wabus_backend.Handler.Timetable.Transparent.{undated, shown_response, cache_transparent}
use wabus_backend.Handler.Vehicles.{Parsed, parsed, not_parsed, VehiclesResponse, list_vehicles}
use wabus_backend.Handler.Vehicles.Listed.{IsAnswer, list_vehicles_lem}
use wabus_backend.Tests.{integer_float}
use wabus_backend.Tests.Timetables.{timetable, tuesday}
use wabus_backend.Tests.Vehicles.{stored, stored-Inv}

-- The bytes of a sample server: the values themselves.
data Sample : Type 0 where
  schedule_sample : Option (List StopTime) → Sample
  lines_sample : Option (List StopLine) → Sample
  sync_sample : SyncData ℤ → Sample

abbrev Server : Type 0
Server = GoMap String Sample

abbrev get_reply : Option Sample → Reply Sample
get_reply none = redis_nil
get_reply (some b) = bytes b

abbrev as_schedule : Sample → Option (Option (List StopTime))
as_schedule (schedule_sample x) = some x
as_schedule _ = none

abbrev as_lines : Sample → Option (Option (List StopLine))
as_lines (lines_sample x) = some x
as_lines _ = none

abbrev as_sync : Sample → Option (SyncData ℤ)
as_sync (sync_sample x) = some x
as_sync _ = none

abbrev link : CacheLink ℤ Server Sample
link = record {
  redis = record {
    set_call = λ now k b ttl r. (insert k b r, true);
    get_call = λ now k r. get_reply (lookup k r);
    del_call = λ k r. (delete k r, true);
    scan_call = λ pattern r. (keys r, true);
  };
  gzip = record { compress = λ b. some b; decompress = λ b. some b };
  schedule_json = record {
    marshal = λ x. some (schedule_sample (shown_schedule x));
    unmarshal = as_schedule;
  };
  lines_json = record { marshal = λ x. some (lines_sample x); unmarshal = as_lines };
  sync_json = record { marshal = λ x. some (sync_sample x); unmarshal = as_sync };
  date_of = λ t. tuesday;
}

abbrev Holds : Server → String → Sample → Type 0
Holds r k b = lookup k r ≡ some b

link_set :
    (k j : String) (b c : Sample) (r : Server)
    → Holds (insert k b r) j c
    → ((k ≡ j) × (b ≡ c)) ⊎ Holds r j c
link_set k j b c r h = elim (string_discrete k j) [
  | yes p ↦ inl (p, ground (arith, p, h, lookup-insert j k b r))
  | no p ↦ inr (ground (arith, p, h, lookup-insert j k b r))
]

link_get : (k : String) (r : Server) (b : Sample) → get_reply (lookup k r) ≡ bytes b → Holds r k b
link_get k r b e = ground (arith, e)

linked : IsLinked link Holds
linked = record {
  server = record {
    get-Holds = λ now k r b e. link_get k r b e;
    set-Holds = λ now k j b c ttl r h. link_set k j b c r h;
  };
  schedules = λ a b e. ground (arith, e);
  lines = λ a b e. ground (arith, e);
  sync = λ a b e. ground (arith, e);
  gzip = λ b c e. sym e;
}

abbrev warmed : Server
warmed = warm_all link (pos 90000) (pos 10) tuesday timetable []

empty-IsFresh : IsFresh link Holds linked tuesday timetable []
unfolding lookup
empty-IsFresh = record { right = λ k b h. absurd (cc) }

warm_all-IsFresh_example : IsFresh link Holds linked tuesday timetable warmed
warm_all-IsFresh_example =
    warm_all-IsFresh link Holds linked tuesday timetable (pos 10) (pos 90000) [] empty-IsFresh

abbrev noon : Clock
noon = record { now = pos 20; today = tuesday; minute_of_day = pos 720 }

cache_transparent_example :
    (shown_response (schedule_response link noon "7001" "today" (some warmed) timetable)
      ≡ shown_response (schedule_response link noon "7001" "today" none timetable))
    × (lines_response link noon "7001" (some warmed) timetable
        ≡ lines_response link noon "7001" none timetable)
    × (undated (get_sync link noon "" (some warmed) timetable)
        ≡ undated (get_sync link noon "" none timetable))
cache_transparent_example =
    cache_transparent link Holds linked noon timetable warmed "7001" "today" ""
      (warm_all-IsFresh link Holds linked tuesday timetable (pos 10) (pos 90000) [] empty-IsFresh)

-- Texts that are read as numbers, and all others refused.
abbrev small_float : String → Parsed ℤ
small_float text =
    if same text "50"
    then parsed (pos 50)
    else if same text "60"
    then parsed (pos 60)
    else if same text "0"
    then parsed (pos 0)
    else not_parsed "invalid syntax"

list_vehicles_example :
    (answer : Response (VehiclesResponse ℤ)) × (list_vehicles small_float
        (pos 5)
        "2"
        "17"
        "0,0,60,50"
        stored
      ≡ done answer)
    × IsAnswer small_float (pos 5) "2" "17" "0,0,60,50" stored answer
list_vehicles_example = list_vehicles_lem small_float (pos 5) "2" "17" "0,0,60,50" stored stored-Inv
