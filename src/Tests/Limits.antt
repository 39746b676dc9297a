-- ===== src/Tests/Limits.antt =====
-- Tests of the rate limiter (internal/middleware/ratelimit.go), of its settings
-- (internal/config/config.go) and of the two together.
use Prim.Native.Nat.{min}
use wabus_backend.Prelude.{
  ◌*◌, ◌↔◌, true, false, Option, none, some, same, if◌then◌else◌, split, trim_space, trim_left,
  trim_right, string_discrete, Bool-cases, suc, pos, ◌-ℤ◌, ◌≡◌, refl, List, [], ◌∷◌, arith, String,
  string_key,
}
use wabus_backend.Domain.{Time, Duration}
use wabus_backend.GoMap.{lookup, insert}
use wabus_backend.RateLimit.{
  RateLimiter, Request, new_rate_limiter, get_client_ip, host_of, cut, is_whitelisted,
  whitelist_loop,
}
use wabus_backend.Server.{Call}
use wabus_backend.Server.Window.{charged, handled_count, handled_in_window}
use wabus_backend.RateLimit.Whitelist.{handle, limiter_of, is_whitelisted_lem}
use wabus_backend.Config.{
  Config, info, second, load, get_env, get_int_env, get_bool_env, get_log_level_env, get_csv_env,
  get_duration_env, items_loop,
}
use wabus_backend.Config.Lists.{IsItem}
use wabus_backend.RateLimit.Window.{allowed, requests, budget, allowed_in_window}
use wabus_backend.RateLimit.Cleanup.{Event, request, tick, answers, requests_only, answers-cleanup}

abbrev limiter : RateLimiter
limiter = new_rate_limiter (pos 2) (pos 60) ("10.0.0.1" ∷ [])

abbrev trace : List (Time × String)
trace = (pos 5, "1.2.3.4") ∷ (pos 6, "5.6.7.8") ∷ (pos 7, "1.2.3.4") ∷ (pos 8, "5.6.7.8") ∷ []

allowed_in_window_example :
    allowed "1.2.3.4" ((pos 0, "1.2.3.4") ∷ trace) limiter
    ≡ min (suc (requests "1.2.3.4" trace)) (budget limiter.rate)
unfolding new_rate_limiter lookup ◌-ℤ◌
allowed_in_window_example =
    allowed_in_window "1.2.3.4" (pos 0) trace limiter refl
      ((λ e. omega arith), ((λ e. omega arith), ((λ e. omega arith), ((λ e. omega arith), tt))))

abbrev events : List Event
events =
    request (pos 1) "1.2.3.4"
    ∷ request (pos 2) "1.2.3.4"
    ∷ request (pos 3) "1.2.3.4"
    ∷ tick (pos 130)
    ∷ request (pos 131) "1.2.3.4"
    ∷ []

answers-cleanup_example : answers events limiter ≡ answers (requests_only events) limiter
unfolding new_rate_limiter
answers-cleanup_example =
    answers-cleanup (pos 0) events limiter
      (omega arith, (omega arith, (omega arith, (omega arith, (omega arith, tt))))) tt refl
      (omega arith)

abbrev sample_env : String → String
sample_env key =
    if same key "WARSAW_API_KEY"
    then "secret"
    else if same key "RATE_LIMIT_WHITELIST"
    then " 10.0.0.1, ,10.0.0.2 "
    else ""

abbrev no_duration : String → Option Duration
no_duration s = none

-- The settings that are read when no other variable is set.
abbrev defaults : Config
defaults = record {
  log_level = info;
  http_addr = ":8080";
  read_timeout = pos (10 * second);
  write_timeout = pos (10 * second);
  shutdown_timeout = pos (30 * second);
  warsaw_api_base_url = "https://api.um.warszawa.pl/api/action/busestrams_get";
  warsaw_api_key = "secret";
  warsaw_resource_id = "f2e5503e-927d-4ad3-9500-4ab9e55deb59";
  poll_interval = pos (10 * second);
  vehicle_stale_after = pos (300 * second);
  tile_zoom_level = pos 14;
  gtfs_enabled = true;
  gtfs_url = "https://mkuran.pl/gtfs/warsaw.zip";
  gtfs_update_interval = pos (86400 * second);
  redis_enabled = false;
  redis_addr = "localhost:6379";
  redis_password = "";
  redis_db = pos 0;
  cache_ttl = pos (86400 * second);
  cache_warm_on_start = true;
  rate_limit_per_window = pos 120;
  rate_limit_window = pos (60 * second);
  rate_limit_whitelist = "10.0.0.1" ∷ "10.0.0.2" ∷ [];
}

load-defaults : load sample_env no_duration ≡ some defaults
unfolding load get_env get_int_env get_bool_env get_log_level_env get_csv_env get_duration_env
    items_loop split trim_space trim_left trim_right string_discrete Bool-cases
load-defaults = refl

abbrev from_peer : Request
from_peer = record { x_forwarded_for = ""; x_real_ip = ""; remote_addr = "[2001:db8::1]:443" }

abbrev from_proxy : Request
from_proxy = record from_peer { x_forwarded_for = " 10.0.0.2:80 , 192.168.0.1" }

-- The port goes, and so do the brackets and the proxies.
addresses : (get_client_ip from_peer ≡ "2001:db8::1") × (get_client_ip from_proxy ≡ "10.0.0.2")
unfolding get_client_ip host_of cut split trim_space trim_left trim_right string_discrete Bool-cases
addresses = (refl, refl)

-- No port, two ports, a bracket out of place.
no_host :
    (host_of "10.0.0.2" ≡ none)
    × (host_of "a:1:2" ≡ none)
    × (host_of "[::1]" ≡ none)
    × (host_of "a]:1" ≡ none)
    × (host_of "" ≡ none)
unfolding host_of cut
no_host = (refl, refl, refl, refl, refl)

is_whitelisted_lem_example :
    is_whitelisted "10.0.0.2"
        (handle ((pos 0, from_peer) ∷ (pos 1, from_proxy) ∷ []) (limiter_of defaults))
      ≡ true
    ↔ IsItem "10.0.0.2" (split 44 (trim_space (sample_env "RATE_LIMIT_WHITELIST")))
is_whitelisted_lem_example =
    is_whitelisted_lem sample_env no_duration defaults
      ((pos 0, from_peer) ∷ (pos 1, from_proxy) ∷ []) "10.0.0.2" load-defaults

abbrev call : Call
call = record { now = pos 0; method = "GET"; request = from_peer }

-- A preflight request, one more of the same peer, and one of an exempt address.
abbrev calls : List Call
calls =
    record call { now = pos 1; method = "OPTIONS" }
    ∷ record call { now = pos 2 }
    ∷ record call { now = pos 3; request = from_proxy }
    ∷ []

handled_in_window_example :
    handled_count (get_client_ip from_peer) (call ∷ calls) (limiter_of defaults)
    ≡ min
        (suc (requests (get_client_ip from_peer) (charged (limiter_of defaults).whitelist calls)))
        (budget defaults.rate_limit_per_window)
unfolding charged is_whitelisted limiter_of new_rate_limiter whitelist_loop lookup insert
    get_client_ip host_of cut split trim_space trim_left trim_right string_discrete Bool-cases ◌-ℤ◌
handled_in_window_example = handled_in_window defaults call calls refl refl ((λ e. omega arith), tt)
