-- ===== src/Config.antt =====
-- internal/config/config.go: the settings, read from the environment. `os.Getenv` is a function, with the
-- empty text for a variable that is not set; `time.ParseDuration` is a parameter.
pub mod Lists
use Prim.Native.Char.{Char, code}
use Prim.Native.String.{String}
use wabus_backend.Prelude.{
  ℕ, ℤ, pos, negsuc, ◌≡◌, ◌+◌, ◌*◌, ◌^◌, refl, Bool, true, false, not, ◌&&◌, ◌||◌, ltb, leb, ◌==◌,
  Option, none, some, List, [], ◌∷◌, string_key, same, if◌then◌else◌, atoi, split, trim_space,
}
use wabus_backend.Domain.{Duration}

abbrev pub second : ℕ
second = 10 ^ 9

-- `slog.Level`
pub data Level : Type 0 where
  debug info warn error : Level

pub record Config : Type 0 where
  pub log_level : Level
  pub http_addr : String
  pub read_timeout : Duration
  pub write_timeout : Duration
  pub shutdown_timeout : Duration
  pub warsaw_api_base_url : String
  pub warsaw_api_key : String
  pub warsaw_resource_id : String
  pub poll_interval : Duration
  pub vehicle_stale_after : Duration
  pub tile_zoom_level : ℤ
  pub gtfs_enabled : Bool
  pub gtfs_url : String
  pub gtfs_update_interval : Duration
  pub redis_enabled : Bool
  pub redis_addr : String
  pub redis_password : String
  pub redis_db : ℤ
  pub cache_ttl : Duration
  pub cache_warm_on_start : Bool
  pub rate_limit_per_window : ℤ
  pub rate_limit_window : Duration
  pub rate_limit_whitelist : List String

-- `unicode.ToLower`, of the letters from A to Z and of the dotted capital I, whose lower case is i. The
-- lower case of no other character is a letter of a level's name.
abbrev pub lower_code : ℕ → ℕ
lower_code c = if leb 65 c && leb c 90 then c + 32 else if c == 304 then 105 else c

-- `strings.ToLower(a) == b`, for a text `b` in lower case.
unfoldable pub same_lower : String → String → Bool
same_lower String.[] String.[] = true
same_lower String.[] (String.◌∷◌ d t) = false
same_lower (String.◌∷◌ c s) String.[] = false
same_lower (String.◌∷◌ c s) (String.◌∷◌ d t) =
    let rest = same_lower s t in lower_code (code c) == code d && rest

-- `strconv.ParseBool`
unfoldable pub parse_bool : String → Option Bool
parse_bool v =
    if same v "1" || same v "t" || same v "T" || same v "true" || same v "TRUE" || same v "True"
    then some true
    else if same v "0"
        || same v "f"
        || same v "F"
        || same v "false"
        || same v "FALSE"
        || same v "False"
    then some false
    else none

abbrev pub value_or {ℓ} : {A : Type ℓ} → A → Option A → A
value_or default none = default
value_or default (some a) = a

-- The loop of `getCSVEnv`.
unfoldable pub items_loop : List String → List String
items_loop [] = []
items_loop (p ∷ parts) =
    let rest = items_loop parts in
    let t = trim_space p in if not (same t "") then t ∷ rest else rest

module _ (env : String → String) where
  unfoldable pub get_env : String → String → String
  get_env key default = if not (same (env key) "") then env key else default

  unfoldable pub get_int_env : String → ℤ → ℤ
  get_int_env key default =
      if not (same (env key) "")
      then (if (atoi (env key)).1 then (atoi (env key)).0 else default)
      else default

  unfoldable pub get_bool_env : String → Bool → Bool
  get_bool_env key default =
      if not (same (env key) "") then value_or default (parse_bool (env key)) else default

  unfoldable pub get_log_level_env : String → Level → Level
  get_log_level_env key default =
      let v = env key in
      if same v ""
      then default
      else if same_lower v "debug"
      then debug
      else if same_lower v "info"
      then info
      else if same_lower v "warn" || same_lower v "warning"
      then warn
      else if same_lower v "error"
      then error
      else default

  unfoldable pub get_csv_env : String → List String
  get_csv_env key =
      let v = trim_space (env key) in if same v "" then [] else items_loop (split 44 v)

  module _ (parse_duration : String → Option Duration) where
    unfoldable pub get_duration_env : String → Duration → Duration
    get_duration_env key default =
        if not (same (env key) "") then value_or default (parse_duration (env key)) else default

    -- `Load`; none is the error that the key is missing.
    unfoldable pub load : Option Config
    load =
        let api_key = env "WARSAW_API_KEY" in
        if same api_key ""
        then none
        else some (record {
          log_level = get_log_level_env "LOG_LEVEL" info;
          http_addr = get_env "HTTP_ADDR" ":8080";
          read_timeout = get_duration_env "READ_TIMEOUT" (pos (10 * second));
          write_timeout = get_duration_env "WRITE_TIMEOUT" (pos (10 * second));
          shutdown_timeout = get_duration_env "SHUTDOWN_TIMEOUT" (pos (30 * second));
          warsaw_api_base_url =
              get_env "WARSAW_API_URL" "https://api.um.warszawa.pl/api/action/busestrams_get";
          warsaw_api_key = api_key;
          warsaw_resource_id = get_env "WARSAW_RESOURCE_ID" "f2e5503e-927d-4ad3-9500-4ab9e55deb59";
          poll_interval = get_duration_env "POLL_INTERVAL" (pos (10 * second));
          vehicle_stale_after = get_duration_env "VEHICLE_STALE_AFTER" (pos (300 * second));
          tile_zoom_level = get_int_env "TILE_ZOOM_LEVEL" (pos 14);
          gtfs_enabled = get_bool_env "GTFS_ENABLED" true;
          gtfs_url = get_env "GTFS_URL" "https://mkuran.pl/gtfs/warsaw.zip";
          gtfs_update_interval = get_duration_env "GTFS_UPDATE_INTERVAL" (pos (86400 * second));
          redis_enabled = get_bool_env "REDIS_ENABLED" false;
          redis_addr = get_env "REDIS_ADDR" "localhost:6379";
          redis_password = get_env "REDIS_PASSWORD" "";
          redis_db = get_int_env "REDIS_DB" (pos 0);
          cache_ttl = get_duration_env "CACHE_TTL" (pos (86400 * second));
          cache_warm_on_start = get_bool_env "CACHE_WARM_ON_START" true;
          rate_limit_per_window = get_int_env "RATE_LIMIT_PER_WINDOW" (pos 120);
          rate_limit_window = get_duration_env "RATE_LIMIT_WINDOW" (pos (60 * second));
          rate_limit_whitelist = get_csv_env "RATE_LIMIT_WHITELIST";
        })
