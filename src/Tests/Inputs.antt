-- ===== src/Tests/Inputs.antt =====
-- Tests of what comes in from outside: the archive's download (pkg/gtfs) and the city's API
-- (pkg/warsawapi).
use wabus_backend.Prelude.{
  ℕ, ℤ, pos, ◌≡◌, ◌≢◌, refl, inl, inr, Bool, true, false, ◌&&◌, Option, none, some, List, [], ◌∷◌,
  String, string_key, same, if◌then◌else◌, All, string_discrete, Bool-cases,
}
use wabus_backend.Domain.{tram}
use wabus_backend.Gtfs.{Feed}
use wabus_backend.Gtfs.Download.{
  CacheMetadata, Disk, Exchange, no_response, response, written, DownloadAttempt, run_downloads,
}
use wabus_backend.Gtfs.Download.Fallback.{download_fallback, download_stuck}
use wabus_backend.Gtfs.ParseCache.{Decoded, SaveCalls, load_parsed_result, save_parsed_result}
use wabus_backend.Gtfs.ParseCache.Atomic.{save_parsed_result_lem}
use wabus_backend.WarsawApi.{ApiVehicle, ApiResponse, Reply, reply, Api, fetch, vehicle_of}
use wabus_backend.WarsawApi.Keys.{fetched_keys}
use wabus_backend.Tests.Timetables.{feed}

-- An archive is a text, and the empty one is broken.
abbrev any_zip : String → Bool
any_zip d = if same d "" then false else true

abbrev size_one : String → ℕ
size_one d = 1

abbrev fresh_download : DownloadAttempt String
fresh_download = record {
  now = pos 5;
  url_ok = true;
  server = λ headers. response 200 "v1" "" (some "archive");
  zip_write = written;
  meta_write = written;
}

abbrev offline : DownloadAttempt String
offline = record fresh_download { server = λ headers. no_response }

abbrev unchanged : DownloadAttempt String
unchanged = record fresh_download { server = λ headers. response 304 "v1" "" none }

abbrev empty_disk : Disk String
empty_disk = record { zip_file = none; meta_file = none }

download_fallback_example :
    All
      (λ o. o ≡ some "archive")
      (run_downloads any_zip size_one (fresh_download ∷ offline ∷ unchanged ∷ []) empty_disk).0
unfolding string_discrete Bool-cases
download_fallback_example =
    download_fallback any_zip size_one fresh_download "archive" "v1" "" (offline ∷ unchanged ∷ [])
      empty_disk refl refl refl refl ((refl, λ h. refl), ((refl, λ h. refl), tt))

abbrev meta_v1 : CacheMetadata
meta_v1 = record { etag = "v1"; last_modified = ""; downloaded_at = pos 5; size_bytes = 1 }

abbrev lost_zip : Disk String
lost_zip = record { zip_file = none; meta_file = some meta_v1 }

download_stuck_example :
    All (λ o. o ≡ none) (run_downloads any_zip size_one (unchanged ∷ unchanged ∷ []) lost_zip).0
unfolding wabus_backend.Gtfs.Download.load_from_cache
download_stuck_example =
    download_stuck any_zip size_one (unchanged ∷ unchanged ∷ []) lost_zip meta_v1 refl
      (λ e. absurd (cc)) refl
      ((refl, λ headers asked. ("", none, refl)), ((refl, λ headers asked. ("", none, refl)), tt))

abbrev keep_feed : Feed ℤ → Feed ℤ
keep_feed f = f

abbrev decode_feed : Feed ℤ → Option (Decoded ℤ)
decode_feed f = some (record { feed = f; has_routes = true; has_stops = true })

abbrev save_calls : SaveCalls (Feed ℤ)
save_calls = record {
  dir_ok = true;
  create_ok = true;
  writer_ok = true;
  encode_ok = true;
  close_ok = true;
  file_close_ok = true;
  rename_ok = true;
  remove_ok = true;
  left = feed;
}

abbrev fingerprint : String
fingerprint = "ab"

save_parsed_result_example :
    load_parsed_result keep_feed decode_feed fingerprint
      (save_parsed_result keep_feed decode_feed save_calls fingerprint feed []).0
    ≡ (if (save_parsed_result keep_feed decode_feed save_calls fingerprint feed []).1
          && same fingerprint fingerprint
        then some feed
        else load_parsed_result keep_feed decode_feed fingerprint [])
save_parsed_result_example =
    save_parsed_result_lem keep_feed decode_feed save_calls fingerprint fingerprint feed [] refl

abbrev api : Api ℤ (List (ApiVehicle ℤ))
api = record {
  decode_response = λ b. some (record { result = b; error = "" });
  decode_vehicles = λ b. some b;
  parse_in_warsaw = λ text. none;
}

abbrev av_17 : ApiVehicle ℤ
av_17 = record {
  lines = "17";
  lon = pos 21;
  vehicle_number = "3105";
  time = "";
  lat = pos 52;
  brigade = "1";
}

fetched_keys_example :
    (tram ≡ tram) × (◌≡◌ {A = String} "3105" "3105") × (◌≢◌ {A = String} "3105" "")
unfolding wabus_backend.WarsawApi.fetch wabus_backend.WarsawApi.to_domain
    wabus_backend.WarsawApi.vehicle_of string_discrete Bool-cases
fetched_keys_example =
    fetched_keys api (pos 0) tram tram (pos 5) (pos 6) (reply 200 (av_17 ∷ []))
      (reply 200 (av_17 ∷ [])) (vehicle_of api (pos 0) (pos 5) tram av_17)
      (vehicle_of api (pos 0) (pos 6) tram av_17) (inr refl) (inr refl) (inl refl) (inl refl) refl
