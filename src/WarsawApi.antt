-- ===== src/WarsawApi.antt =====
-- pkg/warsawapi/client.go: the city's API. The reply to a request, the two decodings of JSON and
-- `time.ParseInLocation` are parameters; a vehicle without a time that can be read gets the clock's.
pub mod Keys
use wabus_backend.Prelude.{
  ℕ, pos, Bool, not, ◌==◌, Option, none, some, List, [], ◌∷◌, String, string_key, same, decimal,
  decimal_ℤ, if◌then◌else◌, ◌<>◌,
}
use wabus_backend.Domain.{Time, Vehicle, VehicleType}
use wabus_backend.Ingestor.{Fetched}

pub record ApiVehicle (F : Type 0) : Type 0 where
  pub lines : String
  pub lon : F
  pub vehicle_number : String
  pub time : String
  pub lat : F
  pub brigade : String

-- `apiResponse`, with the raw text of "result".
pub record ApiResponse (B : Type 0) : Type 0 where
  pub result : B
  pub error : String

-- What `httpClient.Do` gives: an error, or a status and a body.
pub data Reply (B : Type 0) : Type 0 where
  no_reply : Reply B
  reply : ℕ → B → Reply B

-- The texts and decodings that the client uses.
pub record Api (F B : Type 0) : Type 0 where
  pub decode_response : B → Option (ApiResponse B)
  pub decode_vehicles : B → Option (List (ApiVehicle F))
  pub parse_in_warsaw : String → Option Time

-- `return nil, fmt.Errorf(...)`; the text of a wrapped error is left out.
abbrev pub fetch_error : {F : Type 0} → String → Fetched F
fetch_error text = record { found = []; fault = some text }

unfoldable pub vehicle_key : VehicleType → String → String
vehicle_key vehicle_type number = decimal_ℤ vehicle_type <> ":" <> number

module _ {F B : Type 0} (api : Api F B) (zero_time : Time) where
  abbrev time_or : Time → Option Time → Time
  time_or now none = now
  time_or now (some t) = t

  unfoldable pub vehicle_of : Time → VehicleType → ApiVehicle F → Vehicle F
  vehicle_of now vehicle_type av = record {
    key = vehicle_key vehicle_type av.vehicle_number;
    vehicle_number = av.vehicle_number;
    vehicle_type = vehicle_type;
    line = av.lines;
    brigade = av.brigade;
    lat = av.lat;
    lon = av.lon;
    timestamp = time_or now (api.parse_in_warsaw av.time);
    tile_id = "";
    updated_at = zero_time;
  }

  -- The zone of Warsaw is taken to be installed; Go panics on a time in a zone that is not.
  unfoldable pub to_domain : Time → VehicleType → List (ApiVehicle F) → List (Vehicle F)
  to_domain now vehicle_type [] = []
  to_domain now vehicle_type (av ∷ vehicles) =
      let rest = to_domain now vehicle_type vehicles in
      if same av.vehicle_number "" then rest else vehicle_of now vehicle_type av ∷ rest

  abbrev pub on_vehicles : Time → VehicleType → Option (List (ApiVehicle F)) → Fetched F
  on_vehicles now vehicle_type none = fetch_error "decoding vehicles"
  on_vehicles now vehicle_type (some vehicles) = record {
    found = to_domain now vehicle_type vehicles;
    fault = none;
  }

  abbrev pub on_response : Time → VehicleType → Option (ApiResponse B) → Fetched F
  on_response now vehicle_type none = fetch_error "decoding response"
  on_response now vehicle_type (some r) =
      if not (same r.error "")
      then fetch_error ("API error: " <> r.error)
      else on_vehicles now vehicle_type (api.decode_vehicles r.result)

  unfoldable pub fetch : Time → VehicleType → Reply B → Fetched F
  fetch now vehicle_type no_reply = fetch_error "executing request"
  fetch now vehicle_type (reply status body) =
      if not (status == 200)
      then fetch_error ("unexpected status code: " <> decimal status)
      else on_response now vehicle_type (api.decode_response body)
