-- ===== src/Handler/Vehicles.antt =====
-- internal/handler/http.go: the two requests for vehicles. `parse_float` is `strconv.ParseFloat`: none
-- is an error, with its text.
pub mod Parameters
pub mod Listed
use wabus_backend.Prelude.{
  ℕ, ℤ, pos, ◌≡◌, Bool, true, false, not, ◌&&◌, ◌||◌, Option, none, some, List, [], ◌∷◌, String,
  string_key, int_key, same, if◌then◌else◌, atoi, split, length, ◌<>◌,
}
use wabus_backend.Prelude.Outcome.{Outcome, done, panic, ◌>>=◌}
use wabus_backend.Domain.{Float64, Time, Vehicle, VehicleType, BoundingBox}
use wabus_backend.Store.{Store, get}
use wabus_backend.Store.Query.{ListOptions, list}
use wabus_backend.Handler.{Response, respond_json, respond_error}

pub record VehiclesResponse (F : Type 0) : Type 0 where
  pub vehicles : List (Vehicle F)
  pub count : ℕ
  pub server_time : Time

-- A value, or the text of an error.
pub data Parsed (A : Type 0) : Type 0 where
  parsed : A → Parsed A
  not_parsed : String → Parsed A

-- The parameter "type": an option, or a bad request.
unfoldable pub parse_type : String → Option (Option VehicleType)
parse_type text =
    if same text ""
    then some none
    else if not (atoi text).1
        || (not (same (atoi text).0 (pos 1)) && not (same (atoi text).0 (pos 2)))
    then none
    else some (some (atoi text).0)

module _ {F : Type 0} (parse_float : String → Parsed F) where
  -- The next number, or the error that ends it.
  abbrev pub with_float : {A : Type 0} → String → (F → Parsed A) → Parsed A
  with_float text next = elim (parse_float text) [ not_parsed e ↦ not_parsed e | parsed x ↦ next x ]

  unfoldable pub parse_bbox : String → String → String → String → Parsed (BoundingBox F)
  parse_bbox a b c d = with_float a (λ min_lat. with_float b (λ min_lon. with_float c (λ max_lat.
      with_float d (λ max_lon.
        parsed (record {
          min_lat = min_lat;
          max_lat = max_lat;
          min_lon = min_lon;
          max_lon = max_lon;
        })))))

  unfoldable pub bbox_of_parts : List String → Parsed (Option (BoundingBox F))
  bbox_of_parts (a ∷ b ∷ c ∷ d ∷ []) = elim (parse_bbox a b c d) [
    | not_parsed e ↦ not_parsed ("invalid bbox values: " <> e)
    | parsed box ↦ parsed (some box)
  ]
  bbox_of_parts _ = not_parsed "invalid bbox format: expected minLat,minLon,maxLat,maxLon"

  -- The parameter "bbox".
  unfoldable pub parse_bbox_param : String → Parsed (Option (BoundingBox F))
  parse_bbox_param text = if same text "" then parsed none else bbox_of_parts (split 44 text)

module _ {F : Type 0} where
  unfoldable pub vehicles_found : Time → List (Vehicle F) → Response (VehiclesResponse F)
  vehicles_found now vehicles =
      respond_json [] 200
        (record { vehicles = vehicles; count = length vehicles; server_time = now })

  -- `ListVehicles`, once its parameters are read. A bad type is answered before the box is read.
  unfoldable pub answer_request :
      ⦃f : Float64 F⦄
      → Time
      → Option (Option VehicleType)
      → String
      → Parsed (Option (BoundingBox F))
      → Store F
      → Outcome (Response (VehiclesResponse F))
  answer_request now none line bbox s =
      done (respond_error [] 400 "invalid type parameter: must be 1 (bus) or 2 (tram)")
  answer_request now (some vehicle_type) line (not_parsed e) s = done (respond_error [] 400 e)
  answer_request now (some vehicle_type) line (parsed bbox) s =
      list (record { type_option = vehicle_type; line_option = line; bbox = bbox }) s
      >>= (λ vehicles. done (vehicles_found now vehicles))

  unfoldable pub list_vehicles :
      ⦃f : Float64 F⦄
      → (String → Parsed F)
      → Time
      → String
      → String
      → String
      → Store F
      → Outcome (Response (VehiclesResponse F))
  list_vehicles parse_float now type_param line bbox_param s =
      answer_request now (parse_type type_param) line (parse_bbox_param parse_float bbox_param) s

  unfoldable pub get_vehicle : String → Store F → Response (Vehicle F)
  get_vehicle key s =
      if same key "" then respond_error [] 400 "missing vehicle key" else elim (get key s) [
        | none ↦ respond_error [] 404 "vehicle not found"
        | some vehicle ↦ respond_json [] 200 vehicle
      ]
