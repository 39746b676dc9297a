-- ===== src/Domain.antt =====
-- internal/domain/vehicle.go: vehicles, changes and bounding boxes. `float64` is a type with the
-- operations that the code uses; `time.Time` is a number of nanoseconds.
use wabus_backend.Prelude.{ℤ, pos, String, Bool, ◌&&◌, Option, if◌then◌else◌, same, int_key}

-- The operations of `float64` that the program calls.
pub record Float64 (F : Type 0) : Type 0 where
  pub lt : F → F → Bool
  pub le : F → F → Bool
  pub sub : F → F → F
  pub neg : F → F
  pub zero_float : F
  pub epsilon : F

abbrev pub Time : Type 0
Time = ℤ

abbrev pub Duration : Type 0
Duration = ℤ

abbrev pub VehicleType : Type 0
VehicleType = ℤ

abbrev pub bus : VehicleType
bus = pos 1

abbrev pub tram : VehicleType
tram = pos 2

-- `String`
pub type_name : VehicleType → String
type_name t = if same t bus then "bus" else if same t tram then "tram" else "unknown"

pub record Vehicle (F : Type 0) : Type 0 where
  pub key : String
  pub vehicle_number : String
  pub vehicle_type : VehicleType
  pub line : String
  pub brigade : String
  pub lat : F
  pub lon : F
  pub timestamp : Time
  pub tile_id : String
  pub updated_at : Time

pub data DeltaType : Type 0 where
  delta_update delta_remove : DeltaType

pub record VehicleDelta (F : Type 0) : Type 0 where
  pub delta_type : DeltaType
  pub vehicle : Option (Vehicle F)
  pub delta_key : String
  pub delta_tile : String

pub record BoundingBox (F : Type 0) : Type 0 where
  pub min_lat : F
  pub max_lat : F
  pub min_lon : F
  pub max_lon : F

unfoldable pub contains : {F : Type 0} ⦃f : Float64 F⦄ → BoundingBox F → F → F → Bool
contains ⦃f⦄ bb lat lon =
    f.le bb.min_lat lat && f.le lat bb.max_lat && f.le bb.min_lon lon && f.le lon bb.max_lon
