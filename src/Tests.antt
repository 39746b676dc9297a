-- ===== src/Tests.antt =====
-- Sample data for the tests: floats are integers, an encoded message is the number of its changes.
pub mod Vehicles
pub mod Hubs
pub mod Limits
pub mod Timetables
pub mod Archives
pub mod Feeds
pub mod Answers
pub mod Inputs
pub mod Sockets
pub mod Updates
use wabus_backend.Prelude.{
  ℕ, ◌+◌, ◌*◌, ◌/◌, ◌^◌, ℤ, pos, ◌+ℤ◌, ◌-ℤ◌, ltb_ℤ, pos_part, not, Option, none, some, List, [],
  ◌∷◌, length, String,
}
use wabus_backend.Domain.{Float64, Vehicle, VehicleDelta, BoundingBox, bus, tram}
use wabus_backend.Hub.{Client, DeltaMessage, new_client}
use wabus_backend.Hub.Tile.{FloatMath}

instance abbrev pub integer_float : Float64 ℤ
integer_float = record {
  lt = ltb_ℤ;
  le = λ a b. not (ltb_ℤ b a);
  sub = ◌-ℤ◌;
  neg = λ a. pos 0 -ℤ a;
  zero_float = pos 0;
  epsilon = pos 0;
}

instance abbrev pub integer_math : FloatMath ℤ
integer_math = record {
  to_float = λ n. n;
  to_int = λ x. x;
  plus = ◌+ℤ◌;
  minus = ◌-ℤ◌;
  times = λ a b. pos (pos_part a * pos_part b);
  over = λ a b. pos (pos_part a / pos_part b);
  power = λ a b. pos (pos_part a ^ pos_part b);
  floor = λ x. x;
  log = λ x. x;
  tan = λ x. x;
  cos = λ x. pos 1;
  sinh = λ x. x;
  atan = λ x. x;
  pi = pos 3;
}

abbrev pub bus_523 : Vehicle ℤ
bus_523 = record {
  key = "1:8001";
  vehicle_number = "8001";
  vehicle_type = bus;
  line = "523";
  brigade = "4";
  lat = pos 52;
  lon = pos 21;
  timestamp = pos 10;
  tile_id = "14/9150/5390";
  updated_at = pos 0;
}

abbrev pub tram_17 : Vehicle ℤ
tram_17 = record {
  key = "2:3105";
  vehicle_number = "3105";
  vehicle_type = tram;
  line = "17";
  brigade = "2";
  lat = pos 53;
  lon = pos 20;
  timestamp = pos 11;
  tile_id = "14/9149/5389";
  updated_at = pos 0;
}

abbrev pub bus_moved : Vehicle ℤ
bus_moved = record bus_523 { lat = pos 54; timestamp = pos 12; tile_id = "14/9150/5388" }

abbrev pub encode : DeltaMessage ℤ → Option ℕ
encode m = some (length m.updates + length m.removes)

abbrev pub fresh_clients : ℕ → Client ℕ
fresh_clients c = new_client 256
