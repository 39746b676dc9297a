-- ===== src/Tests/Vehicles.antt =====
-- Tests of the vehicle store (internal/store/store.go) and the ingestor (internal/ingestor).
use wabus_backend.Prelude.{
  ℤ, pos, ◌-ℤ◌, ◌≡◌, ◌↔◌, true, none, some, List, [], ◌∷◌, string_key, int_key, same, In, Once,
}
use wabus_backend.Prelude.Outcome.{done}
use wabus_backend.Domain.{Vehicle, bus, tram}
use wabus_backend.GoMap.{lookup}
use wabus_backend.Store.{Store, new_store, update, prune_stale, count_by_type}
use wabus_backend.Store.Invariant.{Inv}
use wabus_backend.Store.Preserve.{new_store-Inv, update-Inv}
use wabus_backend.Store.Contents.{observe_all, keep_fresh, update-lookup, prune_stale-lookup}
use wabus_backend.Store.Query.{ListOptions, list, snapshot_for_tiles}
use wabus_backend.Store.Query.Listing.{meets, vehicle_keys, list_lem}
use wabus_backend.Store.Query.Tiles.{snapshot_for_tiles_lem}
use wabus_backend.Store.Counts.{count_vehicles, count_by_type_lem}
use wabus_backend.Store.Mirror.{Agrees}
use wabus_backend.Ingestor.{Fetched, Tick, polls, prunes, new_ingestor, run}
use wabus_backend.Ingestor.Copies.{replay_batches, sent_copies}
use wabus_backend.Tests.{integer_float, integer_math, bus_523, tram_17, bus_moved}

abbrev pub batch : List (Vehicle ℤ)
batch = bus_523 ∷ tram_17 ∷ bus_moved ∷ []

abbrev pub stored : Store ℤ
stored = (update (pos 100) batch (new_store (pos 60))).0

pub stored-Inv : Inv stored
stored-Inv = update-Inv (pos 100) batch (new_store (pos 60)) (new_store-Inv (pos 60))

abbrev buses_in_view : ListOptions ℤ
buses_in_view = record {
  type_option = some bus;
  line_option = "523";
  bbox = some (record { min_lat = pos 50; max_lat = pos 60; min_lon = pos 20; max_lon = pos 22 });
}

update-lookup_example :
    lookup "1:8001" (update (pos 100) batch (new_store (pos 60))).0.vehicles
    ≡ observe_all (pos 100) "1:8001" batch (lookup "1:8001" (new_store (pos 60)).vehicles)
update-lookup_example = update-lookup (pos 100) "1:8001" batch (new_store (pos 60))

prune_stale-lookup_example :
    lookup "1:8001" (prune_stale (pos 170) stored).0.vehicles
    ≡ keep_fresh (pos 170 -ℤ stored.stale_after) (lookup "1:8001" stored.vehicles)
prune_stale-lookup_example = prune_stale-lookup (pos 170) "1:8001" stored stored-Inv

list_example :
    (r : List (Vehicle ℤ)) × (list buses_in_view stored ≡ done r)
    × ((v : Vehicle ℤ)
        → In v r ↔ ((lookup v.key stored.vehicles ≡ some v) × (meets buses_in_view v ≡ true)))
    × Once (vehicle_keys r)
list_example = list_lem buses_in_view stored stored-Inv

snapshot_for_tiles_example :
    (r : List (Vehicle ℤ)) × (snapshot_for_tiles
        ("14/9149/5389" ∷ "14/9150/5388" ∷ "14/9149/5389" ∷ [])
        stored
      ≡ done r)
    × ((v : Vehicle ℤ)
        → In v r ↔ (
            (lookup v.key stored.vehicles ≡ some v)
            × In v.tile_id ("14/9149/5389" ∷ "14/9150/5388" ∷ "14/9149/5389" ∷ [])))
    × Once (vehicle_keys r)
snapshot_for_tiles_example =
    snapshot_for_tiles_lem ("14/9149/5389" ∷ "14/9150/5388" ∷ "14/9149/5389" ∷ []) stored stored-Inv

count_by_type_example : count_by_type stored ≡ (
  count_vehicles (λ v. same v.vehicle_type bus) stored.vehicles,
  count_vehicles (λ v. same v.vehicle_type tram) stored.vehicles,
)
count_by_type_example = count_by_type_lem stored stored-Inv

abbrev fetched : List (Vehicle ℤ) → Fetched ℤ
fetched vs = record { found = vs; fault = none }

abbrev failed : Fetched ℤ
failed = record { found = []; fault = some "timeout" }

abbrev ticks : List (Tick ℤ)
ticks =
    polls (pos 100) (fetched (bus_523 ∷ [])) failed
    ∷ polls (pos 110) failed (fetched (tram_17 ∷ []))
    ∷ prunes (pos 165)
    ∷ []

sent_copies_example :
    Inv (run ticks (new_ingestor (pos 60) true (pos 3))).store
    × Agrees
        (replay_batches (run ticks (new_ingestor (pos 60) true (pos 3))).sent [])
        (run ticks (new_ingestor (pos 60) true (pos 3))).store
sent_copies_example = sent_copies (pos 60) (pos 3) ticks
