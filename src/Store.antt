-- ===== src/Store.antt =====
-- internal/store/store.go: the vehicle store, its vehicles by key and its three indices. The
-- mutex makes each method one step; `now` is the clock's reading in it. A method that reads
-- through a missing key dereferences nil, and panics.
pub mod Invariant
pub mod Preserve
pub mod Contents
pub mod Mirror
pub mod Query
pub mod Counts
use wabus_backend.Prelude.{
  ℕ, ◌≡◌, ite, Bool, true, false, not, ◌&&◌, ◌||◌, Option, none, some, List, [], ◌∷◌, ◌++◌, Key,
  String, ◌-ℤ◌, ltb_ℤ, leb, length, if◌then◌else◌, same, is_some, string_key, int_key,
}
use wabus_backend.Domain.{
  Float64, Vehicle, VehicleType, VehicleDelta, BoundingBox, Time, Duration, delta_update,
  delta_remove, bus, tram, contains,
}
use wabus_backend.GoMap.{GoMap, GoSet, lookup, insert, delete, keys, values}
use wabus_backend.GoMap.Buckets.{Buckets, bucket, add, remove}

pub record Store (F : Type 0) : Type 0 where
  pub vehicles : GoMap String (Vehicle F)
  pub by_tile : Buckets String String
  pub by_line : Buckets String String
  pub by_type : Buckets VehicleType String
  pub stale_after : Duration

module _ {F : Type 0} where
  -- `New`
  unfoldable pub new_store : Duration → Store F
  new_store stale_after = record {
    vehicles = [];
    by_tile = [];
    by_line = [];
    by_type = [];
    stale_after = stale_after;
  }

  unfoldable pub add_to_indices : Vehicle F → Store F → Store F
  add_to_indices v s = record s {
    by_tile = add v.tile_id v.key s.by_tile;
    by_line = add v.line v.key s.by_line;
    by_type = add v.vehicle_type v.key s.by_type;
  }

  unfoldable pub remove_from_tile_index : String → String → Store F → Store F
  remove_from_tile_index key tile_id s = record s { by_tile = remove tile_id key s.by_tile }

  unfoldable pub remove_from_all_indices : Vehicle F → Store F → Store F
  unfolding remove_from_tile_index
  remove_from_all_indices v s =
      let s' = remove_from_tile_index v.key v.tile_id s in
      record s' {
        by_line = remove v.line v.key s'.by_line;
        by_type = remove v.vehicle_type v.key s'.by_type;
      }

  unfoldable pub update_delta : Vehicle F → VehicleDelta F
  update_delta v = record {
    delta_type = delta_update;
    vehicle = some v;
    delta_key = "";
    delta_tile = v.tile_id;
  }

  unfoldable pub remove_delta : String → Vehicle F → VehicleDelta F
  remove_delta key v = record {
    delta_type = delta_remove;
    vehicle = none;
    delta_key = key;
    delta_tile = v.tile_id;
  }

  abbrev pub stamp : Time → Vehicle F → Vehicle F
  stamp now v = record v { updated_at = now }

  -- The write of a new or changed vehicle: `s.vehicles[v.Key] = v; s.addToIndices(v)`.
  unfoldable pub write : Vehicle F → Store F → Store F
  unfolding add_to_indices
  write v s = add_to_indices v (record s { vehicles = insert v.key v s.vehicles })

  -- The body of the loop of `PruneStale`, for the entry `key`, `v`.
  unfoldable pub prune_entry : Time → String × Vehicle F → Store F → Store F × List (VehicleDelta F)
  unfolding remove_from_all_indices remove_delta
  prune_entry cutoff (key, v) s =
      if ltb_ℤ v.updated_at cutoff
      then (let s' = remove_from_all_indices v s in
          (record s' { vehicles = delete key s'.vehicles }, remove_delta key v ∷ []))
      else (s, [])

  unfoldable pub prune_loop :
      Time → GoMap String (Vehicle F) → Store F → Store F × List (VehicleDelta F)
  prune_loop cutoff [] s = (s, [])
  prune_loop cutoff (entry ∷ entries) s =
      let r = prune_entry cutoff entry s in
      let q = prune_loop cutoff entries r.0 in (q.0, r.1 ++ q.1)

  -- `PruneStale`
  unfoldable pub prune_stale : Time → Store F → Store F × List (VehicleDelta F)
  prune_stale now s = prune_loop (now -ℤ s.stale_after) s.vehicles s

  unfoldable pub get : String → Store F → Option (Vehicle F)
  get key s = lookup key s.vehicles

  unfoldable pub snapshot : Store F → List (Vehicle F)
  snapshot s = values s.vehicles

  unfoldable pub count : Store F → ℕ
  count s = length s.vehicles

  unfoldable pub count_by_type : Store F → ℕ × ℕ
  count_by_type s = (length (bucket bus s.by_type), length (bucket tram s.by_type))

  module _ ⦃f : Float64 F⦄ where
    unfoldable pub abs_diff : F → F → F
    abs_diff a b = let d = f.sub a b in if f.lt d f.zero_float then f.neg d else d

    unfoldable pub has_changed : Vehicle F → Vehicle F → Bool
    unfolding abs_diff
    has_changed old new =
        if not (same old.line new.line) || not (same old.brigade new.brigade)
        then true
        else if f.lt f.epsilon (abs_diff old.lat new.lat)
            || f.lt f.epsilon (abs_diff old.lon new.lon)
        then true
        else if not (same old.timestamp new.timestamp)
        then true
        else false

    -- The body of the loop of `Update`, once the entry of the vehicle's key has been read.
    unfoldable pub update_entry :
        Time → Vehicle F → Option (Vehicle F) → Store F → Store F × List (VehicleDelta F)
    unfolding write remove_from_all_indices update_delta
    update_entry now v none s = (write v s, update_delta v ∷ [])
    update_entry now v (some existing) s =
        if has_changed existing v
        then (write v (remove_from_all_indices existing s), update_delta v ∷ [])
        else (record s { vehicles = insert v.key (stamp now existing) s.vehicles }, [])

    unfoldable pub update_vehicle : Time → Vehicle F → Store F → Store F × List (VehicleDelta F)
    unfolding update_entry
    update_vehicle now v s =
        let v' = stamp now v in update_entry now v' (lookup v'.key s.vehicles) s

    -- `Update`
    unfoldable pub update : Time → List (Vehicle F) → Store F → Store F × List (VehicleDelta F)
    update now [] s = (s, [])
    update now (v ∷ vs) s =
        let r = update_vehicle now v s in let q = update now vs r.0 in (q.0, r.1 ++ q.1)
