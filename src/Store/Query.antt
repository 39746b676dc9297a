-- ===== src/Store/Query.antt =====
-- The reads of internal/store/store.go that go through the indices: `List`, `SnapshotForTiles` and
-- what they call. A key that an index names and `vehicles` lacks would be a nil dereference.
pub mod Candidates
pub mod Listing
pub mod Tiles
use wabus_backend.Prelude.{
  ◌≡◌, ite, Bool, true, false, not, ◌&&◌, Option, none, some, List, [], ◌∷◌, ◌++◌, String,
  string_key, int_key, string_discrete, leb, length, if◌then◌else◌, same, is_some,
}
use wabus_backend.Prelude.Outcome.{Outcome, done, panic, ◌>>=◌}
use wabus_backend.Domain.{Float64, Vehicle, VehicleType, BoundingBox, contains}
use wabus_backend.GoMap.{GoMap, GoSet, lookup, insert, keys}
use wabus_backend.GoMap.Buckets.{Buckets}
use wabus_backend.Store.{Store}

pub record ListOptions (F : Type 0) : Type 0 where
  pub type_option : Option VehicleType
  pub line_option : String
  pub bbox : Option (BoundingBox F)

-- `for key := range src { result[key] = struct{}{} }`
unfoldable pub copy_loop : {V : Type 0} → GoMap String V → GoSet String → GoSet String
copy_loop [] result = result
copy_loop ((k, v) ∷ src) result = copy_loop src (insert k tt result)

unfoldable pub copy_set : Option (GoSet String) → GoSet String
copy_set none = []
copy_set (some src) = copy_loop src []

unfoldable pub intersect_loop : GoSet String → GoSet String → GoSet String → GoSet String
intersect_loop [] larger result = result
intersect_loop ((k, v) ∷ smaller) larger result =
    intersect_loop smaller larger (if is_some (lookup k larger) then insert k tt result else result)

unfoldable pub intersect : Option (GoSet String) → Option (GoSet String) → GoSet String
intersect none b = []
intersect (some a) none = []
intersect (some a) (some b) =
    if leb (length a) (length b) then intersect_loop a b [] else intersect_loop b a []

pub record Seen (F : Type 0) : Type 0 where
  pub seen : GoSet String
  pub result : List (Vehicle F)

module _ {F : Type 0} where
  unfoldable pub candidates_by : Option VehicleType → String → Store F → GoSet String
  candidates_by (some ty) line s =
      if not (same line "")
      then intersect (lookup ty s.by_type) (lookup line s.by_line)
      else copy_set (lookup ty s.by_type)
  candidates_by none line s =
      if not (same line "") then copy_set (lookup line s.by_line) else copy_loop s.vehicles []

  unfoldable pub get_candidates : ListOptions F → Store F → GoSet String
  unfolding candidates_by
  get_candidates opts s = candidates_by opts.type_option opts.line_option s

  module _ ⦃f : Float64 F⦄ where
    -- `opts.BBox != nil && !opts.BBox.Contains(v.Lat, v.Lon)`, negated
    unfoldable pub in_bbox : Option (BoundingBox F) → Vehicle F → Bool
    in_bbox none v = true
    in_bbox (some bb) v = contains bb v.lat v.lon

    unfoldable pub list_loop :
        Option (BoundingBox F) → List String → Store F → Outcome (List (Vehicle F))
    list_loop bbox [] s = done []
    list_loop bbox (k ∷ candidates) s =
        let rest = list_loop bbox candidates s in
        elim (lookup k s.vehicles) [
          | none ↦ panic
          | some v ↦ rest >>= λ result. done (if in_bbox bbox v then v ∷ result else result)
        ]

    -- `List`
    unfoldable pub list : ListOptions F → Store F → Outcome (List (Vehicle F))
    list opts s = list_loop opts.bbox (keys (get_candidates opts s)) s

  -- The inner loop of `SnapshotForTiles`, over the keys of one tile.
  unfoldable pub tile_loop : Store F → List String → Seen F → Outcome (Seen F)
  tile_loop s [] r = done r
  tile_loop s (k ∷ ks) r =
      let skipped : Outcome (Seen F) = tile_loop s ks r in
      let visited : Outcome (Seen F) = elim (lookup k s.vehicles) [
        | none ↦ panic
        | some v ↦
            tile_loop s ks (record { seen = insert k tt r.seen; result = r.result ++ v ∷ [] })
      ] in
      if is_some (lookup k r.seen) then skipped else visited

  unfoldable pub tiles_loop : Store F → List String → Seen F → Outcome (Seen F)
  tiles_loop s [] r = done r
  tiles_loop s (tile_id ∷ tile_ids) r = elim (lookup tile_id s.by_tile) [
    | none ↦ tiles_loop s tile_ids r
    | some ks ↦ tile_loop s (keys ks) r >>= λ r'. tiles_loop s tile_ids r'
  ]

  unfoldable pub snapshot_for_tiles : List String → Store F → Outcome (List (Vehicle F))
  snapshot_for_tiles tile_ids s =
      tiles_loop s tile_ids (record { seen = []; result = [] }) >>= λ r. done r.result
