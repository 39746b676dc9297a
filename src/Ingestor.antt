-- ===== src/Ingestor.antt =====
-- internal/ingestor/ingestor.go: the poll loop that keeps the vehicle store and hands its changes
-- to the broadcaster. What a fetch (pkg/warsawapi) returns is an argument of `poll`.
pub mod Copies
pub mod Timetable
use wabus_backend.Prelude.{
  ℕ, ◌≡◌, ite, Bool, true, false, not, ◌&&◌, ◌||◌, Option, none, some, List, [], ◌∷◌, ◌++◌, map,
  String, is_some, ℤ, ltb, length, if◌then◌else◌,
}
use wabus_backend.Domain.{Float64, Vehicle, VehicleDelta, Time, Duration}
use wabus_backend.Store.{Store, new_store, update, prune_stale}
use wabus_backend.Hub.Tile.{FloatMath, tile_id}

-- The two results of `client.Fetch`.
pub record Fetched (F : Type 0) : Type 0 where
  pub found : List (Vehicle F)
  pub fault : Option String

-- `sent`: the calls of `Broadcast`, in order. `has_broadcaster`: `i.broadcaster != nil`.
pub record Ingestor (F : Type 0) : Type 0 where
  pub store : Store F
  pub has_broadcaster : Bool
  pub zoom_level : ℤ
  pub ready : Bool
  pub sent : List (List (VehicleDelta F))

pub data Tick (F : Type 0) : Type 0 where
  polls : Time → Fetched F → Fetched F → Tick F
  prunes : Time → Tick F

module _ {F : Type 0} where
  -- `New`, for a new store.
  unfoldable pub new_ingestor : Duration → Bool → ℤ → Ingestor F
  new_ingestor stale_after has_broadcaster zoom_level = record {
    store = new_store stale_after;
    has_broadcaster = has_broadcaster;
    zoom_level = zoom_level;
    ready = false;
    sent = [];
  }

  unfoldable pub is_ready : Ingestor F → Bool
  is_ready i = i.ready

  unfoldable pub send_deltas : List (VehicleDelta F) → Ingestor F → Ingestor F
  send_deltas deltas i = record i {
    sent = if i.has_broadcaster then i.sent ++ deltas ∷ [] else i.sent;
  }

  unfoldable pub prune : Time → Ingestor F → Ingestor F
  prune now i =
      let r = prune_stale now i.store in
      let i' = record i { store = r.0 } in if ltb 0 (length r.1) then send_deltas r.1 i' else i'

  module _ ⦃f : Float64 F⦄ ⦃g : FloatMath F⦄ where
    -- `v.TileID = hub.TileID(v.Lat, v.Lon, i.zoomLevel)`
    unfoldable pub place_vehicle : ℤ → Vehicle F → Vehicle F
    place_vehicle zoom v = record v { tile_id = tile_id v.lat v.lon zoom }

    unfoldable pub poll : Time → Fetched F → Fetched F → Ingestor F → Ingestor F
    poll now buses trams i =
        let r =
          update now (map (place_vehicle i.zoom_level) (buses.found ++ trams.found)) i.store in
        let i' = send_deltas r.1 (record i { store = r.0 }) in
        if not (is_ready i') && (not (is_some buses.fault) || not (is_some trams.fault))
        then record i' { ready = true }
        else i'

    -- `Run` after its first poll: the tickers that fire, in order.
    unfoldable pub run : List (Tick F) → Ingestor F → Ingestor F
    run [] i = i
    run (polls now buses trams ∷ ticks) i = run ticks (poll now buses trams i)
    run (prunes now ∷ ticks) i = run ticks (prune now i)
