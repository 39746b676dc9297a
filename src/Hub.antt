-- ===== src/Hub.antt =====
-- internal/hub/hub.go: the hub, its clients and their subscriptions to tiles. A client is named by
-- its address, and `objects` is the memory behind the addresses. The hub's mutex, and its one
-- goroutine `Run`, make each function below one step.
pub mod Gather
pub mod Fanout
pub mod Invariant
pub mod Removal
pub mod System
pub mod Tile
use wabus_backend.Prelude.{
  ℕ, ◌≡◌, ite, Bool, true, false, not, Option, none, some, List, [], ◌∷◌, ◌++◌, String, string_key,
  nat_key, ℕ_discrete, ltb, length, if◌then◌else◌, is_some,
}
use wabus_backend.Prelude.Outcome.{Outcome, done, panic, ◌>>=◌}
use wabus_backend.Domain.{Vehicle, VehicleDelta, DeltaType, delta_update, delta_remove}
use wabus_backend.GoMap.{GoMap, GoSet, lookup, insert, delete, keys}
use wabus_backend.GoMap.Buckets.{Buckets, add, remove, or_nil}

-- `Client`. `send` holds what waits in the channel, which takes `capacity` messages.
pub record Client (B : Type 0) : Type 0 where
  pub tiles : GoSet String
  pub send : List B
  pub capacity : ℕ
  pub closed : Bool

pub record Hub (B : Type 0) : Type 0 where
  pub clients : GoSet ℕ
  pub tile_clients : Buckets String ℕ
  pub objects : ℕ → Client B

-- `DeltaMessage`, with its payload.
pub record DeltaMessage (F : Type 0) : Type 0 where
  pub message_type : String
  pub updates : List (Option (Vehicle F))
  pub removes : List String

-- Reading a missing key of a map of slices reads the nil slice.
abbrev pub or_empty : {A : Type 0} → Option (List A) → List A
or_empty none = []
or_empty (some xs) = xs

-- `NewClient`
unfoldable pub new_client : {B : Type 0} → ℕ → Client B
new_client buffer_size = record { tiles = []; send = []; capacity = buffer_size; closed = false }

-- The loops of `AddTiles` and `RemoveTiles`.
unfoldable pub add_tiles : List String → GoSet String → GoSet String
add_tiles [] tiles = tiles
add_tiles (id ∷ ids) tiles = add_tiles ids (insert id tt tiles)

unfoldable pub remove_tiles : List String → GoSet String → GoSet String
remove_tiles [] tiles = tiles
remove_tiles (id ∷ ids) tiles = remove_tiles ids (delete id tiles)

-- The loops of `Subscribe`, and of `Unsubscribe` and `removeClient`, over the index of tiles.
unfoldable pub link : ℕ → List String → Buckets String ℕ → Buckets String ℕ
link c [] index = index
link c (id ∷ ids) index = link c ids (add id c index)

unfoldable pub unlink : ℕ → List String → Buckets String ℕ → Buckets String ℕ
unlink c [] index = index
unlink c (id ∷ ids) index = unlink c ids (remove id c index)

module _ {B : Type 0} where
  unfoldable pub new_hub : (ℕ → Client B) → Hub B
  new_hub objects = record { clients = []; tile_clients = []; objects = objects }

  -- A write through the pointer `c`.
  abbrev pub put : ℕ → Client B → (ℕ → Client B) → ℕ → Client B
  put c client objects j = ite (ℕ_discrete c j) client (objects j)

  unfoldable pub subscribe : ℕ → List String → Hub B → Hub B
  subscribe c tile_ids h =
      let client = h.objects c in
      record h {
        objects = put c (record client { tiles = add_tiles tile_ids client.tiles }) h.objects;
        tile_clients = link c tile_ids h.tile_clients;
      }

  unfoldable pub unsubscribe : ℕ → List String → Hub B → Hub B
  unsubscribe c tile_ids h =
      let client = h.objects c in
      record h {
        objects = put c (record client { tiles = remove_tiles tile_ids client.tiles }) h.objects;
        tile_clients = unlink c tile_ids h.tile_clients;
      }

  -- `close(client.Send)`
  unfoldable pub close_send : Client B → Outcome (Client B)
  close_send client = if client.closed then panic else done (record client { closed = true })

  -- `select { case client.Send <- data: default: }`
  unfoldable pub try_send : B → Client B → Outcome (Client B)
  try_send data_bytes client =
      if client.closed
      then panic
      else if ltb (length client.send) client.capacity
      then done (record client { send = client.send ++ data_bytes ∷ [] })
      else done client

  -- The branch of `Run` for the channel `register`.
  unfoldable pub register_client : ℕ → Hub B → Hub B
  register_client c h = record h { clients = insert c tt h.clients }

  unfoldable pub remove_client : ℕ → Hub B → Outcome (Hub B)
  remove_client c h =
      if not (is_some (lookup c h.clients))
      then done h
      else (close_send (h.objects c) >>= λ client. done (record {
        clients = delete c h.clients;
        tile_clients = unlink c (keys (h.objects c).tiles) h.tile_clients;
        objects = put c client h.objects;
      }))

  -- The loop of `closeAllClients`.
  unfoldable pub close_loop : List ℕ → (ℕ → Client B) → Outcome (ℕ → Client B)
  close_loop [] objects = done objects
  close_loop (c ∷ cs) objects =
      close_send (objects c) >>= λ client. close_loop cs (put c client objects)

  unfoldable pub close_all_clients : Hub B → Outcome (Hub B)
  close_all_clients h = close_loop (keys h.clients) h.objects >>= λ objects.
      done (record { clients = []; tile_clients = []; objects = objects })

  unfoldable pub client_count : Hub B → ℕ
  client_count h = length h.clients

module _ {F : Type 0} where
  -- The loop of `buildDeltaMessage`, one list at a time.
  unfoldable pub build_updates : List (VehicleDelta F) → List (Option (Vehicle F))
  build_updates [] = []
  build_updates (d ∷ ds) =
      let rest = build_updates ds in
      elim d.delta_type [ delta_update ↦ d.vehicle ∷ rest | delta_remove ↦ rest ]

  unfoldable pub build_removes : List (VehicleDelta F) → List String
  build_removes [] = []
  build_removes (d ∷ ds) =
      let rest = build_removes ds in
      elim d.delta_type [ delta_update ↦ rest | delta_remove ↦ d.delta_key ∷ rest ]

  unfoldable pub build_delta_message : List (VehicleDelta F) → DeltaMessage F
  build_delta_message ds = record {
    message_type = "delta";
    updates = build_updates ds;
    removes = build_removes ds;
  }

  -- `for client := range clients { clientDeltas[client] = append(clientDeltas[client], d) }`
  unfoldable pub gather_one :
      VehicleDelta F → List ℕ → GoMap ℕ (List (VehicleDelta F)) → GoMap ℕ (List (VehicleDelta F))
  gather_one d [] client_deltas = client_deltas
  gather_one d (c ∷ cs) client_deltas =
      gather_one d cs (insert c (or_empty (lookup c client_deltas) ++ d ∷ []) client_deltas)

  -- The body of the first loop of `fanoutDeltas`, once the tile has been looked up.
  unfoldable pub gather_clients :
      Option (GoSet ℕ)
      → VehicleDelta F
      → GoMap ℕ (List (VehicleDelta F))
      → GoMap ℕ (List (VehicleDelta F))
  gather_clients none d client_deltas = client_deltas
  gather_clients (some clients) d client_deltas = gather_one d (keys clients) client_deltas

  -- The first loop of `fanoutDeltas`.
  unfoldable pub gather :
      Buckets String ℕ
      → List (VehicleDelta F)
      → GoMap ℕ (List (VehicleDelta F))
      → GoMap ℕ (List (VehicleDelta F))
  gather index [] client_deltas = client_deltas
  gather index (d ∷ ds) client_deltas =
      gather index ds (gather_clients (lookup d.delta_tile index) d client_deltas)

  module _ {B : Type 0} (marshal : DeltaMessage F → Option B) where
    -- The second loop of `fanoutDeltas`. `marshal` is `json.Marshal`, `none` for its error.
    unfoldable pub send_loop :
        GoMap ℕ (List (VehicleDelta F)) → (ℕ → Client B) → Outcome (ℕ → Client B)
    send_loop [] objects = done objects
    send_loop ((c, ds) ∷ client_deltas) objects = elim (marshal (build_delta_message ds)) [
      | none ↦ send_loop client_deltas objects
      | some bytes ↦
          try_send bytes (objects c) >>= λ client. send_loop client_deltas (put c client objects)
    ]

    unfoldable pub fanout_deltas : List (VehicleDelta F) → Hub B → Outcome (Hub B)
    fanout_deltas ds h = send_loop (gather h.tile_clients ds []) h.objects >>= λ objects.
        done (record h { objects = objects })
