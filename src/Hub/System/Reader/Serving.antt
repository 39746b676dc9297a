-- ===== src/Hub/System/Reader/Serving.antt =====
-- The answers of `readLoop` of internal/handler/websocket.go.
use wabus_backend.Prelude.{ℕ, ◌≡◌, ◌↔◌, true, some, List, ◌∷◌, arith, String, string_key, In, Once}
use wabus_backend.Prelude.Outcome.{done}
use wabus_backend.Domain.{Vehicle}
use wabus_backend.GoMap.{lookup}
use wabus_backend.Store.{Store}
use wabus_backend.Store.Invariant.{Inv}
use wabus_backend.Store.Query.Listing.{vehicle_keys}
use wabus_backend.Store.Query.Tiles.{snapshot_for_tiles_lem}
use wabus_backend.Hub.System.{subscribes}
use wabus_backend.Hub.System.Reader.{
  Json, received, send_encoded, send_snapshot, on_subscribe, on_message, read_message,
}

module _ {B F : Type 0} (json : Json B F) where
  -- A subscription to some tiles is answered with the vehicles of these tiles.
  pub on_subscribe-some :
      (c : ℕ) (id : String) (ids : List String) (store : Store F)
      → Inv store
      → (vs : List (Vehicle F)) × (on_subscribe json c (some (id ∷ ids)) store
          ≡ done (subscribes c (id ∷ ids) ∷ send_encoded c (json.encode_snapshot vs)))
        × ((v : Vehicle F)
            → In v vs ↔ ((lookup v.key store.vehicles ≡ some v) × In v.tile_id (id ∷ ids)))
        × Once (vehicle_keys vs)
  unfolding on_subscribe send_snapshot
  on_subscribe-some c id ids store i =
      let (vs, e, members, once) = snapshot_for_tiles_lem (id ∷ ids) store i in
      (vs, ground (arith, e), members, once)

  -- A text message that is decoded as a subscription to some tiles subscribes the client to them and
  -- sends it the stored vehicles of these tiles, all of them and none twice, if they can be encoded;
  -- on a store that satisfies the invariant.
  pub read_message-subscribe :
      (c : ℕ) (bytes payload : B) (id : String) (ids : List String) (store : Store F)
      → json.decode_message bytes ≡ some (record { message_kind = "subscribe"; payload = payload })
      → json.decode_tiles payload ≡ some (id ∷ ids)
      → Inv store
      → (vs : List (Vehicle F)) × (read_message json c (received true bytes) store
          ≡ done (subscribes c (id ∷ ids) ∷ send_encoded c (json.encode_snapshot vs)))
        × ((v : Vehicle F)
            → In v vs ↔ ((lookup v.key store.vehicles ≡ some v) × In v.tile_id (id ∷ ids)))
        × Once (vehicle_keys vs)
  unfolding read_message on_message
  read_message-subscribe c bytes payload id ids store d t i =
      let (vs, e, members, once) = on_subscribe-some c id ids store i in
      (vs, ground (arith, d, t, e), members, once)
