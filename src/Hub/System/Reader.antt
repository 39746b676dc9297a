-- ===== src/Hub/System/Reader.antt =====
-- The loop `readLoop` of internal/handler/websocket.go: what a client's messages make it do. The
-- decoders and encoders of JSON are parameters, which may fail.
pub mod Serving
pub mod Loop
use wabus_backend.Prelude.{
  ℕ, ◌≡◌, Bool, true, false, not, Option, none, some, List, [], ◌∷◌, ◌++◌, String, string_key, same,
  if◌then◌else◌, length, ltb,
}
use wabus_backend.Prelude.Outcome.{Outcome, done, panic, ◌>>=◌}
use wabus_backend.Domain.{Vehicle}
use wabus_backend.Store.{Store}
use wabus_backend.Store.Query.{snapshot_for_tiles}
use wabus_backend.Hub.System.{Action, subscribes, unsubscribes, replies, disconnects}

pub record WsMessage (B : Type 0) : Type 0 where
  pub message_kind : String
  pub payload : B

-- What `conn.Read` returns: a message, text or binary, or an error.
pub data Received (B : Type 0) : Type 0 where
  received : Bool → B → Received B
  read_error : Received B

-- The four calls of encoding/json.
pub record Json (B F : Type 0) : Type 0 where
  pub decode_message : B → Option (WsMessage B)
  pub decode_tiles : B → Option (List String)
  pub encode_snapshot : List (Vehicle F) → Option B
  pub encode_pong : Option B

module _ {B F : Type 0} where
  unfoldable pub send_encoded : ℕ → Option B → List (Action B F)
  send_encoded c none = []
  send_encoded c (some bytes) = replies c bytes ∷ []

  unfoldable pub on_unsubscribe : ℕ → Option (List String) → List (Action B F)
  on_unsubscribe c none = []
  on_unsubscribe c (some ids) = if ltb 0 (length ids) then unsubscribes c ids ∷ [] else []

  module _ (json : Json B F) where
    unfoldable pub send_snapshot : ℕ → List String → Store F → Outcome (List (Action B F))
    send_snapshot c ids store = snapshot_for_tiles ids store >>= λ vehicles.
        done (send_encoded c (json.encode_snapshot vehicles))

    unfoldable pub send_pong : ℕ → List (Action B F)
    send_pong c = send_encoded c json.encode_pong

    unfoldable pub on_subscribe : ℕ → Option (List String) → Store F → Outcome (List (Action B F))
    on_subscribe c none store = done []
    on_subscribe c (some ids) store =
        if ltb 0 (length ids)
        then (send_snapshot c ids store >>= λ replied. done (subscribes c ids ∷ replied))
        else done []

    -- The `switch` on the message's type.
    unfoldable pub on_message : ℕ → Option (WsMessage B) → Store F → Outcome (List (Action B F))
    on_message c none store = done []
    on_message c (some msg) store =
        if same msg.message_kind "subscribe"
        then on_subscribe c (json.decode_tiles msg.payload) store
        else if same msg.message_kind "unsubscribe"
        then done (on_unsubscribe c (json.decode_tiles msg.payload))
        else if same msg.message_kind "ping"
        then done (send_pong c)
        else done []

    -- One round of the loop; after an error the loop ends, and its deferred call takes the client out.
    unfoldable pub read_message : ℕ → Received B → Store F → Outcome (List (Action B F))
    read_message c read_error store = done (disconnects c ∷ [])
    read_message c (received is_text bytes) store =
        if not is_text then done [] else on_message c (json.decode_message bytes) store

    -- `readLoop`, on what it reads and the store at that time: an error ends it.
    unfoldable pub read_loop : ℕ → List (Received B × Store F) → Outcome (List (Action B F))
    read_loop c [] = done []
    read_loop c ((read_error, store) ∷ reads) = read_message c read_error store
    read_loop c ((received is_text bytes, store) ∷ reads) =
        let rest = read_loop c reads in
        read_message c (received is_text bytes) store >>= λ actions.
        rest >>= λ later. done (actions ++ later)
