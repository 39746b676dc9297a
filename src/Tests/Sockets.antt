-- ===== src/Tests/Sockets.antt =====
-- Tests of the read loop of internal/handler/websocket.go. A message is a number.
use wabus_backend.Prelude.{
  ℕ, ℤ, pos, ◌≡◌, ◌≢◌, ◌↔◌, ◌∙◌, ap, refl, sym, true, false, none, some, List, [], ◌∷◌, String,
  string_key, nat_key, string_discrete, ℕ_discrete, Bool-cases, is_some, length, In, Once, All,
  ◌==◌, if◌then◌else◌,
}
use wabus_backend.Prelude.Outcome.{done, done-injective}
use wabus_backend.Domain.{Vehicle}
use wabus_backend.GoMap.{lookup}
use wabus_backend.GoMap.Buckets.{bucket}
use wabus_backend.Store.{Store, new_store}
use wabus_backend.Store.Preserve.{new_store-Inv}
use wabus_backend.Store.Query.{snapshot_for_tiles, tiles_loop}
use wabus_backend.Store.Query.Listing.{vehicle_keys}
use wabus_backend.Hub.System.{
  System, Action, connects, takes_register, takes_broadcast, subscribes, replies, disconnects,
  shuts_down, run,
}
use wabus_backend.Hub.System.Invariant.{IsSafe}
use wabus_backend.Hub.System.Requests.{after_requests, requests_of}
use wabus_backend.Hub.System.Reader.{
  Json, received, send_encoded, send_snapshot, send_pong, on_subscribe, on_message, read_message,
  read_loop,
}
use wabus_backend.Hub.System.Reader.Serving.{read_message-subscribe}
use wabus_backend.Hub.System.Reader.Loop.{Sent, heard, asked, Loops, read_loop_lem}
use wabus_backend.Tests.{encode}
use wabus_backend.Tests.Vehicles.{stored, stored-Inv}
use wabus_backend.Tests.Hubs.{connected, connected-run, reached}

abbrev two_tiles : List String
two_tiles = "14/9150/5388" ∷ "14/9149/5389" ∷ []

abbrev json : Json ℕ ℤ
json = record {
  decode_message = λ n.
      if n == 1
      then some (record { message_kind = "subscribe"; payload = 2 })
      else if n == 3
      then some (record { message_kind = "ping"; payload = 0 })
      else none;
  decode_tiles = λ n. if n == 2 then some two_tiles else none;
  encode_snapshot = λ vs. some (length vs);
  encode_pong = some 9;
}

read_message-subscribe_example :
    (vs : List (Vehicle ℤ)) × (read_message json 0 (received true 1) stored
      ≡ done (subscribes 0 two_tiles ∷ send_encoded 0 (json.encode_snapshot vs)))
    × ((v : Vehicle ℤ)
        → In v vs ↔ ((lookup v.key stored.vehicles ≡ some v) × In v.tile_id two_tiles))
    × Once (vehicle_keys vs)
read_message-subscribe_example =
    read_message-subscribe json 0 1 2 "14/9150/5388" ("14/9149/5389" ∷ []) stored refl refl
      stored-Inv

abbrev empty_store : Store ℤ
empty_store = new_store (pos 60)

-- A subscription, a binary message, and a ping.
abbrev sent : List (Sent ℕ ℤ)
sent = (true, 1, empty_store) ∷ (false, 1, empty_store) ∷ (true, 3, empty_store) ∷ []

-- Another client connects in between, and the hub goes on.
abbrev actions : List (Action ℕ ℤ)
actions =
    connects
    ∷ subscribes 0 two_tiles
    ∷ takes_register
    ∷ replies 0 0
    ∷ takes_broadcast
    ∷ replies 0 9
    ∷ []

sent-loop :
    read_loop json 0 (heard sent) ≡ done (subscribes 0 two_tiles ∷ replies 0 0 ∷ replies 0 9 ∷ [])
unfolding read_loop read_message on_message on_subscribe send_snapshot send_encoded send_pong
    snapshot_for_tiles tiles_loop new_store lookup string_discrete Bool-cases
sent-loop = refl

own_requests :
    (loop : List (Action ℕ ℤ))
    → read_loop json 0 (heard sent) ≡ done loop
    → requests_of 0 actions ≡ requests_of 0 loop
unfolding requests_of
own_requests loop e = ap (requests_of 0) (done-injective (sym sent-loop ∙ e))

actions-go_on : All (λ a. a ≢ shuts_down) actions × All (λ a. a ≢ disconnects 0) actions
actions-go_on = (
  (
    (λ e. absurd (cc)),
    (
      (λ e. absurd (cc)),
      ((λ e. absurd (cc)), ((λ e. absurd (cc)), ((λ e. absurd (cc)), ((λ e. absurd (cc)), tt)))),
    ),
  ),
  (
    (λ e. absurd (cc)),
    (
      (λ e. absurd (cc)),
      ((λ e. absurd (cc)), ((λ e. absurd (cc)), ((λ e. absurd (cc)), ((λ e. absurd (cc)), tt)))),
    ),
  ),
)

read_loop_example :
    (loop : List (Action ℕ ℤ)) × Loops json 0 sent loop
    × (s' : System ℕ ℤ) × (run encode actions connected ≡ done s')
    × IsSafe s'
    × ((t : String)
        → is_some (lookup 0 (bucket t s'.hub.tile_clients))
          ≡ after_requests t
              (asked json sent)
              (is_some (lookup 0 (bucket t connected.hub.tile_clients))))
unfolding ℕ_discrete
read_loop_example =
    read_loop_lem json encode 0 sent connected actions
      (new_store-Inv (pos 60), (new_store-Inv (pos 60), (new_store-Inv (pos 60), tt)))
      (reached (connects ∷ takes_register ∷ []) connected
        ((λ e. absurd (cc)), ((λ e. absurd (cc)), tt)) connected-run)
      refl actions-go_on.0 actions-go_on.1 own_requests
