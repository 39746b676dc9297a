-- ===== src/Tests/Hubs.antt =====
-- Tests of the hub (internal/hub) with its channels and the loops of internal/handler/websocket.go.
use wabus_backend.Prelude.{
  ℕ, ℤ, pos, ◌-ℤ◌, ◌≡◌, ◌≢◌, ◌∙◌, refl, sym, subst, true, false, List, [], ◌∷◌, arith, String,
  string_key, nat_key, ℕ_discrete, is_some, All, In,
}
use wabus_backend.Prelude.Outcome.{done, panic, done-injective}
use wabus_backend.Domain.{VehicleDelta}
use wabus_backend.Store.{update_delta, remove_delta}
use wabus_backend.GoMap.{lookup, insert}
use wabus_backend.GoMap.Buckets.{bucket}
use wabus_backend.Hub.{
  Hub, put, new_client, new_hub, subscribe, register_client, remove_client, close_all_clients,
  fanout_deltas,
}
use wabus_backend.Hub.Gather.{deltas_for}
use wabus_backend.Hub.Fanout.{receive, fanout_deltas_lem}
use wabus_backend.Hub.Invariant.{Inv, new_hub-Inv, subscribe-Inv, register_client-Inv}
use wabus_backend.Hub.Removal.{remove_client_lem}
use wabus_backend.Hub.System.{
  System, Action, connect, disconnect, offer, run_register, set_reading, connects, subscribes,
  replies, disconnects, writes, broadcasts_deltas, takes_register, takes_unregister,
  takes_broadcast, shuts_down, step, run, start,
}
use wabus_backend.Hub.System.Invariant.{IsSafe}
use wabus_backend.Hub.System.Races.{run-IsSafe}
use wabus_backend.Hub.System.Shutdown.{close_all_clients_lem, reply-shutdown}
use wabus_backend.Hub.System.Leaks.{IsLeaked, unregister_first, run-IsLeaked}
use wabus_backend.Hub.Tile.{tile_x, tile_y, tile_id, tile_span, adjacent_tiles}
use wabus_backend.Hub.Tile.Area.{tiles_in_bbox}
use wabus_backend.Hub.Tile.Rectangle.{Ends, IsInRectangle, tiles_in_bbox_lem}
use wabus_backend.Hub.Tile.Adjacent.{Fits, max_tile, tile_id-adjacent}
use wabus_backend.Tests.{
  integer_float, integer_math, bus_523, tram_17, bus_moved, encode, fresh_clients,
}

abbrev tiles : List String
tiles = "14/9150/5390" ∷ "14/9149/5389" ∷ []

abbrev changes : List (VehicleDelta ℤ)
changes = update_delta bus_523 ∷ update_delta bus_moved ∷ remove_delta "2:3105" tram_17 ∷ []

abbrev one_client : Hub ℕ
one_client = subscribe 0 tiles (register_client 0 (new_hub fresh_clients))

one_client-Inv : Inv one_client
unfolding register_client new_hub new_client
one_client-Inv =
    subscribe-Inv 0 tiles (register_client 0 (new_hub fresh_clients)) refl
      (register_client-Inv 0 (new_hub fresh_clients) refl (new_hub-Inv fresh_clients (λ c. refl)))

one_client_open : (c : ℕ) → (one_client.objects c).closed ≡ false
unfolding subscribe register_client new_hub new_client
one_client_open c = ground arith

abbrev session : List (Action ℕ ℤ)
session =
    connects
    ∷ takes_register
    ∷ subscribes 0 tiles
    ∷ replies 0 7
    ∷ broadcasts_deltas changes
    ∷ takes_broadcast
    ∷ writes 0
    ∷ []

before_shutdown : All (λ a. a ≢ shuts_down) session
before_shutdown = (
  (λ e. absurd (cc)),
  (
    (λ e. absurd (cc)),
    (
      (λ e. absurd (cc)),
      ((λ e. absurd (cc)), ((λ e. absurd (cc)), ((λ e. absurd (cc)), ((λ e. absurd (cc)), tt)))),
    ),
  ),
)

run-IsSafe_example :
    (s : System ℕ ℤ) × (run encode session (start fresh_clients) ≡ done s) × IsSafe s
unfolding new_client
run-IsSafe_example = run-IsSafe encode fresh_clients session (λ c. refl) before_shutdown

-- A session that is known to go through ends in the state that it computes.
pub reached :
    (actions : List (Action ℕ ℤ)) (s : System ℕ ℤ)
    → All (λ a. a ≢ shuts_down) actions
    → run encode actions (start fresh_clients) ≡ done s
    → IsSafe s
unfolding new_client
reached actions s all e =
    let (s', e', safe) = run-IsSafe encode fresh_clients actions (λ c. refl) all in
    subst IsSafe (done-injective (sym e' ∙ e)) safe

abbrev pub connected_hub : Hub ℕ
connected_hub = record (new_hub fresh_clients) {
  clients = (0, tt) ∷ [];
  objects = put 0 (new_client 256) fresh_clients;
}

-- A client has connected, and is registered.
abbrev pub connected : System ℕ ℤ
connected = record {
  hub = connected_hub;
  register = [];
  unregister = [];
  broadcasts = [];
  reading = set_reading 0 true (λ c. false);
  next = 1;
  running = true;
}

pub connected-run :
    run encode (connects ∷ takes_register ∷ []) (start fresh_clients) ≡ done connected
unfolding run step connect run_register register_client offer start new_hub insert
connected-run = refl

-- A client has connected and left, before the hub's loop took it from a channel.
abbrev quick : System ℕ ℤ
quick = record {
  hub = record (new_hub fresh_clients) { objects = put 0 (new_client 256) fresh_clients };
  register = 0 ∷ [];
  unregister = 0 ∷ [];
  broadcasts = [];
  reading = set_reading 0 false (set_reading 0 true (λ c. false));
  next = 1;
  running = true;
}

quick-run : run encode (connects ∷ disconnects 0 ∷ []) (start fresh_clients) ≡ done quick
unfolding run step connect disconnect offer start new_hub ℕ_discrete
quick-run = refl

unregister_first_example :
    (s' : System ℕ ℤ) × (run encode (takes_unregister ∷ takes_register ∷ []) quick ≡ done s')
    × IsLeaked 0 s'
unfolding new_hub lookup ℕ_discrete
unregister_first_example =
    unregister_first encode 0 [] [] quick refl refl refl (λ i. absurd i) refl refl (omega arith)

-- The hub's loop has registered the client that left.
abbrev left : System ℕ ℤ
left = record quick { hub = connected_hub; register = []; unregister = [] }

left-IsLeaked : IsLeaked 0 left
unfolding lookup ℕ_discrete
left-IsLeaked = record {
  registered = refl;
  unread = refl;
  not_leaving = λ i. absurd i;
  old = omega arith;
}

-- Another client has come.
abbrev joined : System ℕ ℤ
joined = record left {
  hub = record connected_hub {
    clients = (0, tt) ∷ (1, tt) ∷ [];
    objects = put 1 (new_client 256) connected_hub.objects;
  };
  reading = set_reading 1 true left.reading;
  next = 2;
}

left-run : run encode (connects ∷ takes_register ∷ []) left ≡ done joined
unfolding run step connect run_register register_client offer insert ℕ_discrete
left-run = refl

run-IsLeaked_example : IsLeaked 0 joined
run-IsLeaked_example =
    run-IsLeaked encode 0 (connects ∷ takes_register ∷ []) left joined
      ((λ e. absurd (cc)), ((λ e. absurd (cc)), tt)) left-run left-IsLeaked

reply-shutdown_example :
    (s' : System ℕ ℤ) × (step encode shuts_down connected ≡ done s')
    × (step encode (replies 0 7) s' ≡ panic)
unfolding lookup ℕ_discrete
reply-shutdown_example =
    reply-shutdown encode 0 7 connected
      (reached (connects ∷ takes_register ∷ []) connected
        ((λ e. absurd (cc)), ((λ e. absurd (cc)), tt)) connected-run)
      refl refl refl

close_all_clients_example :
    (h' : Hub ℕ) × (close_all_clients one_client ≡ done h')
    × (h'.clients ≡ [])
    × (h'.tile_clients ≡ [])
    × ((c : ℕ) → is_some (lookup c one_client.clients) ≡ true → (h'.objects c).closed ≡ true)
    × ((c : ℕ)
        → is_some (lookup c one_client.clients) ≡ false
        → h'.objects c ≡ one_client.objects c)
close_all_clients_example = close_all_clients_lem one_client one_client-Inv

remove_client_example :
    (h' : Hub ℕ) × (remove_client 0 one_client ≡ done h')
    × Inv h'
    × (is_some (lookup 0 h'.clients) ≡ false)
    × ((is_some (lookup 0 one_client.clients) ≡ false → h' ≡ one_client)
        × (is_some (lookup 0 one_client.clients) ≡ true
            → ((h'.objects 0).closed ≡ true)
              × ((t : String) → is_some (lookup 0 (bucket t h'.tile_clients)) ≡ false)))
remove_client_example = remove_client_lem 0 one_client one_client-Inv

fanout_deltas_example :
    (h' : Hub ℕ) × (fanout_deltas encode changes one_client ≡ done h')
    × (h'.clients ≡ one_client.clients)
    × (h'.tile_clients ≡ one_client.tile_clients)
    × ((c : ℕ)
        → h'.objects c
          ≡ receive encode (deltas_for c one_client.tile_clients changes) (one_client.objects c))
fanout_deltas_example =
    fanout_deltas_lem encode changes one_client one_client-Inv.tidy (λ c t e. one_client_open c)

tiles_in_bbox_example : Ends (tiles_in_bbox ℤ 8 (pos 51) (pos 20) (pos 53) (pos 200) (pos 3)) (
    IsInRectangle
      (pos 3)
      (tile_x (pos 20) (pos 3), tile_y (pos 53) (pos 3))
      (tile_x (pos 200) (pos 3), tile_y (pos 51) (pos 3)))
unfolding tile_span ◌-ℤ◌
tiles_in_bbox_example =
    tiles_in_bbox_lem 8 (pos 51) (pos 20) (pos 53) (pos 200) (pos 3) (omega arith, omega arith)
      (omega arith) (omega arith) (omega arith)

tile_id-adjacent_example :
    Fits (max_tile ℤ (pos 3)) (tile_x (pos 21) (pos 3))
    × Fits (max_tile ℤ (pos 3)) (tile_y (pos 52) (pos 3))
    × In
        (tile_id (pos 52) (pos 21) (pos 3))
        (adjacent_tiles ℤ (pos 3) (tile_x (pos 21) (pos 3)) (tile_y (pos 52) (pos 3)))
unfolding tile_span ◌-ℤ◌
tile_id-adjacent_example = tile_id-adjacent (pos 52) (pos 21) (pos 3) (ground arith)
