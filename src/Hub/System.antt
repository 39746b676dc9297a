-- ===== src/Hub/System.antt =====
-- The hub of internal/hub/hub.go with its channels, the readers and writers of its clients
-- (internal/handler/websocket.go) and the ingestor: an interleaving is a list of actions. A send on
-- a full `register` or `unregister` channel blocks, so the action does not happen yet.
pub mod Invariant
pub mod Safety
pub mod Races
pub mod Leaks
pub mod Shutdown
pub mod Requests
pub mod Reader
use wabus_backend.Prelude.{
  ℕ, suc, ◌+◌, ◌≡◌, ite, Bool, true, false, not, Option, none, some, List, [], ◌∷◌, ◌++◌, String,
  ℕ_discrete, ltb, length, if◌then◌else◌,
}
use wabus_backend.Prelude.Outcome.{Outcome, done, panic, ◌>>=◌}
use wabus_backend.Domain.{VehicleDelta}
use wabus_backend.Hub.{
  new_hub, Hub, Client, DeltaMessage, put, new_client, try_send, subscribe, unsubscribe,
  register_client, remove_client, fanout_deltas, close_all_clients,
}

-- `reading c`: the read loop of the client `c` is running. `next` is the next free address.
pub record System (B F : Type 0) : Type 0 where
  pub hub : Hub B
  pub register : List ℕ
  pub unregister : List ℕ
  pub broadcasts : List (List (VehicleDelta F))
  pub reading : ℕ → Bool
  pub next : ℕ
  pub running : Bool

pub data Action (B F : Type 0) : Type 0 where
  connects : Action B F
  subscribes : ℕ → List String → Action B F
  unsubscribes : ℕ → List String → Action B F
  replies : ℕ → B → Action B F
  disconnects : ℕ → Action B F
  writes : ℕ → Action B F
  broadcasts_deltas : List (VehicleDelta F) → Action B F
  takes_register takes_unregister takes_broadcast : Action B F
  shuts_down : Action B F

-- `Register` and `Unregister`: the channels take 16 clients.
unfoldable pub offer : ℕ → List ℕ → Option (List ℕ)
offer c queue = if ltb (length queue) 16 then some (queue ++ c ∷ []) else none

-- `Broadcast`: the channel takes 256 batches, and a batch that finds it full is dropped.
unfoldable pub broadcast :
    {F : Type 0}
    → List (VehicleDelta F)
    → List (List (VehicleDelta F))
    → List (List (VehicleDelta F))
broadcast [] queue = queue
broadcast (d ∷ ds) queue = if ltb (length queue) 256 then queue ++ (d ∷ ds) ∷ [] else queue

abbrev pub set_reading : ℕ → Bool → (ℕ → Bool) → ℕ → Bool
set_reading c b reading j = ite (ℕ_discrete c j) b (reading j)

module _ {B F : Type 0} where
  -- `ServeWS`, up to its loops.
  unfoldable pub connect : System B F → System B F
  connect s = elim (offer s.next s.register) [
    | none ↦ s
    | some queue ↦ record s {
      hub = record (s.hub) { objects = put s.next (new_client 256) s.hub.objects };
      register = queue;
      reading = set_reading s.next true s.reading;
      next = suc s.next;
    }
  ]

  -- The end of `readLoop`.
  unfoldable pub disconnect : ℕ → System B F → System B F
  disconnect c s = elim (offer c s.unregister) [
    | none ↦ s
    | some queue ↦ record s { unregister = queue; reading = set_reading c false s.reading }
  ]

  -- `readLoop` sends a snapshot or a pong: `sendSnapshot`, `sendPong`.
  unfoldable pub reply : ℕ → B → System B F → Outcome (System B F)
  reply c bytes s = try_send bytes (s.hub.objects c) >>= λ client.
      done (record s { hub = record (s.hub) { objects = put c client s.hub.objects } })

  -- `writeLoop` takes a message from the channel.
  unfoldable pub write_one : ℕ → System B F → System B F
  write_one c s = elim ((s.hub.objects c).send) [
    | [] ↦ s
    | bytes ∷ rest ↦ record s {
      hub = record (s.hub) {
        objects = put c (record (s.hub.objects c) { send = rest }) s.hub.objects;
      };
    }
  ]

  -- The branches of the `select` of `Run`.
  unfoldable pub run_register : List ℕ → System B F → System B F
  run_register [] s = s
  run_register (c ∷ queue) s = record s { hub = register_client c s.hub; register = queue }

  unfoldable pub run_unregister : List ℕ → System B F → Outcome (System B F)
  run_unregister [] s = done s
  run_unregister (c ∷ queue) s =
      remove_client c s.hub >>= λ h. done (record s { hub = h; unregister = queue })

  unfoldable pub run_shutdown : System B F → Outcome (System B F)
  run_shutdown s = close_all_clients s.hub >>= λ h. done (record s { hub = h; running = false })

  module _ (marshal : DeltaMessage F → Option B) where
    unfoldable pub run_broadcast : List (List (VehicleDelta F)) → System B F → Outcome (System B F)
    run_broadcast [] s = done s
    run_broadcast (ds ∷ queue) s =
        fanout_deltas marshal ds s.hub >>= λ h. done (record s { hub = h; broadcasts = queue })

    -- An action whose condition does not hold does not happen.
    unfoldable pub step : Action B F → System B F → Outcome (System B F)
    step connects s = done (connect s)
    step (subscribes c ids) s =
        done (if s.reading c then record s { hub = subscribe c ids s.hub } else s)
    step (unsubscribes c ids) s =
        done (if s.reading c then record s { hub = unsubscribe c ids s.hub } else s)
    step (replies c bytes) s = if s.reading c then reply c bytes s else done s
    step (disconnects c) s = done (if s.reading c then disconnect c s else s)
    step (writes c) s = done (write_one c s)
    step (broadcasts_deltas ds) s = done (record s { broadcasts = broadcast ds s.broadcasts })
    step takes_register s = done (if s.running then run_register s.register s else s)
    step takes_unregister s = if s.running then run_unregister s.unregister s else done s
    step takes_broadcast s = if s.running then run_broadcast s.broadcasts s else done s
    step shuts_down s = if s.running then run_shutdown s else done s

    unfoldable pub run : List (Action B F) → System B F → Outcome (System B F)
    run [] s = done s
    run (a ∷ actions) s = step a s >>= λ s'. run actions s'

  -- The process as `main` starts it.
  unfoldable pub start : (ℕ → Client B) → System B F
  start objects = record {
    hub = new_hub objects;
    register = [];
    unregister = [];
    broadcasts = [];
    reading = λ c. false;
    next = 0;
    running = true;
  }
