-- ===== src/Hub/Fanout.antt =====
-- What `fanoutDeltas` of internal/hub/hub.go sends to each client.
use wabus_backend.Prelude.{
  ℕ, ◌≡◌, ◌∙◌, ap, refl, subst, inl, inr, true, false, Option, none, some, List, [], ◌∷◌, ◌++◌,
  arith, String, string_key, nat_key, is_some, if◌then◌else◌, Option-cases, length, ltb,
}
use wabus_backend.Prelude.Outcome.{done}
use wabus_backend.Domain.{VehicleDelta}
use wabus_backend.GoMap.{GoMap, lookup, Distinct}
use wabus_backend.GoMap.Buckets.{IsTidy}
use wabus_backend.Hub.{
  Hub, Client, DeltaMessage, put, try_send, build_delta_message, gather, send_loop, fanout_deltas,
}
use wabus_backend.Hub.Gather.{subscribed, deltas_for, append_to, gather_lem, gather-Distinct}

module _ {B F : Type 0} (marshal : DeltaMessage F → Option B) where
  -- A message that could be encoded is queued if there is room, and dropped otherwise.
  unfoldable pub deliver : Option B → Client B → Client B
  deliver none client = client
  deliver (some bytes) client =
      if ltb (length client.send) client.capacity
      then record client { send = client.send ++ bytes ∷ [] }
      else client

  -- One message with all the changes for the client; none, if there are no changes.
  unfoldable pub receive : List (VehicleDelta F) → Client B → Client B
  receive [] client = client
  receive (d ∷ ds) client = deliver (marshal (build_delta_message (d ∷ ds))) client

  received : Option (List (VehicleDelta F)) → Client B → Client B
  received none client = client
  received (some ds) client = deliver (marshal (build_delta_message ds)) client

  -- No client with an entry is closed.
  abbrev AreOpen : GoMap ℕ (List (VehicleDelta F)) → (ℕ → Client B) → Type 0
  AreOpen m objects = (c : ℕ) → is_some (lookup c m) ≡ true → (objects c).closed ≡ false

  try_send-deliver :
      (bytes : B) (client : Client B)
      → client.closed ≡ false
      → try_send bytes client ≡ done (deliver (some bytes) client)
  unfolding try_send deliver
  try_send-deliver bytes client h = ground arith

  deliver-closed : (o : Option B) (client : Client B) → (deliver o client).closed ≡ client.closed
  unfolding deliver
  deliver-closed none client = refl
  deliver-closed (some bytes) client = ground arith

  deliver-frame :
      (o : Option B) (client : Client B)
      → ((deliver o client).closed ≡ client.closed) × ((deliver o client).tiles ≡ client.tiles)
  unfolding deliver
  deliver-frame none client = (refl, refl)
  deliver-frame (some bytes) client = ground arith

  deliver-none : (o : Option B) (client : Client B) → o ≡ none → deliver o client ≡ client
  unfolding deliver
  deliver-none o client e = ground arith

  AreOpen-rest :
      (k : ℕ) (ds : List (VehicleDelta F)) (m : GoMap ℕ (List (VehicleDelta F)))
      (objects : ℕ → Client B) (o : Option B)
      → AreOpen ((k, ds) ∷ m) objects
      → AreOpen m (put k (deliver o (objects k)) objects)
  unfolding lookup
  AreOpen-rest k ds m objects o h c e = ground (arith, h c, h k, deliver-closed o (objects k))

  open_head :
      (k : ℕ) (ds : List (VehicleDelta F)) (m : GoMap ℕ (List (VehicleDelta F)))
      (objects : ℕ → Client B)
      → AreOpen ((k, ds) ∷ m) objects
      → (objects k).closed ≡ false
  unfolding lookup
  open_head k ds m objects h = ground (arith, h k)

  AreOpen-tail :
      (k : ℕ) (ds : List (VehicleDelta F)) (m : GoMap ℕ (List (VehicleDelta F)))
      (objects : ℕ → Client B)
      → AreOpen ((k, ds) ∷ m) objects
      → AreOpen m objects
  unfolding lookup
  AreOpen-tail k ds m objects h c e = ground (arith, h c)

  send_loop_lem :
      (m : GoMap ℕ (List (VehicleDelta F))) (objects : ℕ → Client B)
      → Distinct m
      → AreOpen m objects
      → (after : ℕ → Client B) × (send_loop marshal m objects ≡ done after)
        × ((c : ℕ) → after c ≡ received (lookup c m) (objects c))
  unfolding send_loop received lookup
  send_loop_lem [] objects d h = (objects, refl, λ c. refl)
  send_loop_lem ((k, ds) ∷ m) objects d h = elim (Option-cases (marshal (build_delta_message ds))) [
    | inl failed ↦
        let (after, e, a) = send_loop_lem m objects d.1 (AreOpen-tail k ds m objects h) in
        (
          after,
          rw (failed, send_loop) e,
          λ c.
              ground (
                arith,
                a c,
                d.0,
                deliver-none (marshal (build_delta_message ds)) (objects c) failed,
              ),
        )
    | inr (bytes, encoded) ↦
        let client = deliver (some bytes) (objects k) in
        let (after, e, a) =
          send_loop_lem m (put k client objects) d.1 (AreOpen-rest k ds m objects (some bytes) h) in
        let open_client : (objects k).closed ≡ false = open_head k ds m objects h in
        (
          after,
          rw (encoded, send_loop, try_send-deliver bytes (objects k) open_client) e,
          λ c. ground (arith, a c, d.0, encoded),
        )
  ]

  AreOpen-deltas :
      (c : ℕ) (ds : List (VehicleDelta F)) (h : Hub B)
      → ((t : String) → subscribed c t h.tile_clients ≡ true → (h.objects c).closed ≡ false)
      → is_some (append_to none (deltas_for c h.tile_clients ds)) ≡ true
      → (h.objects c).closed ≡ false
  unfolding deltas_for
  AreOpen-deltas c [] h o e = absurd (ground arith)
  AreOpen-deltas c (d ∷ ds) h o e = ground (arith, o d.delta_tile, AreOpen-deltas c ds h o)

  received-receive :
      (ds : List (VehicleDelta F)) (client : Client B)
      → received (append_to none ds) client ≡ receive ds client
  unfolding received receive
  received-receive [] client = refl
  received-receive (d ∷ ds) client = refl

  -- Where the index of tiles is tidy and no subscribed client is closed, `fanoutDeltas` does not
  -- panic, and changes nothing but the clients' channels: each client is sent one message, of the
  -- changes of the batch in the tiles that it is subscribed to, in their order; none if there are
  -- none, if the message cannot be encoded or if its channel is full.
  pub fanout_deltas_lem :
      (ds : List (VehicleDelta F)) (h : Hub B)
      → IsTidy h.tile_clients
      → ((c : ℕ) (t : String) → subscribed c t h.tile_clients ≡ true → (h.objects c).closed ≡ false)
      → (h' : Hub B) × (fanout_deltas marshal ds h ≡ done h')
        × (h'.clients ≡ h.clients)
        × (h'.tile_clients ≡ h.tile_clients)
        × ((c : ℕ) → h'.objects c ≡ receive (deltas_for c h.tile_clients ds) (h.objects c))
  unfolding fanout_deltas
  fanout_deltas_lem ds h i o =
      let m = gather h.tile_clients ds [] in
      let (after, e, a) =
        send_loop_lem m h.objects (gather-Distinct h.tile_clients ds [] tt) (λ c x.
          AreOpen-deltas c ds h (o c)
            (subst (λ y. is_some y ≡ true) (gather_lem c h.tile_clients ds i) x)) in
      (
        record h { objects = after },
        rw e,
        refl,
        refl,
        λ c.
            a c
            ∙ ap (λ y. received y (h.objects c)) (gather_lem c h.tile_clients ds i)
            ∙ received-receive (deltas_for c h.tile_clients ds) (h.objects c),
      )

  -- A delivery leaves a client's tiles and its being closed alone.
  pub receive-frame :
      (ds : List (VehicleDelta F)) (client : Client B)
      → ((receive ds client).closed ≡ client.closed) × ((receive ds client).tiles ≡ client.tiles)
  unfolding receive
  receive-frame [] client = (refl, refl)
  receive-frame (d ∷ ds) client = deliver-frame (marshal (build_delta_message (d ∷ ds))) client
