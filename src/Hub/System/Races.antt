-- ===== src/Hub/System/Races.antt =====
-- What any interleaving of the hub's channels and loops comes to (internal/hub/hub.go,
-- internal/handler/websocket.go).
use wabus_backend.Prelude.{
  ℕ, ◌≡◌, ◌≢◌, ◌∙◌, ap, refl, inl, inr, Bool, true, false, Option, List, [], ◌∷◌, arith, string_key,
  nat_key, if◌then◌else◌, Option-cases, All,
}
use wabus_backend.Prelude.Outcome.{Outcome, done}
use wabus_backend.Domain.{VehicleDelta}
use wabus_backend.GoMap.{lookup}
use wabus_backend.Hub.{Client, DeltaMessage, new_hub}
use wabus_backend.Hub.Gather.{deltas_for}
use wabus_backend.Hub.Fanout.{fanout_deltas_lem, receive-frame}
use wabus_backend.Hub.Invariant.{new_hub-Inv}
use wabus_backend.Hub.System.{
  System, Action, connects, subscribes, unsubscribes, replies, disconnects, writes,
  broadcasts_deltas, takes_register, takes_unregister, takes_broadcast, shuts_down, run_broadcast,
  step, run, start, connect, offer,
}
use wabus_backend.Hub.System.Invariant.{IsSafe, resent-Inv, connected, connected-IsSafe}
use wabus_backend.Hub.System.Safety.{
  Proceeds, rehub-IsSafe, subscribe-IsSafe, unsubscribe-IsSafe, disconnect-IsSafe,
  run_register-IsSafe, reply-Proceeds, write_one-IsSafe, run_unregister-Proceeds,
}

module _ {B F : Type 0} where
  connect-IsSafe : (s : System B F) → IsSafe s → IsSafe (connect s)
  unfolding connect
  connect-IsSafe s i = elim (Option-cases (offer s.next s.register)) [
    | inl full ↦ rw (full, connect) i
    | inr (queue, e) ↦ rw (e, connect) (unfold connected in connected-IsSafe s queue e i)
  ]

  -- An action that happens only under a condition.
  Proceeds-if :
      (b : Bool) (o : Outcome (System B F)) (s : System B F)
      → (b ≡ true → Proceeds o)
      → IsSafe s
      → Proceeds (if b then o else done s)
  Proceeds-if true o s h i = h refl
  Proceeds-if false o s h i = (s, refl, i)

  Proceeds-choice :
      (b : Bool) (s' s : System B F)
      → (b ≡ true → IsSafe s')
      → IsSafe s
      → Proceeds (done (if b then s' else s))
  Proceeds-choice true s' s h i = (s', refl, h refl)
  Proceeds-choice false s' s h i = (s, refl, i)

  requeue :
      (queue : List (List (VehicleDelta F))) (s : System B F)
      → IsSafe s
      → IsSafe (record s { broadcasts = queue })
  requeue queue s i = record {
    hub_inv = i.hub_inv;
    open_readers = i.open_readers;
    old_readers = i.old_readers;
    stopped = i.stopped;
    waiting = i.waiting;
    unregistered = i.unregistered;
    old_waiting = i.old_waiting;
    old_clients = i.old_clients;
    once = i.once;
    unused = i.unused;
    old_stopped = i.old_stopped;
  }

  module _ (marshal : DeltaMessage F → Option B) where
    run_broadcast-Proceeds :
        (queue : List (List (VehicleDelta F))) (s : System B F)
        → IsSafe s
        → Proceeds (run_broadcast marshal queue s)
    unfolding run_broadcast
    run_broadcast-Proceeds [] s i = (s, refl, i)
    run_broadcast-Proceeds (ds ∷ queue) s i =
        let (h, e, clients, index, sent) =
          fanout_deltas_lem marshal ds s.hub i.hub_inv.tidy
            (λ c t x. ground (arith, i.hub_inv.linked c t)) in
        let closed : (c : ℕ) → (h.objects c).closed ≡ (s.hub.objects c).closed = λ c.
          ap (λ x. x.closed) (sent c)
          ∙ (receive-frame marshal (deltas_for c s.hub.tile_clients ds) (s.hub.objects c)).0 in
        let tiles : (c : ℕ) → (h.objects c).tiles ≡ (s.hub.objects c).tiles = λ c.
          ap (λ x. x.tiles) (sent c)
          ∙ (receive-frame marshal (deltas_for c s.hub.tile_clients ds) (s.hub.objects c)).1 in
        (
          record s { hub = h; broadcasts = queue },
          rw e,
          requeue queue (record s { hub = h })
              (rehub-IsSafe s h clients closed (λ c n. tiles c)
                (resent-Inv s.hub h clients index closed tiles i.hub_inv) i),
        )

    pub step-Proceeds :
        (a : Action B F) (s : System B F) → a ≢ shuts_down → IsSafe s → Proceeds (step marshal a s)
    unfolding step
    step-Proceeds connects s n i = (connect s, refl, connect-IsSafe s i)
    step-Proceeds (subscribes c ids) s n i =
        Proceeds-choice (s.reading c) _ s (λ r. subscribe-IsSafe c ids s r i) i
    step-Proceeds (unsubscribes c ids) s n i =
        Proceeds-choice (s.reading c) _ s (λ r. unsubscribe-IsSafe c ids s r i) i
    step-Proceeds (replies c bytes) s n i =
        Proceeds-if (s.reading c) _ s (λ r. reply-Proceeds c bytes s r i) i
    step-Proceeds (disconnects c) s n i =
        Proceeds-choice (s.reading c) _ s (λ r. disconnect-IsSafe c s r i) i
    step-Proceeds (writes c) s n i = (_, refl, write_one-IsSafe c _ s refl i)
    step-Proceeds (broadcasts_deltas ds) s n i = (_, refl, requeue _ s i)
    step-Proceeds takes_register s n i =
        Proceeds-choice s.running _ s (λ r. run_register-IsSafe s.register s refl i) i
    step-Proceeds takes_unregister s n i =
        Proceeds-if s.running _ s (λ r. run_unregister-Proceeds s.unregister s refl i) i
    step-Proceeds takes_broadcast s n i =
        Proceeds-if s.running _ s (λ r. run_broadcast-Proceeds s.broadcasts s i) i
    step-Proceeds shuts_down s n i = absurd (n refl)

    pub run-Proceeds :
        (actions : List (Action B F)) (s : System B F)
        → All (λ a. a ≢ shuts_down) actions
        → IsSafe s
        → Proceeds (run marshal actions s)
    unfolding run
    run-Proceeds [] s a i = (s, refl, i)
    run-Proceeds (a ∷ actions) s all i =
        let (s', e, i') = step-Proceeds a s all.0 i in rw e (run-Proceeds actions s' all.1 i')

    start-IsSafe :
        (objects : ℕ → Client B)
        → ((c : ℕ) → (objects c).tiles ≡ [])
        → IsSafe {F = F} (start objects)
    unfolding start new_hub lookup
    start-IsSafe objects h = record {
      hub_inv = new_hub-Inv objects h;
      open_readers = λ c r. cc;
      old_readers = λ c r. cc;
      stopped = λ c i. refl;
      waiting = λ c i. absurd i;
      unregistered = λ c i. absurd i;
      old_waiting = λ c i. absurd i;
      old_clients = λ c r. ground arith;
      once = tt;
      unused = λ c n. h c;
      old_stopped = λ c i. absurd i;
    }

    -- If no client has tiles before it connects: until the shutdown no interleaving panics, of
    -- connections, subscriptions, replies, broadcasts and the hub's own loop; and the invariant
    -- holds at its end: in particular the index of tiles agrees with the clients' own sets, and a
    -- client whose reader runs is not closed.
    pub run-IsSafe :
        (objects : ℕ → Client B) (actions : List (Action B F))
        → ((c : ℕ) → (objects c).tiles ≡ [])
        → All (λ a. a ≢ shuts_down) actions
        → (s : System B F) × (run marshal actions (start objects) ≡ done s) × IsSafe s
    run-IsSafe objects actions h all =
        run-Proceeds actions (start objects) all (start-IsSafe objects h)
