-- ===== src/Hub/System/Leaks.antt =====
-- The order in which `Run` of internal/hub/hub.go takes a client from its two channels.
use wabus_backend.Prelude.{
  ℕ, ◌<◌, ◌≡◌, ◌≢◌, ◌∙◌, ap, refl, sym, subst, inl, inr, Bool, true, false, Option, List, [], ◌∷◌,
  arith, string_key, nat_key, is_some, if◌then◌else◌, All, In, Option-cases,
}
use wabus_backend.Prelude.Outcome.{Outcome, done, done-injective, >>=-eq-done}
use wabus_backend.Domain.{VehicleDelta}
use wabus_backend.GoMap.{lookup}
use wabus_backend.GoMap.Laws.{lookup-insert, lookup-delete}
use wabus_backend.Hub.{
  Hub, DeltaMessage, subscribe, unsubscribe, remove_client, close_send, register_client,
  fanout_deltas, gather, send_loop, try_send,
}
use wabus_backend.Hub.System.{
  System, Action, connects, subscribes, unsubscribes, replies, disconnects, writes,
  broadcasts_deltas, takes_register, takes_unregister, takes_broadcast, shuts_down, run_broadcast,
  run_register, run_unregister, step, run, connect, disconnect, reply, write_one, offer,
}
use wabus_backend.Hub.System.Invariant.{offer-In}

module _ {B : Type 0} where
  remove_client-other :
      (c d : ℕ) (h h' : Hub B)
      → d ≢ c
      → remove_client d h ≡ done h'
      → lookup c h'.clients ≡ lookup c h.clients
  unfolding remove_client close_send
  remove_client-other c d h h' n e = ground (arith, lookup-delete c d h.clients)

module _ {B F : Type 0} where
  -- The client is registered, has no reader, and waits in no channel to be taken out.
  pub record IsLeaked (c : ℕ) (s : System B F) : Type 0 where
    pub registered : is_some (lookup c s.hub.clients) ≡ true
    pub unread : s.reading c ≡ false
    pub not_leaving : In c s.unregister → ⊥
    pub old : c < s.next

  connect-IsLeaked : (c : ℕ) (s : System B F) → IsLeaked c s → IsLeaked c (connect s)
  unfolding connect
  connect-IsLeaked c s l = elim (Option-cases (offer s.next s.register)) [
    | inl full ↦ rw (full, connect) l
    | inr (queue, e) ↦
        rw (e, connect)
          (record {
            registered = l.registered;
            unread = ground (arith, l.unread, l.old);
            not_leaving = l.not_leaving;
            old = omega (arith, l.old);
          })
  ]

  disconnect-IsLeaked :
      (c d : ℕ) (s : System B F) → s.reading d ≡ true → IsLeaked c s → IsLeaked c (disconnect d s)
  unfolding disconnect
  disconnect-IsLeaked c d s r l = elim (Option-cases (offer d s.unregister)) [
    | inl full ↦ rw (full, disconnect) l
    | inr (queue, e) ↦
        rw (e, disconnect)
          (record {
            registered = l.registered;
            unread = ground (arith, l.unread);
            not_leaving = λ h. elim (offer-In d c s.unregister queue e h) [
              | inl old ↦ l.not_leaving old
              | inr new ↦ ground (arith, l.unread)
            ];
            old = l.old;
          })
  ]

  run_register-IsLeaked :
      (c : ℕ) (queue : List ℕ) (s : System B F) → IsLeaked c s → IsLeaked c (run_register queue s)
  unfolding run_register register_client
  run_register-IsLeaked c [] s l = l
  run_register-IsLeaked c (d ∷ queue) s l = record {
    registered = ground (arith, l.registered, lookup-insert c d tt s.hub.clients);
    unread = l.unread;
    not_leaving = l.not_leaving;
    old = l.old;
  }

  run_unregister-IsLeaked :
      (c : ℕ) (queue : List ℕ) (s s' : System B F)
      → s.unregister ≡ queue
      → run_unregister queue s ≡ done s'
      → IsLeaked c s
      → IsLeaked c s'
  unfolding run_unregister
  run_unregister-IsLeaked c [] s s' e r l = subst (IsLeaked c) (done-injective r) l
  run_unregister-IsLeaked c (d ∷ queue) s s' e r l =
      let (h, removed, rest) =
        >>=-eq-done (remove_client d s.hub) (λ h. done (record s { hub = h; unregister = queue }))
          r in
      let other : d ≢ c = λ p. l.not_leaving (subst (In c) (sym e) (inl (sym p))) in
      subst (IsLeaked c) (done-injective rest) (record {
        registered = ap is_some (remove_client-other c d s.hub h other removed) ∙ l.registered;
        unread = l.unread;
        not_leaving = λ i. l.not_leaving (subst (In c) (sym e) (inr i));
        old = l.old;
      })

  -- A step that changes the hub, but not the registered clients.
  rehub-IsLeaked :
      (c : ℕ) (h : Hub B) (s : System B F)
      → h.clients ≡ s.hub.clients
      → IsLeaked c s
      → IsLeaked c (record s { hub = h })
  rehub-IsLeaked c h s e l = record {
    registered = rw e l.registered;
    unread = l.unread;
    not_leaving = l.not_leaving;
    old = l.old;
  }

  reply-IsLeaked :
      (c d : ℕ) (bytes : B) (s s' : System B F)
      → reply d bytes s ≡ done s'
      → IsLeaked c s
      → IsLeaked c s'
  unfolding reply
  reply-IsLeaked c d bytes s s' r l =
      let (client, sent, rest) = >>=-eq-done (try_send bytes (s.hub.objects d)) _ r in
      subst (IsLeaked c) (done-injective rest) (rehub-IsLeaked c _ s refl l)

  write_one-IsLeaked :
      (c d : ℕ) (queue : List B) (s : System B F)
      → (s.hub.objects d).send ≡ queue
      → IsLeaked c s
      → IsLeaked c (write_one d s)
  unfolding write_one
  write_one-IsLeaked c d [] s e l = rw (e, write_one) l
  write_one-IsLeaked c d (bytes ∷ rest) s e l = rw (e, write_one) (rehub-IsLeaked c _ s refl l)

  module _ (marshal : DeltaMessage F → Option B) where
    run_broadcast-IsLeaked :
        (c : ℕ) (queue : List (List (VehicleDelta F))) (s s' : System B F)
        → run_broadcast marshal queue s ≡ done s'
        → IsLeaked c s
        → IsLeaked c s'
    unfolding run_broadcast fanout_deltas
    run_broadcast-IsLeaked c [] s s' r l = subst (IsLeaked c) (done-injective r) l
    run_broadcast-IsLeaked c (ds ∷ queue) s s' r l =
        let (h, fanned, rest) = >>=-eq-done (fanout_deltas marshal ds s.hub) _ r in
        let (objects, sent, made) =
          >>=-eq-done (send_loop marshal (gather s.hub.tile_clients ds []) s.hub.objects) _
            fanned in
        subst (IsLeaked c) (done-injective rest) (
          subst (λ x. IsLeaked c (record s { hub = x; broadcasts = queue })) (done-injective made)
            (record {
              registered = l.registered;
              unread = l.unread;
              not_leaving = l.not_leaving;
              old = l.old;
            }))

    choice-IsLeaked :
        (c : ℕ) (b : Bool) (o : Outcome (System B F)) (s s' : System B F)
        → (if b then o else done s) ≡ done s'
        → (b ≡ true → o ≡ done s' → IsLeaked c s')
        → IsLeaked c s
        → IsLeaked c s'
    choice-IsLeaked c true o s s' e h l = h refl e
    choice-IsLeaked c false o s s' e h l = subst (IsLeaked c) (done-injective e) l

    pick-IsLeaked :
        (c : ℕ) (b : Bool) (t s s' : System B F)
        → done (if b then t else s) ≡ done s'
        → (b ≡ true → IsLeaked c t)
        → IsLeaked c s
        → IsLeaked c s'
    pick-IsLeaked c true t s s' e h l = subst (IsLeaked c) (done-injective e) (h refl)
    pick-IsLeaked c false t s s' e h l = subst (IsLeaked c) (done-injective e) l

    step-IsLeaked :
        (c : ℕ) (a : Action B F) (s s' : System B F)
        → a ≢ shuts_down
        → step marshal a s ≡ done s'
        → IsLeaked c s
        → IsLeaked c s'
    unfolding step subscribe unsubscribe
    step-IsLeaked c connects s s' n e l =
        subst (IsLeaked c) (done-injective e) (connect-IsLeaked c s l)
    step-IsLeaked c (subscribes d ids) s s' n e l =
        pick-IsLeaked c (s.reading d) _ s s' e (λ r. rehub-IsLeaked c _ s refl l) l
    step-IsLeaked c (unsubscribes d ids) s s' n e l =
        pick-IsLeaked c (s.reading d) _ s s' e (λ r. rehub-IsLeaked c _ s refl l) l
    step-IsLeaked c (replies d bytes) s s' n e l =
        choice-IsLeaked c (s.reading d) _ s s' e (λ r x. reply-IsLeaked c d bytes s s' x l) l
    step-IsLeaked c (disconnects d) s s' n e l =
        pick-IsLeaked c (s.reading d) _ s s' e (λ r. disconnect-IsLeaked c d s r l) l
    step-IsLeaked c (writes d) s s' n e l =
        subst (IsLeaked c) (done-injective e) (write_one-IsLeaked c d _ s refl l)
    step-IsLeaked c (broadcasts_deltas ds) s s' n e l =
        subst (IsLeaked c) (done-injective e) (record {
          registered = l.registered;
          unread = l.unread;
          not_leaving = l.not_leaving;
          old = l.old;
        })
    step-IsLeaked c takes_register s s' n e l =
        pick-IsLeaked c s.running _ s s' e (λ r. run_register-IsLeaked c s.register s l) l
    step-IsLeaked c takes_unregister s s' n e l =
        choice-IsLeaked c s.running _ s s' e
          (λ r x. run_unregister-IsLeaked c s.unregister s s' refl x l) l
    step-IsLeaked c takes_broadcast s s' n e l =
        choice-IsLeaked c s.running _ s s' e (λ r x. run_broadcast-IsLeaked c s.broadcasts s s' x l)
          l
    step-IsLeaked c shuts_down s s' n e l = absurd (n refl)

    -- A run without a shutdown that does not panic leaves a client that is registered without a
    -- reader, and waits in no channel to be taken out, in that state.
    pub run-IsLeaked :
        (c : ℕ) (actions : List (Action B F)) (s s' : System B F)
        → All (λ a. a ≢ shuts_down) actions
        → run marshal actions s ≡ done s'
        → IsLeaked c s
        → IsLeaked c s'
    unfolding run
    run-IsLeaked c [] s s' all e l = subst (IsLeaked c) (done-injective e) l
    run-IsLeaked c (a ∷ actions) s s' all e l =
        let (t, first, rest) = >>=-eq-done (step marshal a s) (λ x. run marshal actions x) e in
        run-IsLeaked c actions t s' all.1 rest (step-IsLeaked c a s t all.0 first l)

    -- While the hub runs: if the same client is first in both channels, and waits no second time
    -- to be taken out, is not registered, has an address in use, and its reader has ended, then
    -- `Run`, when it takes the unregistration first, ends up with the client registered, without a
    -- reader and in no channel to be taken out.
    pub unregister_first :
        (c : ℕ) (waiting leaving : List ℕ) (s : System B F)
        → s.running ≡ true
        → s.register ≡ c ∷ waiting
        → s.unregister ≡ c ∷ leaving
        → (In c leaving → ⊥)
        → is_some (lookup c s.hub.clients) ≡ false
        → s.reading c ≡ false
        → c < s.next
        → (s' : System B F) × (run marshal (takes_unregister ∷ takes_register ∷ []) s ≡ done s')
          × IsLeaked c s'
    unfolding run step run_unregister run_register remove_client register_client
    unregister_first c waiting leaving s r e u n missing d o = (
      run_register (c ∷ waiting) (record s { unregister = leaving }),
      rw (r, u, missing) (rw e refl),
      record {
        registered = ground (arith, lookup-insert c c tt s.hub.clients);
        unread = d;
        not_leaving = n;
        old = o;
      },
    )
