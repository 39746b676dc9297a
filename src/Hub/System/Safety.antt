-- ===== src/Hub/System/Safety.antt =====
-- The running hub does not panic, in any interleaving before the shutdown.
use wabus_backend.Prelude.{
  ℕ, ◌≤◌, ◌≡◌, ◌≢◌, ◌∙◌, refl, sym, subst, inl, inr, true, false, List, [], ◌∷◌, ◌++◌, arith,
  String, string_key, nat_key, is_some, Option-cases, Bool-cases, In, Once, All-In, ltb, length,
}
use wabus_backend.Prelude.Outcome.{Outcome, done}
use wabus_backend.GoMap.{lookup}
use wabus_backend.GoMap.Laws.{lookup-insert, lookup-delete}
use wabus_backend.Hub.{Hub, Client, put, try_send, subscribe, unsubscribe, register_client}
use wabus_backend.Hub.Invariant.{Inv, subscribe-Inv, unsubscribe-Inv, register_client-Inv}
use wabus_backend.Hub.Removal.{removed, removed-Inv, remove_client-missing, remove_client-present}
use wabus_backend.Hub.System.{
  System, disconnect, offer, run_register, run_unregister, reply, write_one,
}
use wabus_backend.Hub.System.Invariant.{IsSafe, offer-In, resent-Inv}

module _ {B : Type 0} where
  try_send-frame :
      (bytes : B) (client : Client B)
      → client.closed ≡ false
      → (client' : Client B) × (try_send bytes client ≡ done client')
        × (client'.closed ≡ client.closed)
        × (client'.tiles ≡ client.tiles)
  unfolding try_send
  try_send-frame bytes client o = elim (Bool-cases (ltb (length client.send) client.capacity)) [
    | inl room ↦ (record client { send = client.send ++ bytes ∷ [] }, ground arith, refl, refl)
    | inr full ↦ (client, ground arith, refl, refl)
  ]

module _ {B F : Type 0} where
  -- A step that keeps the registered clients, closes none and gives no tile to an unused address.
  pub rehub-IsSafe :
      (s : System B F) (h : Hub B)
      → h.clients ≡ s.hub.clients
      → ((c : ℕ) → (h.objects c).closed ≡ (s.hub.objects c).closed)
      → ((c : ℕ) → s.next ≤ c → (h.objects c).tiles ≡ (s.hub.objects c).tiles)
      → Inv h
      → IsSafe s
      → IsSafe (record s { hub = h })
  rehub-IsSafe s h e o t inv i = record {
    hub_inv = inv;
    open_readers = λ c r. o c ∙ i.open_readers c r;
    old_readers = i.old_readers;
    stopped = i.stopped;
    waiting = λ c w. o c ∙ i.waiting c w;
    unregistered = λ c w. rw e (i.unregistered c w);
    old_waiting = i.old_waiting;
    old_clients = λ c r. i.old_clients c (ground arith);
    once = i.once;
    unused = λ c n. t c n ∙ i.unused c n;
    old_stopped = i.old_stopped;
  }

  pub subscribe-IsSafe :
      (c : ℕ) (ids : List String) (s : System B F)
      → s.reading c ≡ true
      → IsSafe s
      → IsSafe (record s { hub = subscribe c ids s.hub })
  unfolding subscribe
  subscribe-IsSafe c ids s r i =
      rehub-IsSafe s (subscribe c ids s.hub) refl (λ j. ground arith)
        (λ j n. ground (arith, i.old_readers c r))
        (subscribe-Inv c ids s.hub (i.open_readers c r) i.hub_inv) i

  pub unsubscribe-IsSafe :
      (c : ℕ) (ids : List String) (s : System B F)
      → s.reading c ≡ true
      → IsSafe s
      → IsSafe (record s { hub = unsubscribe c ids s.hub })
  unfolding unsubscribe
  unsubscribe-IsSafe c ids s r i =
      rehub-IsSafe s (unsubscribe c ids s.hub) refl (λ j. ground arith)
        (λ j n. ground (arith, i.old_readers c r))
        (unsubscribe-Inv c ids s.hub (i.open_readers c r) i.hub_inv) i

  pub disconnect-IsSafe :
      (c : ℕ) (s : System B F) → s.reading c ≡ true → IsSafe s → IsSafe (disconnect c s)
  unfolding disconnect
  disconnect-IsSafe c s r i = elim (Option-cases (offer c s.unregister)) [
    | inl full ↦ rw (full, disconnect) i
    | inr (queue, e) ↦
        rw (e, disconnect)
          (record {
            hub_inv = i.hub_inv;
            open_readers = λ j h. ground (arith, i.open_readers j);
            old_readers = λ j h. ground (arith, i.old_readers j);
            stopped = λ j h. elim (offer-In c j s.unregister queue e h) [
              | inl old ↦ ground (arith, i.stopped j old)
              | inr new ↦ ground arith
            ];
            waiting = i.waiting;
            unregistered = i.unregistered;
            old_waiting = i.old_waiting;
            old_clients = i.old_clients;
            once = i.once;
            unused = i.unused;
            old_stopped = λ j h. elim (offer-In c j s.unregister queue e h) [
              | inl old ↦ i.old_stopped j old
              | inr new ↦ ground (arith, i.old_readers c r)
            ];
          })
  ]

  pub run_register-IsSafe :
      (queue : List ℕ) (s : System B F)
      → s.register ≡ queue
      → IsSafe s
      → IsSafe (run_register queue s)
  unfolding run_register register_client
  run_register-IsSafe [] s e i = i
  run_register-IsSafe (c ∷ queue) s e i =
      let in_queue : (j : ℕ) → In j queue → In j s.register = λ j h. subst (In j) (sym e) (inr h) in
      let head : In c s.register = subst (In c) (sym e) (inl refl) in
      record {
        hub_inv = register_client-Inv c s.hub (i.waiting c head) i.hub_inv;
        open_readers = i.open_readers;
        old_readers = i.old_readers;
        stopped = i.stopped;
        waiting = λ j h. i.waiting j (in_queue j h);
        unregistered = λ j h. ground (
          arith,
          i.unregistered j (in_queue j h),
          lookup-insert j c tt s.hub.clients,
          All-In (λ z. z ≢ c) j queue (subst Once e i.once).0 h,
        );
        old_waiting = λ j h. i.old_waiting j (in_queue j h);
        old_clients = λ j r.
            ground
              (arith, i.old_clients j, i.old_waiting c head, lookup-insert j c tt s.hub.clients);
        once = (subst Once e i.once).1;
        unused = i.unused;
        old_stopped = i.old_stopped;
      }

  -- The step goes through, without a panic, and the invariant holds after it.
  abbrev pub Proceeds : Outcome (System B F) → Type 0
  Proceeds o = (s : System B F) × (o ≡ done s) × IsSafe s

  pub resend-IsSafe :
      (c : ℕ) (client : Client B) (s : System B F)
      → client.closed ≡ (s.hub.objects c).closed
      → client.tiles ≡ (s.hub.objects c).tiles
      → IsSafe s
      → IsSafe (record s { hub = record (s.hub) { objects = put c client s.hub.objects } })
  resend-IsSafe c client s o t i =
      let closed : (j : ℕ) → (put c client s.hub.objects j).closed ≡ (s.hub.objects j).closed =
        λ j. ground arith in
      let tiles : (j : ℕ) → (put c client s.hub.objects j).tiles ≡ (s.hub.objects j).tiles =
        λ j. ground arith in
      rehub-IsSafe s (record (s.hub) { objects = put c client s.hub.objects }) refl closed
        (λ j n. tiles j) (resent-Inv s.hub _ refl refl closed tiles i.hub_inv) i

  pub reply-Proceeds :
      (c : ℕ) (bytes : B) (s : System B F)
      → s.reading c ≡ true
      → IsSafe s
      → Proceeds (reply c bytes s)
  unfolding reply
  reply-Proceeds c bytes s r i =
      let (client, e, o, t) = try_send-frame bytes (s.hub.objects c) (i.open_readers c r) in
      (
        record s { hub = record (s.hub) { objects = put c client s.hub.objects } },
        rw e,
        resend-IsSafe c client s o t i,
      )

  pub write_one-IsSafe :
      (c : ℕ) (queue : List B) (s : System B F)
      → (s.hub.objects c).send ≡ queue
      → IsSafe s
      → IsSafe (write_one c s)
  unfolding write_one
  write_one-IsSafe c [] s e i = rw (e, write_one) i
  write_one-IsSafe c (bytes ∷ rest) s e i =
      rw (e, write_one) (resend-IsSafe c (record (s.hub.objects c) { send = rest }) s refl refl i)

  pub run_unregister-Proceeds :
      (queue : List ℕ) (s : System B F)
      → s.unregister ≡ queue
      → IsSafe s
      → Proceeds (run_unregister queue s)
  unfolding run_unregister removed
  run_unregister-Proceeds [] s e i = (s, refl, i)
  run_unregister-Proceeds (c ∷ queue) s e i = elim (Bool-cases (is_some (lookup c s.hub.clients))) [
    | inr missing ↦ (
      record s { unregister = queue },
      rw (remove_client-missing c s.hub missing),
      record {
        hub_inv = i.hub_inv;
        open_readers = i.open_readers;
        old_readers = i.old_readers;
        stopped = λ j h. i.stopped j (in_queue j h);
        waiting = i.waiting;
        unregistered = i.unregistered;
        old_waiting = i.old_waiting;
        old_clients = i.old_clients;
        once = i.once;
        unused = i.unused;
        old_stopped = λ j h. i.old_stopped j (in_queue j h);
      },
    )
    | inl present ↦
        let o = i.hub_inv.registered c present in
        (
          record s { hub = removed c s.hub; unregister = queue },
          rw (remove_client-present c s.hub present o),
          record {
            hub_inv = removed-Inv c s.hub o i.hub_inv;
            open_readers = λ j r. ground (arith, i.open_readers j r, i.stopped c head);
            old_readers = i.old_readers;
            stopped = λ j h. i.stopped j (in_queue j h);
            waiting = λ j h. ground (arith, i.waiting j h, i.unregistered j h);
            unregistered =
                λ j h. ground (arith, i.unregistered j h, lookup-delete j c s.hub.clients);
            old_waiting = i.old_waiting;
            old_clients = λ j r. ground (arith, i.old_clients j, lookup-delete j c s.hub.clients);
            once = i.once;
            unused = λ j n. ground (arith, i.unused j n);
            old_stopped = λ j h. i.old_stopped j (in_queue j h);
          },
        )
  ]
    where
      in_queue : (j : ℕ) → In j queue → In j s.unregister
      in_queue j h = subst (In j) (sym e) (inr h)

      head : In c s.unregister
      head = subst (In c) (sym e) (inl refl)
