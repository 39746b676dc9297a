-- ===== src/Hub/System/Invariant.antt =====
-- The invariant of the running system, and new connections.
use wabus_backend.Prelude.{
  ℕ, suc, ◌≤◌, ◌<◌, ◌≡◌, ◌≢◌, ◌∙◌, ◌⊎◌, sym, subst, inl, inr, true, false, some, List, [], ◌∷◌,
  ◌++◌, arith, string_key, nat_key, is_some, In, In-append, Once, In-All, All-In,
}
use wabus_backend.GoMap.{lookup}
use wabus_backend.Hub.{Hub, put, new_client}
use wabus_backend.Hub.Invariant.{Inv}
use wabus_backend.Hub.System.{System, offer, set_reading}

offered : (c : ℕ) (queue queue' : List ℕ) → offer c queue ≡ some queue' → queue ++ c ∷ [] ≡ queue'
unfolding offer
offered c queue queue' e = ground arith

pub offer-In :
    (c j : ℕ) (queue queue' : List ℕ)
    → offer c queue ≡ some queue'
    → In j queue'
    → In j queue ⊎ (j ≡ c)
offer-In c j queue queue' e h =
    elim (In-append j queue (c ∷ []) (subst (In j) (sym (offered c queue queue' e)) h)) [
      | inl old ↦ inl old
      | inr (inl new) ↦ inr new
      | inr (inr x) ↦ absurd x
    ]

Once-snoc : (c : ℕ) (queue : List ℕ) → (In c queue → ⊥) → Once queue → Once (queue ++ c ∷ [])
Once-snoc c [] new o = (tt, tt)
Once-snoc c (x ∷ queue) new o = (
  In-All _ (queue ++ c ∷ []) (λ y h. elim (In-append y queue (c ∷ []) h) [
    | inl old ↦ All-In (λ z. z ≢ x) y queue o.0 old
    | inr (inl e) ↦ λ p. new (inl (sym e ∙ p))
    | inr (inr n) ↦ absurd n
  ]),
  Once-snoc c queue (λ h. new (inr h)) o.1,
)

offer-Once :
    (c : ℕ) (queue queue' : List ℕ)
    → offer c queue ≡ some queue'
    → (In c queue → ⊥)
    → Once queue
    → Once queue'
offer-Once c queue queue' e new o = subst Once (offered c queue queue' e) (Once-snoc c queue new o)

module _ {B : Type 0} where
  unused-Inv :
      (h : Hub B) (n c : ℕ)
      → (h.objects c).tiles ≡ []
      → Inv h
      → Inv (record h { objects = put c (new_client n) h.objects })
  unfolding new_client lookup
  unused-Inv h n c e i = record {
    distinct = i.distinct;
    tidy = i.tidy;
    linked = λ j t. ground (arith, i.linked j t, i.linked c t);
    registered = λ j r. ground (arith, i.registered j);
  }

  -- What only reads and writes the channels of the clients keeps the hub's invariant.
  pub resent-Inv :
      (h h' : Hub B)
      → h'.clients ≡ h.clients
      → h'.tile_clients ≡ h.tile_clients
      → ((c : ℕ) → (h'.objects c).closed ≡ (h.objects c).closed)
      → ((c : ℕ) → (h'.objects c).tiles ≡ (h.objects c).tiles)
      → Inv h
      → Inv h'
  resent-Inv h h' e e' o t i = record {
    distinct = rw e i.distinct;
    tidy = rw e' i.tidy;
    linked = λ c id. rw (e', o c, t c) (i.linked c id);
    registered = λ c r. ground (arith, o c, i.registered c);
  }

module _ {B F : Type 0} where
  -- What holds of the hub, its queues and its readers.
  pub record IsSafe (s : System B F) : Type 0 where
    pub hub_inv : Inv s.hub
    pub open_readers : (c : ℕ) → s.reading c ≡ true → (s.hub.objects c).closed ≡ false
    pub old_readers : (c : ℕ) → s.reading c ≡ true → c < s.next
    pub stopped : (c : ℕ) → In c s.unregister → s.reading c ≡ false
    pub waiting : (c : ℕ) → In c s.register → (s.hub.objects c).closed ≡ false
    pub unregistered : (c : ℕ) → In c s.register → is_some (lookup c s.hub.clients) ≡ false
    pub old_waiting : (c : ℕ) → In c s.register → c < s.next
    pub old_clients : (c : ℕ) → is_some (lookup c s.hub.clients) ≡ true → c < s.next
    pub once : Once s.register
    pub unused : (c : ℕ) → s.next ≤ c → (s.hub.objects c).tiles ≡ []
    pub old_stopped : (c : ℕ) → In c s.unregister → c < s.next

  unfoldable pub connected : (s : System B F) → List ℕ → System B F
  connected s queue = record s {
    hub = record (s.hub) { objects = put s.next (new_client 256) s.hub.objects };
    register = queue;
    reading = set_reading s.next true s.reading;
    next = suc s.next;
  }

  pub connected-IsSafe :
      (s : System B F) (queue : List ℕ)
      → offer s.next s.register ≡ some queue
      → IsSafe s
      → IsSafe (connected s queue)
  unfolding connected new_client
  connected-IsSafe s queue e i = record {
    hub_inv = unused-Inv s.hub 256 s.next (i.unused s.next (omega arith)) i.hub_inv;
    open_readers = λ c r. ground (arith, i.open_readers c);
    old_readers = λ c r. ground (arith, i.old_readers c);
    stopped = λ c h. ground (arith, i.stopped c h, i.old_stopped c h);
    waiting = λ c h. elim (offer-In s.next c s.register queue e h) [
      | inl old ↦ ground (arith, i.waiting c old)
      | inr new ↦ ground arith
    ];
    unregistered = λ c h. elim (offer-In s.next c s.register queue e h) [
      | inl old ↦ i.unregistered c old
      | inr new ↦ ground (arith, i.old_clients c)
    ];
    old_waiting = λ c h. elim (offer-In s.next c s.register queue e h) [
      | inl old ↦ omega (arith, i.old_waiting c old)
      | inr new ↦ omega arith
    ];
    old_clients = λ c r. omega (arith, i.old_clients c r);
    once =
        offer-Once s.next s.register queue e (λ h. absurd (omega (arith, i.old_waiting s.next h)))
          i.once;
    unused = λ c h. ground (arith, i.unused c);
    old_stopped = λ c h. omega (arith, i.old_stopped c h);
  }
