-- ===== src/Hub/System/Requests.antt =====
-- The tiles of a client whose read loop runs (internal/hub/hub.go, internal/handler/websocket.go): what
-- its own requests come to, whatever else happens in between.
use mathlib.Core.List.{append_assoc}
use wabus_backend.Prelude.{
  ℕ, ◌<◌, ◌≡◌, ◌≢◌, ◌∙◌, ap, refl, sym, subst, inl, inr, Bool, true, false, ◌||◌, Option, List, [],
  ◌∷◌, ◌++◌, arith, String, string_key, nat_key, ℕ_discrete, same, is_some, if◌then◌else◌, All, ltb,
  length, Bool-cases, Option-cases,
}
use wabus_backend.Prelude.Outcome.{Outcome, done, done-injective}
use wabus_backend.Domain.{VehicleDelta}
use wabus_backend.GoMap.{GoSet, lookup, insert, delete}
use wabus_backend.GoMap.Laws.{lookup-insert, lookup-delete}
use wabus_backend.Hub.{
  Client, DeltaMessage, put, add_tiles, remove_tiles, subscribe, unsubscribe, try_send, close_send,
  remove_client, register_client,
}
use wabus_backend.Hub.Gather.{deltas_for}
use wabus_backend.Hub.Fanout.{fanout_deltas_lem, receive-frame}
use wabus_backend.Hub.System.{
  System, Action, connects, subscribes, unsubscribes, replies, disconnects, writes,
  broadcasts_deltas, takes_register, takes_unregister, takes_broadcast, shuts_down, offer, connect,
  disconnect, reply, write_one, run_register, run_unregister, run_broadcast, step, run,
}
use wabus_backend.Hub.System.Invariant.{IsSafe}
use wabus_backend.Hub.System.Races.{step-Proceeds}

abbrev pub member : String → List String → Bool
member t [] = false
member t (id ∷ ids) = same id t || member t ids

-- A request for tiles, or to be rid of them.
abbrev pub TileRequest : Type 0
TileRequest = Bool × List String

-- Whether the client is left with the tile, when it had it or not before.
abbrev pub after_request : String → TileRequest → Bool → Bool
after_request t (on, ids) had = if member t ids then on else had

unfoldable pub after_requests : String → List TileRequest → Bool → Bool
after_requests t [] had = had
after_requests t (r ∷ requests) had = after_requests t requests (after_request t r had)

-- The request that the action is for the client, if it is one.
abbrev pub request_of : {B F : Type 0} → ℕ → Action B F → List TileRequest
request_of c (subscribes j ids) = if same j c then (true, ids) ∷ [] else []
request_of c (unsubscribes j ids) = if same j c then (false, ids) ∷ [] else []
request_of c _ = []

unfoldable pub requests_of : {B F : Type 0} → ℕ → List (Action B F) → List TileRequest
requests_of c [] = []
requests_of c (a ∷ actions) = request_of c a ++ requests_of c actions

pub after_requests-append :
    (t : String) (rs qs : List TileRequest) (had : Bool)
    → after_requests t (rs ++ qs) had ≡ after_requests t qs (after_requests t rs had)
unfolding after_requests
after_requests-append t [] qs had = refl
after_requests-append t (r ∷ rs) qs had = after_requests-append t rs qs (after_request t r had)

pub requests_of-append :
    {B F : Type 0} (c : ℕ) (xs ys : List (Action B F))
    → requests_of c (xs ++ ys) ≡ requests_of c xs ++ requests_of c ys
unfolding requests_of
requests_of-append c [] ys = refl
requests_of-append c (a ∷ xs) ys =
    ap (λ rs. request_of c a ++ rs) (requests_of-append c xs ys)
    ∙ sym (append_assoc (request_of c a) (requests_of c xs) (requests_of c ys))

has-add_tiles :
    (t : String) (ids : List String) (own : GoSet String)
    → is_some (lookup t (add_tiles ids own)) ≡ after_request t (true, ids) (is_some (lookup t own))
unfolding add_tiles
has-add_tiles t [] own = refl
has-add_tiles t (id ∷ ids) own =
    ground (arith, has-add_tiles t ids (insert id tt own), lookup-insert t id tt own)

has-remove_tiles :
    (t : String) (ids : List String) (own : GoSet String)
    → is_some (lookup t (remove_tiles ids own))
      ≡ after_request t (false, ids) (is_some (lookup t own))
unfolding remove_tiles
has-remove_tiles t [] own = refl
has-remove_tiles t (id ∷ ids) own =
    ground (arith, has-remove_tiles t ids (delete id own), lookup-delete t id own)

module _ {B F : Type 0} (c : ℕ) where
  abbrev tiles_of : System B F → GoSet String
  tiles_of s = (s.hub.objects c).tiles

  -- The step leaves the client's reader and tiles alone.
  abbrev Keeps : System B F → Outcome (System B F) → Type 0
  Keeps s o =
      (s' : System B F) → o ≡ done s' → (s'.reading c ≡ s.reading c) × (tiles_of s' ≡ tiles_of s)

  Keeps-done :
      (s s' : System B F)
      → s'.reading c ≡ s.reading c
      → tiles_of s' ≡ tiles_of s
      → Keeps s (done s')
  Keeps-done s s' r t u e =
      let same_system : s' ≡ u = done-injective e in
      (ap (λ x. x.reading c) (sym same_system) ∙ r, ap tiles_of (sym same_system) ∙ t)

  Keeps-if :
      (b : Bool) (s : System B F) (o p : Outcome (System B F))
      → Keeps s o
      → Keeps s p
      → Keeps s (if b then o else p)
  Keeps-if true s o p h k = h
  Keeps-if false s o p h k = k

  -- A write to one object that keeps its tiles.
  put-tiles :
      (j : ℕ) (client : Client B) (s : System B F)
      → client.tiles ≡ (s.hub.objects j).tiles
      → (put j client s.hub.objects c).tiles ≡ tiles_of s
  put-tiles j client s e = ground (arith, e)

  reply-Keeps : (j : ℕ) (bytes : B) (s : System B F) → Keeps s (reply j bytes s)
  unfolding reply try_send
  reply-Keeps j bytes s = elim (Bool-cases (s.hub.objects j).closed) [
    | inl closed ↦ rw (closed, reply, try_send) (λ u e. absurd (cc))
    | inr open_client ↦
        elim (Bool-cases (ltb (length (s.hub.objects j).send) (s.hub.objects j).capacity)) [
          | inl room ↦
              rw (open_client, room, reply, try_send) (Keeps-done s _ refl (put-tiles j _ s refl))
          | inr full ↦
              rw (open_client, full, reply, try_send) (Keeps-done s _ refl (put-tiles j _ s refl))
        ]
  ]

  write_one-Keeps :
      (j : ℕ) (queue : List B) (s : System B F)
      → (s.hub.objects j).send ≡ queue
      → Keeps s (done (write_one j s))
  unfolding write_one
  write_one-Keeps j [] s e = rw (e, write_one) (Keeps-done s s refl refl)
  write_one-Keeps j (bytes ∷ rest) s e =
      rw (e, write_one) (Keeps-done s _ refl (put-tiles j _ s refl))

  run_register-Keeps : (queue : List ℕ) (s : System B F) → Keeps s (done (run_register queue s))
  unfolding run_register register_client
  run_register-Keeps [] s = Keeps-done s s refl refl
  run_register-Keeps (j ∷ queue) s = Keeps-done s _ refl refl

  run_unregister-Keeps : (queue : List ℕ) (s : System B F) → Keeps s (run_unregister queue s)
  unfolding run_unregister remove_client close_send
  run_unregister-Keeps [] s = Keeps-done s s refl refl
  run_unregister-Keeps (j ∷ queue) s = elim (Bool-cases (is_some (lookup j s.hub.clients))) [
    | inr missing ↦ rw (missing, run_unregister, remove_client) (Keeps-done s _ refl refl)
    | inl there ↦ elim (Bool-cases (s.hub.objects j).closed) [
      | inl closed ↦
          rw (there, closed, run_unregister, remove_client, close_send) (λ u e. absurd (cc))
      | inr open_client ↦
          rw (there, open_client, run_unregister, remove_client, close_send)
            (Keeps-done s _ refl (put-tiles j _ s refl))
    ]
  ]

  Keeps-choice :
      (b : Bool) (s s' : System B F) → Keeps s (done s') → Keeps s (done (if b then s' else s))
  Keeps-choice true s s' h = h
  Keeps-choice false s s' h = Keeps-done s s refl refl

  connect-Keeps : (s : System B F) → c < s.next → Keeps s (done (connect s))
  unfolding connect
  connect-Keeps s old = elim (Option-cases (offer s.next s.register)) [
    | inl full ↦ rw (full, connect) (Keeps-done s s refl refl)
    | inr (queue, e) ↦ rw (e, connect) (Keeps-done s _ (ground (arith, old)) (ground (arith, old)))
  ]

  disconnect-Keeps : (j : ℕ) (s : System B F) → j ≢ c → Keeps s (done (disconnect j s))
  unfolding disconnect
  disconnect-Keeps j s other = elim (Option-cases (offer j s.unregister)) [
    | inl full ↦ rw (full, disconnect) (Keeps-done s s refl refl)
    | inr (queue, e) ↦ rw (e, disconnect) (Keeps-done s _ (ground (arith, other)) refl)
  ]

  subscribe-Keeps :
      (j : ℕ) (ids : List String) (s : System B F)
      → j ≢ c
      → Keeps s (done (record s { hub = subscribe j ids s.hub }))
  unfolding subscribe
  subscribe-Keeps j ids s other = Keeps-done s _ refl (ground (arith, other))

  unsubscribe-Keeps :
      (j : ℕ) (ids : List String) (s : System B F)
      → j ≢ c
      → Keeps s (done (record s { hub = unsubscribe j ids s.hub }))
  unfolding unsubscribe
  unsubscribe-Keeps j ids s other = Keeps-done s _ refl (ground (arith, other))

  -- The step has the effect of the requests on the client's tiles, and its reader goes on.
  abbrev Follows : System B F → List TileRequest → Outcome (System B F) → Type 0
  Follows s requests o =
      (s' : System B F)
      → o ≡ done s'
      → (s'.reading c ≡ s.reading c)
        × ((t : String)
            → is_some (lookup t (tiles_of s'))
              ≡ after_requests t requests (is_some (lookup t (tiles_of s))))

  Keeps-Follows : (s : System B F) (o : Outcome (System B F)) → Keeps s o → Follows s [] o
  unfolding after_requests
  Keeps-Follows s o h s' e = let (r, t) = h s' e in (r, λ id. ap (λ x. is_some (lookup id x)) t)

  subscribe-Follows :
      (ids : List String) (s : System B F)
      → Follows s ((true, ids) ∷ []) (done (record s { hub = subscribe c ids s.hub }))
  unfolding after_requests subscribe
  subscribe-Follows ids s s' e =
      let same_system : s' ≡ record s { hub = subscribe c ids s.hub } = sym (done-injective e) in
      let own : tiles_of s' ≡ add_tiles ids (tiles_of s) = ap tiles_of same_system ∙ ground arith in
      (
        ap (λ x. x.reading c) same_system,
        λ t. ap (λ x. is_some (lookup t x)) own ∙ has-add_tiles t ids (tiles_of s),
      )

  unsubscribe-Follows :
      (ids : List String) (s : System B F)
      → Follows s ((false, ids) ∷ []) (done (record s { hub = unsubscribe c ids s.hub }))
  unfolding after_requests unsubscribe
  unsubscribe-Follows ids s s' e =
      let same_system : s' ≡ record s { hub = unsubscribe c ids s.hub } = sym (done-injective e) in
      let own : tiles_of s' ≡ remove_tiles ids (tiles_of s) =
        ap tiles_of same_system ∙ ground arith in
      (
        ap (λ x. x.reading c) same_system,
        λ t. ap (λ x. is_some (lookup t x)) own ∙ has-remove_tiles t ids (tiles_of s),
      )

  module _ (marshal : DeltaMessage F → Option B) where
    run_broadcast-Keeps :
        (queue : List (List (VehicleDelta F))) (s : System B F)
        → IsSafe s
        → Keeps s (run_broadcast marshal queue s)
    unfolding run_broadcast
    run_broadcast-Keeps [] s i = Keeps-done s s refl refl
    run_broadcast-Keeps (ds ∷ queue) s i =
        let (h, e, clients, index, sent) =
          fanout_deltas_lem marshal ds s.hub i.hub_inv.tidy
            (λ j t x. ground (arith, i.hub_inv.linked j t)) in
        let tiles : (h.objects c).tiles ≡ tiles_of s =
          ap (λ x. x.tiles) (sent c)
          ∙ (receive-frame marshal (deltas_for c s.hub.tile_clients ds) (s.hub.objects c)).1 in
        rw (e, run_broadcast) (Keeps-done s _ refl tiles)

    step-Follows :
        (a : Action B F) (s : System B F)
        → a ≢ shuts_down
        → a ≢ disconnects c
        → s.reading c ≡ true
        → IsSafe s
        → Follows s (request_of c a) (step marshal a s)
    unfolding step
    step-Follows connects s n d r i = Keeps-Follows s _ (connect-Keeps s (i.old_readers c r))
    step-Follows (subscribes j ids) s n d r i = elim (ℕ_discrete j c) [
      | yes p ↦
          let mine : same j c ≡ true = ground (arith, p) in
          let reads : s.reading j ≡ true = ap s.reading p ∙ r in
          rw (mine, reads)
            (subst
              (λ k. Follows s ((true, ids) ∷ []) (done (record s { hub = subscribe k ids s.hub })))
              (sym p) (subscribe-Follows ids s))
      | no p ↦
          let others : same j c ≡ false = ground (arith, p) in
          rw others (Keeps-Follows s _ (Keeps-choice (s.reading j) s _ (subscribe-Keeps j ids s p)))
    ]
    step-Follows (unsubscribes j ids) s n d r i = elim (ℕ_discrete j c) [
      | yes p ↦
          let mine : same j c ≡ true = ground (arith, p) in
          let reads : s.reading j ≡ true = ap s.reading p ∙ r in
          rw (mine, reads)
            (subst
              (λ k.
                Follows s ((false, ids) ∷ []) (done (record s { hub = unsubscribe k ids s.hub })))
              (sym p) (unsubscribe-Follows ids s))
      | no p ↦
          let others : same j c ≡ false = ground (arith, p) in
          rw others
            (Keeps-Follows s _ (Keeps-choice (s.reading j) s _ (unsubscribe-Keeps j ids s p)))
    ]
    step-Follows (replies j bytes) s n d r i =
        Keeps-Follows s _
          (Keeps-if (s.reading j) s _ _ (reply-Keeps j bytes s) (Keeps-done s s refl refl))
    step-Follows (disconnects j) s n d r i =
        Keeps-Follows s _
          (Keeps-choice (s.reading j) s _ (disconnect-Keeps j s (λ p. d (ap disconnects p))))
    step-Follows (writes j) s n d r i = Keeps-Follows s _ (write_one-Keeps j _ s refl)
    step-Follows (broadcasts_deltas ds) s n d r i = Keeps-Follows s _ (Keeps-done s _ refl refl)
    step-Follows takes_register s n d r i =
        Keeps-Follows s _ (Keeps-choice s.running s _ (run_register-Keeps s.register s))
    step-Follows takes_unregister s n d r i =
        Keeps-Follows s _ (
          Keeps-if s.running s _ _ (run_unregister-Keeps s.unregister s) (Keeps-done s s refl refl))
    step-Follows takes_broadcast s n d r i =
        Keeps-Follows s _ (
          Keeps-if s.running s _ _ (run_broadcast-Keeps s.broadcasts s i)
            (Keeps-done s s refl refl))
    step-Follows shuts_down s n d r i = absurd (n refl)

    -- Any interleaving in which the client's loop does not end, from a system that satisfies its
    -- invariant.
    pub run-Follows :
        (actions : List (Action B F)) (s : System B F)
        → All (λ a. a ≢ shuts_down) actions
        → All (λ a. a ≢ disconnects c) actions
        → s.reading c ≡ true
        → IsSafe s
        → (s' : System B F) × (run marshal actions s ≡ done s')
          × IsSafe s'
          × (s'.reading c ≡ true)
          × ((t : String)
              → is_some (lookup t (s'.hub.objects c).tiles)
                ≡ after_requests t
                    (requests_of c actions)
                    (is_some (lookup t (s.hub.objects c).tiles)))
    unfolding run requests_of after_requests
    run-Follows [] s n d r i = (s, refl, i, r, λ t. refl)
    run-Follows (a ∷ actions) s n d r i =
        let (s1, e1, i1) = step-Proceeds marshal a s n.0 i in
        let (r1, has1) = step-Follows a s n.0 d.0 r i s1 e1 in
        let (s2, e2, i2, r2, has2) = run-Follows actions s1 n.1 d.1 (r1 ∙ r) i1 in
        (
          s2,
          rw e1 e2,
          i2,
          r2,
          λ t.
              has2 t
              ∙ ap (after_requests t (requests_of c actions)) (has1 t)
              ∙ sym (after_requests-append t (request_of c a) (requests_of c actions) _),
        )
