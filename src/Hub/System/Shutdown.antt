-- ===== src/Hub/System/Shutdown.antt =====
-- `closeAllClients` of internal/hub/hub.go, while read loops of internal/handler/websocket.go run.
use wabus_backend.Prelude.{
  ℕ, ◌≡◌, ◌≢◌, refl, inl, inr, true, false, Option, List, [], ◌∷◌, arith, string_key, nat_key,
  is_some, In, Once, All-In,
}
use wabus_backend.Prelude.Outcome.{done, panic}
use wabus_backend.GoMap.{lookup, keys}
use wabus_backend.GoMap.Laws.{In-keys, keys-In, keys-Once}
use wabus_backend.Hub.{
  Hub, Client, DeltaMessage, put, close_send, close_loop, close_all_clients, try_send,
}
use wabus_backend.Hub.Invariant.{Inv}
use wabus_backend.Hub.System.{System, replies, shuts_down, run_shutdown, step, reply}
use wabus_backend.Hub.System.Invariant.{IsSafe}

module _ {B : Type 0} where
  close_loop_lem :
      (cs : List ℕ) (objects : ℕ → Client B)
      → Once cs
      → ((c : ℕ) → In c cs → (objects c).closed ≡ false)
      → (after : ℕ → Client B) × (close_loop cs objects ≡ done after)
        × ((c : ℕ) → In c cs → (after c).closed ≡ true)
        × ((c : ℕ) → (In c cs → ⊥) → after c ≡ objects c)
  unfolding close_loop close_send
  close_loop_lem [] objects o h = (objects, refl, (λ c i. absurd i), λ c n. refl)
  close_loop_lem (k ∷ cs) objects o h =
      let objects' : ℕ → Client B = put k (record (objects k) { closed = true }) objects in
      let (after, e, shut, kept) =
        close_loop_lem cs objects' o.1
          (λ c i. ground (arith, h c (inr i), All-In (λ z. z ≢ k) c cs o.0 i)) in
      (
        after,
        rw (h k (inl refl)) e,
        (λ c i. elim i [
          | inl here ↦ ground (arith, kept c (λ j. All-In (λ z. z ≢ k) c cs o.0 j here))
          | inr there ↦ shut c there
        ]),
        λ c n. ground (arith, kept c (λ j. n (inr j)), λ (p : c ≡ k). n (inl p)),
      )

  -- On a hub that satisfies the invariant `closeAllClients` does not panic; it closes every
  -- registered client and changes no other, and forgets all of them and their tiles.
  pub close_all_clients_lem :
      (h : Hub B)
      → Inv h
      → (h' : Hub B) × (close_all_clients h ≡ done h')
        × (h'.clients ≡ [])
        × (h'.tile_clients ≡ [])
        × ((c : ℕ) → is_some (lookup c h.clients) ≡ true → (h'.objects c).closed ≡ true)
        × ((c : ℕ) → is_some (lookup c h.clients) ≡ false → h'.objects c ≡ h.objects c)
  unfolding close_all_clients
  close_all_clients_lem h i =
      let (after, e, shut, kept) =
        close_loop_lem (keys h.clients) h.objects (keys-Once h.clients i.distinct)
          (λ c j. i.registered c (In-keys c h.clients j)) in
      (
        record { clients = []; tile_clients = []; objects = after },
        rw e,
        refl,
        refl,
        (λ c r. shut c (keys-In c h.clients r)),
        λ c r. kept c (λ j. absurd (ground (arith, In-keys c h.clients j))),
      )

module _ {B F : Type 0} (marshal : DeltaMessage F → Option B) where
  -- In a running system that satisfies the invariant, a reply to a registered client, whose reader
  -- still runs, panics once the hub has shut down.
  pub reply-shutdown :
      (c : ℕ) (bytes : B) (s : System B F)
      → IsSafe s
      → s.running ≡ true
      → s.reading c ≡ true
      → is_some (lookup c s.hub.clients) ≡ true
      → (s' : System B F) × (step marshal shuts_down s ≡ done s')
        × (step marshal (replies c bytes) s' ≡ panic)
  unfolding step run_shutdown reply try_send
  reply-shutdown c bytes s i running reading registered =
      let (h, e, _, _, shut, _) = close_all_clients_lem s.hub i.hub_inv in
      (record s { hub = h; running = false }, ground (arith, e), ground (arith, shut c))
