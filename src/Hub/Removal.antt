-- ===== src/Hub/Removal.antt =====
-- `removeClient` of internal/hub/hub.go.
use wabus_backend.Prelude.{
  ℕ, ◌≡◌, ap, refl, inl, inr, true, false, arith, String, string_key, nat_key, is_some, Bool-cases,
}
use wabus_backend.Prelude.Outcome.{done}
use wabus_backend.GoMap.{lookup, delete, keys}
use wabus_backend.GoMap.Laws.{lookup-delete, delete-Distinct}
use wabus_backend.GoMap.Buckets.{bucket}
use wabus_backend.Hub.{Hub, unlink, put, close_send, remove_client}
use wabus_backend.Hub.Invariant.{Inv, unlink-IsTidy, unlink-keys, unlink-entry_ne}

module _ {B : Type 0} where
  unfoldable pub removed : ℕ → Hub B → Hub B
  removed c h = record {
    clients = delete c h.clients;
    tile_clients = unlink c (keys (h.objects c).tiles) h.tile_clients;
    objects = put c (record (h.objects c) { closed = true }) h.objects;
  }

  pub removed-Inv : (c : ℕ) (h : Hub B) → (h.objects c).closed ≡ false → Inv h → Inv (removed c h)
  unfolding removed
  removed-Inv c h o i = record {
    distinct = delete-Distinct c h.clients i.distinct;
    tidy = unlink-IsTidy c (keys (h.objects c).tiles) h.tile_clients i.tidy;
    linked = λ j t. ground (
      arith,
      i.linked j t,
      unlink-keys c t h.tile_clients (h.objects c).tiles (ground (arith, i.linked c t)),
      unlink-entry_ne c t j (keys (h.objects c).tiles) h.tile_clients,
    );
    registered = λ j e. ground (arith, i.registered j, lookup-delete j c h.clients);
  }

  pub remove_client-missing :
      (c : ℕ) (h : Hub B) → is_some (lookup c h.clients) ≡ false → remove_client c h ≡ done h
  unfolding remove_client
  remove_client-missing c h m = ground arith

  pub remove_client-present :
      (c : ℕ) (h : Hub B)
      → is_some (lookup c h.clients) ≡ true
      → (h.objects c).closed ≡ false
      → remove_client c h ≡ done (removed c h)
  unfolding remove_client close_send removed
  remove_client-present c h p o = rw (p, o)

  removed-clients : (c : ℕ) (h : Hub B) → is_some (lookup c (removed c h).clients) ≡ false
  unfolding removed
  removed-clients c h = ground (arith, lookup-delete c c h.clients)

  removed-closed : (c : ℕ) (h : Hub B) → ((removed c h).objects c).closed ≡ true
  unfolding removed
  removed-closed c h = ground arith

  removed-entry :
      (c : ℕ) (t : String) (h : Hub B)
      → (h.objects c).closed ≡ false
      → Inv h
      → is_some (lookup c (bucket t (removed c h).tile_clients)) ≡ false
  unfolding removed
  removed-entry c t h o i =
      ap is_some (unlink-keys c t h.tile_clients (h.objects c).tiles (ground (arith, i.linked c t)))

  -- On a hub that satisfies the invariant `removeClient` does not panic. It changes nothing for a
  -- client that is not registered; it closes a registered one, and takes it out of the clients and
  -- of every tile. It keeps the invariant.
  pub remove_client_lem :
      (c : ℕ) (h : Hub B)
      → Inv h
      → (h' : Hub B) × (remove_client c h ≡ done h')
        × Inv h'
        × (is_some (lookup c h'.clients) ≡ false)
        × ((is_some (lookup c h.clients) ≡ false → h' ≡ h)
            × (is_some (lookup c h.clients) ≡ true
                → ((h'.objects c).closed ≡ true)
                  × ((t : String) → is_some (lookup c (bucket t h'.tile_clients)) ≡ false)))
  remove_client_lem c h i = elim (Bool-cases (is_some (lookup c h.clients))) [
    | inr missing ↦
        (h, remove_client-missing c h missing, i, missing, ((λ _. refl), λ p. absurd (cc)))
    | inl present ↦
        let o = i.registered c present in
        (
          removed c h,
          remove_client-present c h present o,
          removed-Inv c h o i,
          removed-clients c h,
          ((λ m. absurd (cc)), λ _. (removed-closed c h, λ t. removed-entry c t h o i)),
        )
  ]
