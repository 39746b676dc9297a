-- ===== src/Hub/Invariant.antt =====
-- The invariant of the hub (internal/hub/hub.go): the index of tiles is the clients' own sets of
-- tiles turned round, but for closed clients, which it does not name.
use wabus_backend.Prelude.{
  ℕ, ◌≡◌, ◌≢◌, ◌∙◌, ap, refl, sym, inl, inr, true, false, Option, none, List, [], ◌∷◌, arith,
  String, string_key, nat_key, string_discrete, is_some, if◌then◌else◌, In, Option-cases,
}
use wabus_backend.GoMap.{GoSet, lookup, insert, delete, keys, Distinct}
use wabus_backend.GoMap.Laws.{lookup-insert, lookup-delete, insert-Distinct, keys-In}
use wabus_backend.GoMap.Buckets.{
  Buckets, bucket, IsTidy, add, remove, add-IsTidy, remove-IsTidy, bucket-add, bucket-remove,
}
use wabus_backend.Hub.{
  Hub, Client, add_tiles, remove_tiles, link, unlink, new_hub, subscribe, unsubscribe,
  register_client,
}

-- The client's entry under a tile.
abbrev entry : ℕ → String → Buckets String ℕ → Option (Unit {0})
entry c t index = lookup c (bucket t index)

module _ (c : ℕ) (t : String) where
  link-entry :
      (ids : List String) (index : Buckets String ℕ) (own : GoSet String)
      → entry c t index ≡ lookup t own
      → entry c t (link c ids index) ≡ lookup t (add_tiles ids own)
  unfolding link add_tiles
  link-entry [] index own h = h
  link-entry (id ∷ ids) index own h = link-entry ids (add id c index) (insert id tt own) (
      ground (
        arith,
        bucket-add t id c index,
        lookup-insert c c tt (bucket id index),
        lookup-insert t id tt own,
      ))

  unlink-entry :
      (ids : List String) (index : Buckets String ℕ) (own : GoSet String)
      → entry c t index ≡ lookup t own
      → entry c t (unlink c ids index) ≡ lookup t (remove_tiles ids own)
  unfolding unlink remove_tiles
  unlink-entry [] index own h = h
  unlink-entry (id ∷ ids) index own h = unlink-entry ids (remove id c index) (delete id own) (
      ground (
        arith,
        bucket-remove t id c index,
        lookup-delete c c (bucket id index),
        lookup-delete t id own,
      ))

  link-entry_ne :
      (j : ℕ) (ids : List String) (index : Buckets String ℕ)
      → c ≢ j
      → entry j t (link c ids index) ≡ entry j t index
  unfolding link
  link-entry_ne j [] index h = refl
  link-entry_ne j (id ∷ ids) index h = ground (
    arith,
    link-entry_ne j ids (add id c index) h,
    bucket-add t id c index,
    lookup-insert j c tt (bucket id index),
  )

  pub unlink-entry_ne :
      (j : ℕ) (ids : List String) (index : Buckets String ℕ)
      → c ≢ j
      → entry j t (unlink c ids index) ≡ entry j t index
  unfolding unlink
  unlink-entry_ne j [] index h = refl
  unlink-entry_ne j (id ∷ ids) index h = ground (
    arith,
    unlink-entry_ne j ids (remove id c index) h,
    bucket-remove t id c index,
    lookup-delete j c (bucket id index),
  )

  remove_tiles-none :
      (ids : List String) (own : GoSet String)
      → (is_some (lookup t own) ≡ true → In t ids)
      → lookup t (remove_tiles ids own) ≡ none
  unfolding remove_tiles
  remove_tiles-none [] own h = elim (Option-cases (lookup t own)) [
    | inl e ↦ e
    | inr (u, e) ↦ absurd (h (ap is_some e))
  ]
  remove_tiles-none (id ∷ ids) own h = remove_tiles-none ids (delete id own) λ e.
      elim (string_discrete id t) [
        | yes p ↦ absurd (ground (arith, lookup-delete t id own))
        | no p ↦ elim (h (ground (arith, lookup-delete t id own))) [
          | inl q ↦ absurd (p (sym q))
          | inr q ↦ q
        ]
      ]

  -- Once all its own tiles are unlinked, a client is in the index nowhere.
  pub unlink-keys :
      (index : Buckets String ℕ) (own : GoSet String)
      → entry c t index ≡ lookup t own
      → entry c t (unlink c (keys own) index) ≡ none
  unlink-keys index own h =
      unlink-entry (keys own) index own h ∙ remove_tiles-none (keys own) own (keys-In t own)

module _ (c : ℕ) where
  link-IsTidy :
      (ids : List String) (index : Buckets String ℕ) → IsTidy index → IsTidy (link c ids index)
  unfolding link
  link-IsTidy [] index i = i
  link-IsTidy (id ∷ ids) index i = link-IsTidy ids (add id c index) (add-IsTidy id c index i)

  pub unlink-IsTidy :
      (ids : List String) (index : Buckets String ℕ) → IsTidy index → IsTidy (unlink c ids index)
  unfolding unlink
  unlink-IsTidy [] index i = i
  unlink-IsTidy (id ∷ ids) index i =
      unlink-IsTidy ids (remove id c index) (remove-IsTidy id c index i)

module _ {B : Type 0} where
  -- The tiles under which the index should name a client.
  abbrev pub live : Client B → String → Option (Unit {0})
  live client t = if client.closed then none else lookup t client.tiles

  pub record Inv (h : Hub B) : Type 0 where
    pub distinct : Distinct h.clients
    pub tidy : IsTidy h.tile_clients
    pub linked : (c : ℕ) (t : String) → entry c t h.tile_clients ≡ live (h.objects c) t
    pub registered : (c : ℕ) → is_some (lookup c h.clients) ≡ true → (h.objects c).closed ≡ false

  -- A new hub satisfies the invariant, while no client has tiles.
  pub new_hub-Inv :
      (objects : ℕ → Client B) → ((c : ℕ) → (objects c).tiles ≡ []) → Inv (new_hub objects)
  unfolding new_hub lookup
  new_hub-Inv objects h = record {
    distinct = tt;
    tidy = record { distinct = tt; inhabited = λ x e. cc; sets = λ x. tt };
    linked = λ c t. ground (arith, h c);
    registered = λ c e. ground arith;
  }

  -- `Subscribe` of a client that is not closed keeps the invariant.
  pub subscribe-Inv :
      (c : ℕ) (ids : List String) (h : Hub B)
      → (h.objects c).closed ≡ false
      → Inv h
      → Inv (subscribe c ids h)
  unfolding subscribe
  subscribe-Inv c ids h o i = record {
    distinct = i.distinct;
    tidy = link-IsTidy c ids h.tile_clients i.tidy;
    linked = λ j t. ground (
      arith,
      i.linked j t,
      link-entry c t ids h.tile_clients (h.objects c).tiles (ground (arith, i.linked c t)),
      link-entry_ne c t j ids h.tile_clients,
    );
    registered = λ j e. ground (arith, i.registered j);
  }

  -- `Unsubscribe` of a client that is not closed keeps the invariant.
  pub unsubscribe-Inv :
      (c : ℕ) (ids : List String) (h : Hub B)
      → (h.objects c).closed ≡ false
      → Inv h
      → Inv (unsubscribe c ids h)
  unfolding unsubscribe
  unsubscribe-Inv c ids h o i = record {
    distinct = i.distinct;
    tidy = unlink-IsTidy c ids h.tile_clients i.tidy;
    linked = λ j t. ground (
      arith,
      i.linked j t,
      unlink-entry c t ids h.tile_clients (h.objects c).tiles (ground (arith, i.linked c t)),
      unlink-entry_ne c t j ids h.tile_clients,
    );
    registered = λ j e. ground (arith, i.registered j);
  }

  pub register_client-Inv :
      (c : ℕ) (h : Hub B) → (h.objects c).closed ≡ false → Inv h → Inv (register_client c h)
  unfolding register_client
  register_client-Inv c h o i = record {
    distinct = insert-Distinct c tt h.clients i.distinct;
    tidy = i.tidy;
    linked = i.linked;
    registered = λ j e. ground (arith, i.registered j, lookup-insert j c tt h.clients);
  }
