-- ===== src/Store/Preserve.antt =====
-- Every operation of internal/store/store.go that writes keeps the invariant.
use wabus_backend.Prelude.{
  ◌≡◌, refl, inl, inr, Option, none, some, List, [], ◌∷◌, arith, String, string_key, int_key,
  Bool-cases, ltb_ℤ, All, ◌≢◌, ◌∙◌, In-All,
}
use wabus_backend.Domain.{Float64, Vehicle, Time, Duration}
use wabus_backend.GoMap.{GoMap, lookup, insert, Distinct}
use wabus_backend.GoMap.Laws.{In-lookup, lookup-delete, insert-Distinct, delete-Distinct}
use wabus_backend.Store.{
  Store, new_store, write, remove_from_all_indices, update_entry, update_vehicle, update,
  prune_entry, prune_loop, prune_stale, stamp, has_changed,
}
use wabus_backend.Store.Invariant.{
  Inv, empty-IsIndex, fresh-IsIndex, moved-IsIndex, kept-IsIndex, gone-IsIndex, Keyed-insert,
  Keyed-delete,
}

module _ {F : Type 0} where
  -- A new store satisfies the invariant.
  pub new_store-Inv : (d : Duration) → Inv {F = F} (new_store d)
  unfolding new_store lookup
  new_store-Inv d = record {
    distinct = tt;
    keyed = λ k v h. cc;
    tiles = empty-IsIndex (λ w. w.tile_id);
    lines = empty-IsIndex (λ w. w.line);
    types = empty-IsIndex (λ w. w.vehicle_type);
  }

  write-Inv_fresh :
      (v : Vehicle F) (s : Store F) → lookup v.key s.vehicles ≡ none → Inv s → Inv (write v s)
  unfolding write
  write-Inv_fresh v s free i = record {
    distinct = insert-Distinct v.key v s.vehicles i.distinct;
    keyed = Keyed-insert v.key v s.vehicles refl i.keyed;
    tiles = fresh-IsIndex (λ w. w.tile_id) v.key s.vehicles s.by_tile v free i.tiles;
    lines = fresh-IsIndex (λ w. w.line) v.key s.vehicles s.by_line v free i.lines;
    types = fresh-IsIndex (λ w. w.vehicle_type) v.key s.vehicles s.by_type v free i.types;
  }

  write-Inv_moved :
      (u v : Vehicle F) (s : Store F)
      → lookup v.key s.vehicles ≡ some u
      → u.key ≡ v.key
      → Inv s
      → Inv (write v (remove_from_all_indices u s))
  unfolding write remove_from_all_indices
  write-Inv_moved u v s held e i = rw e (record {
    distinct = insert-Distinct v.key v s.vehicles i.distinct;
    keyed = Keyed-insert v.key v s.vehicles refl i.keyed;
    tiles = moved-IsIndex (λ w. w.tile_id) v.key s.vehicles s.by_tile u v held i.tiles;
    lines = moved-IsIndex (λ w. w.line) v.key s.vehicles s.by_line u v held i.lines;
    types = moved-IsIndex (λ w. w.vehicle_type) v.key s.vehicles s.by_type u v held i.types;
  })

  touch-Inv :
      (u : Vehicle F) (k : String) (now : Time) (s : Store F)
      → lookup k s.vehicles ≡ some u
      → Inv s
      → Inv (record s { vehicles = insert k (stamp now u) s.vehicles })
  touch-Inv u k now s held i = record {
    distinct = insert-Distinct k (stamp now u) s.vehicles i.distinct;
    keyed = Keyed-insert k (stamp now u) s.vehicles (i.keyed k u held) i.keyed;
    tiles = kept-IsIndex (λ w. w.tile_id) k s.vehicles s.by_tile u _ held refl i.tiles;
    lines = kept-IsIndex (λ w. w.line) k s.vehicles s.by_line u _ held refl i.lines;
    types = kept-IsIndex (λ w. w.vehicle_type) k s.vehicles s.by_type u _ held refl i.types;
  }

  pub prune_entry-Inv :
      (cutoff : Time) (k : String) (v : Vehicle F) (s : Store F)
      → lookup k s.vehicles ≡ some v
      → Inv s
      → Inv (prune_entry cutoff (k, v) s).0
  unfolding prune_entry
  prune_entry-Inv cutoff k v s held i = elim (Bool-cases (ltb_ℤ v.updated_at cutoff)) [
    | inr fresh ↦ rw fresh i
    | inl stale ↦
        rw (stale, i.keyed k v held)
          (record {
            distinct = delete-Distinct k s.vehicles i.distinct;
            keyed = Keyed-delete k s.vehicles i.keyed;
            tiles = gone-IsIndex (λ w. w.tile_id) k s.vehicles s.by_tile v held i.tiles;
            lines = gone-IsIndex (λ w. w.line) k s.vehicles s.by_line v held i.lines;
            types = gone-IsIndex (λ w. w.vehicle_type) k s.vehicles s.by_type v held i.types;
          })
  ]

  -- What the loop of `PruneStale` relies on: the entries ahead of it are stored as it saw them.
  abbrev pub Pending : GoMap String (Vehicle F) → Store F → Type 0
  Pending entries s = All (λ e. lookup e.0 s.vehicles ≡ some e.1) entries

  pub Pending-all : (s : Store F) → Inv s → Pending s.vehicles s
  Pending-all s i = In-All _ s.vehicles (λ e h. In-lookup e.0 e.1 s.vehicles i.distinct h)

  prune_entry_frame :
      (cutoff : Time) (k j : String) (v : Vehicle F) (s : Store F)
      → j ≢ k
      → lookup j (prune_entry cutoff (k, v) s).0.vehicles ≡ lookup j s.vehicles
  unfolding prune_entry
  prune_entry_frame cutoff k j v s ne = ground (arith, lookup-delete j k s.vehicles)

  pub Pending-next :
      (cutoff : Time) (k : String) (v : Vehicle F) (entries : GoMap String (Vehicle F))
      (s : Store F)
      → lookup k entries ≡ none
      → Pending entries s
      → Pending entries (prune_entry cutoff (k, v) s).0
  unfolding lookup
  Pending-next cutoff k v [] s free p = tt
  Pending-next cutoff k v ((j, w) ∷ entries) s free p =
      let other : j ≢ k = λ e. ground arith in
      (
        prune_entry_frame cutoff k j v s other ∙ p.0,
        Pending-next cutoff k v entries s (ground arith) p.1,
      )

  prune_loop-Inv :
      (cutoff : Time) (entries : GoMap String (Vehicle F)) (s : Store F)
      → Distinct entries
      → Pending entries s
      → Inv s
      → Inv (prune_loop cutoff entries s).0
  unfolding prune_loop
  prune_loop-Inv cutoff [] s d p i = i
  prune_loop-Inv cutoff ((k, v) ∷ entries) s d p i =
      prune_loop-Inv cutoff entries (prune_entry cutoff (k, v) s).0 d.1
        (Pending-next cutoff k v entries s d.0 p.1) (prune_entry-Inv cutoff k v s p.0 i)

  -- `PruneStale` keeps the invariant.
  pub prune_stale-Inv : (now : Time) (s : Store F) → Inv s → Inv (prune_stale now s).0
  unfolding prune_stale
  prune_stale-Inv now s i = prune_loop-Inv _ s.vehicles s i.distinct (Pending-all s i) i

  module _ ⦃f : Float64 F⦄ where
    update_entry-Inv :
        (now : Time) (v : Vehicle F) (o : Option (Vehicle F)) (s : Store F)
        → lookup v.key s.vehicles ≡ o
        → Inv s
        → Inv (update_entry now v o s).0
    unfolding update_entry
    update_entry-Inv now v none s e i = write-Inv_fresh v s e i
    update_entry-Inv now v (some u) s e i = elim (Bool-cases (has_changed u v)) [
      | inl changed ↦ rw changed (write-Inv_moved u v s e (i.keyed v.key u e) i)
      | inr same_place ↦ rw same_place (touch-Inv u v.key now s e i)
    ]

    -- `Update` keeps the invariant.
    pub update-Inv :
        (now : Time) (vs : List (Vehicle F)) (s : Store F) → Inv s → Inv (update now vs s).0
    unfolding update update_vehicle
    update-Inv now [] s i = i
    update-Inv now (v ∷ vs) s i =
        update-Inv now vs (update_vehicle now v s).0
          (update_entry-Inv now (stamp now v) (lookup v.key s.vehicles) s refl i)
