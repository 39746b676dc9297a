-- ===== src/Store/Contents.antt =====
-- What the vehicle store holds after `Update` and `PruneStale` (internal/store/store.go), key by
-- key.
use wabus_backend.Prelude.{
  subst, ap, sym, if_pos, if_neg, ◌≡◌, ◌∙◌, refl, inl, inr, ite, Option, none, some, List, [], ◌∷◌,
  arith, String, string_key, string_discrete, ltb_ℤ, In, if◌then◌else◌, ◌-ℤ◌, ◌<ℤ◌, ◌↔◌, In-append,
  In-append_left, In-append_right,
}
use wabus_backend.Domain.{Float64, Vehicle, Time, VehicleDelta}
use wabus_backend.GoMap.{GoMap, lookup, Distinct}
use wabus_backend.GoMap.Laws.{lookup-insert, lookup-delete}
use wabus_backend.Store.{
  Store, update_entry, update_vehicle, update, prune_entry, prune_loop, prune_stale, stamp,
  has_changed, remove_delta,
}
use wabus_backend.Store.Invariant.{Inv}
use wabus_backend.Store.Preserve.{Pending, Pending-all, Pending-next}

module _ {F : Type 0} ⦃f : Float64 F⦄ where
  -- What becomes of one key's vehicle at an observation `v`.
  unfoldable pub observe : Time → Vehicle F → Option (Vehicle F) → Vehicle F
  observe now v none = stamp now v
  observe now v (some u) = if has_changed u (stamp now v) then stamp now v else stamp now u

  observe-fresh :
      (now : Time) (v : Vehicle F) (o : Option (Vehicle F)) → (observe now v o).updated_at ≡ now
  unfolding observe
  observe-fresh now v none = refl
  observe-fresh now v (some u) = ground arith

  -- One key's vehicle through a batch of observations.
  unfoldable pub observe_all :
      Time → String → List (Vehicle F) → Option (Vehicle F) → Option (Vehicle F)
  observe_all now k [] o = o
  observe_all now k (v ∷ vs) o =
      observe_all now k vs (ite (string_discrete v.key k) (some (observe now v o)) o)

  settle : Time → Vehicle F → Option (Vehicle F) → Vehicle F
  settle now v none = v
  settle now v (some u) = if has_changed u v then v else stamp now u

  update_entry-lookup :
      (now : Time) (k : String) (v : Vehicle F) (o : Option (Vehicle F)) (s : Store F)
      → lookup k (update_entry now v o s).0.vehicles
        ≡ ite (string_discrete v.key k) (some (settle now v o)) (lookup k s.vehicles)
  unfolding update_entry settle
  update_entry-lookup now k v none s = lookup-insert k v.key v s.vehicles
  update_entry-lookup now k v (some u) s =
      ground
        (arith, lookup-insert k v.key v s.vehicles, lookup-insert k v.key (stamp now u) s.vehicles)

  update_vehicle-lookup :
      (now : Time) (k : String) (v : Vehicle F) (s : Store F)
      → lookup k (update_vehicle now v s).0.vehicles
        ≡ ite
            (string_discrete v.key k)
            (some (observe now v (lookup k s.vehicles)))
            (lookup k s.vehicles)
  unfolding update_vehicle observe settle
  update_vehicle-lookup now k v s =
      ground (arith, update_entry-lookup now k (stamp now v) (lookup v.key s.vehicles) s)

  -- After `Update` each key holds what a state machine of its own makes of the batch: a vehicle of
  -- the key that is new or has changed is stored, one that has not changed only sets the update
  -- time of the stored one, and a vehicle of another key does nothing.
  pub update-lookup :
      (now : Time) (k : String) (vs : List (Vehicle F)) (s : Store F)
      → lookup k (update now vs s).0.vehicles ≡ observe_all now k vs (lookup k s.vehicles)
  unfolding update observe_all
  update-lookup now k [] s = refl
  update-lookup now k (v ∷ vs) s =
      update-lookup now k vs (update_vehicle now v s).0
      ∙ ap (observe_all now k vs) (update_vehicle-lookup now k v s)

  observe_all-fresh :
      (now : Time) (k : String) (vs : List (Vehicle F)) (o : Option (Vehicle F))
      → (w : Vehicle F) × (o ≡ some w) × (w.updated_at ≡ now)
      → (w : Vehicle F) × (observe_all now k vs o ≡ some w) × (w.updated_at ≡ now)
  unfolding observe_all observe
  observe_all-fresh now k [] o h = h
  observe_all-fresh now k (v ∷ vs) o (w, e, t) = elim (string_discrete v.key k) [
    | no p ↦ rw (if_neg _ p) (observe_all-fresh now k vs o (w, e, t))
    | yes p ↦ rw (if_pos _ p) (
        observe_all-fresh now k vs (some (observe now v o))
          (observe now v o, refl, observe-fresh now v o))
  ]

  observe_all-reported :
      (now : Time) (v : Vehicle F) (vs : List (Vehicle F)) (o : Option (Vehicle F))
      → In v vs
      → (w : Vehicle F) × (observe_all now v.key vs o ≡ some w) × (w.updated_at ≡ now)
  unfolding observe_all
  observe_all-reported now v [] o h = absurd h
  observe_all-reported now v (u ∷ vs) o (inl e) =
      rw (if_pos (string_discrete u.key v.key) (ap (λ w. w.key) (sym e))) (
        observe_all-fresh now v.key vs (some (observe now u o))
          (observe now u o, refl, observe-fresh now u o))
  observe_all-reported now v (u ∷ vs) o (inr h) =
      observe_all-reported now v vs (ite (string_discrete u.key v.key) (some (observe now u o)) o) h

  -- Every vehicle of the batch is stored afterwards, with the time of the update on it, whether or
  -- not its record was replaced.
  pub update-reported :
      (now : Time) (v : Vehicle F) (vs : List (Vehicle F)) (s : Store F)
      → In v vs
      → (w : Vehicle F) × (lookup v.key (update now vs s).0.vehicles ≡ some w)
        × (w.updated_at ≡ now)
  update-reported now v vs s h =
      let (w, e, t) = observe_all-reported now v vs (lookup v.key s.vehicles) h in
      (w, update-lookup now v.key vs s ∙ e, t)

module _ {F : Type 0} where
  -- `PruneStale` keeps a vehicle whose last update is not before the cutoff.
  abbrev pub keep_fresh : Time → Option (Vehicle F) → Option (Vehicle F)
  keep_fresh cutoff none = none
  keep_fresh cutoff (some v) = if ltb_ℤ v.updated_at cutoff then none else some v

  prune_entry-lookup :
      (cutoff : Time) (j k : String) (v : Vehicle F) (s : Store F)
      → lookup j (prune_entry cutoff (k, v) s).0.vehicles
        ≡ ite
            (string_discrete k j)
            (if ltb_ℤ v.updated_at cutoff then none else lookup j s.vehicles)
            (lookup j s.vehicles)
  unfolding prune_entry
  prune_entry-lookup cutoff j k v s = ground (arith, lookup-delete j k s.vehicles)

  prune_loop-lookup :
      (cutoff : Time) (j : String) (entries : GoMap String (Vehicle F)) (s : Store F)
      → Distinct entries
      → Pending entries s
      → lookup j (prune_loop cutoff entries s).0.vehicles ≡ elim (lookup j entries) [
        | none ↦ lookup j s.vehicles
        | some v ↦ if ltb_ℤ v.updated_at cutoff then none else some v
      ]
  unfolding prune_loop lookup
  prune_loop-lookup cutoff j [] s d p = refl
  prune_loop-lookup cutoff j ((k, v) ∷ entries) s d p = ground (
    arith,
    prune_loop-lookup cutoff j entries (prune_entry cutoff (k, v) s).0 d.1
        (Pending-next cutoff k v entries s d.0 p.1),
    prune_entry-lookup cutoff j k v s,
  )

  -- On a store that satisfies the invariant `PruneStale` removes exactly the vehicles last updated
  -- before `now - staleAfter`, and changes no other.
  pub prune_stale-lookup :
      (now : Time) (k : String) (s : Store F)
      → Inv s
      → lookup k (prune_stale now s).0.vehicles
        ≡ keep_fresh (now -ℤ s.stale_after) (lookup k s.vehicles)
  unfolding prune_stale
  prune_stale-lookup now k s i =
      ground (
        arith,
        prune_loop-lookup (now -ℤ s.stale_after) k s.vehicles s i.distinct (Pending-all s i),
      )

  -- `d` tells of the removal of an entry that was last updated before the cutoff.
  abbrev pub Removal : Time → GoMap String (Vehicle F) → VehicleDelta F → Type 0
  Removal cutoff m d =
      (k : String) × (v : Vehicle F) × In (k, v) m
      × (v.updated_at <ℤ cutoff)
      × (d ≡ remove_delta k v)

  prune_entry_sound :
      (cutoff : Time) (d : VehicleDelta F) (k : String) (v : Vehicle F) (s : Store F)
      → In d (prune_entry cutoff (k, v) s).1
      → (v.updated_at <ℤ cutoff) × (d ≡ remove_delta k v)
  unfolding prune_entry
  prune_entry_sound cutoff d k v s h = ground arith

  prune_entry_complete :
      (cutoff : Time) (k : String) (v : Vehicle F) (s : Store F)
      → v.updated_at <ℤ cutoff
      → In (remove_delta k v) (prune_entry cutoff (k, v) s).1
  unfolding prune_entry
  prune_entry_complete cutoff k v s h = ground arith

  prune_loop_sound :
      (cutoff : Time) (d : VehicleDelta F) (m : GoMap String (Vehicle F)) (s : Store F)
      → In d (prune_loop cutoff m s).1
      → Removal cutoff m d
  unfolding prune_loop
  prune_loop_sound cutoff d [] s h = absurd h
  prune_loop_sound cutoff d ((k, v) ∷ m) s h = elim (In-append d _ _ h) [
    | inl l ↦ let (t, e) = prune_entry_sound cutoff d k v s l in (k, v, inl refl, t, e)
    | inr r ↦
        let (j, w, i, t, e) = prune_loop_sound cutoff d m (prune_entry cutoff (k, v) s).0 r in
        (j, w, inr i, t, e)
  ]

  prune_loop_complete :
      (cutoff : Time) (j : String) (w : Vehicle F) (m : GoMap String (Vehicle F)) (s : Store F)
      → In (j, w) m
      → w.updated_at <ℤ cutoff
      → In (remove_delta j w) (prune_loop cutoff m s).1
  unfolding prune_loop
  prune_loop_complete cutoff j w [] s h t = absurd h
  prune_loop_complete cutoff j w ((k, v) ∷ m) s (inl e) t =
      In-append_left (remove_delta j w) (prune_entry cutoff (k, v) s).1
        (prune_loop cutoff m (prune_entry cutoff (k, v) s).0).1
        (subst (λ x. In (remove_delta x.0 x.1) (prune_entry cutoff (k, v) s).1) (sym e)
          (prune_entry_complete cutoff k v s (subst (λ x. x.1.updated_at <ℤ cutoff) e t)))
  prune_loop_complete cutoff j w ((k, v) ∷ m) s (inr i) t =
      In-append_right _ _ _ (prune_loop_complete cutoff j w m (prune_entry cutoff (k, v) s).0 i t)

  -- The changes that `PruneStale` returns are the removals of the stored vehicles that are stale,
  -- all of them and no other.
  pub prune_stale-deltas :
      (now : Time) (d : VehicleDelta F) (s : Store F)
      → In d (prune_stale now s).1 ↔ Removal (now -ℤ s.stale_after) s.vehicles d
  unfolding prune_stale
  prune_stale-deltas now d s = (
    prune_loop_sound _ d s.vehicles s,
    λ (k, v, i, t, e).
        subst (λ c. In c (prune_loop (now -ℤ s.stale_after) s.vehicles s).1) (sym e)
          (prune_loop_complete _ k v s.vehicles s i t),
  )
