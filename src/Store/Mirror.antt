-- ===== src/Store/Mirror.antt =====
-- A reader that starts from a copy of the vehicle store and applies the changes that `Update` and
-- `PruneStale` return (internal/store/store.go) stays a copy, but for the update times.
use mathlib.Core.Option
use wabus_backend.Prelude.{
  ◌≡◌, ◌∙◌, ap, refl, Option, none, some, List, [], ◌∷◌, ◌++◌, arith, String, pos, string_key,
}
use wabus_backend.Domain.{
  Float64, Vehicle, VehicleDelta, Time, DeltaType, delta_update, delta_remove,
}
use wabus_backend.GoMap.{GoMap, lookup, insert, delete}
use wabus_backend.GoMap.Laws.{lookup-insert, lookup-delete}
use wabus_backend.Store.{
  Store, update_entry, update_vehicle, update, prune_entry, prune_loop, prune_stale, stamp,
}

module _ {F : Type 0} where
  -- What a reader does with a change: `vehicle` is stored under its key, `key` is dropped.
  abbrev write_vehicle : Option (Vehicle F) → GoMap String (Vehicle F) → GoMap String (Vehicle F)
  write_vehicle none m = m
  write_vehicle (some v) m = insert v.key v m

  abbrev apply_as : DeltaType → VehicleDelta F → GoMap String (Vehicle F) → GoMap String (Vehicle F)
  apply_as delta_update d m = write_vehicle d.vehicle m
  apply_as delta_remove d m = delete d.delta_key m

  unfoldable pub replay :
      List (VehicleDelta F) → GoMap String (Vehicle F) → GoMap String (Vehicle F)
  replay [] m = m
  replay (d ∷ ds) m = replay ds (apply_as d.delta_type d m)

  -- The two maps hold the same vehicles, up to the update times.
  abbrev pub unstamped : Option (Vehicle F) → Option (Vehicle F)
  unstamped = Option.map (stamp (pos 0))

  abbrev pub Agrees : GoMap String (Vehicle F) → Store F → Type 0
  Agrees m s = (k : String) → unstamped (lookup k m) ≡ unstamped (lookup k s.vehicles)

  pub replay-append :
      (ds es : List (VehicleDelta F)) (m : GoMap String (Vehicle F))
      → replay (ds ++ es) m ≡ replay es (replay ds m)
  unfolding replay
  replay-append [] es m = refl
  replay-append (d ∷ ds) es m = replay-append ds es (apply_as d.delta_type d m)

  prune_entry-Agrees :
      (cutoff : Time) (k : String) (v : Vehicle F) (s : Store F) (m : GoMap String (Vehicle F))
      → Agrees m s
      → Agrees (replay (prune_entry cutoff (k, v) s).1 m) (prune_entry cutoff (k, v) s).0
  unfolding prune_entry replay
  prune_entry-Agrees cutoff k v s m h j =
      ground (arith, lookup-delete j k m, lookup-delete j k s.vehicles, h j)

  prune_loop-Agrees :
      (cutoff : Time) (entries : GoMap String (Vehicle F)) (s : Store F)
      (m : GoMap String (Vehicle F))
      → Agrees m s
      → Agrees (replay (prune_loop cutoff entries s).1 m) (prune_loop cutoff entries s).0
  unfolding prune_loop replay
  prune_loop-Agrees cutoff [] s m h j = h j
  prune_loop-Agrees cutoff ((k, v) ∷ entries) s m h j =
      let r = prune_entry cutoff (k, v) s in
      ap (λ n. unstamped (lookup j n)) (replay-append r.1 (prune_loop cutoff entries r.0).1 m)
      ∙ prune_loop-Agrees cutoff entries r.0 (replay r.1 m) (prune_entry-Agrees cutoff k v s m h) j

  -- The changes that `PruneStale` returns take a copy of the store to a copy of the pruned store.
  pub prune_stale-Agrees :
      (now : Time) (s : Store F) (m : GoMap String (Vehicle F))
      → Agrees m s
      → Agrees (replay (prune_stale now s).1 m) (prune_stale now s).0
  unfolding prune_stale
  prune_stale-Agrees now s m h = prune_loop-Agrees _ s.vehicles s m h

  module _ ⦃f : Float64 F⦄ where
    update_entry-Agrees :
        (now : Time) (v : Vehicle F) (o : Option (Vehicle F)) (s : Store F)
        (m : GoMap String (Vehicle F))
        → lookup v.key s.vehicles ≡ o
        → Agrees m s
        → Agrees (replay (update_entry now v o s).1 m) (update_entry now v o s).0
    unfolding update_entry replay
    update_entry-Agrees now v none s m e h j =
        ground (arith, lookup-insert j v.key v m, lookup-insert j v.key v s.vehicles, h j)
    update_entry-Agrees now v (some u) s m e h j = ground (
      arith,
      lookup-insert j v.key v m,
      lookup-insert j v.key v s.vehicles,
      lookup-insert j v.key (stamp now u) s.vehicles,
      h j,
    )

    -- The changes that `Update` returns take a copy of the store to a copy of the updated store.
    pub update-Agrees :
        (now : Time) (vs : List (Vehicle F)) (s : Store F) (m : GoMap String (Vehicle F))
        → Agrees m s
        → Agrees (replay (update now vs s).1 m) (update now vs s).0
    unfolding update replay update_vehicle
    update-Agrees now [] s m h j = h j
    update-Agrees now (v ∷ vs) s m h j =
        let r = update_vehicle now v s in
        ap (λ n. unstamped (lookup j n)) (replay-append r.1 (update now vs r.0).1 m)
        ∙ update-Agrees now vs r.0 (replay r.1 m)
            (update_entry-Agrees now (stamp now v) (lookup v.key s.vehicles) s m refl h) j
