-- ===== src/Ingestor/Copies.antt =====
-- What the ingestor (internal/ingestor/ingestor.go) hands to the broadcaster, replayed from nothing,
-- is a copy of the vehicle store.
use wabus_backend.Prelude.{
  ◌≡◌, refl, inl, inr, Bool, true, false, not, ◌||◌, List, [], ◌∷◌, ◌++◌, map, arith, String,
  string_key, is_some, ℤ, ltb, length, if◌then◌else◌, Bool-cases,
}
use wabus_backend.Domain.{Float64, Vehicle, VehicleDelta, Time, Duration}
use wabus_backend.GoMap.{GoMap}
use wabus_backend.Store.{Store, new_store, update, prune_stale}
use wabus_backend.Store.Invariant.{Inv}
use wabus_backend.Store.Preserve.{new_store-Inv, update-Inv, prune_stale-Inv}
use wabus_backend.Store.Mirror.{replay, Agrees, update-Agrees, prune_stale-Agrees}
use wabus_backend.Hub.Tile.{FloatMath}
use wabus_backend.Ingestor.{
  Ingestor, Fetched, Tick, polls, prunes, new_ingestor, is_ready, send_deltas, prune, place_vehicle,
  poll, run,
}

module _ {F : Type 0} where
  unfoldable pub replay_batches :
      List (List (VehicleDelta F)) → GoMap String (Vehicle F) → GoMap String (Vehicle F)
  replay_batches [] m = m
  replay_batches (ds ∷ batches) m = replay_batches batches (replay ds m)

  replay_batches-append :
      (batches : List (List (VehicleDelta F))) (ds : List (VehicleDelta F))
      (m : GoMap String (Vehicle F))
      → replay_batches (batches ++ ds ∷ []) m ≡ replay ds (replay_batches batches m)
  unfolding replay_batches
  replay_batches-append [] ds m = refl
  replay_batches-append (es ∷ batches) ds m = replay_batches-append batches ds (replay es m)

  -- The store is well formed, and the batches sent so far add up to it.
  pub record IsCurrent (i : Ingestor F) : Type 0 where
    pub store_inv : Inv i.store
    pub heard : i.has_broadcaster ≡ true
    pub copied : Agrees (replay_batches i.sent []) i.store

  send_deltas-IsCurrent :
      (s : Store F) (ds : List (VehicleDelta F)) (i : Ingestor F)
      → Inv s
      → i.has_broadcaster ≡ true
      → Agrees (replay ds (replay_batches i.sent [])) s
      → IsCurrent (send_deltas ds (record i { store = s }))
  unfolding send_deltas
  send_deltas-IsCurrent s ds i inv h a =
      rw h (record {
        store_inv = inv;
        heard = refl;
        copied = rw (replay_batches-append i.sent ds []) a;
      })

  silent-IsCurrent :
      (s : Store F) (ds : List (VehicleDelta F)) (i : Ingestor F)
      → Inv s
      → i.has_broadcaster ≡ true
      → ltb 0 (length ds) ≡ false
      → Agrees (replay ds (replay_batches i.sent [])) s
      → IsCurrent (record i { store = s })
  unfolding replay
  silent-IsCurrent s [] i inv h e a = record { store_inv = inv; heard = h; copied = a }
  silent-IsCurrent s (d ∷ ds) i inv h e a = ground (arith, e)

  prune-IsCurrent : (now : Time) (i : Ingestor F) → IsCurrent i → IsCurrent (prune now i)
  unfolding prune
  prune-IsCurrent now i c =
      let r = prune_stale now i.store in
      let inv = prune_stale-Inv now i.store c.store_inv in
      let agrees = prune_stale-Agrees now i.store (replay_batches i.sent []) c.copied in
      elim (Bool-cases (ltb 0 (length r.1))) [
        | inl e ↦ rw e (send_deltas-IsCurrent r.0 r.1 i inv c.heard agrees)
        | inr e ↦ rw e (silent-IsCurrent r.0 r.1 i inv c.heard e agrees)
      ]

  ready-IsCurrent :
      (b : Bool) (i : Ingestor F)
      → IsCurrent i
      → IsCurrent (if b then record i { ready = true } else i)
  ready-IsCurrent true i c = record { store_inv = c.store_inv; heard = c.heard; copied = c.copied }
  ready-IsCurrent false i c = c

  -- Some poll of the ticks had a fetch that went well.
  abbrev pub went_well : Fetched F → Fetched F → Bool
  went_well buses trams = not (is_some buses.fault) || not (is_some trams.fault)

  unfoldable pub some_fetch : List (Tick F) → Bool
  some_fetch [] = false
  some_fetch (polls now buses trams ∷ ticks) = went_well buses trams || some_fetch ticks
  some_fetch (prunes now ∷ ticks) = some_fetch ticks

  prune-ready : (now : Time) (i : Ingestor F) → (prune now i).ready ≡ i.ready
  unfolding prune send_deltas
  prune-ready now i = ground arith

  module _ ⦃f : Float64 F⦄ ⦃g : FloatMath F⦄ where
    poll-IsCurrent :
        (now : Time) (buses trams : Fetched F) (i : Ingestor F)
        → IsCurrent i
        → IsCurrent (poll now buses trams i)
    unfolding poll
    poll-IsCurrent now buses trams i c =
        let vs = map (place_vehicle i.zoom_level) (buses.found ++ trams.found) in
        let r = update now vs i.store in
        ready-IsCurrent _ _ (
          send_deltas-IsCurrent r.0 r.1 i (update-Inv now vs i.store c.store_inv) c.heard
            (update-Agrees now vs i.store (replay_batches i.sent []) c.copied))

    run-IsCurrent : (ticks : List (Tick F)) (i : Ingestor F) → IsCurrent i → IsCurrent (run ticks i)
    unfolding run
    run-IsCurrent [] i c = c
    run-IsCurrent (polls now buses trams ∷ ticks) i c =
        run-IsCurrent ticks _ (poll-IsCurrent now buses trams i c)
    run-IsCurrent (prunes now ∷ ticks) i c = run-IsCurrent ticks _ (prune-IsCurrent now i c)

    -- With a broadcaster, whatever the fetches return and whenever the tickers fire, the store
    -- stays well formed, and a listener that starts from nothing and applies every batch sent
    -- holds the stored vehicles, up to their update times.
    pub sent_copies :
        (d : Duration) (zoom : ℤ) (ticks : List (Tick F))
        → Inv (run ticks (new_ingestor d true zoom)).store
          × Agrees
              (replay_batches (run ticks (new_ingestor d true zoom)).sent [])
              (run ticks (new_ingestor d true zoom)).store
    unfolding new_ingestor new_store replay_batches
    sent_copies d zoom ticks =
        let c =
          run-IsCurrent ticks (new_ingestor d true zoom)
            (record { store_inv = new_store-Inv d; heard = refl; copied = λ k. refl }) in
        (c.store_inv, c.copied)

    poll-ready :
        (now : Time) (buses trams : Fetched F) (i : Ingestor F)
        → (poll now buses trams i).ready ≡ i.ready || went_well buses trams
    unfolding poll send_deltas is_ready
    poll-ready now buses trams i = ground arith

    -- The ingestor is ready when it was, or when a fetch of one of the polls went well.
    pub run-ready :
        (ticks : List (Tick F)) (i : Ingestor F)
        → is_ready (run ticks i) ≡ is_ready i || some_fetch ticks
    unfolding run is_ready some_fetch
    run-ready [] i = ground arith
    run-ready (polls now buses trams ∷ ticks) i =
        ground (arith, run-ready ticks (poll now buses trams i), poll-ready now buses trams i)
    run-ready (prunes now ∷ ticks) i =
        ground (arith, run-ready ticks (prune now i), prune-ready now i)
