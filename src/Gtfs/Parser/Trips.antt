-- ===== src/Gtfs/Parser/Trips.antt =====
-- The trip indices that pkg/gtfs/parser.go gives in trips.txt and uses in stop_times.txt.
use wabus_backend.Prelude.{
  ℕ, suc, ◌+◌, ◌^◌, ◌≤◌, ◌<◌, ◌≡◌, ◌∙◌, ap, refl, sym, subst, inl, inr, ◌&&◌, not, Option, none,
  some, List, [], ◌∷◌, ◌++◌, arith, String, string_key, string_discrete, same, length,
  length-append, get_elem?, In, In-append, Bool-cases, Option-cases,
}
use wabus_backend.GoMap.{GoMap, lookup, insert}
use wabus_backend.GoMap.Laws.{lookup-insert}
use wabus_backend.Gtfs.{TripMeta, StopTimeCompact}
use wabus_backend.Gtfs.Parser.{
  Record, make_index, get_field, ParseResult, TripLoop, append_at, ids_or_nil, read_trip,
  read_stop_time, add_trip, add_route_shape, trip_row, trips_loop, parse_trips, add_stop_time,
  stop_time_row, stop_times_loop, parse_stop_times,
}
use wabus_backend.Gtfs.Parser.Indexed.{IsIndexed, carried-IsIndexed, new_trip-IsIndexed}

module _ {F : Type 0} where
  -- The trips and their index; what the loops keep of it.
  abbrev pub AreIndexed : ParseResult F → Type 0
  AreIndexed r = IsIndexed r.feed.trips r.trip_index

  add_trip-IsIndexed :
      (trip : TripMeta) (r : ParseResult F)
      → length r.feed.trips < 2 ^ 32
      → AreIndexed r
      → AreIndexed (add_trip trip r)
        × (length (add_trip trip r).feed.trips ≤ suc (length r.feed.trips))
        × ((add_trip trip r).feed.stop_schedules ≡ r.feed.stop_schedules)
  unfolding add_trip
  add_trip-IsIndexed trip r small i =
      elim (Bool-cases (not (same trip.id "") && not (same trip.route_id ""))) [
        | inr unnamed ↦ rw (unnamed) (i, omega arith, refl)
        | inl named ↦ elim (Option-cases (lookup trip.id r.trip_index)) [
          | inr (n, known) ↦ rw (named, known) (i, omega arith, refl)
          | inl fresh ↦
              rw (named, fresh)
                (
                  new_trip-IsIndexed trip r.feed.trips r.trip_index small fresh i,
                  omega (arith, length-append r.feed.trips (trip ∷ [])),
                  refl,
                )
        ]
      ]

  add_route_shape-frame :
      (trip : TripMeta) (l : TripLoop F)
      → ((add_route_shape trip l).result.feed.trips ≡ l.result.feed.trips)
        × ((add_route_shape trip l).result.trip_index ≡ l.result.trip_index)
        × ((add_route_shape trip l).result.feed.stop_schedules ≡ l.result.feed.stop_schedules)
  unfolding add_route_shape
  add_route_shape-frame trip l = ground arith

  trip_row-AreIndexed :
      (idx : GoMap String ℕ) (row : Record) (l : TripLoop F)
      → length l.result.feed.trips < 2 ^ 32
      → AreIndexed l.result
      → AreIndexed (trip_row idx row l).result
        × (length (trip_row idx row l).result.feed.trips ≤ suc (length l.result.feed.trips))
        × ((trip_row idx row l).result.feed.stop_schedules ≡ l.result.feed.stop_schedules)
  unfolding trip_row
  trip_row-AreIndexed idx row l small i =
      let trip = read_trip row idx in
      let (indexed, bound, kept) = add_trip-IsIndexed trip l.result small i in
      let (trips, index, schedules) =
        add_route_shape-frame trip (record l { result = add_trip trip l.result }) in
      (
        carried-IsIndexed trips index indexed,
        omega (arith, ap length trips, bound),
        schedules ∙ kept,
      )

  pub trips_loop-AreIndexed :
      (idx : GoMap String ℕ) (rows : List (Option Record)) (l : TripLoop F)
      → length l.result.feed.trips + length rows ≤ 2 ^ 32
      → AreIndexed l.result
      → AreIndexed (trips_loop idx rows l).0.result
        × ((trips_loop idx rows l).0.result.feed.stop_schedules ≡ l.result.feed.stop_schedules)
  unfolding trips_loop
  trips_loop-AreIndexed idx [] l small i = (i, refl)
  trips_loop-AreIndexed idx (none ∷ rows) l small i = (i, refl)
  trips_loop-AreIndexed idx (some row ∷ rows) l small i =
      let (indexed, bound, kept) = trip_row-AreIndexed idx row l (omega (arith, small)) i in
      let (rest, kept') =
        trips_loop-AreIndexed idx rows (trip_row idx row l) (omega (arith, small, bound)) indexed in
      (rest, kept' ∙ kept)

  -- Every stop time names a trip, the one that its index is registered for.
  abbrev pub Resolves : ParseResult F → Type 0
  Resolves r =
      (stop : String) (st : StopTimeCompact)
      → In st (ids_or_nil (lookup stop r.feed.stop_schedules))
      → (t : TripMeta) × (get_elem? r.feed.trips st.trip_index ≡ some t)
        × (lookup t.id r.trip_index ≡ some st.trip_index)

  add_stop_time-Resolves :
      (idx : GoMap String ℕ) (row : Record) (o : Option ℕ) (r : ParseResult F)
      → lookup (get_field row idx "trip_id") r.trip_index ≡ o
      → AreIndexed r
      → Resolves r
      → Resolves (add_stop_time idx row o r) × AreIndexed (add_stop_time idx row o r)
  unfolding add_stop_time append_at read_stop_time
  add_stop_time-Resolves idx row none r e i h = (h, i)
  add_stop_time-Resolves idx row (some n) r e i h =
      elim (Bool-cases (same (get_field row idx "stop_id") "")) [
        | inl nameless ↦ rw nameless (h, i)
        | inr named ↦ rw named (resolved, i)
      ]
    where
      stop : String
      stop = get_field row idx "stop_id"

      st : StopTimeCompact
      st = read_stop_time row idx n

      old : List StopTimeCompact
      old = ids_or_nil (lookup stop r.feed.stop_schedules)

      stored : GoMap String (List StopTimeCompact)
      stored = insert stop (old ++ st ∷ []) r.feed.stop_schedules

      Names : StopTimeCompact → Type 0
      Names u =
          (t : TripMeta) × (get_elem? r.feed.trips u.trip_index ≡ some t)
          × (lookup t.id r.trip_index ≡ some u.trip_index)

      resolved :
          (stop' : String) (st' : StopTimeCompact)
          → In st' (ids_or_nil (lookup stop' stored))
          → (t : TripMeta) × (get_elem? r.feed.trips st'.trip_index ≡ some t)
            × (lookup t.id r.trip_index ≡ some st'.trip_index)
      resolved stop' st' m = elim (string_discrete stop stop') [
        | no p ↦
            let kept : lookup stop' stored ≡ lookup stop' r.feed.stop_schedules =
              ground (arith, p, lookup-insert stop' stop (old ++ st ∷ []) r.feed.stop_schedules) in
            h stop' st' (subst (λ o. In st' (ids_or_nil o)) kept m)
        | yes p ↦
            let longer : lookup stop' stored ≡ some (old ++ st ∷ []) =
              ground (arith, p, lookup-insert stop' stop (old ++ st ∷ []) r.feed.stop_schedules) in
            elim (In-append st' old (st ∷ []) (subst (λ o. In st' (ids_or_nil o)) longer m)) [
              | inl before ↦ h stop st' before
              | inr (inl new) ↦
                  let (t, at, named_so) = i.found (get_field row idx "trip_id") n e in
                  subst Names (sym new) (t, at, ap (λ j. lookup j r.trip_index) named_so ∙ e)
              | inr (inr nothing) ↦ absurd nothing
            ]
      ]

  pub stop_times_loop-Resolves :
      (idx : GoMap String ℕ) (rows : List (Option Record)) (r : ParseResult F)
      → AreIndexed r
      → Resolves r
      → Resolves (stop_times_loop idx rows r).0
  unfolding stop_times_loop stop_time_row
  stop_times_loop-Resolves idx [] r i h = h
  stop_times_loop-Resolves idx (none ∷ rows) r i h = h
  stop_times_loop-Resolves idx (some row ∷ rows) r i h =
      let (resolved, indexed) = add_stop_time-Resolves idx row _ r refl i h in
      stop_times_loop-Resolves idx rows _ indexed resolved

  -- From a result without trips and stop times, and with at most 2^32 rows of trips: every stop
  -- time that is stored names a trip that is stored, and the trip's index is the one registered
  -- under the trip's id; also where a file breaks off at a refused row.
  pub stop_times_resolve :
      (trip_header : List String) (trip_rows : List (Option Record)) (time_header : List String)
      (time_rows : List (Option Record)) (r : ParseResult F)
      → r.feed.trips ≡ []
      → r.trip_index ≡ []
      → r.feed.stop_schedules ≡ []
      → length trip_rows ≤ 2 ^ 32
      → Resolves (parse_stop_times time_header time_rows (parse_trips trip_header trip_rows r).0).0
  unfolding parse_trips parse_stop_times lookup
  stop_times_resolve trip_header trip_rows time_header time_rows r no_trips no_index no_times
        small =
      let (indexed, kept) =
        trips_loop-AreIndexed (make_index trip_header) trip_rows (record { result = r; seen = [] })
          (omega (arith, small, ap length no_trips))
          (carried-IsIndexed no_trips no_index
            (record { found = λ id i e. absurd (cc); listed = λ i t e. absurd (cc) })) in
      stop_times_loop-Resolves (make_index time_header) time_rows _ indexed
        (λ stop st m. absurd (subst (λ s. In st (ids_or_nil (lookup stop s))) (kept ∙ no_times) m))
