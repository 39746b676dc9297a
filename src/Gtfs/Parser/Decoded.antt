-- ===== src/Gtfs/Parser/Decoded.antt =====
-- The stop times that pkg/gtfs/parser.go stores are all shown by internal/store/gtfs_store.go.
use wabus_backend.Prelude.{
  ◌≡◌, refl, sym, subst, inl, inr, some, List, [], ◌∷◌, arith, String, string_key, length,
  get_elem?, In,
}
use wabus_backend.Domain.{Time}
use wabus_backend.GoMap.{lookup}
use wabus_backend.Gtfs.{StopTime, StopTimeCompact, TripMeta}
use wabus_backend.Gtfs.Parser.{ParseResult, ids_or_nil}
use wabus_backend.Gtfs.Parser.Trips.{Resolves}
use wabus_backend.Gtfs.Store.{
  GtfsStore, update_all, decode_trip, decode_stop_time, decode_loop, get_stop_schedule,
}

module _ {F : Type 0} where
  pub decode_loop-length :
      (schedule : List StopTimeCompact) (s : GtfsStore F)
      → ((st : StopTimeCompact)
          → In st schedule
          → (t : TripMeta) × (get_elem? s.feed.trips st.trip_index ≡ some t))
      → length (decode_loop schedule s) ≡ length schedule
  unfolding decode_loop decode_stop_time decode_trip
  decode_loop-length [] s h = refl
  decode_loop-length (st ∷ schedule) s h =
      let (t, e) = h st (inl refl) in
      ground (arith, e, decode_loop-length schedule s (λ u i. h u (inr i)))

  -- Where every stop time of a parse result names a trip, the timetable store that is updated with it
  -- shows all the stop times of a stop that has some, and drops none.
  pub schedule_complete :
      (stop : String) (schedule : List StopTimeCompact) (r : ParseResult F) (now : Time)
      (s : GtfsStore F)
      → Resolves r
      → lookup stop r.feed.stop_schedules ≡ some schedule
      → (shown : List StopTime) × (get_stop_schedule stop (update_all r.feed now s) ≡ some shown)
        × (length shown ≡ length schedule)
  unfolding get_stop_schedule update_all
  schedule_complete stop schedule r now s h e = (
    decode_loop schedule (update_all r.feed now s),
    rw (e, get_stop_schedule) refl,
    decode_loop-length schedule (update_all r.feed now s) (λ st i.
        let stored : In st (ids_or_nil (lookup stop r.feed.stop_schedules)) =
          subst (λ o. In st (ids_or_nil o)) (sym e) i in
        let (t, at, _) = h stop st stored in (t, at)),
  )
