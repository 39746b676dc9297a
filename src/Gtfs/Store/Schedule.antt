-- ===== src/Gtfs/Store/Schedule.antt =====
-- The two schedules of a stop in internal/store/gtfs_store.go.
use mathlib.Core.Option
use wabus_backend.Prelude.{
  ◌≡◌, ap, refl, inl, inr, Bool, some, List, [], ◌∷◌, arith, String, string_key, if◌then◌else◌,
  get_elem?, Option-cases,
}
use wabus_backend.GoMap.{GoMap, lookup}
use wabus_backend.Gtfs.{StopTime, StopTimeCompact}
use wabus_backend.Gtfs.Dates.{Date}
use wabus_backend.Gtfs.Services.{flag}
use wabus_backend.Gtfs.Store.{
  GtfsStore, decode_trip, decode_stop_time, decode_loop, decode_active_loop, services_on,
  get_stop_schedule, get_stop_schedule_for_date,
}

-- The stop times whose service runs.
abbrev pub running : GoMap String Bool → List StopTime → List StopTime
running active [] = []
running active (st ∷ stop_times) =
    if flag st.service_id active then st ∷ running active stop_times else running active stop_times

module _ {F : Type 0} where
  decode_active_loop_lem :
      (active : GoMap String Bool) (schedule : List StopTimeCompact) (s : GtfsStore F)
      → decode_active_loop active schedule s ≡ running active (decode_loop schedule s)
  unfolding decode_active_loop decode_loop decode_stop_time decode_trip
  decode_active_loop_lem active [] s = refl
  decode_active_loop_lem active (st ∷ schedule) s =
      let rest = decode_active_loop_lem active schedule s in
      elim (Option-cases (get_elem? s.feed.trips st.trip_index)) [
        | inl missing ↦ ground (arith, missing, rest)
        | inr (trip, e) ↦ ground (arith, e, rest)
      ]

  -- The schedule of a stop for a date is its whole schedule, cut down to the services that run on
  -- the date; a stop without a schedule has none.
  pub schedule_for_date_lem :
      (stop_id : String) (date : Date) (s : GtfsStore F)
      → get_stop_schedule_for_date stop_id date s
        ≡ Option.map (running (services_on date s)) (get_stop_schedule stop_id s)
  unfolding get_stop_schedule_for_date get_stop_schedule
  schedule_for_date_lem stop_id date s =
      elim (Option-cases (lookup stop_id s.feed.stop_schedules)) [
        | inl missing ↦ rw (missing, get_stop_schedule_for_date, get_stop_schedule) refl
        | inr (schedule, e) ↦
            rw (e, get_stop_schedule_for_date, get_stop_schedule)
              (ap some (decode_active_loop_lem (services_on date s) schedule s))
      ]
