-- ===== src/Gtfs/Services/Active.antt =====
-- Which services `getActiveServices` of internal/store/gtfs_store.go finds.
use wabus_backend.Prelude.{
  ℕ, pos, ◌≡◌, ◌∙◌, ap, refl, ite, Bool, true, false, ◌||◌, ◌&&◌, not, Option, none, some, List, [],
  ◌∷◌, arith, String, string_key, string_discrete, int_key, same, ltb_text, if◌then◌else◌,
}
use wabus_backend.GoMap.{GoMap, lookup, Distinct}
use wabus_backend.GoMap.Laws.{lookup-insert, lookup-delete}
use wabus_backend.Gtfs.{Calendar, CalendarDate}
use wabus_backend.Gtfs.Services.{
  flag, runs_on, calendar_step, calendar_loop, exception_step, exception_loop, exceptions_loop,
  get_active_services,
}

abbrev pub exceptions : Option (List CalendarDate) → List CalendarDate
exceptions none = []
exceptions (some dates) = dates

module _ (date : String) where
  -- The calendar covers the date, and runs on its weekday.
  abbrev pub covers : ℕ → Option Calendar → Bool
  covers weekday none = false
  covers weekday (some cal) =
      not (ltb_text date cal.start_date) && not (ltb_text cal.end_date date) && runs_on weekday cal

  -- The last exception of the date that adds or removes the service decides.
  abbrev pub excepted : List CalendarDate → Bool → Bool
  excepted [] active = active
  excepted (cd ∷ dates) active = excepted dates (
      if same cd.date date
      then (if same cd.exception_type (pos 1)
          then true
          else if same cd.exception_type (pos 2)
          then false
          else active)
      else active)

  calendar_step-flag :
      (weekday : ℕ) (k service : String) (cal : Calendar) (active : GoMap String Bool)
      → flag k (calendar_step date weekday (service, cal) active)
        ≡ ite
            (string_discrete service k)
            (covers weekday (some cal) || flag k active)
            (flag k active)
  unfolding calendar_step flag
  calendar_step-flag weekday k service cal active =
      ground (arith, lookup-insert k service true active)

  calendar_loop-flag :
      (weekday : ℕ) (k : String) (calendars : GoMap String Calendar) (active : GoMap String Bool)
      → Distinct calendars
      → flag k (calendar_loop date weekday calendars active)
        ≡ covers weekday (lookup k calendars) || flag k active
  unfolding calendar_loop lookup
  calendar_loop-flag weekday k [] active d = refl
  calendar_loop-flag weekday k ((service, cal) ∷ calendars) active d =
      calendar_loop-flag weekday k calendars (calendar_step date weekday (service, cal) active) d.1
      ∙ ground (arith, calendar_step-flag weekday k service cal active, d.0)

  exception_loop-flag :
      (k service : String) (dates : List CalendarDate) (active : GoMap String Bool)
      → flag k (exception_loop date service dates active)
        ≡ ite (string_discrete service k) (excepted dates (flag k active)) (flag k active)
  unfolding exception_loop exception_step flag
  exception_loop-flag k service [] active = ground arith
  exception_loop-flag k service (cd ∷ dates) active =
      exception_loop-flag k service dates (exception_step date service cd active)
      ∙ ground (arith, lookup-insert k service true active, lookup-delete k service active)

  exceptions_loop-flag :
      (k : String) (calendar_dates : GoMap String (List CalendarDate)) (active : GoMap String Bool)
      → Distinct calendar_dates
      → flag k (exceptions_loop date calendar_dates active)
        ≡ excepted (exceptions (lookup k calendar_dates)) (flag k active)
  unfolding exceptions_loop lookup
  exceptions_loop-flag k [] active d = refl
  exceptions_loop-flag k ((service, dates) ∷ calendar_dates) active d =
      exceptions_loop-flag k calendar_dates (exception_loop date service dates active) d.1
      ∙ ground (arith, exception_loop-flag k service dates active, d.0)

  -- Where no key stands twice in the two maps: a service runs on the date when its calendar covers
  -- it, but for its exceptions of that date, of which the last one that adds or removes the
  -- service decides.
  pub active_services_lem :
      (weekday : ℕ) (calendars : GoMap String Calendar)
      (calendar_dates : GoMap String (List CalendarDate)) (k : String)
      → Distinct calendars
      → Distinct calendar_dates
      → flag k (get_active_services calendars calendar_dates date weekday)
        ≡ excepted (exceptions (lookup k calendar_dates)) (covers weekday (lookup k calendars))
  unfolding get_active_services flag lookup
  active_services_lem weekday calendars calendar_dates k d e =
      exceptions_loop-flag k calendar_dates (calendar_loop date weekday calendars []) e
      ∙ ap (excepted (exceptions (lookup k calendar_dates)))
          (ground (arith, calendar_loop-flag weekday k calendars [] d))
