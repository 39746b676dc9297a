-- ===== src/Gtfs/Services.antt =====
-- `getActiveServices` of internal/store/gtfs_store.go: the services that run on a date.
pub mod Active
use mathlib.Core.Option
use wabus_backend.Prelude.{
  ℕ, ℤ, pos, ◌≡◌, ◌∙◌, ap, refl, inl, inr, ite, Bool, true, false, ◌||◌, ◌&&◌, not, ◌==◌, Option,
  none, some, List, [], ◌∷◌, arith, String, string_key, string_discrete, int_key, same, ltb_text,
  if◌then◌else◌, Bool-cases, Option-cases, is_some,
}
use wabus_backend.GoMap.{GoMap, lookup, insert, delete, Distinct}
use wabus_backend.GoMap.Laws.{lookup-insert, lookup-delete}
use wabus_backend.Gtfs.{Calendar, CalendarDate}

-- `active[k]`, where a missing key reads as false
unfoldable pub flag : String → GoMap String Bool → Bool
flag k active = elim (lookup k active) [ none ↦ false | some b ↦ b ]

-- The `switch` on the weekday.
unfoldable pub runs_on : ℕ → Calendar → Bool
runs_on weekday cal =
    if weekday == 1
    then cal.monday
    else if weekday == 2
    then cal.tuesday
    else if weekday == 3
    then cal.wednesday
    else if weekday == 4
    then cal.thursday
    else if weekday == 5
    then cal.friday
    else if weekday == 6
    then cal.saturday
    else if weekday == 0
    then cal.sunday
    else false

unfoldable pub calendar_step :
    String → ℕ → String × Calendar → GoMap String Bool → GoMap String Bool
calendar_step date weekday (service, cal) active =
    if ltb_text date cal.start_date || ltb_text cal.end_date date
    then active
    else if runs_on weekday cal
    then insert service true active
    else active

-- The first loop.
unfoldable pub calendar_loop :
    String → ℕ → GoMap String Calendar → GoMap String Bool → GoMap String Bool
calendar_loop date weekday [] active = active
calendar_loop date weekday (entry ∷ calendars) active =
    calendar_loop date weekday calendars (calendar_step date weekday entry active)

unfoldable pub exception_step :
    String → String → CalendarDate → GoMap String Bool → GoMap String Bool
exception_step date service cd active =
    if same cd.date date
    then (if same cd.exception_type (pos 1)
        then insert service true active
        else if same cd.exception_type (pos 2)
        then delete service active
        else active)
    else active

unfoldable pub exception_loop :
    String → String → List CalendarDate → GoMap String Bool → GoMap String Bool
exception_loop date service [] active = active
exception_loop date service (cd ∷ dates) active =
    exception_loop date service dates (exception_step date service cd active)

-- The second loop.
unfoldable pub exceptions_loop :
    String → GoMap String (List CalendarDate) → GoMap String Bool → GoMap String Bool
exceptions_loop date [] active = active
exceptions_loop date ((service, dates) ∷ calendar_dates) active =
    exceptions_loop date calendar_dates (exception_loop date service dates active)

-- `getActiveServices`
unfoldable pub get_active_services :
    GoMap String Calendar → GoMap String (List CalendarDate) → String → ℕ → GoMap String Bool
get_active_services calendars calendar_dates date weekday =
    exceptions_loop date calendar_dates (calendar_loop date weekday calendars [])
