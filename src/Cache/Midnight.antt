-- ===== src/Cache/Midnight.antt =====
-- ScheduleMidnightRefresh of internal/cache/warmer.go. `start_of d` is `time.Date` at midnight of the
-- day `d`.
use wabus_backend.Prelude.{
  pos, ◌*◌, ◌^◌, ◌+ℤ◌, ◌-ℤ◌, ◌<ℤ◌, +ℤ_parts, -ℤ_parts, arith, List, [], ◌∷◌,
}
use wabus_backend.Domain.{Time, Duration}
use wabus_backend.Gtfs.Dates.{Date, tomorrow}
use wabus_backend.Gtfs.Store.{GtfsStore}
use wabus_backend.Cache.Warmer.{CacheLink, warm_all}

abbrev five_minutes : Duration
five_minutes = pos (300 * 10 ^ 9)

-- What ends a wait: the context, or the timer, at a time and with the timetables of that time.
pub data Wake (F : Type 0) : Type 0 where
  cancelled : Wake F
  timer : Time → GtfsStore F → Wake F

module _ {F R B : Type 0} (w : CacheLink F R B) where
  -- How long a round that starts at `now` waits.
  unfoldable pub wait_duration : (Date → Time) → Time → Duration
  wait_duration start_of now = start_of (tomorrow (w.date_of now)) +ℤ five_minutes -ℤ now

  -- The loop, on the way each wait ends.
  unfoldable pub schedule_midnight_refresh : Duration → List (Wake F) → R → R
  schedule_midnight_refresh ttl [] r = r
  schedule_midnight_refresh ttl (cancelled ∷ wakes) r = r
  schedule_midnight_refresh ttl (timer now s ∷ wakes) r =
      schedule_midnight_refresh ttl wakes (warm_all w ttl now (w.date_of now) s r)

  -- If each time comes before the start of the next day, a wait is longer than five minutes, so the
  -- loop does not spin.
  wait_duration_lem :
      (start_of : Date → Time) (now : Time)
      → now <ℤ start_of (tomorrow (w.date_of now))
      → five_minutes <ℤ wait_duration start_of now
  unfolding wait_duration
  wait_duration_lem start_of now h =
      let midnight = start_of (tomorrow (w.date_of now)) in
      omega (arith, h, +ℤ_parts midnight five_minutes, -ℤ_parts (midnight +ℤ five_minutes) now)
