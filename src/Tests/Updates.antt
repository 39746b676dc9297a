-- ===== src/Tests/Updates.antt =====
-- Tests of internal/ingestor/gtfs_ingestor.go. An archive is a text, and is its own fingerprint.
use wabus_backend.Prelude.{
  ℤ, pos, ◌≡◌, true, false, Option, none, some, List, [], ◌∷◌, String, string_key, string_discrete,
  same, arith, if◌then◌else◌,
}
use wabus_backend.GoMap.{GoMap, lookup}
use wabus_backend.Gtfs.{Feed}
use wabus_backend.Ingestor.Timetable.{Attempt, new_gtfs_ingestor, run_updates}
use wabus_backend.Ingestor.Timetable.Unseen.{IsSound, uncached, some_parsed, cache_unseen}
use wabus_backend.Tests.Timetables.{feed}

abbrev parse_archive : String → Option (Feed ℤ)
parse_archive d = if same d "monday" then some feed else none

abbrev attempts : List (Attempt String)
attempts =
    record { now = pos 1; downloaded = some "monday"; readable = true; writable = true }
    ∷ record { now = pos 2; downloaded = none; readable = true; writable = true }
    ∷ record { now = pos 3; downloaded = some "monday"; readable = true; writable = false }
    ∷ record { now = pos 4; downloaded = some "broken"; readable = false; writable = true }
    ∷ []

-- The directory holds a result of an earlier run.
abbrev disk : GoMap String (Feed ℤ)
disk = ("monday", feed) ∷ []

disk-IsSound : IsSound (λ d. d) parse_archive disk
unfolding lookup
disk-IsSound d found h = elim (string_discrete "monday" d) [
  | yes p ↦ ground (arith, p, h)
  | no p ↦ absurd (ground (arith, p, h))
]

cache_unseen_example :
    ((run_updates (λ d. d) parse_archive attempts (new_gtfs_ingestor disk)).store
      ≡ uncached (λ d. d) parse_archive attempts (new_gtfs_ingestor disk).store)
    × ((run_updates (λ d. d) parse_archive attempts (new_gtfs_ingestor disk)).ready
        ≡ some_parsed (λ d. d) parse_archive attempts)
cache_unseen_example = cache_unseen (λ d. d) parse_archive attempts disk (λ d e p. p) disk-IsSound
