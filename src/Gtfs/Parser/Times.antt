-- ===== src/Gtfs/Parser/Times.antt =====
-- The times that internal/store/gtfs_store.go writes, read by pkg/gtfs/parser.go.
use wabus_backend.Prelude.{
  ℕ, ◌+◌, ◌*◌, ◌/◌, ◌%◌, ◌^◌, ◌<◌, ◌≡◌, ◌∙◌, refl, ap, arith, [], ◌∷◌, two_digits, atoi-two_digits,
  split-two_digits, split-two_digits_end,
}
use wabus_backend.Gtfs.Parser.{parse_gtfs_time, seconds_of_parts}
use wabus_backend.Gtfs.Store.{format_gtfs_time}

seconds_of_three :
    (h m s : ℕ)
    → h < 2 ^ 32
    → m < 2 ^ 32
    → s < 2 ^ 32
    → seconds_of_parts (two_digits h ∷ two_digits m ∷ two_digits s ∷ []) ≡ h * 3600 + m * 60 + s
unfolding seconds_of_parts
seconds_of_three h m s a b c =
    rw (atoi-two_digits h a, atoi-two_digits m b, atoi-two_digits s c) refl

-- A `uint32` number of seconds that is written as a time is read back as the same number, also past
-- midnight and past 99 hours.
pub parse-format : (n : ℕ) → n < 2 ^ 32 → parse_gtfs_time (format_gtfs_time n) ≡ n
unfolding parse_gtfs_time format_gtfs_time
parse-format n h =
    ap seconds_of_parts (
      split-two_digits (n / 3600) _ (omega (arith, h))
      ∙ ap (λ rest. two_digits (n / 3600) ∷ rest)
          (split-two_digits (n % 3600 / 60) _ (omega arith)
            ∙ ap (λ rest. two_digits (n % 3600 / 60) ∷ rest)
                (split-two_digits_end (n % 60) (omega arith))))
    ∙ seconds_of_three (n / 3600) (n % 3600 / 60) (n % 60) (omega (arith, h)) (omega arith)
        (omega arith)
    ∙ omega arith
