-- ===== src/Gtfs/Dates.antt =====
-- What the code uses of Go's `time.Time`: the day of the Gregorian calendar, `AddDate` by one
-- day, `Weekday`, two layouts of `Format`, and `Parse`.
use Prim.Native.String.{len}
use wabus_backend.Prelude.Numerals.{scanned}
use wabus_backend.Prelude.{
  ℕ, zero, suc, ℤ, pos, ◌+◌, ◌-◌, ◌*◌, ◌/◌, ◌%◌, ◌^◌, ◌-ℤ◌, ◌*ℤ◌, leb, split, scan, Option, List,
  ◌≡◌, refl, Bool, not, ◌&&◌, ◌||◌, ◌==◌, ltb, if◌then◌else◌, String, decimal, digits_loop,
  two_digits, ◌<>◌, none, some, [], ◌∷◌, get_elem?,
}

pub record Date : Type 0 where
  pub year : ℕ
  pub month : ℕ
  pub day : ℕ

abbrev pub divides : ℕ → ℕ → Bool
divides a b = b % a == 0

unfoldable pub is_leap : ℕ → Bool
is_leap year = divides 4 year && (not (divides 100 year) || divides 400 year)

unfoldable pub days_in : ℕ → ℕ → ℕ
days_in year month =
    if month == 2
    then (if is_leap year then 29 else 28)
    else if month == 4 || month == 6 || month == 9 || month == 11
    then 30
    else 31

unfoldable pub yesterday : Date → Date
yesterday d =
    if ltb 1 d.day
    then record d { day = d.day - 1 }
    else if ltb 1 d.month
    then record { year = d.year; month = d.month - 1; day = days_in d.year (d.month - 1) }
    else record { year = d.year - 1; month = 12; day = 31 }

-- `AddDate(0, 0, 1)`
unfoldable pub tomorrow : Date → Date
tomorrow d =
    if ltb d.day (days_in d.year d.month)
    then record d { day = d.day + 1 }
    else if ltb d.month 12
    then record { year = d.year; month = d.month + 1; day = 1 }
    else record { year = d.year + 1; month = 1; day = 1 }

-- Days from a fixed Sunday, through the day before the first of the month.
abbrev month_offset : ℕ → ℕ
month_offset month =
    elim (get_elem? (0 ∷ 3 ∷ 2 ∷ 5 ∷ 0 ∷ 3 ∷ 5 ∷ 1 ∷ 4 ∷ 6 ∷ 2 ∷ 4 ∷ []) (month - 1)) [
      | none ↦ 0
      | some n ↦ n
    ]

-- Sunday is 0, as in Go.
unfoldable pub weekday : Date → ℕ
weekday d =
    let y = if ltb d.month 3 then d.year - 1 else d.year in
    (y + y / 4 - y / 100 + y / 400 + month_offset d.month + d.day) % 7

unfoldable pub compact_date : Date → String
compact_date d =
    (if ltb d.year 1000 then "0" else "")
    <> (if ltb d.year 100 then "0" else "")
    <> (if ltb d.year 10 then "0" else "")
    <> decimal d.year
    <> two_digits d.month
    <> two_digits d.day

-- `Format("2006-01-02")`
unfoldable pub iso_date : Date → String
iso_date d =
    (if ltb d.year 1000 then "0" else "")
    <> (if ltb d.year 100 then "0" else "")
    <> (if ltb d.year 10 then "0" else "")
    <> decimal d.year
    <> "-"
    <> two_digits d.month
    <> "-"
    <> two_digits d.day

-- A number of exactly so many digits.
unfoldable pub fixed_number : ℕ → String → Option ℕ
fixed_number size text = elim (scan 0 text) [
  | scanned n ↦ if len text == size then some n else none
  | _ ↦ none
]

abbrev pub date_of_numbers : Option ℕ → Option ℕ → Option ℕ → Option Date
date_of_numbers (some y) (some m) (some d) =
    if leb 1 m && leb m 12 && leb 1 d && leb d (days_in y m)
    then some (record { year = y; month = m; day = d })
    else none
date_of_numbers _ _ _ = none

abbrev pub date_of_parts : List String → Option Date
date_of_parts (y ∷ m ∷ d ∷ []) =
    date_of_numbers (fixed_number 4 y) (fixed_number 2 m) (fixed_number 2 d)
date_of_parts _ = none

-- `time.Parse("2006-01-02", text)`
unfoldable pub parse_iso_date : String → Option Date
parse_iso_date text = date_of_parts (split 45 text)

unfoldable pub days_before_month : ℕ → ℕ → ℕ
days_before_month year zero = 0
days_before_month year (suc zero) = 0
days_before_month year (suc (suc m)) = days_before_month year (suc m) + days_in year (suc m)

-- Midnight in UTC, in nanoseconds from the zero time, the first day of the year 1. Four centuries are
-- added, and taken off again, so that the year 0 is counted too.
unfoldable pub midnight : Date → ℤ
midnight d =
    let y = d.year + 399 in
    let days = 365 * y + y / 4 - y / 100 + y / 400 + days_before_month d.year d.month + d.day in
    (pos (days * 86400) -ℤ pos (146098 * 86400)) *ℤ 10 ^ 9

midnight-days :
    (midnight (record { year = 1; month = 1; day = 1 }) ≡ pos 0)
    × (midnight (record { year = 1970; month = 1; day = 1 }) ≡ pos (62135596800 * 10 ^ 9))
    × (parse_iso_date "1970-01-01" ≡ some (record { year = 1970; month = 1; day = 1 }))
    × (parse_iso_date "1970-02-29" ≡ none)
    × (iso_date (record { year = 970; month = 1; day = 12 }) ≡ "0970-01-12")
unfolding midnight days_before_month days_in is_leap ◌-ℤ◌ ◌*ℤ◌ parse_iso_date fixed_number split
    scan iso_date decimal digits_loop two_digits
midnight-days = (refl, refl, refl, refl, refl)

new_year : Date
new_year = record { year = 2024; month = 1; day = 1 }

yesterday-new_year :
    (compact_date new_year ≡ "20240101")
    × (weekday new_year ≡ 1)
    × (compact_date (yesterday new_year) ≡ "20231231")
    × (weekday (yesterday new_year) ≡ 0)
unfolding compact_date weekday yesterday new_year decimal digits_loop two_digits
yesterday-new_year = (refl, refl, refl, refl)
