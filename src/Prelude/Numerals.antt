-- ===== src/Prelude/Numerals.antt =====
-- Texts taken apart: `strings.Split` at a character, and `strconv.Atoi`.
use Prim.Native.Nat.{ℕ, zero, suc, ◌+◌, ◌-◌, ◌*◌, ◌^◌}
use Prim.Native.Char.{Char, code}
use Prim.Native.String.{String}
use mathlib.Core.Bool.{Bool, true, false, ◌||◌}
use mathlib.Core.List.{List, [], ◌∷◌}
use mathlib.Core.Path.{◌≡◌, refl}
use wabus_backend.Prelude.Tests.{ltb, leb, ◌==◌, if◌then◌else◌}
use wabus_backend.Prelude.Int.{ℤ, pos, negsuc}

abbrev prefix_first : Char → List String → List String
prefix_first c [] = []
prefix_first c (part ∷ parts) = (String.◌∷◌ c part) ∷ parts

-- `strings.Split(s, sep)`, for a separator of one character.
unfoldable pub split : ℕ → String → List String
split sep String.[] = String.[] ∷ []
split sep (String.◌∷◌ c s) =
    let rest = split sep s in if code c == sep then String.[] ∷ rest else prefix_first c rest

pub data Scan : Type 0 where
  scanned : ℕ → Scan
  out_of_range not_a_number : Scan

-- `ParseUint`, from the number read so far: the first character that is no digit, or that leaves the
-- 64 bits, ends the scan.
unfoldable pub scan : ℕ → String → Scan
scan n String.[] = scanned n
scan n (String.◌∷◌ c s) =
    let n' = 10 * n + (code c - 48) in
    let rest = scan n' s in
    if ltb (code c) 48 || ltb 57 (code c)
    then not_a_number
    else if ltb n' (2 ^ 64)
    then rest
    else out_of_range

abbrev scan_digits : String → Scan
scan_digits String.[] = not_a_number
scan_digits (String.◌∷◌ c s) = scan 0 (String.◌∷◌ c s)

abbrev pub max_int : ℕ
max_int = 2 ^ 63 - 1

-- A number and whether it was read without an error: out of range, the error comes with the nearest
-- number in range; for any other error the number is 0.
abbrev positive : Scan → ℤ × Bool
positive not_a_number = (pos 0, false)
positive out_of_range = (pos max_int, false)
positive (scanned n) = if leb n max_int then (pos n, true) else (pos max_int, false)

abbrev pub negative_number : ℕ → ℤ
negative_number zero = pos 0
negative_number (suc n) = negsuc n

abbrev negative : Scan → ℤ × Bool
negative not_a_number = (pos 0, false)
negative out_of_range = (negsuc max_int, false)
negative (scanned n) =
    if leb n (suc max_int) then (negative_number n, true) else (negsuc max_int, false)

-- `strconv.Atoi`
unfoldable pub atoi : String → ℤ × Bool
atoi String.[] = (pos 0, false)
atoi (String.◌∷◌ c s) =
    if code c == 45
    then negative (scan_digits s)
    else if code c == 43
    then positive (scan_digits s)
    else positive (scan_digits (String.◌∷◌ c s))

atoi-numbers :
    (atoi "-017" ≡ (negsuc 16, true)) × (atoi "+5" ≡ (pos 5, true)) × (atoi "5x" ≡ (pos 0, false))
unfolding atoi scan
atoi-numbers = (refl, refl, refl)

split-time : split 58 "7:05:" ≡ "7" ∷ "05" ∷ "" ∷ []
unfolding split
split-time = refl
