-- ===== src/Prelude/Scanf.antt =====
-- Texts read by `fmt.Sscanf`: the verb `%d` for an `int`, and a literal character. Each gives the text
-- that is left, `none` for an error.
use Prim.Native.Nat.{ℕ, suc, ◌+◌, ◌-◌, ◌*◌}
use Prim.Native.Char.{code}
use Prim.Native.String.{String}
use mathlib.Core.Bool.{Bool, ◌&&◌}
use mathlib.Core.Option.{Option, none, some}
use wabus_backend.Prelude.Tests.{leb, ◌==◌, if◌then◌else◌}
use wabus_backend.Prelude.Int.{ℤ, pos}
use wabus_backend.Prelude.Numerals.{max_int, negative_number}
use wabus_backend.Prelude.Space.{is_space}

-- The spaces before a verb; a line break among them is an error.
unfoldable pub skip_space : String → Option String
skip_space String.[] = some String.[]
skip_space (String.◌∷◌ c s) =
    let rest = skip_space s in
    if code c == 10 then none else if is_space (code c) then rest else some (String.◌∷◌ c s)

abbrev pub is_digit : ℕ → Bool
is_digit c = leb 48 c && leb c 57

-- The digits that come first, after a number already read.
unfoldable pub read_digits : ℕ → String → ℕ × String
read_digits n String.[] = (n, String.[])
read_digits n (String.◌∷◌ c s) =
    let rest = read_digits (10 * n + (code c - 48)) s in
    if is_digit (code c) then rest else (n, String.◌∷◌ c s)

abbrev pub unsigned : String → Option (ℕ × String)
unsigned String.[] = none
unsigned (String.◌∷◌ c s) =
    if is_digit (code c) then some (read_digits 0 (String.◌∷◌ c s)) else none

abbrev pub positive_int : Option (ℕ × String) → Option (ℤ × String)
positive_int none = none
positive_int (some (n, s)) = if leb n max_int then some (pos n, s) else none

abbrev pub negative_int : Option (ℕ × String) → Option (ℤ × String)
negative_int none = none
negative_int (some (n, s)) = if leb n (suc max_int) then some (negative_number n, s) else none

abbrev pub signed : Option String → Option (ℤ × String)
signed none = none
signed (some String.[]) = none
signed (some (String.◌∷◌ c s)) =
    if code c == 43
    then positive_int (unsigned s)
    else if code c == 45
    then negative_int (unsigned s)
    else positive_int (unsigned (String.◌∷◌ c s))

unfoldable pub scan_int : String → Option (ℤ × String)
scan_int s = signed (skip_space s)

-- A literal character of the format.
abbrev pub expect : ℕ → String → Option String
expect sep String.[] = none
expect sep (String.◌∷◌ c s) = if code c == sep then some s else none
