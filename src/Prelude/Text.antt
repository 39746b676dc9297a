-- ===== src/Prelude/Text.antt =====
-- Texts: Go's comparison of strings and the verbs `%d` and `%02d` of `fmt.Sprintf`.
use Prim.Native.Nat.{ℕ, zero, suc, ◌/◌, ◌%◌, Ordering}
use Prim.Native.String.{String, [], ◌∷◌, ◌++◌, compare, char_at}
use mathlib.Core.Bool.{Bool, true, false}
use mathlib.Core.Path.{◌≡◌, refl}
use wabus_backend.Prelude.Tests.{ltb, if◌then◌else◌}
use wabus_backend.Prelude.Int.{ℤ, pos, negsuc}

-- `a < b` on strings: byte by byte.
abbrev pub ltb_text : String → String → Bool
ltb_text a b = elim (compare a b) [ Ordering.lt ↦ true | _ ↦ false ]

infixr 65 ◌<>◌
abbrev pub ◌<>◌ : String → String → String
a <> b = a ++ b

abbrev pub digit : ℕ → String
digit n = char_at "0123456789" n ∷ []

-- The number's digits. Each round divides by ten, so the number itself is enough fuel.
unfoldable pub digits_loop : ℕ → ℕ → String
digits_loop zero n = digit n
digits_loop (suc fuel) n = elim (ltb n 10) [
  | true ↦ digit n
  | false ↦ digits_loop fuel (n / 10) <> digit (n % 10)
]

-- `%d`
unfoldable pub decimal : ℕ → String
decimal n = digits_loop n n

unfoldable pub decimal_ℤ : ℤ → String
decimal_ℤ (pos n) = decimal n
decimal_ℤ (negsuc n) = "-" <> decimal (suc n)

-- The digits in base 16, as `digits_loop` gives them in base 10.
unfoldable pub hex_loop : ℕ → ℕ → String
hex_loop zero n = char_at "0123456789abcdef" n ∷ []
hex_loop (suc fuel) n = elim (ltb n 16) [
  | true ↦ char_at "0123456789abcdef" n ∷ []
  | false ↦ hex_loop fuel (n / 16) <> (char_at "0123456789abcdef" (n % 16) ∷ [])
]

-- `%x`
unfoldable pub hex_ℤ : ℤ → String
hex_ℤ (pos n) = hex_loop n n
hex_ℤ (negsuc n) = "-" <> hex_loop (suc n) (suc n)

-- `%02d`
unfoldable pub two_digits : ℕ → String
two_digits n = if ltb n 10 then "0" <> decimal n else decimal n

decimal-905 : decimal 905 ≡ "905"
unfolding decimal digits_loop
decimal-905 = refl
