-- ===== src/Prelude/Space.antt =====
-- Texts without the space around them, as Go's package strings trims them.
use Prim.Native.Nat.{ℕ}
use Prim.Native.Char.{Char, code}
use Prim.Native.String.{String}
use mathlib.Core.Bool.{Bool, false, ◌||◌, ◌&&◌}
use mathlib.Core.Logic.{inl, inr}
use mathlib.Core.Path.{◌≡◌, refl, ap}
use wabus_backend.Prelude.Tests.{leb, ◌==◌, if◌then◌else◌, Bool-cases}

-- `unicode.IsSpace`, of a character's number.
abbrev pub is_space : ℕ → Bool
is_space c =
    (leb 9 c && leb c 13)
    || c == 32
    || c == 133
    || c == 160
    || c == 5760
    || (leb 8192 c && leb c 8202)
    || c == 8232
    || c == 8233
    || c == 8239
    || c == 8287
    || c == 12288

unfoldable pub trim_left : String → String
trim_left String.[] = String.[]
trim_left (String.◌∷◌ c s) =
    let rest = trim_left s in if is_space (code c) then rest else String.◌∷◌ c s

abbrev pub cons_trimmed : Char → String → String
cons_trimmed c String.[] = if is_space (code c) then String.[] else String.◌∷◌ c String.[]
cons_trimmed c (String.◌∷◌ d s) = String.◌∷◌ c (String.◌∷◌ d s)

unfoldable pub trim_right : String → String
trim_right String.[] = String.[]
trim_right (String.◌∷◌ c s) = cons_trimmed c (trim_right s)

-- `strings.TrimSpace`
unfoldable pub trim_space : String → String
trim_space s = trim_right (trim_left s)

trim_left-first :
    (c : Char) (s : String)
    → is_space (code c) ≡ false
    → trim_left (String.◌∷◌ c s) ≡ String.◌∷◌ c s
unfolding trim_left
trim_left-first c s h = rw h refl

cons_trimmed-first :
    (c : Char) (s : String) → is_space (code c) ≡ false → cons_trimmed c s ≡ String.◌∷◌ c s
cons_trimmed-first c String.[] h = rw h refl
cons_trimmed-first c (String.◌∷◌ d s) h = refl

trim_left_trimmed : (s : String) → trim_left (trim_space s) ≡ trim_space s
unfolding trim_left trim_space trim_right
trim_left_trimmed String.[] = refl
trim_left_trimmed (String.◌∷◌ c s) = elim (Bool-cases (is_space (code c))) [
  | inl h ↦ rw h (trim_left_trimmed s)
  | inr h ↦ rw h (rw (cons_trimmed-first c (trim_right s) h) (trim_left-first c (trim_right s) h))
]

trim_right-cons_trimmed :
    (c : Char) (r : String) → trim_right r ≡ r → trim_right (cons_trimmed c r) ≡ cons_trimmed c r
unfolding trim_right
trim_right-cons_trimmed c String.[] h = elim (Bool-cases (is_space (code c))) [
  | inl e ↦ rw e refl
  | inr e ↦ rw e (rw e refl)
]
trim_right-cons_trimmed c (String.◌∷◌ d s) h = ap (cons_trimmed c) h

trim_right_idem : (s : String) → trim_right (trim_right s) ≡ trim_right s
unfolding trim_right
trim_right_idem String.[] = refl
trim_right_idem (String.◌∷◌ c s) = trim_right-cons_trimmed c (trim_right s) (trim_right_idem s)

pub trim_space_idem : (s : String) → trim_space (trim_space s) ≡ trim_space s
unfolding trim_space
trim_space_idem s = rw (trim_left_trimmed s) (trim_right_idem (trim_left s))
