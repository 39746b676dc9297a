-- ===== src/Prelude/Keys.antt =====
-- Decidable equality of map keys, as an instance argument.
use Prim.Native.Nat.{ℕ}
use Prim.Native.String.{String}
use mathlib.Core.Bool.{Bool, true, false}
use mathlib.Core.Logic.{ite, inl, inr}
use native.Mathlib.Decide.{ℕ_discrete}
use native.Mathlib.Omega.{arith}
use text.Mathlib.Text.{◌==◌}
use text.Mathlib.TextEquality.{eq_iff}
use wabus_backend.Prelude.Int.{ℤ, ℤ-discrete}
use wabus_backend.Prelude.Tests.{Bool-cases}

pub record Key (K : Type 0) : Type 0 where
  pub dec : Discrete K

unfoldable pub string_discrete : Discrete String
unfolding Bool-cases
string_discrete s t = elim (Bool-cases (s == t)) [
  | inl e ↦ yes ((eq_iff s t).0 e)
  | inr e ↦ no (λ p. ground (arith, (eq_iff s t).1 p))
]

instance abbrev pub string_key : Key String
string_key = record { dec = string_discrete }

instance abbrev pub nat_key : Key ℕ
nat_key = record { dec = ℕ_discrete }

instance abbrev pub int_key : Key ℤ
int_key = record { dec = ℤ-discrete }

-- `a == b` on two keys
abbrev pub same : {K : Type 0} ⦃e : Key K⦄ → K → K → Bool
same ⦃e⦄ a b = ite (e.dec a b) true false
