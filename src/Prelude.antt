-- ===== src/Prelude.antt =====
-- The names that the other modules share: the libraries', passed on, and those of the children.
pub mod Tests
pub mod Lists
pub mod Keys
pub mod Outcome
pub mod Int
pub mod Text
pub mod Numerals
pub mod Decimal
pub mod Space
pub mod Scanf
pub mod ReadBack
pub mod TextOrder
unfoldable pub use Tests.{Bool-cases}
pub use Tests.*
pub use Lists.*
unfoldable pub use Keys.{string_discrete}
pub use Keys.*
pub use Outcome.*
unfoldable pub use Int.{◌+ℤ◌, ◌-ℤ◌, ◌*ℤ◌, wrap_int, ℤ-discrete}
pub use Int.*
unfoldable pub use Text.{decimal, decimal_ℤ, two_digits, digits_loop, hex_loop, hex_ℤ}
pub use Text.*
unfoldable pub use Numerals.{split, scan, atoi}
pub use Numerals.{max_int}
pub use Decimal.{atoi-two_digits, split-two_digits, split-two_digits_end}
pub use ReadBack.{
  IsInt, IsStopped, scan_int-decimal, scan_int-decimal_end, slash_next, slash-IsStopped,
}
unfoldable pub use Space.{trim_left, trim_right, trim_space}
unfoldable pub use Scanf.{skip_space, read_digits, scan_int}
pub use Scanf.{is_digit, unsigned, positive_int, negative_int, signed, expect}
pub use Space.{is_space, cons_trimmed, trim_space_idem}
pub use TextOrder.*
pub use Prim.Native.Nat.{ℕ, zero, suc, ◌+◌, ◌-◌, ◌*◌, ◌/◌, ◌%◌, ◌^◌, ◌≤◌, ◌<◌}
pub use Prim.Native.String.{String}
pub use mathlib.Core.Path.{◌≡◌, refl, sym, ap, subst, ◌∙◌}
pub use mathlib.Core.Logic.{◌≢◌, ◌↔◌, ◌⊎◌, inl, inr, ite, if_pos, if_neg}
pub use mathlib.Core.Bool.{Bool, true, false, not, ◌&&◌, ◌||◌}
pub use mathlib.Core.Option.{Option, none, some}
pub use mathlib.Core.List.{List, [], ◌∷◌, ◌++◌, map}
pub use native.Mathlib.Omega.{arith}
unfoldable pub use native.Mathlib.Decide.{ℕ_discrete}
