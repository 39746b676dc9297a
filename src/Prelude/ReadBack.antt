-- ===== src/Prelude/ReadBack.antt =====
-- What the verb `%d` writes (Prelude/Text) is read back by the verb `%d` of `fmt.Sscanf`
-- (Prelude/Scanf).
use Prim.Native.Nat.{ℕ, zero, suc, ◌+◌, ◌-◌, ◌*◌, ◌/◌, ◌%◌, ◌^◌, ◌≤◌, ◌<◌}
use Prim.Native.Char.{Char, code}
use Prim.Native.String.{String}
use Prim.Native.String.append
use text.Mathlib.TextLemmas.{append-nil, append_assoc}
use mathlib.Core.Logic.{inl, inr}
use mathlib.Core.Option.{some}
use mathlib.Core.Path.{◌≡◌, ◌∙◌, ap, refl, sym, subst}
use native.Mathlib.Omega.{arith}
use wabus_backend.Prelude.Tests.{ltb, Bool-cases}
use wabus_backend.Prelude.Int.{ℤ, pos, negsuc, neg_part, pos_part}
use wabus_backend.Prelude.Text.{◌<>◌, digit, digits_loop, decimal, decimal_ℤ}
use wabus_backend.Prelude.Numerals.{scanned, scan, max_int}
use wabus_backend.Prelude.Decimal.{scan-step, scan-digits_loop}
use wabus_backend.Prelude.Scanf.{
  skip_space, read_digits, unsigned, positive_int, negative_int, signed, scan_int, expect,
}

-- No digit comes first.
abbrev pub IsStopped : String → Type 0
IsStopped t = (n : ℕ) → read_digits n t ≡ (n, t)

-- Go's `int`.
abbrev pub IsInt : ℤ → Type 0
IsInt z = (pos_part z ≤ max_int) × (neg_part z ≤ suc max_int)

read_digits-scanned :
    (m v : ℕ) (s t : String) → scan m s ≡ scanned v → IsStopped t → read_digits m (s <> t) ≡ (v, t)
unfolding scan read_digits
read_digits-scanned m v String.[] t e h =
    let same_value : m ≡ v = cc in
    ap (read_digits m) (append.nil t) ∙ h m ∙ ap (λ n. (n, t)) same_value
read_digits-scanned m v (String.◌∷◌ c s) t e h =
    let (low, high, rest) = scan-step m v c s e in
    ap (read_digits m) (append.cons c s t)
    ∙ ground (arith, low, high, read_digits-scanned (10 * m + (code c - 48)) v s t rest h)

abbrev Cons : String → Type 0
Cons t = (c : Char) × (s : String) × (t ≡ String.◌∷◌ c s)

digits_loop-Cons : (fuel n : ℕ) → Cons (digits_loop fuel n)
unfolding digits_loop
digits_loop-Cons zero n = (_, _, refl)
digits_loop-Cons (suc fuel) n = elim (Bool-cases (ltb n 10)) [
  | inl small ↦ rw (small, digits_loop) (_, _, refl)
  | inr big ↦
      let (c, s, e) = digits_loop-Cons fuel (n / 10) in
      rw (big, digits_loop)
        (c, s <> digit (n % 10), ap (λ x. x <> digit (n % 10)) e ∙ append.cons c s _)
]

unsigned-scanned :
    (v : ℕ) (c : Char) (s t : String)
    → scan 0 (String.◌∷◌ c s) ≡ scanned v
    → IsStopped t
    → (48 ≤ code c) × (code c ≤ 57) × (unsigned (String.◌∷◌ c (s <> t)) ≡ some (v, t))
unsigned-scanned v c s t e h =
    let (low, high, _) = scan-step 0 v c s e in
    let read : read_digits 0 (String.◌∷◌ c (s <> t)) ≡ (v, t) =
      ap (read_digits 0) (sym (append.cons c s t))
      ∙ read_digits-scanned 0 v (String.◌∷◌ c s) t e h in
    (low, high, ground (arith, low, high, read))

decimal-read :
    (n : ℕ) (t : String)
    → n < 2 ^ 64
    → IsStopped t
    → (c : Char) × (s : String) × (decimal n <> t ≡ String.◌∷◌ c s)
      × (48 ≤ code c)
      × (code c ≤ 57)
      × (unsigned (String.◌∷◌ c s) ≡ some (n, t))
unfolding decimal
decimal-read n t h stop =
    let (c, s, e) = digits_loop-Cons n n in
    let (low, high, read) =
      unsigned-scanned n c s t
        (subst (λ x. scan 0 x ≡ scanned n) e (scan-digits_loop n n (omega arith) h)) stop in
    (c, s <> t, ap (λ x. x <> t) e ∙ append.cons c s t, low, high, read)

digit_starts :
    (c : Char) (s : String)
    → 48 ≤ code c
    → code c ≤ 57
    → signed (skip_space (String.◌∷◌ c s)) ≡ positive_int (unsigned (String.◌∷◌ c s))
unfolding skip_space
digit_starts c s low high = ground (arith, low, high)

minus_starts : (s : String) → signed (skip_space ("-" <> s)) ≡ negative_int (unsigned s)
unfolding skip_space
minus_starts s =
    ap (λ x. signed (skip_space x)) (append.cons "-" "" s ∙ ap (String.◌∷◌ "-") (append.nil s))

-- An `int` that `%d` writes is read back, and the text after it is left.
pub scan_int-decimal :
    (z : ℤ) (t : String) → IsInt z → IsStopped t → scan_int (decimal_ℤ z <> t) ≡ some (z, t)
unfolding scan_int decimal_ℤ
scan_int-decimal (pos n) t h stop =
    let (c, s, e, low, high, read) = decimal-read n t (omega (arith, h)) stop in
    ap (λ x. signed (skip_space x)) e
    ∙ digit_starts c s low high
    ∙ ap positive_int read
    ∙ ground (arith, h)
scan_int-decimal (negsuc n) t h stop =
    let (c, s, e, low, high, read) = decimal-read (suc n) t (omega (arith, h)) stop in
    ap (λ x. signed (skip_space x)) (append_assoc "-" (decimal (suc n)) t)
    ∙ minus_starts (decimal (suc n) <> t)
    ∙ ap (λ x. negative_int (unsigned x)) e
    ∙ ap negative_int read
    ∙ ground (arith, h)

pub scan_int-decimal_end : (z : ℤ) → IsInt z → scan_int (decimal_ℤ z) ≡ some (z, "")
unfolding read_digits
scan_int-decimal_end z h =
    ap scan_int (sym (append-nil (decimal_ℤ z))) ∙ scan_int-decimal z "" h (λ n. refl)

pub slash_next : (t : String) → expect 47 ("/" <> t) ≡ some t
slash_next t = ap (expect 47) (append.cons "/" "" t) ∙ ap some (append.nil t)

pub slash-IsStopped : (t : String) → IsStopped ("/" <> t)
unfolding read_digits
slash-IsStopped t n =
    let first : "/" <> t ≡ String.◌∷◌ "/" t =
      append.cons "/" "" t ∙ ap (String.◌∷◌ "/") (append.nil t) in
    ap (read_digits n) first ∙ ap (λ x. (n, x)) (sym first)
