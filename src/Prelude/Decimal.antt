-- ===== src/Prelude/Decimal.antt =====
-- The decimal texts of Prelude/Text read back by the functions of Prelude/Numerals.
use Prim.Native.Nat.{ℕ, zero, suc, ◌+◌, ◌-◌, ◌*◌, ◌/◌, ◌%◌, ◌^◌, ◌≤◌, ◌<◌}
use Prim.Native.Char.{Char, code}
use Prim.Native.String.{String, char_at}
use Prim.Native.String.append
use mathlib.Core.List.{[], ◌∷◌}
use mathlib.Core.Logic.{inl, inr}
use mathlib.Core.Path.{◌≡◌, ◌∙◌, ap, refl}
use native.Mathlib.Omega.{arith}
use wabus_backend.Prelude.Tests.{ltb, Bool-cases}
use wabus_backend.Prelude.Int.{pos}
use wabus_backend.Prelude.Text.{◌<>◌, digit, digits_loop, decimal, two_digits}
use wabus_backend.Prelude.Numerals.{scanned, scan, split, atoi, max_int}

code-digit : (n : ℕ) → n < 10 → code (char_at "0123456789" n) ≡ 48 + n
code-digit zero h = refl
code-digit (suc zero) h = refl
code-digit (suc (suc zero)) h = refl
code-digit (suc (suc (suc zero))) h = refl
code-digit (suc (suc (suc (suc zero)))) h = refl
code-digit (suc (suc (suc (suc (suc zero))))) h = refl
code-digit (suc (suc (suc (suc (suc (suc zero)))))) h = refl
code-digit (suc (suc (suc (suc (suc (suc (suc zero))))))) h = refl
code-digit (suc (suc (suc (suc (suc (suc (suc (suc zero)))))))) h = refl
code-digit (suc (suc (suc (suc (suc (suc (suc (suc (suc zero))))))))) h = refl
code-digit (suc (suc (suc (suc (suc (suc (suc (suc (suc (suc n)))))))))) h =
    absurd (omega (arith, h))

pub scan-step :
    (m v : ℕ) (c : Char) (s : String)
    → scan m (String.◌∷◌ c s) ≡ scanned v
    → (48 ≤ code c) × (code c ≤ 57) × (scan (10 * m + (code c - 48)) s ≡ scanned v)
unfolding scan
scan-step m v c s e = ground (arith, e)

scan-append : (m v : ℕ) (s t : String) → scan m s ≡ scanned v → scan m (s <> t) ≡ scan v t
unfolding scan
scan-append m v String.[] t e =
    let same_value : m ≡ v = cc in ap (scan m) (append.nil t) ∙ ap (λ n. scan n t) same_value
scan-append m v (String.◌∷◌ c s) t e =
    let (low, high, rest) = scan-step m v c s e in
    ap (scan m) (append.cons c s t)
    ∙ ground (arith, e, low, high, rest, scan-append (10 * m + (code c - 48)) v s t rest)

scan-digit : (m d : ℕ) → d < 10 → 10 * m + d < 2 ^ 64 → scan m (digit d) ≡ scanned (10 * m + d)
unfolding scan
scan-digit m d h k = ground (arith, h, k, code-digit d h)

pub scan-digits_loop :
    (fuel n : ℕ) → n ≤ fuel → n < 2 ^ 64 → scan 0 (digits_loop fuel n) ≡ scanned n
unfolding digits_loop
scan-digits_loop zero n h k =
    scan-digit 0 n (omega (arith, h)) (omega (arith, h, k)) ∙ ap scanned (omega arith)
scan-digits_loop (suc fuel) n h k = elim (Bool-cases (ltb n 10)) [
  | inl small ↦
      rw (small, digits_loop)
        (scan-digit 0 n (ground (arith, small)) (omega (arith, k)) ∙ ap scanned (omega arith))
  | inr big ↦
      rw (big, digits_loop)
        (scan-append 0 (n / 10) (digits_loop fuel (n / 10)) (digit (n % 10))
            (scan-digits_loop fuel (n / 10) (ground (arith, big, h)) (ground (arith, big, k)))
          ∙ scan-digit (n / 10) (n % 10) (omega arith) (omega (arith, k))
          ∙ ap scanned (omega arith))
]

split-colon : (t : String) → split 58 (":" <> t) ≡ "" ∷ split 58 t
unfolding split
split-colon t = ap (split 58) (append.cons ":" "" t ∙ ap (String.◌∷◌ ":") (append.nil t))

-- A text of digits is one part.
split-scanned :
    (m v : ℕ) (s t : String) → scan m s ≡ scanned v → split 58 (s <> ":" <> t) ≡ s ∷ split 58 t
unfolding split
split-scanned m v String.[] t e = ap (split 58) (append.nil (":" <> t)) ∙ split-colon t
split-scanned m v (String.◌∷◌ c s) t e =
    let (low, high, rest) = scan-step m v c s e in
    ap (split 58) (append.cons c s (":" <> t))
    ∙ ground (arith, high, split-scanned (10 * m + (code c - 48)) v s t rest)

split-scanned_end : (m v : ℕ) (s : String) → scan m s ≡ scanned v → split 58 s ≡ s ∷ []
unfolding split
split-scanned_end m v String.[] e = refl
split-scanned_end m v (String.◌∷◌ c s) e =
    let (low, high, rest) = scan-step m v c s e in
    ground (arith, high, split-scanned_end (10 * m + (code c - 48)) v s rest)

-- Also of the empty text, which reads as 0.
atoi-scanned : (n : ℕ) (s : String) → scan 0 s ≡ scanned n → n ≤ max_int → (atoi s).0 ≡ pos n
unfolding atoi scan
atoi-scanned n String.[] e h = let is_zero : 0 ≡ n = cc in ap pos is_zero
atoi-scanned n (String.◌∷◌ c s) e h =
    let (low, high, rest) = scan-step 0 n c s e in ground (arith, low, high, e, h)

scan-two_digits : (n : ℕ) → n < 2 ^ 32 → scan 0 (two_digits n) ≡ scanned n
unfolding two_digits decimal
scan-two_digits n h =
    let digits = scan-digits_loop n n (omega arith) (omega (arith, h)) in
    elim (Bool-cases (ltb n 10)) [
      | inl small ↦ rw small (scan-append 0 0 "0" (digits_loop n n) scan-zero ∙ digits)
      | inr big ↦ rw big digits
    ]
  where
    scan-zero : scan 0 "0" ≡ scanned 0
    scan-zero = scan-digit 0 0 (omega arith) (omega arith)

-- What `%02d` writes is read back.
pub atoi-two_digits : (n : ℕ) → n < 2 ^ 32 → (atoi (two_digits n)).0 ≡ pos n
atoi-two_digits n h = atoi-scanned n (two_digits n) (scan-two_digits n h) (omega (arith, h))

pub split-two_digits :
    (n : ℕ) (t : String)
    → n < 2 ^ 32
    → split 58 (two_digits n <> ":" <> t) ≡ two_digits n ∷ split 58 t
split-two_digits n t h = split-scanned 0 n (two_digits n) t (scan-two_digits n h)

pub split-two_digits_end : (n : ℕ) → n < 2 ^ 32 → split 58 (two_digits n) ≡ two_digits n ∷ []
split-two_digits_end n h = split-scanned_end 0 n (two_digits n) (scan-two_digits n h)
