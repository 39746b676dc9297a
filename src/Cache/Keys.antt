-- ===== src/Cache/Keys.antt =====
-- The keys of internal/cache/keys.go do not run into each other.
use Prim.Native.Char.{Char, code}
use Prim.Native.String.{String}
use Prim.Native.String.append
use text.Mathlib.TextLemmas.{append_assoc, append_cancel_left}
use wabus_backend.Prelude.{◌≡◌, ◌≢◌, ◌∙◌, ap, sym, ◌<>◌, arith}
use wabus_backend.Cache.{
  key_sync_full, key_schedule_today, key_schedule_tomorrow, key_stop_lines, cache_key,
}

cons-injective : (c d : Char) (s t : String) → String.◌∷◌ c s ≡ String.◌∷◌ d t → (c ≡ d) × (s ≡ t)
cons-injective c d s t e = (cc, cc)

-- Two texts that start with the same part and go on with different letters differ.
apart :
    (p : String) (c d : Char) (q r s t : String)
    → code c ≢ code d
    → (p <> String.◌∷◌ c q) <> s ≢ (p <> String.◌∷◌ d r) <> t
apart p c d q r s t h e =
    let rest : String.◌∷◌ c q <> s ≡ String.◌∷◌ d r <> t =
      append_cancel_left p _ _
        (sym (append_assoc p (String.◌∷◌ c q) s) ∙ e ∙ append_assoc p (String.◌∷◌ d r) t) in
    h (
      ap code
        (cons-injective c d (q <> s) (r <> t)
          (sym (append.cons c q s) ∙ rest ∙ append.cons d r t)).0)

pub cache_key-injective : (k j : String) → cache_key k ≡ cache_key j → k ≡ j
unfolding cache_key
cache_key-injective k j e = append_cancel_left "wabus:" k j e

pub today-injective : (i j : String) → key_schedule_today i ≡ key_schedule_today j → i ≡ j
unfolding key_schedule_today
today-injective i j e = append_cancel_left "schedule:today:" i j e

pub tomorrow-injective : (i j : String) → key_schedule_tomorrow i ≡ key_schedule_tomorrow j → i ≡ j
unfolding key_schedule_tomorrow
tomorrow-injective i j e = append_cancel_left "schedule:tomorrow:" i j e

pub lines-injective : (i j : String) → key_stop_lines i ≡ key_stop_lines j → i ≡ j
unfolding key_stop_lines
lines-injective i j e = append_cancel_left "lines:" i j e

pub today-tomorrow : (i j : String) → key_schedule_today i ≢ key_schedule_tomorrow j
unfolding key_schedule_today key_schedule_tomorrow
today-tomorrow i j e = apart "schedule:to" "d" "m" "ay:" "orrow:" i j (λ x. omega (arith, x)) e

pub today-lines : (i j : String) → key_schedule_today i ≢ key_stop_lines j
unfolding key_schedule_today key_stop_lines
today-lines i j e = apart "" "s" "l" "chedule:today:" "ines:" i j (λ x. omega (arith, x)) e

pub tomorrow-lines : (i j : String) → key_schedule_tomorrow i ≢ key_stop_lines j
unfolding key_schedule_tomorrow key_stop_lines
tomorrow-lines i j e = apart "" "s" "l" "chedule:tomorrow:" "ines:" i j (λ x. omega (arith, x)) e

pub sync-today : (i : String) → key_sync_full ≢ key_schedule_today i
unfolding key_schedule_today
sync-today i e = apart "s" "y" "c" "nc:full" "hedule:today:" "" i (λ x. omega (arith, x)) e

pub sync-tomorrow : (i : String) → key_sync_full ≢ key_schedule_tomorrow i
unfolding key_schedule_tomorrow
sync-tomorrow i e = apart "s" "y" "c" "nc:full" "hedule:tomorrow:" "" i (λ x. omega (arith, x)) e

pub sync-lines : (i : String) → key_sync_full ≢ key_stop_lines i
unfolding key_stop_lines
sync-lines i e = apart "" "s" "l" "ync:full" "ines:" "" i (λ x. omega (arith, x)) e
