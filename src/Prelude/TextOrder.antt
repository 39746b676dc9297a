-- ===== src/Prelude/TextOrder.antt =====
-- Go's comparison of strings is a strict order, of which the equal texts are the ties.
use Prim.Native.String.{String}
use Prim.Native.String.compare
use mathlib.Core.Bool.{true, false}
use mathlib.Core.Path.{◌≡◌}
use native.Mathlib.Omega.{arith}
use wabus_backend.Prelude.Text.{ltb_text}

pub ltb_text-asymmetric : (s t : String) → ltb_text s t ≡ true → ltb_text t s ≡ false
ltb_text-asymmetric String.[] String.[] h = ground (arith, h)
ltb_text-asymmetric String.[] (String.◌∷◌ d t) h = ground (arith, compare.cons-nil d t)
ltb_text-asymmetric (String.◌∷◌ c s) String.[] h = ground (arith, h, compare.cons-nil c s)
ltb_text-asymmetric (String.◌∷◌ c s) (String.◌∷◌ d t) h =
    ground (arith, h, ltb_text-asymmetric s t, compare.cons-cons c d s t, compare.cons-cons d c t s)

pub ltb_text-ties :
    (r s t : String) → ltb_text s r ≡ false → ltb_text t s ≡ false → ltb_text t r ≡ false
ltb_text-ties String.[] s String.[] h k = ground arith
ltb_text-ties String.[] s (String.◌∷◌ e t) h k = ground (arith, compare.cons-nil e t)
ltb_text-ties (String.◌∷◌ c r) String.[] t h k = ground (arith, h, compare.nil-cons c r)
ltb_text-ties (String.◌∷◌ c r) (String.◌∷◌ d s) String.[] h k =
    ground (arith, k, compare.nil-cons d s)
ltb_text-ties (String.◌∷◌ c r) (String.◌∷◌ d s) (String.◌∷◌ e t) h k = ground (
  arith,
  h,
  k,
  ltb_text-ties r s t,
  compare.cons-cons d c s r,
  compare.cons-cons e d t s,
  compare.cons-cons e c t r,
)
