-- ===== src/Store/Query/Candidates.antt =====
-- The candidate keys of `List` (internal/store/store.go, `getCandidates`): the keys of the vehicles
-- of the type and line that the options name.
use wabus_backend.Prelude.{
  ◌≡◌, refl, Bool, true, false, ◌&&◌, ◌||◌, Option, none, some, [], ◌∷◌, arith, String, string_key,
  int_key, is_some, same, if◌then◌else◌,
}
use wabus_backend.Domain.{Vehicle, VehicleType}
use wabus_backend.GoMap.{GoMap, GoSet, lookup, insert, Distinct}
use wabus_backend.GoMap.Laws.{lookup-insert, insert-Distinct}
use wabus_backend.GoMap.Buckets.{or_nil}
use wabus_backend.Store.{Store}
use wabus_backend.Store.Invariant.{Inv}
use wabus_backend.Store.Query.{
  copy_loop, copy_set, intersect_loop, intersect, candidates_by, get_candidates, ListOptions,
}

-- Membership in a set of keys.
abbrev pub has : {V : Type 0} → String → GoMap String V → Bool
has k m = is_some (lookup k m)

has-insert : (j k : String) (m : GoSet String) → has j (insert k tt m) ≡ (same k j || has j m)
has-insert j k m = ground (arith, lookup-insert j k tt m)

has-copy_loop :
    {V : Type 0} (j : String) (src : GoMap String V) (result : GoSet String)
    → has j (copy_loop src result) ≡ (has j src || has j result)
unfolding copy_loop lookup
has-copy_loop j [] result = refl
has-copy_loop j ((k, v) ∷ src) result =
    ground (arith, has-copy_loop j src (insert k tt result), has-insert j k result)

copy_loop-Distinct :
    {V : Type 0} (src : GoMap String V) (result : GoSet String)
    → Distinct result
    → Distinct (copy_loop src result)
unfolding copy_loop
copy_loop-Distinct [] result d = d
copy_loop-Distinct ((k, v) ∷ src) result d =
    copy_loop-Distinct src (insert k tt result) (insert-Distinct k tt result d)

has-intersect_loop :
    (j : String) (smaller larger result : GoSet String)
    → has j (intersect_loop smaller larger result) ≡ (has j smaller && has j larger || has j result)
unfolding intersect_loop lookup
has-intersect_loop j [] larger result = refl
has-intersect_loop j ((k, v) ∷ smaller) larger result = ground (
  arith,
  has-intersect_loop j smaller larger
      (if is_some (lookup k larger) then insert k tt result else result),
  has-insert j k result,
)

intersect_loop-Distinct :
    (smaller larger result : GoSet String)
    → Distinct result
    → Distinct (intersect_loop smaller larger result)
unfolding intersect_loop
intersect_loop-Distinct [] larger result d = d
intersect_loop-Distinct ((k, v) ∷ smaller) larger result d =
    intersect_loop-Distinct smaller larger
      (if is_some (lookup k larger) then insert k tt result else result)
      (ground (arith, insert-Distinct k tt result d))

has-copy_set :
    (j : String) (src : Option (GoSet String)) → has j (copy_set src) ≡ has j (or_nil src)
unfolding copy_set lookup
has-copy_set j none = refl
has-copy_set j (some src) = ground (arith, has-copy_loop j src [])

copy_set-Distinct : (src : Option (GoSet String)) → Distinct (copy_set src)
unfolding copy_set
copy_set-Distinct none = tt
copy_set-Distinct (some src) = copy_loop-Distinct src [] tt

has-intersect :
    (j : String) (a b : Option (GoSet String))
    → has j (intersect a b) ≡ (has j (or_nil a) && has j (or_nil b))
unfolding intersect lookup
has-intersect j none b = refl
has-intersect j (some a) none = ground arith
has-intersect j (some a) (some b) =
    ground (arith, has-intersect_loop j a b [], has-intersect_loop j b a [])

intersect-Distinct : (a b : Option (GoSet String)) → Distinct (intersect a b)
unfolding intersect
intersect-Distinct none b = tt
intersect-Distinct (some a) none = tt
intersect-Distinct (some a) (some b) =
    ground (arith, intersect_loop-Distinct a b [] tt, intersect_loop-Distinct b a [] tt)

module _ {F : Type 0} where
  -- The vehicle is of the type and the line that the options name, if they name one.
  unfoldable pub of_type : Option VehicleType → Vehicle F → Bool
  of_type none v = true
  of_type (some ty) v = same v.vehicle_type ty

  unfoldable pub of_line : String → Vehicle F → Bool
  of_line line v = same line "" || same v.line line

  abbrev pub holds : (Vehicle F → Bool) → Option (Vehicle F) → Bool
  holds p none = false
  holds p (some v) = p v

  candidates_by_lem :
      (ty : Option VehicleType) (line : String) (s : Store F) (k : String)
      → Inv s
      → has k (candidates_by ty line s)
        ≡ holds (λ v. of_type ty v && of_line line v) (lookup k s.vehicles)
  unfolding candidates_by of_type of_line lookup
  candidates_by_lem none line s k i = ground (
    arith,
    has-copy_set k (lookup line s.by_line),
    has-copy_loop k s.vehicles [],
    i.lines.groups line k,
  )
  candidates_by_lem (some ty) line s k i = ground (
    arith,
    has-copy_set k (lookup ty s.by_type),
    has-intersect k (lookup ty s.by_type) (lookup line s.by_line),
    i.lines.groups line k,
    i.types.groups ty k,
  )

  -- A key is a candidate exactly if a vehicle of the type and line is stored under it.
  pub get_candidates_lem :
      (opts : ListOptions F) (s : Store F) (k : String)
      → Inv s
      → has k (get_candidates opts s)
        ≡ holds
            (λ v. of_type opts.type_option v && of_line opts.line_option v)
            (lookup k s.vehicles)
  unfolding get_candidates
  get_candidates_lem opts s k i = candidates_by_lem opts.type_option opts.line_option s k i

  candidates_by-Distinct :
      (ty : Option VehicleType) (line : String) (s : Store F) → Distinct (candidates_by ty line s)
  unfolding candidates_by
  candidates_by-Distinct none line s =
      ground (arith, copy_set-Distinct (lookup line s.by_line), copy_loop-Distinct s.vehicles [] tt)
  candidates_by-Distinct (some ty) line s = ground (
    arith,
    copy_set-Distinct (lookup ty s.by_type),
    intersect-Distinct (lookup ty s.by_type) (lookup line s.by_line),
  )

  pub get_candidates-Distinct :
      (opts : ListOptions F) (s : Store F) → Distinct (get_candidates opts s)
  unfolding get_candidates
  get_candidates-Distinct opts s = candidates_by-Distinct opts.type_option opts.line_option s
