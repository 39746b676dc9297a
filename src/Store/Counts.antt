-- ===== src/Store/Counts.antt =====
-- What `CountByType` of internal/store/store.go counts.
use wabus_backend.Prelude.{
  ℕ, ◌+◌, ◌≡◌, inl, inr, refl, Bool, [], ◌∷◌, arith, String, string_key, int_key, same, length,
  if◌then◌else◌, Bool-cases,
}
use wabus_backend.Domain.{Vehicle, VehicleType, bus, tram}
use wabus_backend.GoMap.{GoMap, GoSet, lookup, delete, Distinct}
use wabus_backend.GoMap.Laws.{lookup-delete, delete-Distinct, length-delete}
use wabus_backend.GoMap.Buckets.{bucket}
use wabus_backend.Store.{Store, count_by_type}
use wabus_backend.Store.Invariant.{Inv}
use wabus_backend.Store.Query.Candidates.{has, holds}

module _ {F : Type 0} (p : Vehicle F → Bool) where
  -- How many stored vehicles pass the test.
  unfoldable pub count_vehicles : GoMap String (Vehicle F) → ℕ
  count_vehicles [] = 0
  count_vehicles ((k, v) ∷ m) = (if p v then 1 else 0) + count_vehicles m

  length-count_vehicles :
      (m : GoMap String (Vehicle F)) (b : GoSet String)
      → Distinct m
      → Distinct b
      → ((k : String) → has k b ≡ holds p (lookup k m))
      → length b ≡ count_vehicles m
  unfolding count_vehicles lookup
  length-count_vehicles [] [] d d' h = refl
  length-count_vehicles [] ((k, v) ∷ b) d d' h = ground (arith, h k)
  length-count_vehicles ((k, v) ∷ m) b d d' h = elim (Bool-cases (p v)) [
    | inr other ↦ ground (arith, length-count_vehicles m b d.1 d' (λ j. ground (arith, h j)))
    | inl counted ↦ ground (
      arith,
      length-delete k b d',
      h k,
      length-count_vehicles m (delete k b) d.1 (delete-Distinct k b d')
          (λ j. ground (arith, h j, lookup-delete j k b)),
    )
  ]

module _ {F : Type 0} where
  -- On a store that satisfies the invariant `CountByType` gives the numbers of stored buses and of
  -- stored trams.
  pub count_by_type_lem :
      (s : Store F)
      → Inv s
      → count_by_type s ≡ (
        count_vehicles (λ v. same v.vehicle_type bus) s.vehicles,
        count_vehicles (λ v. same v.vehicle_type tram) s.vehicles,
      )
  unfolding count_by_type
  count_by_type_lem s i = ground (arith, counted bus, counted tram)
    where
      counted :
          (ty : VehicleType)
          → length (bucket ty s.by_type) ≡ count_vehicles (λ v. same v.vehicle_type ty) s.vehicles
      counted ty =
          length-count_vehicles (λ v. same v.vehicle_type ty) s.vehicles (bucket ty s.by_type)
            i.distinct (i.types.tidy.sets ty) (λ k. ground (arith, i.types.groups ty k))
