-- ===== src/GoMap/Groups.antt =====
-- When a map of sets is the grouping of a population: each member stands in the set of its place,
-- and in no other.
use mathlib.Core.Option
use wabus_backend.Prelude.{refl, ◌≡◌, ite, Option, none, some, arith, Key}
use wabus_backend.GoMap.{GoMap, lookup, insert, delete}
use wabus_backend.GoMap.Laws.{lookup-insert, lookup-delete}
use wabus_backend.GoMap.Buckets.{Buckets, bucket, add, remove, bucket-add, bucket-remove}

-- Every member of every set, by an independent description: `k` is in the set of `x` where
-- `owner` gives it the place `x`.
abbrev pub at : {T : Type 0} ⦃t : Key T⦄ → Option T → T → Option (Unit {0})
at none x = none
at ⦃t⦄ (some y) x = ite (t.dec y x) (some tt) none

module _ {T K : Type 0} ⦃t : Key T⦄ ⦃e : Key K⦄ where
  abbrev pub Groups : (K → Option T) → Buckets T K → Type 0
  Groups owner m = (x : T) (k : K) → lookup k (bucket x m) ≡ at (owner k) x

  pub add-Groups :
      (f g : K → Option T) (x : T) (k : K) (m : Buckets T K)
      → f k ≡ none
      → ((j : K) → g j ≡ ite (e.dec k j) (some x) (f j))
      → Groups f m
      → Groups g (add x k m)
  add-Groups f g x k m free moved h y j =
      ground (arith, bucket-add y x k m, lookup-insert j k tt (bucket x m), moved j, h x j, h y j)

  pub remove-Groups :
      (f g : K → Option T) (x : T) (k : K) (m : Buckets T K)
      → f k ≡ some x
      → ((j : K) → g j ≡ ite (e.dec k j) none (f j))
      → Groups f m
      → Groups g (remove x k m)
  remove-Groups f g x k m held gone h y j =
      ground (arith, bucket-remove y x k m, lookup-delete j k (bucket x m), gone j, h x j, h y j)

-- The place that a map of records gives a key, by one of the record's fields.
abbrev pub place : {T K V : Type 0} ⦃e : Key K⦄ → (V → T) → GoMap K V → K → Option T
place f m k = Option.map f (lookup k m)

module _ {T K V : Type 0} ⦃t : Key T⦄ ⦃e : Key K⦄ (f : V → T) (k : K) (m : GoMap K V) where
  pub fresh-Groups :
      (v : V) (ix : Buckets T K)
      → lookup k m ≡ none
      → Groups (place f m) ix
      → Groups (place f (insert k v m)) (add (f v) k ix)
  fresh-Groups v ix free =
      add-Groups (place f m) (place f (insert k v m)) (f v) k ix (ground arith)
        (λ j. ground (arith, lookup-insert j k v m))

  pub moved-Groups :
      (u v : V) (ix : Buckets T K)
      → lookup k m ≡ some u
      → Groups (place f m) ix
      → Groups (place f (insert k v m)) (add (f v) k (remove (f u) k ix))
  moved-Groups u v ix held h =
      add-Groups (λ j. ite (e.dec k j) none (place f m j)) (place f (insert k v m)) (f v) k
        (remove (f u) k ix) (ground arith) (λ j. ground (arith, lookup-insert j k v m))
        (remove-Groups (place f m) (λ j. ite (e.dec k j) none (place f m j)) (f u) k ix
          (ground arith) (λ j. refl) h)

  pub kept-Groups :
      (u v : V) (ix : Buckets T K)
      → lookup k m ≡ some u
      → f v ≡ f u
      → Groups (place f m) ix
      → Groups (place f (insert k v m)) ix
  kept-Groups u v ix held stays h x j = ground (arith, h x j, lookup-insert j k v m)

  pub gone-Groups :
      (u : V) (ix : Buckets T K)
      → lookup k m ≡ some u
      → Groups (place f m) ix
      → Groups (place f (delete k m)) (remove (f u) k ix)
  gone-Groups u ix held =
      remove-Groups (place f m) (place f (delete k m)) (f u) k ix (ground arith)
        (λ j. ground (arith, lookup-delete j k m))
