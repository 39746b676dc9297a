-- ===== src/Hub/Gather.antt =====
-- Which changes `fanoutDeltas` of internal/hub/hub.go gathers for a client.
use wabus_backend.Prelude.{
  ℕ, ◌≡◌, ◌≢◌, ap, refl, Bool, true, false, Option, none, some, List, [], ◌∷◌, ◌++◌, arith, String,
  string_key, nat_key, is_some, if◌then◌else◌, All, Once, same,
}
use mathlib.Core.List.{append_assoc}
use wabus_backend.Domain.{VehicleDelta}
use wabus_backend.GoMap.{GoMap, GoSet, lookup, insert, keys, Distinct}
use wabus_backend.GoMap.Laws.{lookup-insert, insert-Distinct, keys-Once}
use wabus_backend.GoMap.Buckets.{Buckets, bucket, or_nil, IsTidy}
use wabus_backend.Hub.{or_empty, gather_one, gather_clients, gather}

-- The client is in the index under the tile.
abbrev pub subscribed : ℕ → String → Buckets String ℕ → Bool
subscribed c tile_id index = is_some (lookup c (bucket tile_id index))

abbrev listed : ℕ → List ℕ → Bool
listed c [] = false
listed c (x ∷ xs) = if same x c then true else listed c xs

not-listed : (c : ℕ) (xs : List ℕ) → All (λ y. y ≢ c) xs → listed c xs ≡ false
not-listed c [] a = refl
not-listed c (x ∷ xs) a = ground (arith, a.0, not-listed c xs a.1)

listed-keys : (c : ℕ) (b : GoSet ℕ) → listed c (keys b) ≡ is_some (lookup c b)
unfolding lookup
listed-keys c [] = refl
listed-keys c ((k, v) ∷ b) = ground (arith, listed-keys c b)

module _ {F : Type 0} where
  -- The changes of the batch in the tiles that the client is subscribed to, in their order.
  unfoldable pub deltas_for : ℕ → Buckets String ℕ → List (VehicleDelta F) → List (VehicleDelta F)
  deltas_for c index [] = []
  deltas_for c index (d ∷ ds) =
      let rest = deltas_for c index ds in if subscribed c d.delta_tile index then d ∷ rest else rest

  gather_one-lookup :
      (d : VehicleDelta F) (c : ℕ) (cs : List ℕ) (m : GoMap ℕ (List (VehicleDelta F)))
      → Once cs
      → lookup c (gather_one d cs m)
        ≡ (if listed c cs then some (or_empty (lookup c m) ++ d ∷ []) else lookup c m)
  unfolding gather_one
  gather_one-lookup d c [] m o = refl
  gather_one-lookup d c (x ∷ xs) m o = ground (
    arith,
    gather_one-lookup d c xs (insert x (or_empty (lookup x m) ++ d ∷ []) m) o.1,
    lookup-insert c x (or_empty (lookup x m) ++ d ∷ []) m,
    not-listed x xs o.0,
  )

  gather_one-Distinct :
      (d : VehicleDelta F) (cs : List ℕ) (m : GoMap ℕ (List (VehicleDelta F)))
      → Distinct m
      → Distinct (gather_one d cs m)
  unfolding gather_one
  gather_one-Distinct d [] m o = o
  gather_one-Distinct d (x ∷ xs) m o =
      gather_one-Distinct d xs _ (insert-Distinct x (or_empty (lookup x m) ++ d ∷ []) m o)

  -- The entry of a client after more changes are gathered for it.
  abbrev pub append_to :
      Option (List (VehicleDelta F)) → List (VehicleDelta F) → Option (List (VehicleDelta F))
  append_to o [] = o
  append_to o (d ∷ ds) = some (or_empty o ++ d ∷ ds)

  append_to-snoc :
      (o : Option (List (VehicleDelta F))) (d : VehicleDelta F) (ds : List (VehicleDelta F))
      → append_to (some (or_empty o ++ d ∷ [])) ds ≡ append_to o (d ∷ ds)
  append_to-snoc o d [] = refl
  append_to-snoc o d (x ∷ xs) = ap some (append_assoc (or_empty o) (d ∷ []) (x ∷ xs))

  gather_clients-lookup :
      (c : ℕ) (o : Option (GoSet ℕ)) (d : VehicleDelta F) (m : GoMap ℕ (List (VehicleDelta F)))
      → Distinct (or_nil o)
      → lookup c (gather_clients o d m) ≡ (
          if is_some (lookup c (or_nil o))
          then some (or_empty (lookup c m) ++ d ∷ [])
          else lookup c m)
  unfolding gather_clients lookup
  gather_clients-lookup c none d m i = refl
  gather_clients-lookup c (some b) d m i =
      ground (arith, gather_one-lookup d c (keys b) m (keys-Once b i), listed-keys c b)

  gather-lookup :
      (c : ℕ) (index : Buckets String ℕ) (ds : List (VehicleDelta F))
      (m : GoMap ℕ (List (VehicleDelta F)))
      → IsTidy index
      → lookup c (gather index ds m) ≡ append_to (lookup c m) (deltas_for c index ds)
  unfolding gather deltas_for
  gather-lookup c index [] m i = refl
  gather-lookup c index (d ∷ ds) m i = ground (
    arith,
    gather-lookup c index ds (gather_clients (lookup d.delta_tile index) d m) i,
    gather_clients-lookup c (lookup d.delta_tile index) d m (i.sets d.delta_tile),
    append_to-snoc (lookup c m) d (deltas_for c index ds),
  )

  -- For a tidy index: the changes that are gathered for a client are those in its tiles, in order,
  -- and there is an entry only for a client that has some.
  pub gather_lem :
      (c : ℕ) (index : Buckets String ℕ) (ds : List (VehicleDelta F))
      → IsTidy index
      → lookup c (gather index ds []) ≡ append_to none (deltas_for c index ds)
  unfolding lookup
  gather_lem c index ds i = gather-lookup c index ds [] i

  gather_clients-Distinct :
      (o : Option (GoSet ℕ)) (d : VehicleDelta F) (m : GoMap ℕ (List (VehicleDelta F)))
      → Distinct m
      → Distinct (gather_clients o d m)
  unfolding gather_clients
  gather_clients-Distinct none d m o = o
  gather_clients-Distinct (some b) d m o = gather_one-Distinct d (keys b) m o

  pub gather-Distinct :
      (index : Buckets String ℕ) (ds : List (VehicleDelta F)) (m : GoMap ℕ (List (VehicleDelta F)))
      → Distinct m
      → Distinct (gather index ds m)
  unfolding gather
  gather-Distinct index [] m o = o
  gather-Distinct index (d ∷ ds) m o =
      gather-Distinct index ds _ (gather_clients-Distinct (lookup d.delta_tile index) d m o)
