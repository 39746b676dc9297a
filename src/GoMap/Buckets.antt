-- ===== src/GoMap/Buckets.antt =====
-- A map of sets, `map[T]map[K]struct{}`, as the vehicle store's indices and the hub's
-- subscriptions use it: the inner set is made at its first member and dropped with its last.
use wabus_backend.Prelude.{
  ◌≡◌, ◌≢◌, ite, Option, none, some, [], ◌∷◌, arith, Key, Option-cases, inl, inr,
}
use wabus_backend.GoMap.{GoMap, GoSet, lookup, insert, delete, Distinct}
use wabus_backend.GoMap.Laws.{
  lookup-insert, lookup-delete, insert-Distinct, delete-Distinct, insert-ne-nil,
}

abbrev pub Buckets : Type 0 → Type 0 → Type 0
Buckets T K = GoMap T (GoSet K)

-- Reading the nil map reads an empty map.
abbrev pub or_nil : {K V : Type 0} → Option (GoMap K V) → GoMap K V
or_nil none = []
or_nil (some b) = b

module _ {T K : Type 0} ⦃t : Key T⦄ where
  -- `m[x]`, as a set
  abbrev pub bucket : T → Buckets T K → GoSet K
  bucket x m = or_nil (lookup x m)

  -- `if m[x] == nil { m[x] = make(...) }`
  unfoldable pub ensure : T → Buckets T K → Buckets T K
  ensure x m = elim (lookup x m) [ none ↦ insert x [] m | some b ↦ m ]

  module _ ⦃e : Key K⦄ where
    -- `if m[x] == nil { m[x] = make(...) }; m[x][k] = struct{}{}`
    unfoldable pub add : T → K → Buckets T K → Buckets T K
    unfolding ensure
    add x k m = let m' = ensure x m in insert x (insert k tt (bucket x m')) m'

    -- `if len(b) == 0 { delete(m, x) }`, after the bucket `b` of `x` was written
    unfoldable pub drop_empty : T → GoSet K → Buckets T K → Buckets T K
    drop_empty x [] m = delete x m
    drop_empty x (k ∷ b) m = insert x (k ∷ b) m

    -- `if m[x] != nil { delete(m[x], k); if len(m[x]) == 0 { delete(m, x) } }`
    unfoldable pub remove : T → K → Buckets T K → Buckets T K
    unfolding drop_empty
    remove x k m = elim (lookup x m) [ none ↦ m | some b ↦ drop_empty x (delete k b) m ]

    pub bucket-add :
        (y x : T) (k : K) (m : Buckets T K)
        → bucket y (add x k m) ≡ ite (t.dec x y) (insert k tt (bucket x m)) (bucket y m)
    unfolding add
    bucket-add y x k m = ground (
      arith,
      lookup-insert x x [] m,
      lookup-insert y x [] m,
      lookup-insert y x (insert k tt (bucket x m)) m,
      lookup-insert y x (insert k tt []) (insert x [] m),
    )

    bucket-drop_empty :
        (y x : T) (b : GoSet K) (m : Buckets T K)
        → bucket y (drop_empty x b m) ≡ ite (t.dec x y) b (bucket y m)
    unfolding drop_empty
    bucket-drop_empty y x [] m = ground (arith, lookup-delete y x m)
    bucket-drop_empty y x (k ∷ b) m = ground (arith, lookup-insert y x (k ∷ b) m)

    pub bucket-remove :
        (y x : T) (k : K) (m : Buckets T K)
        → bucket y (remove x k m) ≡ ite (t.dec x y) (delete k (bucket x m)) (bucket y m)
    unfolding remove delete
    bucket-remove y x k m = ground (arith, bucket-drop_empty y x (delete k (bucket x m)) m)

    -- No set of the map is empty, and no set holds a member twice.
    pub record IsTidy (m : Buckets T K) : Type 0 where
      pub distinct : Distinct m
      pub inhabited : (x : T) → lookup x m ≢ some []
      pub sets : (x : T) → Distinct (bucket x m)

    lookup-add :
        (y x : T) (k : K) (m : Buckets T K)
        → lookup y (add x k m) ≡ ite (t.dec x y) (some (insert k tt (bucket x m))) (lookup y m)
    unfolding add
    lookup-add y x k m = ground (
      arith,
      lookup-insert x x [] m,
      lookup-insert y x [] m,
      lookup-insert y x (insert k tt (bucket x m)) m,
      lookup-insert y x (insert k tt []) (insert x [] m),
    )

    drop_empty-inhabited :
        (y x : T) (b : GoSet K) (m : Buckets T K)
        → lookup y m ≢ some []
        → lookup y (drop_empty x b m) ≢ some []
    unfolding drop_empty
    drop_empty-inhabited y x [] m i = λ h. ground (arith, lookup-delete y x m)
    drop_empty-inhabited y x (k ∷ b) m i = λ h. ground (arith, lookup-insert y x (k ∷ b) m)

    drop_empty-Distinct :
        (x : T) (b : GoSet K) (m : Buckets T K) → Distinct m → Distinct (drop_empty x b m)
    unfolding drop_empty
    drop_empty-Distinct x [] m d = delete-Distinct x m d
    drop_empty-Distinct x (k ∷ b) m d = insert-Distinct x (k ∷ b) m d

    ensure-Distinct : (x : T) (m : Buckets T K) → Distinct m → Distinct (ensure x m)
    unfolding ensure
    ensure-Distinct x m d = ground (arith, insert-Distinct x [] m d)

    pub add-IsTidy : (x : T) (k : K) (m : Buckets T K) → IsTidy m → IsTidy (add x k m)
    unfolding add
    add-IsTidy x k m i = record {
      distinct = insert-Distinct x _ _ (ensure-Distinct x m i.distinct);
      inhabited =
          λ y h. ground (arith, lookup-add y x k m, i.inhabited y, insert-ne-nil k tt (bucket x m));
      sets = λ y.
          ground
            (arith, bucket-add y x k m, i.sets y, insert-Distinct k tt (bucket x m) (i.sets x));
    }

    remove-Distinct : (x : T) (k : K) (m : Buckets T K) → Distinct m → Distinct (remove x k m)
    unfolding remove
    remove-Distinct x k m d = elim (Option-cases (lookup x m)) [
      | inl missing ↦ rw (missing, remove) d
      | inr (b, found) ↦ rw (found, remove) (drop_empty-Distinct x (delete k b) m d)
    ]

    remove-inhabited :
        (y x : T) (k : K) (m : Buckets T K)
        → lookup y m ≢ some []
        → lookup y (remove x k m) ≢ some []
    unfolding remove
    remove-inhabited y x k m i = elim (Option-cases (lookup x m)) [
      | inl missing ↦ rw (missing, remove) i
      | inr (b, found) ↦ rw (found, remove) (drop_empty-inhabited y x (delete k b) m i)
    ]

    pub remove-IsTidy : (x : T) (k : K) (m : Buckets T K) → IsTidy m → IsTidy (remove x k m)
    remove-IsTidy x k m i = record {
      distinct = remove-Distinct x k m i.distinct;
      inhabited = λ y. remove-inhabited y x k m (i.inhabited y);
      sets = λ y.
          ground
            (arith, bucket-remove y x k m, i.sets y, delete-Distinct k (bucket x m) (i.sets x));
    }
