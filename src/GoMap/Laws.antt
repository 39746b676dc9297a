-- ===== src/GoMap/Laws.antt =====
-- The laws of the map operations, in the form "what a lookup gives afterwards".
use wabus_backend.Prelude.{
  ap, subst, ◌+◌, is_some, true, sym, In-All, Once, ◌+◌, ◌≡◌, ◌≢◌, refl, ite, inl, inr, none, some,
  [], ◌∷◌, arith, Key, length, In,
}
use wabus_backend.GoMap.{keys, values, GoMap, lookup, insert, insert_each, delete, Distinct}

module _ {K V : Type 0} ⦃e : Key K⦄ where
  pub lookup-insert :
      (j k : K) (v : V) (m : GoMap K V)
      → lookup j (insert k v m) ≡ ite (e.dec k j) (some v) (lookup j m)
  unfolding lookup insert
  lookup-insert j k v [] = refl
  lookup-insert j k v ((i, w) ∷ m) = ground (arith, lookup-insert j k v m)

  pub lookup-delete :
      (j k : K) (m : GoMap K V) → lookup j (delete k m) ≡ ite (e.dec k j) none (lookup j m)
  unfolding lookup delete
  lookup-delete j k [] = ground arith
  lookup-delete j k ((i, w) ∷ m) = ground (arith, lookup-delete j k m)

  pub insert-Distinct : (k : K) (v : V) (m : GoMap K V) → Distinct m → Distinct (insert k v m)
  unfolding insert lookup
  insert-Distinct k v [] d = (refl, tt)
  insert-Distinct k v ((i, w) ∷ m) d =
      ground (arith, insert-Distinct k v m d.1, lookup-insert i k v m)

  pub delete-Distinct : (k : K) (m : GoMap K V) → Distinct m → Distinct (delete k m)
  unfolding delete
  delete-Distinct k [] d = tt
  delete-Distinct k ((i, w) ∷ m) d = ground (arith, delete-Distinct k m d.1, lookup-delete i k m)

  pub length-insert :
      (k : K) (v : V) (m : GoMap K V) → lookup k m ≡ none → length (insert k v m) ≡ length m + 1
  unfolding insert lookup
  length-insert k v [] h = omega arith
  length-insert k v ((i, w) ∷ m) h = ground (arith, length-insert k v m)

  pub In-lookup : (k : K) (v : V) (m : GoMap K V) → Distinct m → In (k, v) m → lookup k m ≡ some v
  unfolding lookup
  In-lookup k v [] d h = absurd h
  In-lookup k v ((i, w) ∷ m) d (inl h) = ground arith
  In-lookup k v ((i, w) ∷ m) d (inr h) = ground (arith, In-lookup k v m d.1 h)

  pub lookup-In : (k : K) (v : V) (m : GoMap K V) → lookup k m ≡ some v → In (k, v) m
  unfolding lookup
  lookup-In k v [] h = ground arith
  lookup-In k v ((i, w) ∷ m) h = elim (e.dec i k) [
    | yes p ↦ inl (ground arith)
    | no p ↦ inr (lookup-In k v m (ground arith))
  ]

  pub insert-ne-nil : (k : K) (v : V) (m : GoMap K V) → insert k v m ≢ []
  unfolding insert
  insert-ne-nil k v [] = λ h. cc
  insert-ne-nil k v ((j, w) ∷ m) = λ h. ground arith

  pub In-keys : (k : K) (m : GoMap K V) → In k (keys m) → is_some (lookup k m) ≡ true
  unfolding lookup
  In-keys k [] h = absurd h
  In-keys k ((i, w) ∷ m) (inl h) = ground arith
  In-keys k ((i, w) ∷ m) (inr h) = ground (arith, In-keys k m h)

  pub keys-In : (k : K) (m : GoMap K V) → is_some (lookup k m) ≡ true → In k (keys m)
  unfolding lookup
  keys-In k [] h = cc
  keys-In k ((i, w) ∷ m) h = elim (e.dec i k) [
    | yes p ↦ inl (sym p)
    | no p ↦ inr (keys-In k m (ground arith))
  ]

  -- No key comes twice when `range` goes through the map.
  pub keys-Once : (m : GoMap K V) → Distinct m → Once (keys m)
  keys-Once [] d = tt
  keys-Once ((i, w) ∷ m) d =
      (In-All _ (keys m) (λ j h p. ground (arith, In-keys j m h)), keys-Once m d.1)

  delete-missing : (k : K) (m : GoMap K V) → lookup k m ≡ none → delete k m ≡ m
  unfolding lookup delete
  delete-missing k [] h = refl
  delete-missing k ((i, w) ∷ m) h = ground (arith, delete-missing k m)

  pub length-delete :
      (k : K) (m : GoMap K V)
      → Distinct m
      → is_some (lookup k m) ≡ true
      → length m ≡ length (delete k m) + 1
  unfolding lookup delete
  length-delete k [] d h = cc
  length-delete k ((i, w) ∷ m) d h = elim (e.dec i k) [
    | yes p ↦ ground (arith, ap length (delete-missing k m (subst (λ x. lookup x m ≡ none) p d.0)))
    | no p ↦ ground (arith, length-delete k m d.1)
  ]

module _ {K V : Type 0} where
  pub values-In : (v : V) (m : GoMap K V) → In v (values m) → (k : K) × In (k, v) m
  values-In v [] h = absurd h
  values-In v ((j, w) ∷ m) (inl h) = (j, inl (ap (λ x. (j, x)) h))
  values-In v ((j, w) ∷ m) (inr h) = let (k, i) = values-In v m h in (k, inr i)

  pub In-values : (k : K) (v : V) (m : GoMap K V) → In (k, v) m → In v (values m)
  In-values k v [] h = absurd h
  In-values k v ((j, w) ∷ m) (inl h) = inl (ap (λ x. x.1) h)
  In-values k v ((j, w) ∷ m) (inr h) = inr (In-values k v m h)

module _ {K V W : Type 0} ⦃e : Key K⦄ where
  pub lookup-insert_each :
      (f : K → V → W) (k : K) (m : GoMap K V) (out : GoMap K W)
      → Distinct m
      → lookup k (insert_each f m out)
        ≡ elim (lookup k m) [ none ↦ lookup k out | some v ↦ some (f k v) ]
  unfolding insert_each lookup
  lookup-insert_each f k [] out d = refl
  lookup-insert_each f k ((j, w) ∷ m) out d = elim (e.dec j k) [
    | yes p ↦ ground (
      arith,
      p,
      lookup-insert_each f k m (insert j (f j w) out) d.1,
      lookup-insert k j (f j w) out,
      subst (λ x. lookup x m ≡ none) p d.0,
      ap (λ x. f x w) p,
    )
    | no p ↦ ground (
      arith,
      p,
      lookup-insert_each f k m (insert j (f j w) out) d.1,
      lookup-insert k j (f j w) out,
    )
  ]
