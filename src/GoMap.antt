-- ===== src/GoMap.antt =====
-- Go's built-in maps. A map is a list of entries; `range` goes through the entries in the order of
-- the list. Go leaves that order open, and a statement about every list covers every order.
pub mod Laws
pub mod Buckets
pub mod Groups
use wabus_backend.Prelude.{
  ℕ, suc, ◌≡◌, ◌≢◌, ite, Option, none, some, List, [], ◌∷◌, map, Key, length,
}

abbrev pub GoMap : Type 0 → Type 0 → Type 0
GoMap K V = List (K × V)

-- `map[K]struct{}`
abbrev pub GoSet : Type 0 → Type 0
GoSet K = GoMap K (Unit {0})

module _ {K V : Type 0} where
  -- The keys that `range m` gives.
  abbrev pub keys : GoMap K V → List K
  keys = map (λ e. e.0)

  abbrev pub values : GoMap K V → List V
  values = map (λ e. e.1)

module _ {K V : Type 0} ⦃e : Key K⦄ where
  -- `v, ok := m[k]`
  unfoldable pub lookup : K → GoMap K V → Option V
  lookup k [] = none
  lookup k ((j, v) ∷ m) = ite (e.dec j k) (some v) (lookup k m)

  -- `m[k] = v`
  unfoldable pub insert : K → V → GoMap K V → GoMap K V
  insert k v [] = (k, v) ∷ []
  insert k v ((j, w) ∷ m) = ite (e.dec j k) ((j, v) ∷ m) ((j, w) ∷ insert k v m)

  -- `delete(m, k)`
  unfoldable pub delete : K → GoMap K V → GoMap K V
  delete k [] = []
  delete k ((j, w) ∷ m) = let rest = delete k m in ite (e.dec j k) rest ((j, w) ∷ rest)

  -- No key stands twice, as in every map that a program builds.
  abbrev pub Distinct : GoMap K V → Type 0
  Distinct [] = Unit
  Distinct ((k, v) ∷ m) = (lookup k m ≡ none) × Distinct m

module _ {K V W : Type 0} ⦃e : Key K⦄ where
  -- `for k, v := range m { out[k] = f(k, v) }`
  unfoldable pub insert_each : (K → V → W) → GoMap K V → GoMap K W → GoMap K W
  insert_each f [] out = out
  insert_each f ((k, v) ∷ m) out = insert_each f m (insert k (f k v) out)
