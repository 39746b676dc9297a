-- ===== src/Store/Invariant.antt =====
-- The invariant of the vehicle store: each index is the grouping of the stored vehicles by its
-- field. (internal/store/store.go)
use wabus_backend.Prelude.{◌≡◌, refl, none, some, [], arith, Key, String, string_key, int_key}
use wabus_backend.Domain.{Vehicle}
use wabus_backend.GoMap.{GoMap, lookup, insert, delete, Distinct}
use wabus_backend.GoMap.Laws.{lookup-insert, lookup-delete}
use wabus_backend.GoMap.Buckets.{Buckets, IsTidy, add-IsTidy, remove-IsTidy, add, remove}
use wabus_backend.GoMap.Groups.{Groups, place, fresh-Groups, moved-Groups, kept-Groups, gone-Groups}
use wabus_backend.Store.{Store}

-- An index over the vehicles `m`, by the field `f`.
pub record IsIndex {F T : Type 0} ⦃t : Key T⦄ (f : Vehicle F → T) (m : GoMap String (Vehicle F))
    (ix : Buckets T String) : Type 0 where
  pub groups : Groups (place f m) ix
  pub tidy : IsTidy ix

pub record Inv {F : Type 0} (s : Store F) : Type 0 where
  pub distinct : Distinct s.vehicles
  pub keyed : (k : String) (v : Vehicle F) → lookup k s.vehicles ≡ some v → v.key ≡ k
  pub tiles : IsIndex (λ v. v.tile_id) s.vehicles s.by_tile
  pub lines : IsIndex (λ v. v.line) s.vehicles s.by_line
  pub types : IsIndex (λ v. v.vehicle_type) s.vehicles s.by_type

module _ {F T : Type 0} ⦃t : Key T⦄ (f : Vehicle F → T) (k : String) (m : GoMap String (Vehicle F))
    (ix : Buckets T String) where
  pub fresh-IsIndex :
      (v : Vehicle F)
      → lookup k m ≡ none
      → IsIndex f m ix
      → IsIndex f (insert k v m) (add (f v) k ix)
  fresh-IsIndex v free i = record {
    groups = fresh-Groups f k m v ix free i.groups;
    tidy = add-IsTidy (f v) k ix i.tidy;
  }

  pub moved-IsIndex :
      (u v : Vehicle F)
      → lookup k m ≡ some u
      → IsIndex f m ix
      → IsIndex f (insert k v m) (add (f v) k (remove (f u) k ix))
  moved-IsIndex u v held i = record {
    groups = moved-Groups f k m u v ix held i.groups;
    tidy = add-IsTidy (f v) k _ (remove-IsTidy (f u) k ix i.tidy);
  }

  pub kept-IsIndex :
      (u v : Vehicle F)
      → lookup k m ≡ some u
      → f v ≡ f u
      → IsIndex f m ix
      → IsIndex f (insert k v m) ix
  kept-IsIndex u v held stays i = record {
    groups = kept-Groups f k m u v ix held stays i.groups;
    tidy = i.tidy;
  }

  pub gone-IsIndex :
      (u : Vehicle F)
      → lookup k m ≡ some u
      → IsIndex f m ix
      → IsIndex f (delete k m) (remove (f u) k ix)
  gone-IsIndex u held i = record {
    groups = gone-Groups f k m u ix held i.groups;
    tidy = remove-IsTidy (f u) k ix i.tidy;
  }

pub empty-IsIndex : {F T : Type 0} ⦃t : Key T⦄ (f : Vehicle F → T) → IsIndex f [] []
unfolding lookup
empty-IsIndex f = record {
  groups = λ x k. refl;
  tidy = record { distinct = tt; inhabited = λ x h. cc; sets = λ x. tt };
}

module _ {F : Type 0} where
  pub Keyed-insert :
      (k : String) (v : Vehicle F) (m : GoMap String (Vehicle F))
      → v.key ≡ k
      → ((j : String) (w : Vehicle F) → lookup j m ≡ some w → w.key ≡ j)
      → (j : String) (w : Vehicle F) → lookup j (insert k v m) ≡ some w
      → w.key ≡ j
  Keyed-insert k v m e h j w found = ground (arith, lookup-insert j k v m, h j w)

  pub Keyed-delete :
      (k : String) (m : GoMap String (Vehicle F))
      → ((j : String) (w : Vehicle F) → lookup j m ≡ some w → w.key ≡ j)
      → (j : String) (w : Vehicle F) → lookup j (delete k m) ≡ some w
      → w.key ≡ j
  Keyed-delete k m h j w found = ground (arith, lookup-delete j k m, h j w)
