-- ===== src/Store/Query/Listing.antt =====
-- What `List` of internal/store/store.go returns.
use wabus_backend.Prelude.{
  ◌≡◌, ◌≢◌, ◌↔◌, ◌⊎◌, ◌∙◌, refl, sym, subst, inl, inr, Bool, true, ◌&&◌, Option, none, some, List,
  [], ◌∷◌, map, arith, String, string_key, if◌then◌else◌, In, All, In-All, All-In, Once,
}
use wabus_backend.Prelude.Outcome.{done}
use wabus_backend.Domain.{Float64, Vehicle, BoundingBox}
use wabus_backend.GoMap.{lookup, keys}
use wabus_backend.GoMap.Laws.{In-keys, keys-In, keys-Once}
use wabus_backend.Store.{Store}
use wabus_backend.Store.Invariant.{Inv}
use wabus_backend.Store.Query.{get_candidates, in_bbox, list_loop, list, ListOptions}
use wabus_backend.Store.Query.Candidates.{
  has, of_type, of_line, get_candidates_lem, get_candidates-Distinct,
}

abbrev pub vehicle_keys : {F : Type 0} → List (Vehicle F) → List String
vehicle_keys = map (λ v. v.key)

pub All-map :
    {F : Type 0} {k : String} (vs : List (Vehicle F))
    → ((w : Vehicle F) → In w vs → w.key ≢ k)
    → All (λ j. j ≢ k) (vehicle_keys vs)
All-map [] h = tt
All-map (v ∷ vs) h = (h v (inl refl), All-map vs (λ w i. h w (inr i)))

module _ {F : Type 0} ⦃f : Float64 F⦄ where
  -- The vehicle meets all the options.
  abbrev pub meets : ListOptions F → Vehicle F → Bool
  meets opts v = of_type opts.type_option v && of_line opts.line_option v && in_bbox opts.bbox v

  take_if : Option (BoundingBox F) → Option (Vehicle F) → List (Vehicle F) → List (Vehicle F)
  take_if bbox none vs = vs
  take_if bbox (some v) vs = if in_bbox bbox v then v ∷ vs else vs

  pick : Option (BoundingBox F) → List String → Store F → List (Vehicle F)
  pick bbox [] s = []
  pick bbox (k ∷ ks) s = take_if bbox (lookup k s.vehicles) (pick bbox ks s)

  list_loop-pick :
      (bbox : Option (BoundingBox F)) (ks : List String) (s : Store F)
      → All (λ k. has k s.vehicles ≡ true) ks
      → list_loop bbox ks s ≡ done (pick bbox ks s)
  unfolding list_loop pick take_if
  list_loop-pick bbox [] s h = refl
  list_loop-pick bbox (k ∷ ks) s h = ground (arith, list_loop-pick bbox ks s h.1)

  take_if_sound :
      (bbox : Option (BoundingBox F)) (v : Vehicle F) (o : Option (Vehicle F))
      (vs : List (Vehicle F))
      → In v (take_if bbox o vs)
      → ((o ≡ some v) × (in_bbox bbox v ≡ true)) ⊎ In v vs
  unfolding take_if
  take_if_sound bbox v none vs h = inr h
  take_if_sound bbox v (some u) vs h = ground arith

  pick_sound :
      (bbox : Option (BoundingBox F)) (v : Vehicle F) (ks : List String) (s : Store F)
      → Inv s
      → In v (pick bbox ks s)
      → In v.key ks × (lookup v.key s.vehicles ≡ some v) × (in_bbox bbox v ≡ true)
  unfolding pick
  pick_sound bbox v [] s i h = absurd h
  pick_sound bbox v (k ∷ ks) s i h =
      elim (take_if_sound bbox v (lookup k s.vehicles) (pick bbox ks s) h) [
        | inl here ↦
            let e = i.keyed k v here.0 in
            (inl e, subst (λ j. lookup j s.vehicles ≡ some v) (sym e) here.0, here.1)
        | inr there ↦
            let (later, stored, inside) = pick_sound bbox v ks s i there in
            (inr later, stored, inside)
      ]

  pick_complete :
      (bbox : Option (BoundingBox F)) (v : Vehicle F) (ks : List String) (s : Store F)
      → In v.key ks
      → lookup v.key s.vehicles ≡ some v
      → in_bbox bbox v ≡ true
      → In v (pick bbox ks s)
  unfolding pick take_if
  pick_complete bbox v [] s h e b = absurd h
  pick_complete bbox v (k ∷ ks) s (inl h) e b = ground arith
  pick_complete bbox v (k ∷ ks) s (inr h) e b = ground (arith, pick_complete bbox v ks s h e b)

  take_if-Once :
      (bbox : Option (BoundingBox F)) (o : Option (Vehicle F)) (vs : List (Vehicle F))
      → ((v : Vehicle F) → o ≡ some v → (w : Vehicle F) → In w vs → w.key ≢ v.key)
      → Once (vehicle_keys vs)
      → Once (vehicle_keys (take_if bbox o vs))
  unfolding take_if
  take_if-Once bbox none vs new o = o
  take_if-Once bbox (some v) vs new o =
      let head : All (λ j. j ≢ v.key) (vehicle_keys vs) = All-map vs (λ w h. new v refl w h) in
      ground (arith, head)

  pick-Once :
      (bbox : Option (BoundingBox F)) (ks : List String) (s : Store F)
      → Inv s
      → Once ks
      → Once (vehicle_keys (pick bbox ks s))
  unfolding pick
  pick-Once bbox [] s i o = tt
  pick-Once bbox (k ∷ ks) s i o =
      take_if-Once bbox (lookup k s.vehicles) (pick bbox ks s)
        (λ v e w h p.
          All-In (λ j. j ≢ k) w.key ks o.0 (pick_sound bbox w ks s i h).0 (p ∙ i.keyed k v e))
        (pick-Once bbox ks s i o.1)

  -- On a store that satisfies the invariant `List` does not panic. It returns the stored vehicles
  -- that meet the options (type, line and bounding box), all of them, and none twice.
  pub list_lem :
      (opts : ListOptions F) (s : Store F)
      → Inv s
      → (r : List (Vehicle F)) × (list opts s ≡ done r)
        × ((v : Vehicle F) → In v r ↔ ((lookup v.key s.vehicles ≡ some v) × (meets opts v ≡ true)))
        × Once (vehicle_keys r)
  unfolding list
  list_lem opts s i = (
    pick opts.bbox ks s,
    list_loop-pick opts.bbox ks s (In-All _ ks stored),
    λ v. (sound v, complete v),
    pick-Once opts.bbox ks s i (keys-Once _ (get_candidates-Distinct opts s)),
  )
    where
      ks : List String
      ks = keys (get_candidates opts s)

      stored : (k : String) → In k ks → has k s.vehicles ≡ true
      stored k h =
          ground (arith, In-keys k (get_candidates opts s) h, get_candidates_lem opts s k i)

      sound :
          (v : Vehicle F)
          → In v (pick opts.bbox ks s)
          → (lookup v.key s.vehicles ≡ some v) × (meets opts v ≡ true)
      sound v h =
          let (listed, found, inside) = pick_sound opts.bbox v ks s i h in
          (
            found,
            ground (
              arith,
              In-keys v.key (get_candidates opts s) listed,
              get_candidates_lem opts s v.key i,
            ),
          )

      complete :
          (v : Vehicle F)
          → (lookup v.key s.vehicles ≡ some v) × (meets opts v ≡ true)
          → In v (pick opts.bbox ks s)
      complete v h =
          let candidate : has v.key (get_candidates opts s) ≡ true =
            ground (arith, get_candidates_lem opts s v.key i) in
          pick_complete opts.bbox v ks s (keys-In v.key (get_candidates opts s) candidate) h.0
            (ground arith)
