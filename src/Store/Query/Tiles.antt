-- ===== src/Store/Query/Tiles.antt =====
-- What `SnapshotForTiles` of internal/store/store.go returns.
use wabus_backend.Prelude.{
  ◌≡◌, ◌≢◌, ◌↔◌, ◌⊎◌, ◌∙◌, ap, refl, sym, subst, inl, inr, true, false, none, some, List, [], ◌∷◌,
  ◌++◌, arith, String, string_key, string_discrete, is_some, In, All, In-All, Once, Option-cases,
  Bool-cases, In-append, In-append_left, In-append_right,
}
use wabus_backend.Prelude.Outcome.{Outcome, done}
use wabus_backend.Domain.{Vehicle}
use wabus_backend.GoMap.{lookup, insert, keys}
use wabus_backend.GoMap.Laws.{lookup-insert, In-keys, keys-In}
use wabus_backend.GoMap.Buckets.{bucket}
use wabus_backend.Store.{Store}
use wabus_backend.Store.Invariant.{Inv}
use wabus_backend.Store.Query.{Seen, tile_loop, tiles_loop, snapshot_for_tiles}
use wabus_backend.Store.Query.Candidates.{has}
use wabus_backend.Store.Query.Listing.{vehicle_keys, All-map}

module _ {F : Type 0} where
  Once-head :
      {k : String} (w : Vehicle F) (vs : List (Vehicle F))
      → All (λ j. j ≢ k) (vehicle_keys vs)
      → In w vs
      → w.key ≢ k
  Once-head w [] a h = absurd h
  Once-head w (v ∷ vs) a (inl e) = λ p. a.0 (ap (λ u. u.key) (sym e) ∙ p)
  Once-head w (v ∷ vs) a (inr h) = Once-head w vs a.1 h

  Once-snoc :
      (v : Vehicle F) (vs : List (Vehicle F))
      → ((w : Vehicle F) → In w vs → w.key ≢ v.key)
      → Once (vehicle_keys vs)
      → Once (vehicle_keys (vs ++ v ∷ []))
  Once-snoc v [] new o = (tt, tt)
  Once-snoc v (u ∷ vs) new o = (
    All-map (vs ++ v ∷ []) (λ w h. elim (In-append w vs (v ∷ []) h) [
      | inl old ↦ Once-head w vs o.0 old
      | inr (inl e) ↦ λ p. new u (inl refl) (sym p ∙ ap (λ x. x.key) e)
      | inr (inr x) ↦ absurd x
    ]),
    Once-snoc v vs (λ w h. new w (inr h)) o.1,
  )

has-nil : (k : String) → has {V = Unit {0}} k [] ≡ true → ⊥
unfolding lookup
has-nil k h = ground arith

module _ {F : Type 0} (s : Store F) (i : Inv s) where
  -- The state of the loops: `result` holds stored vehicles, those of the keys in `seen`, once each.
  record IsSound (r : Seen F) : Type 0 where
    stored : (v : Vehicle F) → In v r.result → lookup v.key s.vehicles ≡ some v
    noted : (v : Vehicle F) → In v r.result → has v.key r.seen ≡ true
    listed :
        (v : Vehicle F) → lookup v.key s.vehicles ≡ some v → has v.key r.seen ≡ true → In v r.result
    once : Once (vehicle_keys r.result)

  -- A run of a loop from `r` that saw the keys of `P` besides.
  abbrev Visits : (String → Type 0) → Seen F → Outcome (Seen F) → Type 0
  Visits P r o =
      (q : Seen F) × (o ≡ done q)
      × IsSound q
      × ((k : String) → (has k q.seen ≡ true) ↔ (P k ⊎ (has k r.seen ≡ true)))

  visit : String → Vehicle F → Seen F → Seen F
  visit k v r = record { seen = insert k tt r.seen; result = r.result ++ v ∷ [] }

  visit-IsSound :
      (k : String) (v : Vehicle F) (r : Seen F)
      → lookup k s.vehicles ≡ some v
      → has k r.seen ≡ false
      → IsSound r
      → IsSound (visit k v r)
  unfolding visit
  visit-IsSound k v r found new h = record {
    stored = λ w a. elim (In-append w r.result (v ∷ []) a) [
      | inl old ↦ h.stored w old
      | inr (inl e) ↦ subst (λ u. lookup u.key s.vehicles ≡ some u) (sym e) here
      | inr (inr x) ↦ absurd x
    ];
    noted = λ w a. elim (In-append w r.result (v ∷ []) a) [
      | inl old ↦ ground (arith, lookup-insert w.key k tt r.seen, h.noted w old)
      | inr (inl e) ↦ ground (arith, lookup-insert w.key k tt r.seen, i.keyed k v found)
      | inr (inr x) ↦ absurd x
    ];
    listed = λ w held seen. elim (string_discrete k w.key) [
      | yes p ↦ In-append_right w r.result (v ∷ []) (inl (ground arith))
      | no p ↦
          In-append_left w r.result (v ∷ [])
            (h.listed w held (ground (arith, lookup-insert w.key k tt r.seen)))
    ];
    once = Once-snoc v r.result (λ w a p. ground (arith, h.noted w a, i.keyed k v found)) h.once;
  }
    where
      here : lookup v.key s.vehicles ≡ some v
      here = subst (λ j. lookup j s.vehicles ≡ some v) (sym (i.keyed k v found)) found

  tile_loop_lem :
      (ks : List String) (r : Seen F)
      → All (λ k. has k s.vehicles ≡ true) ks
      → IsSound r
      → Visits (λ k. In k ks) r (tile_loop s ks r)
  unfolding tile_loop visit
  tile_loop_lem [] r a h = (r, refl, h, λ k. (inr, λ c. elim c [ inl x ↦ absurd x | inr y ↦ y ]))
  tile_loop_lem (k ∷ ks) r a h = elim (Bool-cases (is_some (lookup k r.seen))) [
    | inl old ↦
        let (q, e, sound, m) = tile_loop_lem ks r a.1 h in
        rw old (q, e, sound, λ j. (ground (arith, (m j).0), ground (arith, (m j).1)))
    | inr new ↦ elim (Option-cases (lookup k s.vehicles)) [
      | inl missing ↦ absurd (ground (arith, a.0))
      | inr (v, found) ↦
          let (q, e, sound, m) =
            tile_loop_lem ks (visit k v r) a.1 (visit-IsSound k v r found new h) in
          rw (new, found)
            (
              q,
              e,
              sound,
              λ j. (
                ground (arith, (m j).0, lookup-insert j k tt r.seen),
                ground (arith, (m j).1, lookup-insert j k tt r.seen),
              ),
            )
    ]
  ]

  has-missing : (t k : String) → lookup t s.by_tile ≡ none → has k (bucket t s.by_tile) ≡ true → ⊥
  unfolding lookup
  has-missing t k e h = ground arith

  -- The index of a tile names the stored vehicles of the tile.
  tile-stored : (t k : String) → has k (bucket t s.by_tile) ≡ true → has k s.vehicles ≡ true
  tile-stored t k h = ground (arith, i.tiles.groups t k)

  tile-place :
      (t : String) (v : Vehicle F)
      → lookup v.key s.vehicles ≡ some v
      → (has v.key (bucket t s.by_tile) ≡ true) ↔ (v.tile_id ≡ t)
  tile-place t v e =
      (λ h. ground (arith, i.tiles.groups t v.key), λ h. ground (arith, i.tiles.groups t v.key))

  -- The key stands in the index under one of the tiles.
  abbrev UnderTiles : List String → String → Type 0
  UnderTiles ts k = (t : String) × In t ts × (has k (bucket t s.by_tile) ≡ true)

  tiles_loop_lem :
      (ts : List String) (r : Seen F) → IsSound r → Visits (UnderTiles ts) r (tiles_loop s ts r)
  unfolding tiles_loop
  tiles_loop_lem [] r h = (r, refl, h, λ k. (inr, λ c. elim c [ inl x ↦ absurd x.1 | inr y ↦ y ]))
  tiles_loop_lem (t ∷ ts) r h = elim (Option-cases (lookup t s.by_tile)) [
    | inl missing ↦
        let (q, e, sound, m) = tiles_loop_lem ts r h in
        rw (missing, tiles_loop)
          (
            q,
            e,
            sound,
            λ k. (
              λ seen. elim ((m k).0 seen) [ inl x ↦ inl (x.0, inr x.1, x.2) | inr old ↦ inr old ],
              λ c. elim c [
                | inr old ↦ (m k).1 (inr old)
                | inl (u, inr later, x) ↦ (m k).1 (inl (u, later, x))
                | inl (u, inl here, x) ↦ absurd (
                    has-missing t k missing (subst (λ z. has k (bucket z s.by_tile) ≡ true) here x))
              ],
            ),
          )
    | inr (ks, found) ↦
        let (r', e, sound, m) =
          tile_loop_lem (keys ks) r
            (In-All _ (keys ks) (λ k a. tile-stored t k (ground (arith, In-keys k ks a)))) h in
        let (q, e', sound', m') = tiles_loop_lem ts r' sound in
        rw (found, tiles_loop, e)
          (
            q,
            e',
            sound',
            λ k. (
              λ seen. elim ((m' k).0 seen) [
                | inl x ↦ inl (x.0, inr x.1, x.2)
                | inr first ↦ elim ((m k).0 first) [
                  | inl a ↦ inl (t, inl refl, ground (arith, In-keys k ks a))
                  | inr old ↦ inr old
                ]
              ],
              λ c. elim c [
                | inr old ↦ (m' k).1 (inr ((m k).1 (inr old)))
                | inl (u, inr later, x) ↦ (m' k).1 (inl (u, later, x))
                | inl (u, inl here, x) ↦
                    let x' = subst (λ z. has k (bucket z s.by_tile) ≡ true) here x in
                    (m' k).1 (inr ((m k).1 (inl (keys-In k ks (ground arith)))))
              ],
            ),
          )
  ]

module _ {F : Type 0} where
  -- On a store that satisfies the invariant `SnapshotForTiles` does not panic. It returns the
  -- stored vehicles whose tile is among the given ones, all of them, and none twice, even where a
  -- tile is given twice.
  pub snapshot_for_tiles_lem :
      (ts : List String) (s : Store F)
      → Inv s
      → (r : List (Vehicle F)) × (snapshot_for_tiles ts s ≡ done r)
        × ((v : Vehicle F) → In v r ↔ ((lookup v.key s.vehicles ≡ some v) × In v.tile_id ts))
        × Once (vehicle_keys r)
  unfolding snapshot_for_tiles
  snapshot_for_tiles_lem ts s i =
      let (q, e, sound, m) = tiles_loop_lem s i ts empty nothing in
      (
        q.result,
        rw e,
        λ v. (
          λ h.
              let held = sound.stored v h in
              elim ((m v.key).0 (sound.noted v h)) [
                | inl (t, a, x) ↦
                    (held, subst (λ z. In z ts) (sym ((tile-place s i t v held).0 x)) a)
                | inr x ↦ absurd (has-nil v.key x)
              ],
          λ (held, a).
              sound.listed v held
                ((m v.key).1 (inl (v.tile_id, a, (tile-place s i v.tile_id v held).1 refl))),
        ),
        sound.once,
      )
    where
      empty : Seen F
      empty = record { seen = []; result = [] }

      nothing : IsSound s i empty
      nothing = record {
        stored = λ v h. absurd h;
        noted = λ v h. absurd h;
        listed = λ v e h. absurd (has-nil v.key h);
        once = tt;
      }
