-- ===== src/Gtfs/Store/Shapes.antt =====
-- The shapes that `GetActiveRouteShapes` of internal/store/gtfs_store.go shows.
use wabus_backend.Prelude.{
  leb_ℤ, ◌-ℤ◌, ℤ, pos, ◌+ℤ◌, ltb_ℤ, ◌==◌, ◌≡◌, ◌⊎◌, ◌↔◌, ◌∙◌, ap, refl, sym, subst, inl, inr, Bool,
  true, false, ◌||◌, ◌&&◌, Option, none, some, List, [], ◌∷◌, arith, String, string_key, same,
  is_some, length, In, Bool-cases, Option-cases,
}
use wabus_backend.GoMap.{GoMap, lookup, insert, keys}
use wabus_backend.GoMap.Laws.{lookup-insert, In-keys, keys-In}
use wabus_backend.Gtfs.{Shape, TripTimeEntry}
use wabus_backend.Gtfs.Dates.{Date, yesterday}
use wabus_backend.Gtfs.Services.{flag}
use wabus_backend.Gtfs.Store.{
  GtfsStore, in_window, trip_time_step, trip_time_loop, services_on, shape_copy, shape_loop,
  get_route_shapes, shapes_or_all, none_if_empty, get_active_route_shapes,
}

-- The time is at most half an hour before the start of the trip, and at most half an hour past its end.
abbrev pub is_near : ℤ → TripTimeEntry → Bool
is_near minutes tt =
    leb_ℤ tt.start_minutes (minutes +ℤ pos 30) && leb_ℤ (minutes -ℤ pos 30) tt.end_minutes

-- The trip is on its way within half an hour of the time: today's, or yesterday's past midnight.
abbrev pub is_running : GoMap String Bool → GoMap String Bool → ℤ → TripTimeEntry → Bool
is_running today before minutes tt =
    (flag tt.service_id today && is_near minutes tt)
    || (flag tt.service_id before
        && ltb_ℤ (pos 1440) tt.end_minutes
        && is_near (minutes +ℤ pos 1440) tt)

module _ (today before : GoMap String Bool) (minutes : ℤ) where
  trip_time_step_lem :
      (k : String) (tt : TripTimeEntry) (active : GoMap String Bool)
      → is_some (lookup k (trip_time_step today before minutes tt active))
        ≡ (same tt.shape_id k && is_running today before minutes tt) || is_some (lookup k active)
  unfolding trip_time_step in_window
  trip_time_step_lem k tt active = ground (
    arith,
    lookup-insert k tt.shape_id true active,
    lookup-insert k tt.shape_id true (insert tt.shape_id true active),
  )

  -- A running trip of the list has the shape.
  abbrev pub Runs : String → List TripTimeEntry → Type 0
  Runs k trip_times =
      (tt : TripTimeEntry) × In tt trip_times
      × (tt.shape_id ≡ k)
      × (is_running today before minutes tt ≡ true)

  trip_time_loop-Runs :
      (k : String) (trip_times : List TripTimeEntry) (active : GoMap String Bool)
      → is_some (lookup k (trip_time_loop today before minutes trip_times active)) ≡ true
      → Runs k trip_times ⊎ (is_some (lookup k active) ≡ true)
  unfolding trip_time_loop
  trip_time_loop-Runs k [] active h = inr h
  trip_time_loop-Runs k (tt ∷ trip_times) active h =
      elim (trip_time_loop-Runs k trip_times (trip_time_step today before minutes tt active) h) [
        | inl (uu, i, e, r) ↦ inl (uu, inr i, e, r)
        | inr stepped ↦
            elim (Bool-cases (same tt.shape_id k && is_running today before minutes tt)) [
              | inl here ↦ inl (tt, inl refl, ground (arith, here), ground (arith, here))
              | inr not_here ↦
                  inr (ground (arith, not_here, stepped, trip_time_step_lem k tt active))
            ]
      ]

  Runs-trip_time_loop :
      (k : String) (trip_times : List TripTimeEntry) (active : GoMap String Bool)
      → Runs k trip_times ⊎ (is_some (lookup k active) ≡ true)
      → is_some (lookup k (trip_time_loop today before minutes trip_times active)) ≡ true
  unfolding trip_time_loop
  Runs-trip_time_loop k [] active (inl (uu, i, e, r)) = absurd i
  Runs-trip_time_loop k [] active (inr h) = h
  Runs-trip_time_loop k (tt ∷ trip_times) active (inl (uu, inl i, e, r)) =
      Runs-trip_time_loop k trip_times (trip_time_step today before minutes tt active) (
        inr (
          trip_time_step_lem k tt active
          ∙ ground (
            arith,
            sym (ap (λ t. t.shape_id) i) ∙ e,
            sym (ap (is_running today before minutes) i) ∙ r,
          )))
  Runs-trip_time_loop k (tt ∷ trip_times) active (inl (uu, inr i, e, r)) =
      Runs-trip_time_loop k trip_times (trip_time_step today before minutes tt active)
        (inl (uu, i, e, r))
  Runs-trip_time_loop k (tt ∷ trip_times) active (inr h) =
      Runs-trip_time_loop k trip_times (trip_time_step today before minutes tt active)
        (inr (ground (arith, h, trip_time_step_lem k tt active)))

module _ {F : Type 0} where
  -- The copy of a stored shape, for one of the ids.
  abbrev pub IsCopy : (String → Type 0) → GtfsStore F → Shape F → Type 0
  IsCopy P s shape =
      (id : String) × P id
      × (stored : Shape F) × (lookup id s.feed.shapes ≡ some stored)
      × (shape ≡ shape_copy id stored s)

  shape_loop-missing :
      (id : String) (ids : List String) (s : GtfsStore F)
      → lookup id s.feed.shapes ≡ none
      → shape_loop (id ∷ ids) s ≡ shape_loop ids s
  unfolding shape_loop
  shape_loop-missing id ids s e = rw (e, shape_loop) refl

  shape_loop-found :
      (id : String) (stored : Shape F) (ids : List String) (s : GtfsStore F)
      → lookup id s.feed.shapes ≡ some stored
      → shape_loop (id ∷ ids) s ≡ shape_copy id stored s ∷ shape_loop ids s
  unfolding shape_loop
  shape_loop-found id stored ids s e = rw (e, shape_loop) refl

  shape_loop-IsCopy :
      (shape : Shape F) (ids : List String) (s : GtfsStore F)
      → In shape (shape_loop ids s)
      → IsCopy (λ id. In id ids) s shape
  unfolding shape_loop
  shape_loop-IsCopy shape [] s h = absurd h
  shape_loop-IsCopy shape (j ∷ ids) s h = elim (Option-cases (lookup j s.feed.shapes)) [
    | inl missing ↦
        let (id, i, stored, e, f) =
          shape_loop-IsCopy shape ids s (subst (In shape) (shape_loop-missing j ids s missing) h) in
        (id, inr i, stored, e, f)
    | inr (found, e) ↦ elim (subst (In shape) (shape_loop-found j found ids s e) h) [
      | inl p ↦ (j, inl refl, found, e, p)
      | inr i ↦
          let (id, k, stored, d, f) = shape_loop-IsCopy shape ids s i in (id, inr k, stored, d, f)
    ]
  ]

  IsCopy-shape_loop :
      (shape : Shape F) (ids : List String) (s : GtfsStore F)
      → IsCopy (λ id. In id ids) s shape
      → In shape (shape_loop ids s)
  IsCopy-shape_loop shape [] s (id, i, stored, e, f) = absurd i
  IsCopy-shape_loop shape (j ∷ ids) s (id, inl p, stored, e, f) =
      subst (In shape)
        (sym (shape_loop-found j stored ids s (ap (λ k. lookup k s.feed.shapes) (sym p) ∙ e)))
        (inl (f ∙ ap (λ k. shape_copy k stored s) p))
  IsCopy-shape_loop shape (j ∷ ids) s (id, inr i, stored, e, f) =
      let rest = IsCopy-shape_loop shape ids s (id, i, stored, e, f) in
      elim (Option-cases (lookup j s.feed.shapes)) [
        | inl missing ↦ subst (In shape) (sym (shape_loop-missing j ids s missing)) rest
        | inr (found, d) ↦ subst (In shape) (sym (shape_loop-found j found ids s d)) (inr rest)
      ]

  abbrev pub listed : Option (List (Shape F)) → List (Shape F)
  listed none = []
  listed (some shapes) = shapes

  listed-none_if_empty : (shapes : List (Shape F)) → listed (none_if_empty shapes) ≡ shapes
  listed-none_if_empty [] = refl
  listed-none_if_empty (shape ∷ shapes) = refl

  shapes_or_all-empty :
      (route_id : String) (active : GoMap String Bool) (s : GtfsStore F)
      → ((k : String) → is_some (lookup k active) ≡ true → ⊥)
      → shapes_or_all route_id active s ≡ get_route_shapes route_id s
  unfolding shapes_or_all lookup
  shapes_or_all-empty route_id [] s h = refl
  shapes_or_all-empty route_id ((k, b) ∷ active) s h = absurd (h k (ground arith))

  shapes_or_all-listed :
      (route_id k : String) (active : GoMap String Bool) (s : GtfsStore F)
      → is_some (lookup k active) ≡ true
      → listed (shapes_or_all route_id active s) ≡ shape_loop (keys active) s
  unfolding shapes_or_all lookup
  shapes_or_all-listed route_id k [] s h = cc
  shapes_or_all-listed route_id k (entry ∷ active) s h =
      let full : (length (entry ∷ active) == 0) ≡ false = ground arith in
      rw full (listed-none_if_empty (shape_loop (keys (entry ∷ active)) s))

  -- For a route with trip times, with today's services and yesterday's: when no trip is on its way
  -- within half an hour, all shapes of the route are shown; when one is, the shapes shown are the
  -- stored shapes of the trips on their way, each with its direction.
  pub active_shapes_lem :
      (route_id : String) (date : Date) (minutes : ℤ) (s : GtfsStore F)
      (trip_times : List TripTimeEntry)
      → lookup route_id s.feed.route_trip_times ≡ some trip_times
      → (((k : String)
            → Runs (services_on date s) (services_on (yesterday date) s) minutes k trip_times
            → ⊥)
          → get_active_route_shapes route_id date minutes s ≡ get_route_shapes route_id s)
        × ((k : String)
            → Runs (services_on date s) (services_on (yesterday date) s) minutes k trip_times
            → (shape : Shape F)
            → In shape (listed (get_active_route_shapes route_id date minutes s))
              ↔ IsCopy
                  (λ id.
                    Runs
                      (services_on date s)
                      (services_on (yesterday date) s)
                      minutes
                      id
                      trip_times)
                  s
                  shape)
  unfolding get_active_route_shapes lookup
  active_shapes_lem route_id date minutes s trip_times e = (
    λ no_run. made ∙ shapes_or_all-empty route_id active s (λ k h. no_run k (from k h)),
    λ k r shape.
        let shown = ap listed made ∙ shapes_or_all-listed route_id k active s (into k r) in
        (
          λ h.
              let (id, i, stored, d, f) =
                shape_loop-IsCopy shape (keys active) s (subst (In shape) shown h) in
              (id, from id (In-keys id active i), stored, d, f),
          λ (id, i, stored, d, f). subst (In shape) (sym shown) (
              IsCopy-shape_loop shape (keys active) s
                (id, keys-In id active (into id i), stored, d, f)),
        ),
  )
    where
      today : GoMap String Bool
      today = services_on date s

      before : GoMap String Bool
      before = services_on (yesterday date) s

      active : GoMap String Bool
      active = trip_time_loop today before minutes trip_times []

      made : get_active_route_shapes route_id date minutes s ≡ shapes_or_all route_id active s
      made = rw (e, get_active_route_shapes) refl

      from :
          (k : String) → is_some (lookup k active) ≡ true → Runs today before minutes k trip_times
      from k h = elim (trip_time_loop-Runs today before minutes k trip_times [] h) [
        | inl r ↦ r
        | inr none_before ↦ absurd (cc)
      ]

      into :
          (k : String) → Runs today before minutes k trip_times → is_some (lookup k active) ≡ true
      into k r = Runs-trip_time_loop today before minutes k trip_times [] (inl r)
