-- ===== src/Gtfs/Ranges/Cover.antt =====
-- The ranges of `buildTripTimeRanges` of pkg/gtfs/parser.go, and the stop times of their trips.
use wabus_backend.Prelude.{
  ℕ, ℤ, zero, suc, pos, ◌≤ℤ◌, ◌/◌, ◌≤◌, ◌≡◌, ◌≢◌, ◌∙◌, ap, refl, subst, inl, inr, false, ◌==◌,
  Option, none, some, List, [], ◌∷◌, arith, string_key, length, get_elem?, In,
}
use wabus_backend.GoMap.{lookup, values}
use wabus_backend.Gtfs.{Feed, TripMeta, StopTimeCompact, TripTimeEntry}
use wabus_backend.Gtfs.Parser.{ids_or_nil}
use wabus_backend.Gtfs.Ranges.{
  Range, widen, widen_at, stop_times_ranges, schedules_ranges, unseen, entry_of,
  build_trip_time_ranges,
}
use wabus_backend.Gtfs.Ranges.Entries.{entry_loop-Listed}
use wabus_backend.Gtfs.Ranges.Attained.{
  AllAttained, AllAttained-get, schedules_ranges-Attained, unseen-Attained,
}

-- The range is there, and goes from the departure or before to the arrival or after.

abbrev pub Covers : StopTimeCompact → Option Range → Type 0
Covers st none = ⊥
Covers st (some (low, high)) = (low ≤ st.departure_seconds / 60) × (st.arrival_seconds / 60 ≤ high)

widen-Covers : (st : StopTimeCompact) (o : Option Range) → Covers st (widen st o)
unfolding widen
widen-Covers st none = (omega arith, omega arith)
widen-Covers st (some (low, high)) = ground arith

widen-keeps : (st u : StopTimeCompact) (o : Option Range) → Covers u o → Covers u (widen st o)
unfolding widen
widen-keeps st u none c = absurd c
widen-keeps st u (some (low, high)) c = ground arith

-- The trip's range covers the stop time.
abbrev CoversAt : ℕ → StopTimeCompact → List (Option Range) → Type 0
CoversAt i st ranges = (o : Option Range) × (get_elem? ranges i ≡ some o) × Covers st o

widen_at-keeps :
    (i j : ℕ) (st u : StopTimeCompact) (ranges : List (Option Range))
    → CoversAt i u ranges
    → CoversAt i u (widen_at j st ranges)
unfolding widen_at
widen_at-keeps i j st u [] c = c
widen_at-keeps zero zero st u (o ∷ ranges) (p, e, c) =
    (widen st o, refl, widen-keeps st u o (ground (arith, c, e)))
widen_at-keeps (suc i) zero st u (o ∷ ranges) c = c
widen_at-keeps zero (suc j) st u (o ∷ ranges) c = c
widen_at-keeps (suc i) (suc j) st u (o ∷ ranges) c = widen_at-keeps i j st u ranges c

widen_at-Covers :
    (i : ℕ) (st : StopTimeCompact) (ranges : List (Option Range)) (o : Option Range)
    → get_elem? ranges i ≡ some o
    → CoversAt i st (widen_at i st ranges)
unfolding widen_at
widen_at-Covers i st [] o e = cc
widen_at-Covers zero st (p ∷ ranges) o e = (widen st p, refl, widen-Covers st p)
widen_at-Covers (suc i) st (p ∷ ranges) o e = widen_at-Covers i st ranges o e

widen_at-length :
    (i : ℕ) (st : StopTimeCompact) (ranges : List (Option Range))
    → length (widen_at i st ranges) ≡ length ranges
unfolding widen_at
widen_at-length i st [] = refl
widen_at-length zero st (o ∷ ranges) = refl
widen_at-length (suc i) st (o ∷ ranges) = ap suc (widen_at-length i st ranges)

within :
    {A : Type 0} (xs : List A) (i : ℕ) → suc i ≤ length xs → (x : A) × (get_elem? xs i ≡ some x)
within [] i h = absurd (omega (arith, h))
within (x ∷ xs) zero h = (x, refl)
within (x ∷ xs) (suc i) h = within xs i (omega (arith, h))

get_elem?-within :
    {A : Type 0} (xs : List A) (i : ℕ) (x : A) → get_elem? xs i ≡ some x → suc i ≤ length xs
get_elem?-within [] i x e = cc
get_elem?-within (y ∷ ys) zero x e = omega arith
get_elem?-within (y ∷ ys) (suc i) x e = omega (arith, get_elem?-within ys i x e)

stop_times_ranges-keeps :
    (i : ℕ) (u : StopTimeCompact) (sts : List StopTimeCompact) (ranges : List (Option Range))
    → CoversAt i u ranges
    → CoversAt i u (stop_times_ranges sts ranges)
unfolding stop_times_ranges
stop_times_ranges-keeps i u [] ranges c = c
stop_times_ranges-keeps i u (st ∷ sts) ranges c =
    stop_times_ranges-keeps i u sts _ (widen_at-keeps i st.trip_index st u ranges c)

stop_times_ranges-length :
    (sts : List StopTimeCompact) (ranges : List (Option Range))
    → length (stop_times_ranges sts ranges) ≡ length ranges
unfolding stop_times_ranges
stop_times_ranges-length [] ranges = refl
stop_times_ranges-length (st ∷ sts) ranges =
    stop_times_ranges-length sts (widen_at st.trip_index st ranges)
    ∙ widen_at-length st.trip_index st ranges

stop_times_ranges-Covers :
    (u : StopTimeCompact) (sts : List StopTimeCompact) (ranges : List (Option Range))
    → In u sts
    → suc u.trip_index ≤ length ranges
    → CoversAt u.trip_index u (stop_times_ranges sts ranges)
unfolding stop_times_ranges
stop_times_ranges-Covers u [] ranges i h = absurd i
stop_times_ranges-Covers u (st ∷ sts) ranges (inl e) h =
    let (o, at) = within ranges u.trip_index h in
    stop_times_ranges-keeps u.trip_index u sts (widen_at st.trip_index st ranges) (
      subst (λ x. CoversAt u.trip_index u (widen_at x.trip_index x ranges)) e
        (widen_at-Covers u.trip_index u ranges o at))
stop_times_ranges-Covers u (st ∷ sts) ranges (inr i) h =
    stop_times_ranges-Covers u sts (widen_at st.trip_index st ranges) i
      (omega (arith, h, widen_at-length st.trip_index st ranges))

schedules_ranges-keeps :
    (i : ℕ) (u : StopTimeCompact) (schedules : List (List StopTimeCompact))
    (ranges : List (Option Range))
    → CoversAt i u ranges
    → CoversAt i u (schedules_ranges schedules ranges)
unfolding schedules_ranges
schedules_ranges-keeps i u [] ranges c = c
schedules_ranges-keeps i u (sts ∷ schedules) ranges c =
    schedules_ranges-keeps i u schedules _ (stop_times_ranges-keeps i u sts ranges c)

schedules_ranges-Covers :
    (u : StopTimeCompact) (sts : List StopTimeCompact) (schedules : List (List StopTimeCompact))
    (ranges : List (Option Range))
    → In sts schedules
    → In u sts
    → suc u.trip_index ≤ length ranges
    → CoversAt u.trip_index u (schedules_ranges schedules ranges)
unfolding schedules_ranges
schedules_ranges-Covers u sts [] ranges s i h = absurd s
schedules_ranges-Covers u sts (first ∷ schedules) ranges (inl e) i h =
    schedules_ranges-keeps u.trip_index u schedules _
      (stop_times_ranges-Covers u first ranges (subst (In u) e i) h)
schedules_ranges-Covers u sts (first ∷ schedules) ranges (inr s) i h =
    schedules_ranges-Covers u sts schedules (stop_times_ranges first ranges) s i
      (omega (arith, h, stop_times_ranges-length first ranges))

unseen-length : (trips : List TripMeta) → length (unseen trips) ≡ length trips
unfolding unseen
unseen-length [] = refl
unseen-length (trip ∷ trips) = ap suc (unseen-length trips)

Covers-some :
    (u : StopTimeCompact) (o : Option Range) → Covers u o → (range : Range) × (o ≡ some range)
Covers-some u none c = absurd c
Covers-some u (some range) c = (range, refl)

module _ {F : Type 0} (feed : Feed F) where
  -- The stop time is stored for some stop, and names the trip at the index.
  abbrev pub IsTimeOf : ℕ → StopTimeCompact → Type 0
  IsTimeOf i st =
      ((sts : List StopTimeCompact) × In sts (values feed.stop_schedules) × In st sts)
      × (st.trip_index ≡ i)

  ranges : List (Option Range)
  ranges = schedules_ranges (values feed.stop_schedules) (unseen feed.trips)

  ranges-Covers :
      (i : ℕ) (trip : TripMeta) (st : StopTimeCompact)
      → get_elem? feed.trips i ≡ some trip
      → IsTimeOf i st
      → CoversAt i st ranges
  unfolding ranges
  ranges-Covers i trip st e ((sts, s, m), at) =
      subst (λ n. CoversAt n st ranges) at
        (schedules_ranges-Covers st sts (values feed.stop_schedules) (unseen feed.trips) s m
          (omega (arith, at, get_elem?-within feed.trips i trip e, unseen-length feed.trips)))

  ranges-Attained : AllAttained IsTimeOf ranges
  unfolding ranges
  ranges-Attained =
      schedules_ranges-Attained IsTimeOf (values feed.stop_schedules) (unseen feed.trips)
        (λ sts st s m. ((sts, s, m), refl)) (unseen-Attained IsTimeOf feed.trips)

  -- The minute is the least in which a stop time of the trip departs.
  abbrev pub IsStart : ℕ → ℤ → Type 0
  IsStart i minutes =
      ((st : StopTimeCompact) × IsTimeOf i st × (minutes ≡ pos (st.departure_seconds / 60)))
      × ((st : StopTimeCompact) → IsTimeOf i st → minutes ≤ℤ pos (st.departure_seconds / 60))

  -- The minute is the greatest in which a stop time of the trip arrives.
  abbrev pub IsEnd : ℕ → ℤ → Type 0
  IsEnd i minutes =
      ((st : StopTimeCompact) × IsTimeOf i st × (minutes ≡ pos (st.arrival_seconds / 60)))
      × ((st : StopTimeCompact) → IsTimeOf i st → pos (st.arrival_seconds / 60) ≤ℤ minutes)

  -- A trip with a shape and a stop time gets an entry on its route, with its shape, service and
  -- direction, that starts with the least departure of its stop times and ends with their greatest
  -- arrival, in minutes. The first of them may be past the second, as for a single stop time that
  -- departs later than it arrives.
  pub trip_ranges_lem :
      (i : ℕ) (trip : TripMeta) (some_time : StopTimeCompact)
      → get_elem? feed.trips i ≡ some trip
      → trip.shape_id ≢ ""
      → IsTimeOf i some_time
      → (entry : TripTimeEntry) × In entry
          (ids_or_nil (lookup trip.route_id (build_trip_time_ranges feed).route_trip_times))
        × (entry.shape_id ≡ trip.shape_id)
        × (entry.service_id ≡ trip.service_id)
        × (entry.direction_id ≡ trip.direction_id)
        × IsStart i entry.start_minutes
        × IsEnd i entry.end_minutes
  unfolding build_trip_time_ranges ranges
  trip_ranges_lem i trip some_time e n at =
      let (o, here, c) = ranges-Covers i trip some_time e at in
      let (range, is_range) = Covers-some some_time o c in
      let seen : get_elem? ranges i ≡ some (some range) = here ∙ ap some is_range in
      let trips : (length feed.trips == 0) ≡ false =
        ground (arith, get_elem?-within feed.trips i trip e) in
      let ((first, is_first, starts), (last, is_last, ends)) =
        AllAttained-get IsTimeOf ranges i (some range) ranges-Attained seen in
      (
        entry_of trip range,
        rw trips (entry_loop-Listed i trip range feed.trips ranges feed.route_trip_times e seen n),
        refl,
        refl,
        refl,
        ((first, is_first, ap pos starts), λ st b. omega (arith, (bounds e seen st b).0)),
        ((last, is_last, ap pos ends), λ st b. omega (arith, (bounds e seen st b).1)),
      )
    where
      bounds :
          {range : Range}
          → get_elem? feed.trips i ≡ some trip
          → get_elem? ranges i ≡ some (some range)
          → (st : StopTimeCompact) → IsTimeOf i st
          → (range.0 ≤ st.departure_seconds / 60) × (st.arrival_seconds / 60 ≤ range.1)
      bounds {range} e seen st b =
          let (p, there, d) = ranges-Covers i trip st e b in
          let same_range : p ≡ some range = cc in subst (Covers st) same_range d
