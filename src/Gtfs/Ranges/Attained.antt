-- ===== src/Gtfs/Ranges/Attained.antt =====
-- The ends of the ranges of `buildTripTimeRanges` of pkg/gtfs/parser.go.
use wabus_backend.Prelude.{
  ℕ, zero, suc, ◌/◌, ◌≡◌, refl, subst, inl, inr, Bool, true, false, ltb, Option, none, some, List,
  [], ◌∷◌, if◌then◌else◌, get_elem?, In,
}
use wabus_backend.Gtfs.{TripMeta, StopTimeCompact}
use wabus_backend.Gtfs.Ranges.{Range, widen, widen_at, stop_times_ranges, schedules_ranges, unseen}

-- One of the stop times departs, or arrives, in the minute.
abbrev pub Departs : (StopTimeCompact → Type 0) → ℕ → Type 0
Departs P n = (st : StopTimeCompact) × P st × (n ≡ st.departure_seconds / 60)

abbrev pub Arrives : (StopTimeCompact → Type 0) → ℕ → Type 0
Arrives P n = (st : StopTimeCompact) × P st × (n ≡ st.arrival_seconds / 60)

abbrev pub Attained : (StopTimeCompact → Type 0) → Option Range → Type 0
Attained P none = Unit {0}
Attained P (some (low, high)) = Departs P low × Arrives P high

-- The range of each trip is attained by what `P` says are its stop times.
abbrev pub AllAttained : (ℕ → StopTimeCompact → Type 0) → List (Option Range) → Type 0
AllAttained P [] = Unit {0}
AllAttained P (o ∷ ranges) = Attained (P 0) o × AllAttained (λ n. P (suc n)) ranges

pub AllAttained-get :
    (P : ℕ → StopTimeCompact → Type 0) (ranges : List (Option Range)) (i : ℕ) (o : Option Range)
    → AllAttained P ranges
    → get_elem? ranges i ≡ some o
    → Attained (P i) o
AllAttained-get P [] i o a e = cc
AllAttained-get P (p ∷ ranges) zero o a e =
    let same_range : p ≡ o = cc in subst (Attained (P 0)) same_range a.0
AllAttained-get P (p ∷ ranges) (suc i) o a e = AllAttained-get (λ n. P (suc n)) ranges i o a.1 e

-- A test picks one of two ends.
picked : (Q : ℕ → Type 0) (b : Bool) (m n : ℕ) → Q m → Q n → Q (if b then m else n)
picked Q true m n p q = p
picked Q false m n p q = q

widen-Attained :
    (P : StopTimeCompact → Type 0) (st : StopTimeCompact) (o : Option Range)
    → P st
    → Attained P o
    → Attained P (widen st o)
unfolding widen
widen-Attained P st none p a = ((st, p, refl), (st, p, refl))
widen-Attained P st (some (low, high)) p (a, b) = (
  picked (Departs P) (ltb (st.departure_seconds / 60) low) _ _ (st, p, refl) a,
  picked (Arrives P) (ltb high (st.arrival_seconds / 60)) _ _ (st, p, refl) b,
)

widen_at-Attained :
    (P : ℕ → StopTimeCompact → Type 0) (i : ℕ) (st : StopTimeCompact) (ranges : List (Option Range))
    → P i st
    → AllAttained P ranges
    → AllAttained P (widen_at i st ranges)
unfolding widen_at
widen_at-Attained P i st [] p a = tt
widen_at-Attained P zero st (o ∷ ranges) p (a, b) = (widen-Attained (P 0) st o p a, b)
widen_at-Attained P (suc i) st (o ∷ ranges) p (a, b) =
    (a, widen_at-Attained (λ n. P (suc n)) i st ranges p b)

module _ (P : ℕ → StopTimeCompact → Type 0) where
  stop_times_ranges-Attained :
      (sts : List StopTimeCompact) (ranges : List (Option Range))
      → ((st : StopTimeCompact) → In st sts → P st.trip_index st)
      → AllAttained P ranges
      → AllAttained P (stop_times_ranges sts ranges)
  unfolding stop_times_ranges
  stop_times_ranges-Attained [] ranges p a = a
  stop_times_ranges-Attained (st ∷ sts) ranges p a =
      stop_times_ranges-Attained sts (widen_at st.trip_index st ranges) (λ u i. p u (inr i))
        (widen_at-Attained P st.trip_index st ranges (p st (inl refl)) a)

  pub schedules_ranges-Attained :
      (schedules : List (List StopTimeCompact)) (ranges : List (Option Range))
      → ((sts : List StopTimeCompact) (st : StopTimeCompact)
          → In sts schedules
          → In st sts
          → P st.trip_index st)
      → AllAttained P ranges
      → AllAttained P (schedules_ranges schedules ranges)
  unfolding schedules_ranges
  schedules_ranges-Attained [] ranges p a = a
  schedules_ranges-Attained (sts ∷ schedules) ranges p a =
      schedules_ranges-Attained schedules (stop_times_ranges sts ranges) (λ u st i. p u st (inr i))
        (stop_times_ranges-Attained sts ranges (λ st i. p sts st (inl refl) i) a)

pub unseen-Attained :
    (P : ℕ → StopTimeCompact → Type 0) (trips : List TripMeta) → AllAttained P (unseen trips)
unfolding unseen
unseen-Attained P [] = tt
unseen-Attained P (trip ∷ trips) = (tt, unseen-Attained (λ n. P (suc n)) trips)
