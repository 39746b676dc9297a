-- ===== src/Cache/Fresh.antt =====
-- The warmer of internal/cache/warmer.go keeps the cache in step with the timetable store.
use wabus_backend.Prelude.{
  ◌≡◌, sym, subst, inl, inr, Option, some, List, [], ◌∷◌, String, Bool-cases, Option-cases,
}
use wabus_backend.Domain.{Time, Duration}
use wabus_backend.Gtfs.{Stop}
use wabus_backend.Gtfs.Dates.{Date, tomorrow}
use wabus_backend.Gtfs.Store.{GtfsStore, get_all_stops, get_stop_schedule_for_date, get_stop_lines}
use wabus_backend.Cache.{
  Json, IsJson, IsGzip, IsRedis, cache_key, key_sync_full, key_schedule_today,
  key_schedule_tomorrow, key_stop_lines, cache_set, set_json, set_compressed, set_json_compressed,
}
use wabus_backend.Cache.Keys.{
  cache_key-injective, today-injective, tomorrow-injective, lines-injective, today-tomorrow,
  today-lines, tomorrow-lines, sync-today, sync-tomorrow, sync-lines,
}
use wabus_backend.Cache.Warmer.{
  CacheLink, shown_schedule, is_empty, build_sync_data, warm_sync_data, warm_schedule, warm_stop,
  schedules_loop, warm_schedules, warm_lines, lines_loop, warm_stop_lines, warm_all,
}

-- What the code relies on: the server's law, and that what JSON and gzip write is read back, but for
-- the service of a stop time, which JSON leaves out.
pub record IsLinked {F R B : Type 0} (w : CacheLink F R B) (Holds : R → String → B → Type 0)
    : Type 0 where
  pub server : IsRedis w.redis Holds
  pub schedules : IsJson shown_schedule w.schedule_json
  pub lines : IsJson (λ x. x) w.lines_json
  pub sync : IsJson (λ x. x) w.sync_json
  pub gzip : IsGzip w.gzip

-- A value of the cache that is what the store gives on the day, as JSON shows it.
pub record IsRight {F R B : Type 0} (w : CacheLink F R B) (today : Date) (s : GtfsStore F)
    (k : String) (b : B) : Type 0 where
  pub today_right :
      (id : String)
      → k ≡ cache_key (key_schedule_today id)
      → w.schedule_json.unmarshal b ≡ some (shown_schedule (get_stop_schedule_for_date id today s))
  pub tomorrow_right :
      (id : String)
      → k ≡ cache_key (key_schedule_tomorrow id)
      → w.schedule_json.unmarshal b
        ≡ some (shown_schedule (get_stop_schedule_for_date id (tomorrow today) s))
  pub lines_right :
      (id : String)
      → k ≡ cache_key (key_stop_lines id)
      → w.lines_json.unmarshal b ≡ some (get_stop_lines id s)
  pub sync_right :
      k ≡ cache_key key_sync_full
      → (c : B) × (w.gzip.decompress b ≡ some c)
        × (t : Time) × (w.sync_json.unmarshal c ≡ some (build_sync_data w t s))

module _ {F R B : Type 0} (w : CacheLink F R B) (Holds : R → String → B → Type 0)
    (linked : IsLinked w Holds) (today : Date) (s : GtfsStore F) where
  -- Whatever the server may give is right.
  pub record IsFresh (r : R) : Type 0 where
    pub right : (k : String) (b : B) → Holds r k b → IsRight w today s k b

  cache_set-IsFresh :
      (now : Time) (key : String) (b : B) (ttl : Duration) (r : R)
      → IsRight w today s (cache_key key) b
      → IsFresh r
      → IsFresh (cache_set w.redis now key b ttl r).0
  unfolding cache_set
  cache_set-IsFresh now key b ttl r new h = record {
    right = λ k c held. elim (linked.server.set-Holds now (cache_key key) k b c ttl r held) [
      | inl (p, q) ↦
          subst (λ x. IsRight w today s x c) p (subst (IsRight w today s (cache_key key)) q new)
      | inr old ↦ h.right k c old
    ];
  }

  set_json-IsFresh :
      {A : Type 0} (json : Json A B) (now : Time) (key : String) (a : A) (ttl : Duration) (r : R)
      → ((b : B) → json.marshal a ≡ some b → IsRight w today s (cache_key key) b)
      → IsFresh r
      → IsFresh (set_json w.redis json now key a ttl r).0
  unfolding set_json
  set_json-IsFresh json now key a ttl r right h = elim (Option-cases (json.marshal a)) [
    | inl e ↦ rw (e, set_json) h
    | inr (b, e) ↦ rw (e, set_json) (cache_set-IsFresh now key b ttl r (right b e) h)
  ]

  set_json_compressed-IsFresh :
      {A : Type 0} (json : Json A B) (now : Time) (key : String) (a : A) (ttl : Duration) (r : R)
      → ((c b : B)
          → json.marshal a ≡ some c
          → w.gzip.compress c ≡ some b
          → IsRight w today s (cache_key key) b)
      → IsFresh r
      → IsFresh (set_json_compressed w.redis json w.gzip now key a ttl r).0
  unfolding set_json_compressed set_compressed
  set_json_compressed-IsFresh json now key a ttl r right h = elim (Option-cases (json.marshal a)) [
    | inl e ↦ rw (e, set_json_compressed) h
    | inr (c, e) ↦ elim (Option-cases (w.gzip.compress c)) [
      | inl f ↦ rw (e, set_json_compressed, f, set_compressed) h
      | inr (b, f) ↦
          rw (e, set_json_compressed, f, set_compressed)
            (cache_set-IsFresh now key b ttl r (right c b e f) h)
    ]
  ]

  today-IsRight :
      (id : String) (b : B)
      → w.schedule_json.marshal (get_stop_schedule_for_date id today s) ≡ some b
      → IsRight w today s (cache_key (key_schedule_today id)) b
  today-IsRight id b e = record {
    today_right = λ j p.
        subst
          (λ x.
            w.schedule_json.unmarshal b
            ≡ some (shown_schedule (get_stop_schedule_for_date x today s)))
          (today-injective id j (cache_key-injective _ _ p)) (linked.schedules _ b e);
    tomorrow_right = λ j p. absurd (today-tomorrow id j (cache_key-injective _ _ p));
    lines_right = λ j p. absurd (today-lines id j (cache_key-injective _ _ p));
    sync_right = λ p. absurd (sync-today id (sym (cache_key-injective _ _ p)));
  }

  tomorrow-IsRight :
      (id : String) (b : B)
      → w.schedule_json.marshal (get_stop_schedule_for_date id (tomorrow today) s) ≡ some b
      → IsRight w today s (cache_key (key_schedule_tomorrow id)) b
  tomorrow-IsRight id b e = record {
    today_right = λ j p. absurd (today-tomorrow j id (sym (cache_key-injective _ _ p)));
    tomorrow_right = λ j p.
        subst
          (λ x.
            w.schedule_json.unmarshal b
            ≡ some (shown_schedule (get_stop_schedule_for_date x (tomorrow today) s)))
          (tomorrow-injective id j (cache_key-injective _ _ p)) (linked.schedules _ b e);
    lines_right = λ j p. absurd (tomorrow-lines id j (cache_key-injective _ _ p));
    sync_right = λ p. absurd (sync-tomorrow id (sym (cache_key-injective _ _ p)));
  }

  lines-IsRight :
      (id : String) (b : B)
      → w.lines_json.marshal (get_stop_lines id s) ≡ some b
      → IsRight w today s (cache_key (key_stop_lines id)) b
  lines-IsRight id b e = record {
    today_right = λ j p. absurd (today-lines j id (sym (cache_key-injective _ _ p)));
    tomorrow_right = λ j p. absurd (tomorrow-lines j id (sym (cache_key-injective _ _ p)));
    lines_right = λ j p.
        subst (λ x. w.lines_json.unmarshal b ≡ some (get_stop_lines x s))
          (lines-injective id j (cache_key-injective _ _ p)) (linked.lines _ b e);
    sync_right = λ p. absurd (sync-lines id (sym (cache_key-injective _ _ p)));
  }

  sync-IsRight :
      (now : Time) (c b : B)
      → w.sync_json.marshal (build_sync_data w now s) ≡ some c
      → w.gzip.compress c ≡ some b
      → IsRight w today s (cache_key key_sync_full) b
  sync-IsRight now c b e f = record {
    today_right = λ j p. absurd (sync-today j (cache_key-injective _ _ p));
    tomorrow_right = λ j p. absurd (sync-tomorrow j (cache_key-injective _ _ p));
    lines_right = λ j p. absurd (sync-lines j (cache_key-injective _ _ p));
    sync_right = λ p. (c, linked.gzip c b f, now, linked.sync _ c e);
  }

  module _ (now : Time) (ttl : Duration) where
    warm_sync_data-IsFresh : (r : R) → IsFresh r → IsFresh (warm_sync_data w ttl now s r)
    unfolding warm_sync_data
    warm_sync_data-IsFresh r h =
        set_json_compressed-IsFresh w.sync_json now key_sync_full (build_sync_data w now s) ttl r
          (sync-IsRight now) h

    warm_schedule-IsFresh :
        (key : String) (schedule : Option _) (r : R)
        → ((b : B)
            → w.schedule_json.marshal schedule ≡ some b
            → IsRight w today s (cache_key key) b)
        → IsFresh r
        → IsFresh (warm_schedule w ttl now key schedule r).0
    unfolding warm_schedule
    warm_schedule-IsFresh key schedule r right h = elim (Bool-cases (is_empty schedule)) [
      | inl empty ↦ rw empty h
      | inr full ↦ rw full (set_json-IsFresh w.schedule_json now key schedule ttl r right h)
    ]

    warm_stop-IsFresh :
        (id : String) (r : R) → IsFresh r → IsFresh (warm_stop w ttl now today s id r)
    unfolding warm_stop
    warm_stop-IsFresh id r h =
        let o =
          warm_schedule w ttl now (key_schedule_today id) (get_stop_schedule_for_date id today s)
            r in
        let first : IsFresh o.0 = warm_schedule-IsFresh _ _ r (today-IsRight id) h in
        elim (Bool-cases o.1) [
          | inl written ↦ rw written (warm_schedule-IsFresh _ _ o.0 (tomorrow-IsRight id) first)
          | inr refused ↦ rw refused first
        ]

    schedules_loop-IsFresh :
        (stops : List (Stop F)) (r : R)
        → IsFresh r
        → IsFresh (schedules_loop w ttl now today s stops r)
    unfolding schedules_loop
    schedules_loop-IsFresh [] r h = h
    schedules_loop-IsFresh (stop ∷ stops) r h =
        schedules_loop-IsFresh stops _ (warm_stop-IsFresh stop.id r h)

    warm_lines-IsFresh : (id : String) (r : R) → IsFresh r → IsFresh (warm_lines w ttl now s id r)
    unfolding warm_lines
    warm_lines-IsFresh id r h = elim (Bool-cases (is_empty (get_stop_lines id s))) [
      | inl empty ↦ rw empty h
      | inr full ↦ rw full (set_json-IsFresh w.lines_json now _ _ ttl r (lines-IsRight id) h)
    ]

    lines_loop-IsFresh :
        (stops : List (Stop F)) (r : R) → IsFresh r → IsFresh (lines_loop w ttl now s stops r)
    unfolding lines_loop
    lines_loop-IsFresh [] r h = h
    lines_loop-IsFresh (stop ∷ stops) r h =
        lines_loop-IsFresh stops _ (warm_lines-IsFresh stop.id r h)

    -- A cache of which every value is what the timetable store gives on the day, as JSON shows it,
    -- such as an empty one, is so again after `WarmAll`, whichever writes fail. JSON shows every
    -- field but the service of a stop time.
    pub warm_all-IsFresh : (r : R) → IsFresh r → IsFresh (warm_all w ttl now today s r)
    unfolding warm_all warm_schedules warm_stop_lines
    warm_all-IsFresh r h =
        lines_loop-IsFresh (get_all_stops s) _
          (schedules_loop-IsFresh (get_all_stops s) _ (warm_sync_data-IsFresh r h))
