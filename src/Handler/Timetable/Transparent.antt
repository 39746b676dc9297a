-- ===== src/Handler/Timetable/Transparent.antt =====
-- The cache cannot be seen in the answers of internal/handler/gtfs_handler.go while it is in step with
-- the timetable store.
use wabus_backend.Prelude.{
  ◌≡◌, ◌∙◌, ap, refl, sym, inl, inr, not, ◌⊎◌, Option, none, some, List, [], ◌∷◌, map, length, suc,
  Option-cases, arith, pos, String, string_key, same, Bool-cases,
}
use wabus_backend.Domain.{Time}
use wabus_backend.Gtfs.{StopTime}
use wabus_backend.Gtfs.Dates.{tomorrow}
use wabus_backend.Gtfs.Store.{
  GtfsStore, get_stats, get_stop_by_id, get_stop_schedule_for_date, get_stop_lines,
}
use wabus_backend.Cache.{
  Reply, bytes, redis_nil, refused, Json, Fetched, found, missing, failed, fetched, cache_key,
  cache_get, decoded, decode_fetched, get_json, get_compressed, get_json_compressed, key_sync_full,
  key_schedule_today, key_schedule_tomorrow, key_stop_lines,
}
use wabus_backend.Cache.Warmer.{CacheLink, shown, shown_schedule, SyncData, build_sync_data}
use wabus_backend.Cache.Fresh.{IsLinked, IsFresh}
use wabus_backend.Handler.{
  Response, Body, json, error_response, no_body, respond, respond_json, respond_error,
}
use wabus_backend.Handler.Timetable.{
  Clock, Listing, listing, with_stop, bad_date, try_get_from_cache, if_found, cached_or,
  schedule_for, schedule_response, lines_response, cached_sync, get_sync, etag_of,
}

-- An answer without the time at which its data was put together.
abbrev pub undated_body : {F : Type 0} → Body (SyncData F) → Body (SyncData F)
undated_body (json d) = json (record d { generated_at = pos 0 })
undated_body (error_response e) = error_response e
undated_body no_body = no_body

abbrev pub undated : {F : Type 0} → Response (SyncData F) → Response (SyncData F)
undated r = record r { body = undated_body r.body }

-- A schedule's answer as JSON shows it.
abbrev pub shown_body : Body (Listing StopTime) → Body (Listing StopTime)
shown_body (json d) = json (record d { items = shown_schedule d.items })
shown_body (error_response e) = error_response e
shown_body no_body = no_body

abbrev pub shown_response : Response (Listing StopTime) → Response (Listing StopTime)
shown_response r = record r { body = shown_body r.body }

shown_twice : (o : Option (List StopTime)) → shown_schedule (shown_schedule o) ≡ shown_schedule o
unfolding shown
shown_twice none = refl
shown_twice (some sts) = ap some (again sts)
  where
    again : (xs : List StopTime) → map shown (map shown xs) ≡ map shown xs
    again [] = refl
    again (st ∷ xs) = ap (λ rest. record st { service_id = "" } ∷ rest) (again xs)

abbrev shown_found : Option (Option (List StopTime)) → Option (Option (List StopTime))
shown_found none = none
shown_found (some schedule) = some (shown_schedule schedule)

length-shown : (sts : List StopTime) → length (map shown sts) ≡ length sts
length-shown [] = refl
length-shown (st ∷ sts) = ap suc (length-shown sts)

-- The answer that the handler makes of a schedule.
abbrev answer_schedule : Clock → Option (Option (List StopTime)) → Response (Listing StopTime)
answer_schedule clock none = respond_error [] 400 bad_date
answer_schedule clock (some schedule) = listing clock schedule

shown_answer :
    (clock : Clock) (o : Option (Option (List StopTime)))
    → shown_response (answer_schedule clock o) ≡ answer_schedule clock (shown_found o)
unfolding listing respond_json respond_error respond
shown_answer clock none = refl
shown_answer clock (some none) = refl
shown_answer clock (some (some sts)) = rw (length-shown sts) refl

shown_with_stop :
    {F : Type 0} (clock : Clock) (id : String) (o : Option (Option (List StopTime)))
    (s : GtfsStore F)
    → shown_response (with_stop id (λ stop. answer_schedule clock o) s)
      ≡ with_stop id (λ stop. answer_schedule clock (shown_found o)) s
unfolding with_stop respond_error respond
shown_with_stop clock id o s = elim (Bool-cases (same id "")) [
  | inl unnamed ↦ rw unnamed refl
  | inr named ↦ elim (Option-cases (get_stop_by_id id s)) [
    | inl unknown ↦ rw (named, unknown) refl
    | inr (stop, known) ↦ rw (named, known) (shown_answer clock o)
  ]
]

module _ {F R B : Type 0} (w : CacheLink F R B) (Holds : R → String → B → Type 0)
    (linked : IsLinked w Holds) where
  -- What `Get` returns is held, or it returns nothing.
  cache_get-cases :
      (now : Time) (key : String) (r : R)
      → ((b : B) × (cache_get w.redis now key r ≡ found b) × Holds r (cache_key key) b)
        ⊎ ((cache_get w.redis now key r ≡ missing) ⊎ (cache_get w.redis now key r ≡ failed))
  unfolding cache_get fetched
  cache_get-cases now key r = reply (w.redis.get_call now (cache_key key) r) refl
    where
      reply :
          (x : Reply B)
          → w.redis.get_call now (cache_key key) r ≡ x
          → ((b : B) × (cache_get w.redis now key r ≡ found b) × Holds r (cache_key key) b)
            ⊎ ((cache_get w.redis now key r ≡ missing) ⊎ (cache_get w.redis now key r ≡ failed))
      reply (bytes b) e = inl (b, ap fetched e, linked.server.get-Holds now (cache_key key) r b e)
      reply redis_nil e = inr (inl (ap fetched e))
      reply refused e = inr (inr (ap fetched e))

  -- A lookup gives what every held value decodes to, or none.
  try_get_from_cache_lem :
      {A : Type 0} (view : A → A) (j : Json A B) (now : Time) (key : String) (a : A) (r : R)
      → view (view a) ≡ view a
      → ((b : B) → Holds r (cache_key key) b → j.unmarshal b ≡ some (view a))
      → view (cached_or (try_get_from_cache w j now key (some r)) a) ≡ view a
  unfolding try_get_from_cache get_json
  try_get_from_cache_lem view j now key a r twice right =
      let answer =
        λ (x : Fetched B). view (cached_or (if_found (decode_fetched j.unmarshal x)) a) in
      elim (cache_get-cases now key r) [
        | inl (b, e, held) ↦
            ap answer e ∙ ap (λ o. view (cached_or (if_found (decoded o)) a)) (right b held) ∙ twice
        | inr (inl e) ↦ ap answer e
        | inr (inr e) ↦ ap answer e
      ]

  without_cache :
      {A : Type 0} (j : Json A B) (now : Time) (key : String)
      → try_get_from_cache w j now key none ≡ none
  unfolding try_get_from_cache
  without_cache j now key = refl

  cached_sync_lem :
      (now : Time) (s : GtfsStore F) (r : R)
      → ((b : B)
          → Holds r (cache_key key_sync_full) b
          → (c : B) × (w.gzip.decompress b ≡ some c)
            × (t : Time) × (w.sync_json.unmarshal c ≡ some (build_sync_data w t s)))
      → (cached_sync w now (some r) ≡ none)
        ⊎ ((t : Time) × (cached_sync w now (some r) ≡ some (build_sync_data w t s)))
  unfolding cached_sync get_json_compressed get_compressed
  cached_sync_lem now s r right =
      let answer = λ (x : Fetched B).
        if_found (decode_fetched w.sync_json.unmarshal (decode_fetched w.gzip.decompress x)) in
      elim (cache_get-cases now key_sync_full r) [
        | inl (b, e, held) ↦
            let (c, f, t, g) = right b held in
            inr (
              t,
              ap answer e
                  ∙ ap (λ o. if_found (decode_fetched w.sync_json.unmarshal (decoded o))) f
                  ∙ ap (λ o. if_found (decoded o)) g,
            )
        | inr (inl e) ↦ inl (ap answer e)
        | inr (inr e) ↦ inl (ap answer e)
      ]

  module _ (clock : Clock) (s : GtfsStore F) (r : R)
      (fresh : IsFresh w Holds linked clock.today s r) where
    schedule_for-cached :
        (id date_param : String)
        → shown_found (schedule_for w clock id date_param (some r) s)
          ≡ shown_found (schedule_for w clock id date_param none s)
    unfolding schedule_for
    schedule_for-cached id date_param = elim (Bool-cases (same date_param "")) [
      | inl whole ↦ ground (arith, whole)
      | inr dated ↦ elim (Bool-cases (same date_param "today")) [
        | inl is_today ↦ ground (
          arith,
          dated,
          is_today,
          without_cache w.schedule_json clock.now (key_schedule_today id),
          try_get_from_cache_lem shown_schedule w.schedule_json clock.now (key_schedule_today id)
              (get_stop_schedule_for_date id clock.today s) r
              (shown_twice (get_stop_schedule_for_date id clock.today s))
              (λ b held. (fresh.right _ b held).today_right id refl),
        )
        | inr other ↦ elim (Bool-cases (same date_param "tomorrow")) [
          | inl is_tomorrow ↦ ground (
            arith,
            dated,
            other,
            is_tomorrow,
            without_cache w.schedule_json clock.now (key_schedule_tomorrow id),
            try_get_from_cache_lem shown_schedule w.schedule_json clock.now
                (key_schedule_tomorrow id) (get_stop_schedule_for_date id (tomorrow clock.today) s)
                r (shown_twice (get_stop_schedule_for_date id (tomorrow clock.today) s))
                (λ b held. (fresh.right _ b held).tomorrow_right id refl),
          )
          | inr some_day ↦ ground (arith, dated, other, some_day)
        ]
      ]
    ]

    schedule_response-cached :
        (id date_param : String)
        → shown_response (schedule_response w clock id date_param (some r) s)
          ≡ shown_response (schedule_response w clock id date_param none s)
    unfolding schedule_response
    schedule_response-cached id date_param =
        shown_with_stop clock id (schedule_for w clock id date_param (some r) s) s
        ∙ ap (λ o. with_stop id (λ stop. answer_schedule clock o) s)
            (schedule_for-cached id date_param)
        ∙ sym (shown_with_stop clock id (schedule_for w clock id date_param none s) s)

    lines_response-cached :
        (id : String) → lines_response w clock id (some r) s ≡ lines_response w clock id none s
    unfolding lines_response
    lines_response-cached id =
        let same_lines : cached_or
              (try_get_from_cache w w.lines_json clock.now (key_stop_lines id) (some r))
              (get_stop_lines id s)
            ≡ cached_or (try_get_from_cache w w.lines_json clock.now (key_stop_lines id) none)
                (get_stop_lines id s) =
          try_get_from_cache_lem (λ x. x) w.lines_json clock.now (key_stop_lines id)
            (get_stop_lines id s) r refl (λ b held. (fresh.right _ b held).lines_right id refl)
          ∙ sym (
              ap (λ o. cached_or o (get_stop_lines id s))
                (without_cache w.lines_json clock.now (key_stop_lines id))) in
        ap (λ lines. with_stop id (λ stop. listing clock lines) s) same_lines

    get_sync-cached :
        (if_none_match : String)
        → undated (get_sync w clock if_none_match (some r) s)
          ≡ undated (get_sync w clock if_none_match none s)
    unfolding get_sync cached_sync build_sync_data respond_json respond
    get_sync-cached if_none_match = elim (Bool-cases (not (get_stats s).is_loaded)) [
      | inl loading ↦ rw loading refl
      | inr loaded ↦ elim (Bool-cases (same if_none_match (etag_of (get_stats s).stats_update))) [
        | inl unchanged ↦ rw (loaded, unchanged) refl
        | inr changed ↦
            elim (cached_sync_lem clock.now s r
              (λ b held. (fresh.right _ b held).sync_right refl)) [
                | inl e ↦ rw (loaded, changed, e) refl
                | inr (t, e) ↦ rw (loaded, changed, e) refl
              ]
      ]
    ]

-- While every value that the cache may give is what the timetable store gives on the day: the requests
-- for a stop's schedule, for a stop's lines and for the whole timetable are answered as they are
-- without a cache, whatever the server refuses, but for the time at which the whole timetable was
-- put together; a schedule is compared as JSON shows it, without the service of a stop time.
pub cache_transparent :
    {F R B : Type 0} (w : CacheLink F R B) (Holds : R → String → B → Type 0)
    (linked : IsLinked w Holds) (clock : Clock) (s : GtfsStore F) (r : R)
    (id date_param if_none_match : String)
    → IsFresh w Holds linked clock.today s r
    → (shown_response (schedule_response w clock id date_param (some r) s)
        ≡ shown_response (schedule_response w clock id date_param none s))
      × (lines_response w clock id (some r) s ≡ lines_response w clock id none s)
      × (undated (get_sync w clock if_none_match (some r) s)
          ≡ undated (get_sync w clock if_none_match none s))
cache_transparent w Holds linked clock s r id date_param if_none_match fresh = (
  schedule_response-cached w Holds linked clock s r fresh id date_param,
  lines_response-cached w Holds linked clock s r fresh id,
  get_sync-cached w Holds linked clock s r fresh if_none_match,
)
