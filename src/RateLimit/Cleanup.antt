-- ===== src/RateLimit/Cleanup.antt =====
-- The cleanup of internal/middleware/ratelimit.go forgets only entries that no later request could
-- tell from missing ones.
use wabus_backend.Prelude.{
  ◌≡◌, ◌⊎◌, ◌∙◌, refl, sym, ap, inl, inr, ℤ, pos, Bool, Option, none, some, List, [], ◌∷◌, arith,
  ◌-ℤ◌, ◌+ℤ◌, ◌≤ℤ◌, ◌<ℤ◌, ltb_ℤ, -ℤ_parts, +ℤ_parts, String, string_key, string_discrete,
  if◌then◌else◌, Bool-cases,
}
use mathlib.Core.Path.{ap₂}
use wabus_backend.Domain.{Time, Duration}
use wabus_backend.GoMap.{GoMap, lookup, insert, delete, Distinct}
use wabus_backend.GoMap.Laws.{lookup-insert, lookup-delete, insert-Distinct, delete-Distinct}
use wabus_backend.RateLimit.{Client, RateLimiter, cleanup_entries, cleanup_tick, charge, allow}

pub data Event : Type 0 where
  request : Time → String → Event
  tick : Time → Event

abbrev time_of : Event → Time
time_of (request now ip) = now
time_of (tick now) = now

-- The clock does not run backwards.
abbrev pub Forward : Time → List Event → Type 0
Forward t [] = Unit {0}
Forward t (e ∷ events) = (t ≤ℤ time_of e) × Forward (time_of e) events

-- The answers to the requests.
unfoldable pub answers : List Event → RateLimiter → List Bool
answers [] rl = []
answers (request now ip ∷ events) rl = let r = allow now ip rl in r.1 ∷ answers events r.0
answers (tick now ∷ events) rl = answers events (cleanup_tick now rl)

unfoldable pub requests_only : List Event → List Event
requests_only [] = []
requests_only (request now ip ∷ events) = request now ip ∷ requests_only events
requests_only (tick now ∷ events) = requests_only events

-- The cleaned map lacks only entries whose window has passed at time `t`.
abbrev Kept : Time → Duration → Option Client → Option Client → Type 0
Kept t window full cleaned =
    (cleaned ≡ full)
    ⊎ ((c : Client) × (full ≡ some c) × (cleaned ≡ none) × (window <ℤ t -ℤ c.last_reset))

abbrev swept : Time → Duration → Option Client → Option Client → Option Client
swept now limit none o = o
swept now limit (some c) o = if ltb_ℤ limit (now -ℤ c.last_reset) then none else o

cleanup_entries-lookup :
    (now : Time) (limit : Duration) (j : String) (entries clients : GoMap String Client)
    → Distinct entries
    → lookup j (cleanup_entries now limit entries clients)
      ≡ swept now limit (lookup j entries) (lookup j clients)
unfolding cleanup_entries lookup
cleanup_entries-lookup now limit j [] clients d = refl
cleanup_entries-lookup now limit j ((k, c) ∷ entries) clients d = ground (
  arith,
  d.0,
  cleanup_entries-lookup now limit j entries
      (if ltb_ℤ limit (now -ℤ c.last_reset) then delete k clients else clients) d.1,
  lookup-delete j k clients,
)

cleanup_entries-Distinct :
    (now : Time) (limit : Duration) (entries clients : GoMap String Client)
    → Distinct clients
    → Distinct (cleanup_entries now limit entries clients)
unfolding cleanup_entries
cleanup_entries-Distinct now limit [] clients d = d
cleanup_entries-Distinct now limit ((k, c) ∷ entries) clients d =
    cleanup_entries-Distinct now limit entries
      (if ltb_ℤ limit (now -ℤ c.last_reset) then delete k clients else clients)
      (ground (arith, delete-Distinct k clients d))

-- The limiter `rl` may have been cleaned where `full` was not.
record Simulates (t : Time) (full rl : RateLimiter) : Type 0 where
  rates : rl.rate ≡ full.rate
  windows : rl.window ≡ full.window
  twice : rl.cleanup ≡ rl.window +ℤ rl.window
  forward : pos 0 ≤ℤ rl.window
  distinct : Distinct rl.clients
  kept : (ip : String) → Kept t rl.window (lookup ip full.clients) (lookup ip rl.clients)

later-Simulates :
    (t u : Time) (full rl : RateLimiter) → t ≤ℤ u → Simulates t full rl → Simulates u full rl
later-Simulates t u full rl h s = record {
  rates = s.rates;
  windows = s.windows;
  twice = s.twice;
  forward = s.forward;
  distinct = s.distinct;
  kept = λ ip. elim (s.kept ip) [
    | inl same_entry ↦ inl same_entry
    | inr (c, e, e', old) ↦
        inr (c, e, e', omega (arith, -ℤ_parts t c.last_reset, -ℤ_parts u c.last_reset))
  ];
}

-- A sweep takes an entry away only after twice its window.
swept-Kept :
    (t : Time) (window limit : Duration)
    → limit ≡ window +ℤ window
    → pos 0 ≤ℤ window
    → (full cleaned o : Option Client) → o ≡ swept t limit cleaned cleaned
    → Kept t window full cleaned
    → Kept t window full o
swept-Kept t window limit twice forward full none o e k = elim k [
  | inl same_entry ↦ inl (e ∙ same_entry)
  | inr (c, h, _, old) ↦ inr (c, h, e, old)
]
swept-Kept t window limit twice forward full (some c) o e k =
    elim (Bool-cases (ltb_ℤ limit (t -ℤ c.last_reset))) [
      | inr fresh ↦ elim k [
        | inl same_entry ↦ inl (ground arith)
        | inr (c', h, gone, old) ↦ absurd (ground arith)
      ]
      | inl stale ↦ elim k [
        | inl same_entry ↦
            inr (c, sym same_entry, ground arith, ground (arith, +ℤ_parts window window))
        | inr (c', h, gone, old) ↦ absurd (ground arith)
      ]
    ]

tick-Simulates :
    (t : Time) (full rl : RateLimiter) → Simulates t full rl → Simulates t full (cleanup_tick t rl)
unfolding cleanup_tick
tick-Simulates t full rl s = record {
  rates = s.rates;
  windows = s.windows;
  twice = s.twice;
  forward = s.forward;
  distinct = cleanup_entries-Distinct t rl.cleanup rl.clients rl.clients s.distinct;
  kept = λ ip.
      swept-Kept t rl.window rl.cleanup s.twice s.forward (lookup ip full.clients)
        (lookup ip rl.clients) (lookup ip (cleanup_entries t rl.cleanup rl.clients rl.clients))
        (cleanup_entries-lookup t rl.cleanup ip rl.clients rl.clients s.distinct) (s.kept ip);
}

charge-Kept :
    (t : Time) (rate : ℤ) (window : Duration) (full cleaned : Option Client)
    → Kept t window full cleaned
    → charge t rate window cleaned ≡ charge t rate window full
unfolding charge
charge-Kept t rate window full cleaned k = ground arith

insert-Kept :
    (t : Time) (window : Duration) (ip j : String) (c c' : Client)
    (full cleaned : GoMap String Client)
    → c' ≡ c
    → Kept t window (lookup j full) (lookup j cleaned)
    → Kept t window (lookup j (insert ip c full)) (lookup j (insert ip c' cleaned))
insert-Kept t window ip j c c' full cleaned e k = elim (string_discrete ip j) [
  | yes p ↦ inl (ground (arith, lookup-insert j ip c full, lookup-insert j ip c' cleaned))
  | no p ↦
      let a : lookup j (insert ip c full) ≡ lookup j full =
        ground (arith, lookup-insert j ip c full) in
      let b : lookup j (insert ip c' cleaned) ≡ lookup j cleaned =
        ground (arith, lookup-insert j ip c' cleaned) in
      rw (a, b) k
]

allowed-Simulates :
    (t : Time) (ip : String) (full rl : RateLimiter)
    → Kept t rl.window (lookup ip full.clients) (lookup ip rl.clients)
    → Simulates t full rl
    → Simulates t (allow t ip full).0 (allow t ip rl).0
unfolding allow
allowed-Simulates t ip full rl k s = record {
  rates = s.rates;
  windows = s.windows;
  twice = s.twice;
  forward = s.forward;
  distinct = insert-Distinct ip _ rl.clients s.distinct;
  kept = λ j.
      insert-Kept t rl.window ip j _ _ full.clients rl.clients
        (rw (← s.rates, ← s.windows)
          (ap (λ x. x.0)
            (charge-Kept t rl.rate rl.window (lookup ip full.clients) (lookup ip rl.clients) k)))
        (s.kept j);
}

allow-Simulates :
    (t : Time) (ip : String) (full rl : RateLimiter)
    → Simulates t full rl
    → Simulates t (allow t ip full).0 (allow t ip rl).0
allow-Simulates t ip full rl s = allowed-Simulates t ip full rl (s.kept ip) s

allow_same_answer :
    (t : Time) (ip : String) (full rl : RateLimiter)
    → Simulates t full rl
    → (allow t ip rl).1 ≡ (allow t ip full).1
unfolding allow
allow_same_answer t ip full rl s =
    rw (← s.rates, ← s.windows)
      (ap (λ x. x.1)
        (charge-Kept t rl.rate rl.window (lookup ip full.clients) (lookup ip rl.clients)
          (s.kept ip)))

answers-requests_only :
    (t : Time) (events : List Event) (full rl : RateLimiter)
    → Forward t events
    → Simulates t full rl
    → answers events rl ≡ answers (requests_only events) full
unfolding answers requests_only
answers-requests_only t [] full rl h s = refl
answers-requests_only t (request now ip ∷ events) full rl h s =
    let s' = later-Simulates t now full rl h.0 s in
    ap₂ ◌∷◌ (allow_same_answer now ip full rl s') (
      answers-requests_only now events (allow now ip full).0 (allow now ip rl).0 h.1
        (allow-Simulates now ip full rl s'))
answers-requests_only t (tick now ∷ events) full rl h s =
    answers-requests_only now events full (cleanup_tick now rl) h.1
      (tick-Simulates now full rl (later-Simulates t now full rl h.0 s))

-- The cleanup cannot be observed: while the clock does not run backwards, the answers to the
-- requests are those that the limiter gives without any cleanup, whatever the times of the cleanups,
-- if the window is not negative, the cleanup interval is twice the window, as the constructor sets
-- it, and no address has two entries.
pub answers-cleanup :
    (t : Time) (events : List Event) (rl : RateLimiter)
    → Forward t events
    → Distinct rl.clients
    → rl.cleanup ≡ rl.window +ℤ rl.window
    → pos 0 ≤ℤ rl.window
    → answers events rl ≡ answers (requests_only events) rl
answers-cleanup t events rl h d twice forward = answers-requests_only t events rl rl h (record {
  rates = refl;
  windows = refl;
  twice = twice;
  forward = forward;
  distinct = d;
  kept = λ ip. inl refl;
})
