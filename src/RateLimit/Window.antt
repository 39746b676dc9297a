-- ===== src/RateLimit/Window.antt =====
-- How many requests of an address the limiter of internal/middleware/ratelimit.go lets through
-- within one window, whatever other addresses do meanwhile.
use Prim.Native.Nat.{min}
use wabus_backend.Prelude.{
  ℕ, suc, zero, ◌+◌, ◌≡◌, ◌≢◌, ◌∙◌, ap, refl, ite, ℤ, pos, negsuc, true, false, Option, none, some,
  List, [], ◌∷◌, arith, ◌-ℤ◌, ◌≤ℤ◌, ltb_ℤ, pos_part, -ℤ_parts, String, string_key, string_discrete,
  if◌then◌else◌, same, All,
}
use wabus_backend.Domain.{Time, Duration}
use wabus_backend.GoMap.{lookup}
use wabus_backend.GoMap.Laws.{lookup-insert}
use wabus_backend.RateLimit.{Client, RateLimiter, charge, allow}

-- How many requests of `ip` in the trace are allowed.
unfoldable pub allowed : String → List (Time × String) → RateLimiter → ℕ
allowed ip [] rl = 0
allowed ip ((now, j) ∷ trace) rl =
    let r = allow now j rl in
    (if same j ip then (if r.1 then 1 else 0) else 0) + allowed ip trace r.0

unfoldable pub requests : String → List (Time × String) → ℕ
requests ip [] = 0
requests ip ((now, j) ∷ trace) = (if same j ip then 1 else 0) + requests ip trace

-- Every request of `ip` comes at most `window` after `since`.
abbrev pub Within : Duration → Time → String → List (Time × String) → Type 0
Within window since ip = All (λ r. r.1 ≡ ip → r.0 -ℤ since ≤ℤ window)

pub allow-lookup :
    (now : Time) (j k : String) (rl : RateLimiter)
    → lookup k (allow now j rl).0.clients
      ≡ ite
          (string_discrete j k)
          (some (charge now rl.rate rl.window (lookup j rl.clients)).0)
          (lookup k rl.clients)
unfolding allow
allow-lookup now j k rl = lookup-insert k j _ rl.clients

allow-window : (now : Time) (j : String) (rl : RateLimiter) → (allow now j rl).0.window ≡ rl.window
unfolding allow
allow-window now j rl = refl

allow-answer :
    (now : Time) (j : String) (rl : RateLimiter)
    → (allow now j rl).1 ≡ (charge now rl.rate rl.window (lookup j rl.clients)).1
unfolding allow
allow-answer now j rl = refl

allow-entry :
    (now : Time) (j k : String) (rl : RateLimiter) (o : Option Client)
    → j ≡ k
    → lookup k rl.clients ≡ o
    → lookup k (allow now j rl).0.clients ≡ some (charge now rl.rate rl.window o).0
allow-entry now j k rl o p e = ground (arith, allow-lookup now j k rl)

pub allow-other :
    (now : Time) (j k : String) (rl : RateLimiter)
    → j ≢ k
    → lookup k (allow now j rl).0.clients ≡ lookup k rl.clients
allow-other now j k rl p = ground (arith, allow-lookup now j k rl)

Within-allow :
    (now : Time) (j ip : String) (rl : RateLimiter) (t u : Time) (trace : List (Time × String))
    → t ≡ u
    → Within rl.window u ip trace
    → Within (allow now j rl).0.window t ip trace
Within-allow now j ip rl t u trace e h = rw (allow-window now j rl, e) h

charge_within :
    (now : Time) (rate : ℤ) (window : Duration) (c : Client)
    → now -ℤ c.last_reset ≤ℤ window
    → (charge now rate window (some c)).0.last_reset ≡ c.last_reset
unfolding charge
charge_within now rate window c h = ground arith

charge_step :
    (now : Time) (rate : ℤ) (window : Duration) (c : Client)
    → now -ℤ c.last_reset ≤ℤ window
    → charge now rate window (some c) ≡ (
        if ltb_ℤ (pos 0) c.tokens
        then (record c { tokens = c.tokens -ℤ pos 1 }, true)
        else (c, false))
unfolding charge
charge_step now rate window c h = ground arith

-- From an entry with `tokens` left, requests inside its window use them up one by one.
allowed-Within :
    (ip : String) (trace : List (Time × String)) (rl : RateLimiter) (c : Client)
    → lookup ip rl.clients ≡ some c
    → Within rl.window c.last_reset ip trace
    → allowed ip trace rl ≡ min (requests ip trace) (pos_part c.tokens)
unfolding allowed requests
allowed-Within ip [] rl c e h = omega arith
allowed-Within ip ((now, j) ∷ trace) rl c e h = elim (string_discrete j ip) [
  | no p ↦ ground (
    arith,
    allowed-Within ip trace (allow now j rl).0 c (allow-other now j ip rl p ∙ e)
        (Within-allow now j ip rl c.last_reset c.last_reset trace refl h.1),
  )
  | yes p ↦
      let c' = (charge now rl.rate rl.window (some c)).0 in
      ground (
        arith,
        allowed-Within ip trace (allow now j rl).0 c' (allow-entry now j ip rl (some c) p e) (
            Within-allow now j ip rl c'.last_reset c.last_reset trace
              (charge_within now rl.rate rl.window c (h.0 p)) h.1),
        charge_step now rl.rate rl.window c (h.0 p),
        -ℤ_parts c.tokens (pos 1),
        allow-answer now j rl,
      )
]

-- The requests that a rate grants in one window; a rate below 1 grants one.
abbrev pub budget : ℤ → ℕ
budget (pos zero) = 1
budget (pos (suc r)) = suc r
budget (negsuc r) = 1

charge_first :
    (now : Time) (rate : ℤ) (window : Duration)
    → charge now rate window none ≡ (record { tokens = rate -ℤ pos 1; last_reset = now }, true)
unfolding charge
charge_first now rate window = refl

budget_lem : (rate : ℤ) → suc (pos_part (rate -ℤ pos 1)) ≡ budget rate
unfolding ◌-ℤ◌
budget_lem (pos zero) = ground arith
budget_lem (pos (suc r)) = ground arith
budget_lem (negsuc r) = ground arith

-- An address without an entry gets, in the window that its first request opens, its first
-- `budget rate` requests and no more, wherever the requests of other addresses fall among them.
-- For a rate of at least 1 the budget is the rate; for a rate of 0 or less it is 1.
pub allowed_in_window :
    (ip : String) (t : Time) (trace : List (Time × String)) (rl : RateLimiter)
    → lookup ip rl.clients ≡ none
    → Within rl.window t ip trace
    → allowed ip ((t, ip) ∷ trace) rl ≡ min (suc (requests ip trace)) (budget rl.rate)
unfolding allowed
allowed_in_window ip t trace rl e h =
    let c = (charge t rl.rate rl.window none).0 in
    ground (
      arith,
      allowed-Within ip trace (allow t ip rl).0 c (allow-entry t ip ip rl none refl e) (
          Within-allow t ip ip rl c.last_reset t trace
            (ap (λ x. x.0.last_reset) (charge_first t rl.rate rl.window)) h),
      charge_first t rl.rate rl.window,
      allow-answer t ip rl,
      budget_lem rl.rate,
    )
