-- ===== src/Server/Window.antt =====
-- How many requests of an address reach the handlers through the chain of cmd/wabus/main.go.
use Prim.Native.Nat.{min}
use wabus_backend.Prelude.{
  ℕ, suc, ◌+◌, ◌≡◌, ◌∙◌, refl, true, false, ◌||◌, List, [], ◌∷◌, inl, inr, arith, String,
  string_key, same, if◌then◌else◌, is_some, Bool-cases, ap,
}
use wabus_backend.Domain.{Time}
use wabus_backend.GoMap.{GoSet, lookup}
use wabus_backend.Config.{Config}
use wabus_backend.RateLimit.{
  RateLimiter, is_whitelisted, middleware, allow, get_client_ip, new_rate_limiter,
}
use wabus_backend.RateLimit.Whitelist.{limiter_of}
use wabus_backend.RateLimit.Window.{allowed, requests, Within, budget, allowed_in_window}
use wabus_backend.Server.{Call, Answer, preflight, refused, handled, final_handler}

abbrev one_if_handled : Answer → ℕ
one_if_handled preflight = 0
one_if_handled refused = 0
one_if_handled handled = 1

-- How many requests of `ip` the handlers see.
unfoldable pub handled_count : String → List Call → RateLimiter → ℕ
handled_count ip [] rl = 0
handled_count ip (c ∷ calls) rl =
    let r = final_handler c rl in
    (if same (get_client_ip c.request) ip then one_if_handled r.1 else 0)
    + handled_count ip calls r.0

-- The requests that the limiter counts: no preflight, and none from an exempt address.
unfoldable pub charged : GoSet String → List Call → List (Time × String)
charged wl [] = []
charged wl (c ∷ calls) =
    let rest = charged wl calls in
    let ip = get_client_ip c.request in
    if same c.method "OPTIONS" || is_some (lookup ip wl) then rest else (c.now, ip) ∷ rest

final_handler-preflight :
    (c : Call) (rl : RateLimiter)
    → same c.method "OPTIONS" ≡ true
    → final_handler c rl ≡ (rl, preflight)
unfolding final_handler
final_handler-preflight c rl h = rw h refl

final_handler-exempt :
    (c : Call) (rl : RateLimiter)
    → same c.method "OPTIONS" ≡ false
    → is_some (lookup (get_client_ip c.request) rl.whitelist) ≡ true
    → final_handler c rl ≡ (rl, handled)
unfolding final_handler middleware is_whitelisted
final_handler-exempt c rl h k = rw (h, k) refl

final_handler-limited :
    (c : Call) (rl : RateLimiter)
    → same c.method "OPTIONS" ≡ false
    → is_some (lookup (get_client_ip c.request) rl.whitelist) ≡ false
    → final_handler c rl ≡ (
      (allow c.now (get_client_ip c.request) rl).0,
      if (allow c.now (get_client_ip c.request) rl).1 then handled else refused,
    )
unfolding final_handler middleware is_whitelisted
final_handler-limited c rl h k = rw (h, k) (ground arith)

allow-whitelist :
    (now : Time) (ip : String) (rl : RateLimiter) → (allow now ip rl).0.whitelist ≡ rl.whitelist
unfolding allow
allow-whitelist now ip rl = refl

handled_count-allowed :
    (ip : String) (calls : List Call) (rl : RateLimiter)
    → is_some (lookup ip rl.whitelist) ≡ false
    → handled_count ip calls rl ≡ allowed ip (charged rl.whitelist calls) rl
unfolding handled_count charged allowed
handled_count-allowed ip [] rl h = refl
handled_count-allowed ip (c ∷ calls) rl h =
    let j = get_client_ip c.request in
    elim (Bool-cases (same c.method "OPTIONS")) [
      | inl p ↦
          rw (p, final_handler-preflight c rl p)
            (ground (arith, handled_count-allowed ip calls rl h))
      | inr p ↦ elim (Bool-cases (is_some (lookup j rl.whitelist))) [
        | inl w ↦
            let other : same j ip ≡ false = ground (arith, w, h) in
            rw (p, w, final_handler-exempt c rl p w, other)
              (omega (arith, handled_count-allowed ip calls rl h))
        | inr w ↦
            let rl' = (allow c.now j rl).0 in
            let kept = allow-whitelist c.now j rl in
            let rest : handled_count ip calls rl' ≡ allowed ip (charged rl.whitelist calls) rl' =
              handled_count-allowed ip calls rl' (ap (λ m. is_some (lookup ip m)) kept ∙ h)
              ∙ ap (λ m. allowed ip (charged m calls) rl') kept in
            rw (p, w, final_handler-limited c rl p w, rest) (ground arith)
      ]
    ]

charged-first :
    (wl : GoSet String) (c : Call) (calls : List Call)
    → same c.method "OPTIONS" ≡ false
    → is_some (lookup (get_client_ip c.request) wl) ≡ false
    → charged wl (c ∷ calls) ≡ (c.now, get_client_ip c.request) ∷ charged wl calls
unfolding charged
charged-first wl c calls h k = rw (h, k) refl

-- Behind the limiter made from the settings, in the window that the first request of an address
-- opens, the handlers see its first `budget` requests and no more, if the address is not exempt:
-- preflight requests and the requests of others take nothing from its budget.
pub handled_in_window :
    (cfg : Config) (c : Call) (calls : List Call)
    → same c.method "OPTIONS" ≡ false
    → is_whitelisted (get_client_ip c.request) (limiter_of cfg) ≡ false
    → Within cfg.rate_limit_window c.now
        (get_client_ip c.request)
        (charged (limiter_of cfg).whitelist calls)
    → handled_count (get_client_ip c.request) (c ∷ calls) (limiter_of cfg)
      ≡ min
          (suc (requests (get_client_ip c.request) (charged (limiter_of cfg).whitelist calls)))
          (budget cfg.rate_limit_per_window)
unfolding is_whitelisted limiter_of new_rate_limiter lookup
handled_in_window cfg c calls h k w =
    let ip = get_client_ip c.request in
    let rl = limiter_of cfg in
    handled_count-allowed ip (c ∷ calls) rl k
    ∙ ap (λ trace. allowed ip trace rl) (charged-first rl.whitelist c calls h k)
    ∙ allowed_in_window ip c.now (charged rl.whitelist calls) rl refl w
