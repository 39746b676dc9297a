-- ===== src/RateLimit/Whitelist.antt =====
-- Whom the whitelist of internal/middleware/ratelimit.go lets through, with the settings of
-- internal/config/config.go, as cmd/wabus/main.go puts the two together.
use Prim.Native.String.{String}
use wabus_backend.Prelude.{
  ◌≡◌, ◌≢◌, ◌⊎◌, false, ◌↔◌, ◌∙◌, ap, refl, sym, inl, inr, true, Option, some, List, [], ◌∷◌, arith,
  string_key, same, split, string_discrete, In, Bool-cases, trim_space, trim_space_idem, is_some,
}
use wabus_backend.Domain.{Time, Duration}
use wabus_backend.GoMap.{lookup, insert, GoSet}
use wabus_backend.GoMap.Laws.{lookup-insert}
use wabus_backend.Config.{Config, load, get_csv_env}
use wabus_backend.Config.Lists.{IsItem, get_csv_env_lem}
use wabus_backend.RateLimit.{
  RateLimiter, Request, served, whitelist_loop, new_rate_limiter, is_whitelisted, allow, middleware,
  get_client_ip,
}

-- A request's time and what the limiter reads of it, one after the other.
unfoldable pub handle : List (Time × Request) → RateLimiter → RateLimiter
handle [] rl = rl
handle ((now, r) ∷ requests) rl = handle requests (middleware now (get_client_ip r) rl).0

-- The call of `NewRateLimiter` in main.go.
unfoldable pub limiter_of : Config → RateLimiter
limiter_of cfg =
    new_rate_limiter cfg.rate_limit_per_window cfg.rate_limit_window cfg.rate_limit_whitelist

-- Entries without space around them, none of them empty.
abbrev Trimmed : List String → Type 0
Trimmed entries = (t : String) → In t entries → (t ≢ "") × (trim_space t ≡ t)

middleware-whitelist :
    (now : Time) (ip : String) (rl : RateLimiter)
    → (middleware now ip rl).0.whitelist ≡ rl.whitelist
unfolding middleware allow
middleware-whitelist now ip rl = ground arith

handle-whitelist :
    (requests : List (Time × Request)) (rl : RateLimiter)
    → (handle requests rl).whitelist ≡ rl.whitelist
unfolding handle
handle-whitelist [] rl = refl
handle-whitelist ((now, r) ∷ requests) rl =
    handle-whitelist requests (middleware now (get_client_ip r) rl).0
    ∙ middleware-whitelist now (get_client_ip r) rl

whitelist_loop_lem :
    (ip : String) (entries : List String) (wl : GoSet String)
    → Trimmed entries
    → is_some (lookup ip (whitelist_loop entries wl)) ≡ true
      ↔ (In ip entries ⊎ (is_some (lookup ip wl) ≡ true))
unfolding whitelist_loop
whitelist_loop_lem ip [] wl h = (inr, λ s. elim s [ inl i ↦ absurd i | inr e ↦ e ])
whitelist_loop_lem ip (t ∷ entries) wl h =
    let named : same t "" ≡ false = ground (arith, (h t (inl refl)).0) in
    let ih = whitelist_loop_lem ip entries (insert t tt wl) (λ u i. h u (inr i)) in
    rw ((h t (inl refl)).1, named)
      (
        λ e. elim (ih.0 e) [
          | inl i ↦ inl (inr i)
          | inr e' ↦ elim (string_discrete t ip) [
            | yes p ↦ inl (inl (sym p))
            | no p ↦ inr (ground (arith, lookup-insert ip t tt wl))
          ]
        ],
        λ s. ih.1 (elim s [
          | inl (inl p) ↦ inr (ground (arith, p, lookup-insert ip t tt wl))
          | inl (inr i) ↦ inl i
          | inr e ↦ inr (ground (arith, lookup-insert ip t tt wl))
        ]),
      )

get_csv_env-Trimmed : (env : String → String) (key : String) → Trimmed (get_csv_env env key)
get_csv_env-Trimmed env key t i =
    let (named, p, _, e) = (get_csv_env_lem env key t).0 i in
    (named, ap trim_space (sym e) ∙ trim_space_idem p ∙ e)

load-whitelist :
    (env : String → String) (parse_duration : String → Option Duration) (cfg : Config)
    → load env parse_duration ≡ some cfg
    → cfg.rate_limit_whitelist ≡ get_csv_env env "RATE_LIMIT_WHITELIST"
unfolding load
load-whitelist env parse_duration cfg h = elim (Bool-cases (same (env "WARSAW_API_KEY") "")) [
  | inl e ↦ absurd (ground arith)
  | inr e ↦ ground arith
]

limiter_of-whitelist :
    (env : String → String) (cfg : Config) (ip : String)
    → cfg.rate_limit_whitelist ≡ get_csv_env env "RATE_LIMIT_WHITELIST"
    → is_some (lookup ip (limiter_of cfg).whitelist) ≡ true
      ↔ IsItem ip (split 44 (trim_space (env "RATE_LIMIT_WHITELIST")))
unfolding limiter_of new_rate_limiter lookup
limiter_of-whitelist env cfg ip h =
    let key : String = "RATE_LIMIT_WHITELIST" in
    let listed = whitelist_loop_lem ip (get_csv_env env key) [] (get_csv_env-Trimmed env key) in
    let item = get_csv_env_lem env key ip in
    rw h (
      λ e. elim (listed.0 e) [ inl i ↦ item.0 i | inr e' ↦ absurd (cc) ],
      λ i. listed.1 (inl (item.1 i)),
    )

-- When the settings are read without an error, the limiter that is made from them exempts, whatever
-- requests it has handled, exactly the addresses that are items of RATE_LIMIT_WHITELIST: the parts
-- between its commas, without the space around each, and without those that are then empty.
pub is_whitelisted_lem :
    (env : String → String) (parse_duration : String → Option Duration) (cfg : Config)
    (requests : List (Time × Request)) (ip : String)
    → load env parse_duration ≡ some cfg
    → is_whitelisted ip (handle requests (limiter_of cfg)) ≡ true
      ↔ IsItem ip (split 44 (trim_space (env "RATE_LIMIT_WHITELIST")))
unfolding is_whitelisted
is_whitelisted_lem env parse_duration cfg requests ip h =
    rw (handle-whitelist requests (limiter_of cfg))
      (limiter_of-whitelist env cfg ip (load-whitelist env parse_duration cfg h))

-- A request from an exempt address is served and leaves the limiter as it is, at any time.
item_served :
    (env : String → String) (parse_duration : String → Option Duration) (cfg : Config)
    (requests : List (Time × Request)) (now : Time) (ip : String)
    → load env parse_duration ≡ some cfg
    → IsItem ip (split 44 (trim_space (env "RATE_LIMIT_WHITELIST")))
    → middleware now ip (handle requests (limiter_of cfg))
      ≡ (handle requests (limiter_of cfg), served)
unfolding middleware
item_served env parse_duration cfg requests now ip h i =
    rw ((is_whitelisted_lem env parse_duration cfg requests ip h).1 i) refl
