-- ===== src/RateLimit.antt =====
-- internal/middleware/ratelimit.go: the rate limiter, a window counter for each address. The mutex
-- makes each method one step; `now` is the clock's reading in it.
pub mod Window
pub mod Cleanup
pub mod Whitelist
use Prim.Native.Char.{code}
use Prim.Native.String.{String}
use mathlib.Core.Option as Option
use wabus_backend.Prelude.{
  ◌≡◌, ite, ℤ, pos, Bool, true, false, not, ◌&&◌, Option, none, some, List, [], ◌∷◌, ◌-ℤ◌, ◌+ℤ◌,
  ltb_ℤ, string_key, if◌then◌else◌, is_some, same, ℕ, ◌||◌, ◌==◌, trim_space, split,
}
use wabus_backend.Domain.{Time, Duration}
use wabus_backend.GoMap.{GoMap, GoSet, lookup, insert, delete}

pub record Client : Type 0 where
  pub tokens : ℤ
  pub last_reset : Time

pub record RateLimiter : Type 0 where
  pub clients : GoMap String Client
  pub rate : ℤ
  pub window : Duration
  pub cleanup : Duration
  pub whitelist : GoSet String

-- The loop of `NewRateLimiter`.
unfoldable pub whitelist_loop : List String → GoSet String → GoSet String
whitelist_loop [] wl = wl
whitelist_loop (entry ∷ entries) wl =
    let ip = trim_space entry in
    whitelist_loop entries (if not (same ip "") then insert ip tt wl else wl)

unfoldable pub new_rate_limiter : ℤ → Duration → List String → RateLimiter
new_rate_limiter rate window whitelist = record {
  clients = [];
  rate = rate;
  window = window;
  cleanup = window +ℤ window;
  whitelist = whitelist_loop whitelist [];
}

-- One run of the body of `cleanupLoop`.
unfoldable pub cleanup_entries :
    Time → Duration → GoMap String Client → GoMap String Client → GoMap String Client
cleanup_entries now limit [] clients = clients
cleanup_entries now limit ((ip, c) ∷ entries) clients =
    cleanup_entries now limit entries
      (if ltb_ℤ limit (now -ℤ c.last_reset) then delete ip clients else clients)

unfoldable pub cleanup_tick : Time → RateLimiter → RateLimiter
cleanup_tick now rl = record rl { clients = cleanup_entries now rl.cleanup rl.clients rl.clients }

unfoldable pub is_whitelisted : String → RateLimiter → Bool
is_whitelisted ip rl = is_some (lookup ip rl.whitelist)

-- What `Allow` does with the entry of the address: the entry afterwards, and the answer.
unfoldable pub charge : Time → ℤ → Duration → Option Client → Client × Bool
charge now rate window none = (record { tokens = rate -ℤ pos 1; last_reset = now }, true)
charge now rate window (some c) =
    if ltb_ℤ window (now -ℤ c.last_reset)
    then (record { tokens = rate -ℤ pos 1; last_reset = now }, true)
    else if ltb_ℤ (pos 0) c.tokens
    then (record c { tokens = c.tokens -ℤ pos 1 }, true)
    else (c, false)

-- `Allow`
unfoldable pub allow : Time → String → RateLimiter → RateLimiter × Bool
unfolding charge
allow now ip rl =
    let r = charge now rl.rate rl.window (lookup ip rl.clients) in
    (record rl { clients = insert ip r.0 rl.clients }, r.1)

-- What the middleware does with a request.
pub data Verdict : Type 0 where
  served too_many_requests : Verdict

-- `Middleware`, from the address that `getClientIP` found.
unfoldable pub middleware : Time → String → RateLimiter → RateLimiter × Verdict
unfolding is_whitelisted allow
middleware now ip rl =
    if is_whitelisted ip rl
    then (rl, served)
    else (let r = allow now ip rl in (r.0, if r.1 then served else too_many_requests))

-- What `getClientIP` reads of a request: two headers and the peer's address.
pub record Request : Type 0 where
  pub x_forwarded_for : String
  pub x_real_ip : String
  pub remote_addr : String

-- `strings.Cut` at a character: the text before the first one, and the text after it.
unfoldable pub cut : ℕ → String → Option (String × String)
cut sep String.[] = none
cut sep (String.◌∷◌ c s) =
    let rest = cut sep s in
    if code c == sep then some (String.[], s) else Option.map (λ p. (String.◌∷◌ c p.0, p.1)) rest

abbrev has : ℕ → String → Bool
has sep s = is_some (cut sep s)

-- The host in brackets, from what follows them.
abbrev bracketed : String → String → Option String
bracketed host String.[] = none
bracketed host (String.◌∷◌ c port) =
    if code c == 58
      && not (has 58 port)
      && not (has 91 host)
      && not (has 91 port)
      && not (has 93 port)
    then some host
    else none

-- The host that `net.SplitHostPort` gives, `none` for its error: the text before the only colon, or
-- the text in brackets before a colon and no other one. Brackets stand nowhere else.
unfoldable pub host_of : String → Option String
host_of String.[] = none
host_of (String.◌∷◌ c s) =
    let t = String.◌∷◌ c s in
    if code c == 91
    then elim (cut 93 s) [ none ↦ none | some (host, rest) ↦ bracketed host rest ]
    else elim (cut 58 t) [
      | none ↦ none
      | some (host, port) ↦ if has 58 port || has 91 t || has 93 t then none else some host
    ]

abbrev or_whole : Option String → String → String
or_whole none s = s
or_whole (some host) s = host

-- `strings.Split(s, ",")[0]`; `Split` gives a part at least.
abbrev first_part : List String → String
first_part [] = ""
first_part (p ∷ parts) = p

unfoldable pub get_client_ip : Request → String
get_client_ip r =
    let xff = trim_space r.x_forwarded_for in
    let xri = trim_space r.x_real_ip in
    if not (same xff "")
    then (let first = trim_space (first_part (split 44 xff)) in or_whole (host_of first) first)
    else if not (same xri "")
    then xri
    else or_whole (host_of r.remote_addr) r.remote_addr
