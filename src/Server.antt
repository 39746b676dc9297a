-- ===== src/Server.antt =====
-- cmd/wabus/main.go: the chain of middlewares around the handlers, without the headers and the
-- compression, which a library does.
pub mod Window
use wabus_backend.Prelude.{String, string_key, same, if◌then◌else◌}
use wabus_backend.Domain.{Time}
use wabus_backend.RateLimit.{
  RateLimiter, Request, Verdict, served, too_many_requests, middleware, get_client_ip,
}

-- A request, and the time at which the limiter sees it.
pub record Call : Type 0 where
  pub now : Time
  pub method : String
  pub request : Request

-- Which part of the chain answers: the CORS middleware, the limiter, or the handlers behind both.
pub data Answer : Type 0 where
  preflight refused handled : Answer

abbrev pub answer_of : Verdict → Answer
answer_of served = handled
answer_of too_many_requests = refused

-- `finalHandler`
unfoldable pub final_handler : Call → RateLimiter → RateLimiter × Answer
final_handler c rl =
    if same c.method "OPTIONS"
    then (rl, preflight)
    else (let r = middleware c.now (get_client_ip c.request) rl in (r.0, answer_of r.1))
