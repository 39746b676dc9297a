-- ===== src/Handler/Health.antt =====
-- internal/handler/health.go, and the CORS part of internal/handler/middleware.go.
use wabus_backend.Prelude.{ℕ, Bool, not, [], String, string_key, same, if◌then◌else◌}
use wabus_backend.Domain.{Time}
use wabus_backend.GoMap.{insert}
use wabus_backend.Store.{Store, count}
use wabus_backend.Ingestor.{Ingestor, is_ready}
use wabus_backend.Handler.{Headers, Response, json, no_body, respond_json}

unfoldable pub healthz : Response String
healthz = record { headers = insert "Content-Type" "text/plain" []; status = 200; body = json "ok" }

pub record ReadyResponse : Type 0 where
  pub ready : Bool
  pub vehicle_count : ℕ
  pub server_time : Time

unfoldable pub readyz : {F : Type 0} → Time → Ingestor F → Store F → Response ReadyResponse
readyz now i s =
    respond_json [] (if not (is_ready i) then 503 else 200)
      (record { ready = is_ready i; vehicle_count = count s; server_time = now })

unfoldable pub cors_headers : Headers → Headers
cors_headers headers = insert "Access-Control-Expose-Headers" "ETag" (
    insert "Access-Control-Allow-Headers" "Content-Type, If-None-Match" (
      insert "Access-Control-Allow-Methods" "GET, POST, OPTIONS"
        (insert "Access-Control-Allow-Origin" "*" headers)))

-- `CORSMiddleware`: the next handler starts from the headers that are set.
unfoldable pub cors_middleware :
    {A : Type 0} → String → (Headers → Response A) → Headers → Response A
cors_middleware method next headers =
    if same method "OPTIONS"
    then record { headers = cors_headers headers; status = 200; body = no_body }
    else next (cors_headers headers)
