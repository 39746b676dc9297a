-- ===== src/Handler.antt =====
-- internal/handler: responses, and the handlers of requests. A handler is a function of the request's
-- parameters, the clock and the state that it reads; a missing query parameter is the empty text.
pub mod Vehicles
pub mod Timetable
pub mod Health
pub mod Stats
use wabus_backend.Prelude.{ℕ, String, string_key, List, [], ◌∷◌}
use wabus_backend.GoMap.{GoMap, insert}

-- The value that is encoded, the `errorResponse`, or nothing.
pub data Body (A : Type 0) : Type 0 where
  json : A → Body A
  error_response : String → Body A
  no_body : Body A

pub record Response (A : Type 0) : Type 0 where
  pub headers : GoMap String String
  pub status : ℕ
  pub body : Body A

abbrev pub Headers : Type 0
Headers = GoMap String String

module _ {A : Type 0} where
  -- `respondJSON`, after the headers that were set before.
  unfoldable pub respond : Headers → ℕ → Body A → Response A
  respond headers status body = record {
    headers = insert "Content-Type" "application/json" headers;
    status = status;
    body = body;
  }

  unfoldable pub respond_json : Headers → ℕ → A → Response A
  respond_json headers status data_value = respond headers status (json data_value)

  unfoldable pub respond_error : Headers → ℕ → String → Response A
  respond_error headers status message = respond headers status (error_response message)
