-- ===== src/Api/Errors.antt =====
-- cmd/server/internal/httpx/http_error.go, and `writeError` of cmd/server/internal/api/adapter.go.
-- What a handler returns is an HTTPError or an error of a service.
use chattui.Common.{ℕ, String}
use chattui.Errs.{Error, not_found, forbidden, no_params, ambiguous_params}

pub record HttpError : Type 0 where
  pub status : ℕ
  pub code : String
  pub msg : String

pub data HandlerError : Type 0 where
  http_error : HttpError → HandlerError
  plain : Error → HandlerError

-- httpx.BadRequest
abbrev pub bad_request : String → String → HandlerError
bad_request code msg = http_error (record { status = 400; code = code; msg = msg })

-- The response's status, code and message.
unfoldable pub write_error : HandlerError → HttpError
write_error (http_error e) = e
write_error (plain not_found) = record { status = 404; code = "not_found"; msg = "not found" }
write_error (plain forbidden) = record { status = 403; code = "forbidden"; msg = "forbidden" }
write_error (plain no_params) = record {
  status = 400;
  code = "no_params";
  msg = "at least one parameter is required";
}
write_error (plain ambiguous_params) = record {
  status = 400;
  code = "ambiguous_params";
  msg = "parameters are ambiguous";
}
write_error (plain e) = record { status = 500; code = "internal"; msg = "internal error" }
