-- ===== src/Middleware/Logger.antt =====
-- internal/middleware/logger.go, metrics.go and requestid.go: what is recorded of a request.
pub mod Recorded
use da_proxy.Prelude.{
  ℕ, Bool, not, ◌&&◌, List, [], ◌∷◌, ◌++◌, Option, none, some, if◌then◌else◌, length, ◌==◌,
}
use da_proxy.Prelude.Text.{Text, codes}
use da_proxy.Prelude.Text.Decimal.{to_decimal}
use da_proxy.Prelude.Int.{ℤ, pos}
use da_proxy.Logging.Entry.{LogEntry}
use da_proxy.Middleware.Context.{Context, HttpError, Handler, put_header}

-- What a request brings beside its context: the parts of `http.Request` that are recorded, the time of its start, and the
-- time it took, as the bits of a float64 in milliseconds.
pub record Request : Type 0 where
  pub content_length : ℤ
  pub real_ip : Text
  pub start : ℕ
  pub latency_ms : ℕ

abbrev pub string_from_ctx : Option Text → Text
string_from_ctx none = []
string_from_ctx (some s) = s

-- An error that is no `echo.HTTPError` is left out.
abbrev pub status_of : Option HttpError → ℕ → ℕ
status_of none status = status
status_of (some e) status = e.code

abbrev pub message_of : Option HttpError → Text
message_of none = []
message_of (some e) = e.message

abbrev pub entry_of : Request → Option HttpError → Context → LogEntry
entry_of req error c = record {
  timestamp = req.start;
  request_id = string_from_ctx c.request_id;
  token_name = string_from_ctx c.token_name;
  method = string_from_ctx c.rpc_method;
  backend = string_from_ctx c.backend;
  status_code = status_of error c.status;
  latency_ms = req.latency_ms;
  request_bytes = req.content_length;
  response_bytes = pos (length c.written);
  client_ip = req.real_ip;
  error = message_of error;
  path = c.path;
}

-- `AccessLogger`; the entries that the sinks were given, the latest last.
unfoldable pub access_logger :
    {W : Type 0} → Request → Handler (List LogEntry × W) → Handler (List LogEntry × W)
access_logger req next c s =
    let (error, c', (log, w)) = next c s in (error, c', (log ++ entry_of req error c' ∷ [], w))

-- What is observed of a request: its labels, and the sizes where it has a method and a backend.
pub record Sample : Type 0 where
  pub method : Text
  pub backend : Text
  pub token_name : Text
  pub status_code : Text
  pub sizes : Option (ℤ × ℤ)

abbrev pub sample_of : Request → Context → Sample
sample_of req c = record {
  method = string_from_ctx c.rpc_method;
  backend = string_from_ctx c.backend;
  token_name = string_from_ctx c.token_name;
  status_code = to_decimal c.status;
  sizes =
      if not (length (string_from_ctx c.rpc_method) == 0)
        && not (length (string_from_ctx c.backend) == 0)
      then some (req.content_length, pos (length c.written))
      else none;
}

-- `MetricsMiddleware`; the samples, the latest last.
unfoldable pub metrics_middleware :
    {W : Type 0} → Request → Handler (List Sample × W) → Handler (List Sample × W)
unfolding to_decimal
metrics_middleware req next c s =
    let (error, c', (samples, w)) = next c s in (error, c', (samples ++ sample_of req c' ∷ [], w))

-- `RequestID`: the header of the request, or a new UUID.
unfoldable pub request_id : {W : Type 0} → Text → Text → Handler W → Handler W
request_id header uuid next c w =
    let id = if length header == 0 then uuid else header in
    next (put_header (codes "X-Request-ID") id (record c { request_id = some id })) w
