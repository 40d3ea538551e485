-- ===== src/Admin/Logs.antt =====
-- internal/admin/handlers.go: the log over HTTP.
pub mod Buffered
use da_proxy.Prelude.{
  ℕ, ◌-◌, ◌*◌, Bool, true, false, ◌==◌, List, [], ◌∷◌, map, Option, none, some, if◌then◌else◌,
  length, Result, ok,
}
use da_proxy.Prelude.Text.{Text, codes, same}
use da_proxy.Prelude.Text.Decimal.{to_decimal}
use da_proxy.Prelude.Int.{ℤ, pos, negsuc, ltb_ℤ}
use da_proxy.Logging.Entry.{LogEntry}
use da_proxy.Logging.Query.{LogFilter}
use da_proxy.Logging.RingBuffer.{RingBuffer, entries}
use da_proxy.Admin.{Answer, json, rejected}
use da_proxy.Admin.Query.{parse_log_filter}

-- `logging.Store` as the handlers use it: `query` with `none` for an error, and the number that `Count` returns, whose error is
-- not looked at.
pub record LogStore (F : Type 0) : Type 0 where
  pub query : LogFilter F → Option (List LogEntry)
  pub count : LogFilter F → ℤ

-- The JSON that `handleLogs` answers.
pub record Page : Type 0 where
  pub logs : List LogEntry
  pub has_more : Bool
  pub total : ℤ
  pub cursor : ℤ

abbrev query_failed : {B : Type 0} → Answer B
query_failed = rejected 500 (codes "failed to query logs")

abbrev page : List LogEntry → ℤ → Page
page logs total = record {
  logs = logs;
  has_more = ltb_ℤ (pos (length logs)) total;
  total = total;
  cursor = pos (length logs);
}

abbrev paged : Option (List LogEntry) → ℤ → Answer Page
paged none total = query_failed
paged (some logs) total = ok (json 200 (page logs total))

abbrev from_buffer : Option (RingBuffer LogEntry) → ℤ → List LogEntry
from_buffer none limit = []
from_buffer (some rb) limit = entries limit rb

-- `deps.LogStore`, `deps.LogBuffer` and the filter of the request.
unfoldable pub handle_logs :
    {F : Type 0} → Option (LogStore F) → Option (RingBuffer LogEntry) → LogFilter F → Answer Page
unfolding entries
handle_logs (some store) buffer filter = paged (store.query filter) (store.count filter)
handle_logs none buffer filter = ok (json 200 (page (from_buffer buffer filter.limit) (pos 0)))

-- The body of an export: JSON, where a list that is nil and so printed as null is [], or the records that are
-- given to `csv.Writer`.
pub data Export : Type 0 where
  in_json : List LogEntry → Export
  in_csv : List (List Text) → Export

abbrev csv_header : List Text
csv_header =
    codes "timestamp"
    ∷ codes "request_id"
    ∷ codes "token_name"
    ∷ codes "method"
    ∷ codes "backend"
    ∷ codes "status_code"
    ∷ codes "latency_ms"
    ∷ codes "client_ip"
    ∷ codes "error"
    ∷ []

-- `format_time` prints a time in RFC 3339, `format_latency` a float64 with `%.2f`.
module _ (format_time : ℕ → Text) (format_latency : ℕ → Text) where
  unfoldable pub csv_record : LogEntry → List Text
  unfolding to_decimal
  csv_record e =
      format_time e.timestamp
      ∷ e.request_id
      ∷ e.token_name
      ∷ e.method
      ∷ e.backend
      ∷ to_decimal e.status_code
      ∷ format_latency e.latency_ms
      ∷ e.client_ip
      ∷ e.error
      ∷ []

  abbrev exported : Text → Option (List LogEntry) → Answer Export
  exported format none = query_failed
  exported format (some logs) =
      if same format (codes "csv")
      then ok (json 200 (in_csv (csv_header ∷ map csv_record logs)))
      else ok (json 200 (in_json logs))

  abbrev queried : {F : Type 0} → Option (LogStore F) → LogFilter F → Option (List LogEntry)
  queried none filter = some []
  queried (some store) filter = store.query filter

  abbrev defaulted : {F : Type 0} → LogFilter F → LogFilter F
  defaulted filter = record filter {
    limit = elim filter.limit [
      | pos n ↦ (if n == 0 then pos 1000 else pos n)
      | negsuc n ↦ negsuc n
    ];
  }

  -- `format` is the parameter of this name.
  unfoldable pub handle_logs_export :
      {F : Type 0} → Option (LogStore F) → Text → LogFilter F → Answer Export
  unfolding csv_record same
  handle_logs_export store format filter = exported format (queried store (defaulted filter))

-- The JSON that `handleMetricsSummary` answers.
pub record Summary : Type 0 where
  pub window : Text
  pub total_requests : ℤ

abbrev pub hour : ℕ
hour = 3600000000000

-- The length of the window in nanoseconds, and its name.
unfoldable pub window_of : Text → ℕ × Text
unfolding same
window_of window =
    if same window (codes "1h")
    then (hour, window)
    else if same window (codes "7d")
    then (7 * 24 * hour, window)
    else (24 * hour, codes "24h")

abbrev pub since_filter : {F : Type 0} → F → ℕ → LogFilter F
since_filter zero_float from = record {
  method = [];
  token_name = [];
  backend = [];
  status_code = pos 0;
  status_min = pos 0;
  status_max = pos 0;
  from = some from;
  to = none;
  latency_min = zero_float;
  limit = pos 0;
  cursor = pos 0;
  sort_desc = true;
}

abbrev counted : {F : Type 0} → Option (LogStore F) → LogFilter F → ℤ
counted none filter = pos 0
counted (some store) filter = store.count filter

-- The parameter `window`, and the time of the request.
unfoldable pub handle_metrics_summary :
    {F : Type 0} → F → Option (LogStore F) → Text → ℕ → Answer Summary
unfolding window_of
handle_metrics_summary zero_float store window now =
    let (duration, name) = window_of window in
    ok (
      json 200 (record {
        window = name;
        total_requests = counted store (since_filter zero_float (now - duration));
      }))
