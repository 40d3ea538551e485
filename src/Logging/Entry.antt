-- ===== src/Logging/Entry.antt =====
-- internal/logging/entry.go.
use da_proxy.Prelude.{ℕ}
use da_proxy.Prelude.Text.{Text}
use da_proxy.Prelude.Int.{ℤ}

-- A time is a number of nanoseconds, a latency the bits of a float64.
pub record LogEntry : Type 0 where
  pub timestamp : ℕ
  pub request_id : Text
  pub token_name : Text
  pub method : Text
  pub backend : Text
  pub status_code : ℕ
  pub latency_ms : ℕ
  pub request_bytes : ℤ
  pub response_bytes : ℤ
  pub client_ip : Text
  pub error : Text
  pub path : Text
