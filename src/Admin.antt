-- ===== src/Admin.antt =====
-- internal/admin: what the handlers of the admin interface answer.
pub mod Tokens
pub mod Query
pub mod Logs
pub mod Backends
use da_proxy.Prelude.{ℕ, Result, err}
use da_proxy.Prelude.Text.{Text}
use da_proxy.Middleware.Context.{HttpError}

-- What a handler writes when it returns nil: `c.JSON`, or `c.NoContent`.
pub data Reply (B : Type 0) : Type 0 where
  json : ℕ → B → Reply B
  no_content : ℕ → Reply B

-- The error of a handler, or its reply.
abbrev pub Answer : Type 0 → Type 0
Answer B = Result HttpError (Reply B)

-- `echo.NewHTTPError`
abbrev pub rejected : {B : Type 0} → ℕ → Text → Answer B
rejected code message = err (record { code = code; message = message })
