-- ===== src/Middleware.antt =====
-- internal/middleware: what a request passes through before the proxy handler.
pub mod Logger
pub mod Context
pub mod Auth
pub mod RateLimit
