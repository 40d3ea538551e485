-- ===== src/Auth.antt =====
-- internal/auth: the tokens of clients.
pub mod Token
pub mod Table
pub mod Store
