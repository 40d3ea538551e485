-- ===== src/Tests.antt =====
-- The properties at concrete inputs, and the data that they run on.
mod Admin
mod Redis
mod Streams
mod Limits
mod Data
mod Proxy
mod Access
mod Handler
mod Store
mod Config
mod Logging
mod Health
