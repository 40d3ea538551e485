-- ===== src/Logging.antt =====
-- internal/logging: the recent requests in memory, and the persistent log.
pub mod Entry
pub mod RingBuffer
pub mod Query
pub mod Writer
