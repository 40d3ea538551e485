-- ===== src/Proxy.antt =====
-- internal/proxy: routing, load balancing and request handling.
pub mod Float
pub mod Latency
pub mod Balancer
pub mod Decode
pub mod Height
pub mod Health
pub mod Router
pub mod Grpc
pub mod Tcp
pub mod WebSocket
pub mod Exchange
pub mod Forward
pub mod Handler
