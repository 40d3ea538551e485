-- ===== src/Lib.antt =====
-- da-proxy: a reverse proxy in front of the nodes of the Celestia network.
--
-- A request is authenticated by the token in the first segment of its path, then routed by its
-- JSON-RPC method to a backend (celestia-app or celestia-node, pruned or archival), of which a
-- balancer chooses one endpoint. An answer that says that a block was pruned is tried again at other
-- endpoints, and answers that cannot change are cached. The latencies of the answers feed the balancers, and a log entry
-- of each request goes to a ring buffer that the admin interface reads.
--
-- Which file models which part, and how:
--   Proxy/Float, Proxy/Decode     float64, `encoding/json` and `net/url`, as records of operations:
--                                 nothing of them is defined here
--   Proxy/Latency                 internal/proxy/latency.go: `Update` as one step, and as the atomic
--                                 steps of goroutines under an explicit schedule
--   Proxy/Balancer                internal/proxy/balancer.go: `Next`, `RecordLatency`, `Stats`; what
--                                 `math/rand` draws is an argument
--   Proxy/Height                  internal/proxy/height.go: int64 with its wrap-around
--   Proxy/Health                  internal/proxy/health.go; what the nodes answer in a round is an argument
--   Proxy/Router                  internal/proxy/router.go: the map of balancers is a function on the
--                                 backends, and a call returns the changed router
--   Proxy/Exchange                internal/proxy/handler.go: `director`, `isPrunedError`; the transport
--                                 is a parameter that answers with a whole response, or with none
--   Proxy/Forward                 the same file: `proxyDirect`, `proxyWithRetry`, `flushBuffered`
--   Proxy/Handler                 the same file: `HandleRequest` up to there
--   Proxy/Grpc                    internal/proxy/grpc_proxy.go: a call, with what the rounds of its two loops meet as lists
--   Proxy/WebSocket               internal/proxy/websocket.go, in the same way
--   Proxy/Tcp                     internal/proxy/tcp_proxy.go: the server as events in any order
--   Cache                         internal/cache/cache.go: which answers are cached, and the
--                                 interface `Cache`; the handler works with any cache, and Proxy/Handler/Cached is about the one in Redis
--   Cache/Redis                   the same file and internal/cache/metrics.go: the cache in Redis, whose client and
--                                 hash are parameters, and the counters around a cache
--   Auth/Token                    internal/auth/token.go
--   Auth/Table                    internal/auth/store.go: what the SQL statements mean; the database is a
--                                 parameter, a record of operations that may fail
--   Auth/Store                    the same file: the operations, which return the changed store
--   Config                        internal/config/config.go; the file, the YAML parser and ParseFloat are
--                                 arguments
--   Middleware/Context            the part of `echo.Context` that is used, with the keys of
--                                 internal/middleware/context_keys.go
--   Middleware/Auth               internal/middleware/auth.go, over any token store
--   Middleware/RateLimit          internal/middleware/ratelimit.go, over any limiters
--   Middleware/RateLimit/Redis    internal/middleware/ratelimit_redis.go, over a client as a parameter
--   Middleware/Logger             internal/middleware/logger.go, metrics.go and requestid.go: the entries and the samples
--                                 are lists
--   Logging/Entry, RingBuffer     internal/logging/entry.go and ringbuffer.go
--   Logging/Query                 internal/logging/store.go and store_postgres.go: the queries
--   Logging/Writer                internal/logging/store.go: the channel and the goroutine that writes, as
--                                 events in any order
--   Admin                         internal/admin: what a handler answers
--   Admin/Tokens                  internal/admin/token_handlers.go over Auth/Store: each handler returns its answer and
--                                 the store; the body that echo binds is an argument
--   Admin/Query, Logs             internal/admin/handlers.go: the log, its export and its summary
--   Admin/Backends                internal/admin/backend_handlers.go
--   Prelude                       lists, byte strings and int64, as the packages `strings` and
--                                 `strconv` treat them
--   Tests                         the theorems at concrete inputs
--
-- A string is the list of its bytes. A panic is the answer `none`, or is ruled out by a theorem. Two
-- definitions take fuel: `digits` of Prelude/Text/Decimal, where a number has fewer digits than its
-- successor says, which `value_of-to_decimal` proves to be enough; and `strip` of Prelude/Text, each
-- round of which drops a byte of a text whose length is the fuel. Every other loop of the source
-- that is modelled runs over a list, except the compare-and-swap loop of `Update` and the loop of
-- `batchWriter`, whose rounds are steps of a schedule. Locks are not modelled: the operations under
-- a lock are single steps. So are the calls of the token store, each a statement with the reload of the cache behind
-- it, although the source holds no lock over both: that two reloads race is left out, and so is a read of rows that
-- ends early, which the source takes for a whole one. The limit on the size of a body, an int64, is a number that is not negative
-- and below MaxInt64. The metrics, which may be nil in Proxy/Tcp, are there.
--
-- Not modelled: the statements that the log stores execute and the Loki pusher, which
-- are parts of their own beside the path of a request; the stream of the log and the
-- authentication of the admin interface, which are HTTP glue; and the network, Prometheus, tracing
-- and the start-up, which are calls of libraries.
pub mod Prelude
pub mod Proxy
pub mod Admin
pub mod Auth
pub mod Config
pub mod Cache
pub mod Middleware
pub mod Logging
pub mod Tests
