-- ===== src/Proxy/Forward.antt =====
-- internal/proxy/handler.go: a request on its way to the nodes, and the answer that is written.
pub mod Invariant
pub mod Retry
pub mod Stored
use da_proxy.Prelude.{
  ℕ, suc, ◌+◌, Bool, true, false, not, ◌&&◌, ◌||◌, List, [], ◌∷◌, Option, none, some, ◌==◌, ltb,
  if◌then◌else◌, length, take, Table, Result, ok, err,
}
use da_proxy.Prelude.Text.{Text, codes, same}
use da_proxy.Prelude.Int.{ℤ, pos, negsuc, ltb_ℤ}
use da_proxy.Auth.Token.{TokenInfo, is_method_allowed}
use da_proxy.Cache.{Cache, is_cacheable}
use da_proxy.Middleware.Context.{Context, HttpError, fail, set_header, add_header, put_header}
use da_proxy.Proxy.Float.{Float}
use da_proxy.Proxy.Decode.{Json, Url, ParsedUrl}
use da_proxy.Proxy.Balancer.{Draw}
use da_proxy.Proxy.Height.{extract_height, extract_height_from_query, is_zero}
use da_proxy.Proxy.Router.{
  Backend, Router, RouteDecision, RouteError, backend_name, route, all_endpoints,
  has_archival_backend, archival_backend, record_backend_latency,
}
use da_proxy.Proxy.Exchange.{Response, Transport, director, unavailable, is_pruned_error, buffered}

-- What a handler shares with the other requests: the router, the cache and the nodes.
pub record State (C N : Type 0) : Type 0 where
  pub router : Router
  pub cache : C
  pub nodes : N

-- The handler's fields, and what lies outside the program.
pub record Handler (C N : Type 0) : Type 0 where
  -- an int64 in the source: a limit that is not negative and below MaxInt64
  pub max_body_size : ℕ
  pub cache : Cache C
  pub float : Float
  pub json : Json
  pub url : Url
  pub exchange : Transport N
  -- the text of an error of `Route`
  pub explain : RouteError → Text

-- What `proxyDirect` and `proxyWithRetry` are given of a request.
pub record Job : Type 0 where
  pub decision : RouteDecision
  pub path : Text
  pub raw_query : Text
  pub body : Option Text
  pub height : ℤ
  pub should_cache : Bool

abbrev pub or_nil : Option Text → Text
or_nil none = []
or_nil (some body) = body

unfoldable pub put_request_id : Context → Table (List Text) → Table (List Text)
put_request_id c headers = elim c.request_id [
  | none ↦ headers
  | some id ↦ if length id == 0 then headers else set_header (codes "X-Request-ID") id headers
]

abbrev pub put_backend : Backend → Table (List Text) → Table (List Text)
put_backend k headers = set_header (codes "X-DA-Backend") (backend_name k) headers

-- `WriteHeader` and `Write`.
abbrev pub write : ℕ → Text → Context → Context
write status body c = record c { status = status; written = body }

-- The two loops of `flushBuffered` over the headers of the answer.
unfoldable pub set_values : Text → List Text → Table (List Text) → Table (List Text)
set_values name [] headers = headers
set_values name (v ∷ vs) headers = set_values name vs (set_header name v headers)

unfoldable pub set_all : Table (List Text) → Table (List Text) → Table (List Text)
set_all [] headers = headers
set_all ((name, vs) ∷ rest) headers = set_all rest (set_values name vs headers)

-- How `httputil.ReverseProxy` copies the headers of an answer.
unfoldable pub add_values : Text → List Text → Table (List Text) → Table (List Text)
add_values name [] headers = headers
add_values name (v ∷ vs) headers = add_values name vs (add_header name v headers)

unfoldable pub add_all : Table (List Text) → Table (List Text) → Table (List Text)
add_all [] headers = headers
add_all ((name, vs) ∷ rest) headers = add_all rest (add_values name vs headers)

module _ {C N : Type 0} (h : Handler C N) where
  abbrev pub pruned : Response → Bool
  pruned buf = is_pruned_error h.json buf.status buf.body

  -- The answer goes into the cache if it is a whole one.
  abbrev pub storable : Job → Response → Bool
  storable job buf = job.should_cache && buf.status == 200 && not (pruned buf)

  unfoldable pub store : Job → Response → State C N → State C N
  store job buf st =
      if storable job buf
      then record st {
        cache = h.cache.put job.decision.method job.height (or_nil job.body) buf.body st.cache;
      }
      else st

  abbrev pub mark_miss : Job → Response → Table (List Text) → Table (List Text)
  mark_miss job buf headers =
      if storable job buf
      then set_header (codes "X-Cache-Status") (codes "MISS") headers
      else headers

  unfoldable pub flush_buffered :
      Response → Backend → Job → Context → State C N → Context × State C N
  flush_buffered buf k job c st =
      let headers =
        mark_miss job buf (put_backend k (put_request_id c (set_all buf.headers c.headers))) in
      (write buf.status buf.body (record c { headers = headers }), store job buf st)

  unfoldable pub try_endpoint : ParsedUrl → Job → Backend → Text → State C N → Response × State C N
  try_endpoint target job k endpoint st =
      let ((answer, d), nodes) =
        h.exchange (director target job.path job.raw_query job.body) st.nodes in
      (
        buffered answer,
        record st { router = record_backend_latency h.float k endpoint d st.router; nodes = nodes },
      )

  -- A loop over endpoints, without the one that was tried: the first answer that is no pruned
  -- error, or else the last answer.
  unfoldable pub try_endpoints :
      (Text → Bool)
      → Job
      → Backend
      → List Text
      → Response
      → State C N
      → Result Response Response × State C N
  try_endpoints skips job k [] buf st = (err buf, st)
  try_endpoints skips job k (ep ∷ eps) buf st =
      let skipped = try_endpoints skips job k eps buf st in
      if skips ep then skipped else elim (h.url.parse ep) [
        | none ↦ skipped
        | some target ↦
            let (buf', st') = try_endpoint target job k ep st in
            let rest = try_endpoints skips job k eps buf' st' in
            if pruned buf' then rest else (ok buf', st')
      ]

  -- After the archival endpoints: their answer, or the last one as that of the first backend.
  unfoldable pub flush_archival :
      Job → Context → Result Response Response → State C N → Context × State C N
  flush_archival job c (ok found) st =
      let a = archival_backend job.decision.backend in
      flush_buffered found a job (record c { backend = some (backend_name a) }) st
  flush_archival job c (err last) st = flush_buffered last job.decision.backend job c st

  -- The archival backend, if there is one, after the pool of the backend itself.
  unfoldable pub try_archival : Job → Response → Context → State C N → Context × State C N
  try_archival job buf c st =
      let k = job.decision.backend in
      let a = archival_backend k in
      if has_archival_backend k st.router
      then (let (found, st') =
            try_endpoints (λ _. false) job a (all_endpoints a st.router) buf st in
          flush_archival job c found st')
      else flush_buffered buf k job c st

  -- After the endpoints of the backend itself.
  unfoldable pub flush_pool :
      Job → Context → Result Response Response → State C N → Context × State C N
  flush_pool job c (ok found) st = flush_buffered found job.decision.backend job c st
  flush_pool job c (err last) st = try_archival job last c st

  unfoldable pub proxy_with_retry : ParsedUrl → Job → Context → State C N → Context × State C N
  proxy_with_retry target job c st =
      let k = job.decision.backend in
      let (buf, st') = try_endpoint target job k job.decision.target_url st in
      if not (pruned buf)
      then flush_buffered buf k job c st'
      else (let (found, st'') =
            try_endpoints (λ ep. same ep (h.url.print target)) job k (all_endpoints k st'.router)
              buf st' in
          flush_pool job c found st'')

  -- What the reverse proxy of `buildProxy` writes: `ModifyResponse` on an answer, and the error
  -- handler without one.
  unfoldable pub serve : Job → Option Response → Context → State C N → Context × State C N
  serve job none c st = (write 502 unavailable c, st)
  serve job (some buf) c st =
      let headers =
        mark_miss job buf (put_backend job.decision.backend (put_request_id c buf.headers)) in
      (
        write buf.status buf.body (record c { headers = add_all headers c.headers }),
        store job buf st,
      )

  unfoldable pub proxy_direct : ParsedUrl → Job → Context → State C N → Context × State C N
  proxy_direct target job c st =
      let ((answer, d), nodes) =
        h.exchange (director target job.path job.raw_query job.body) st.nodes in
      let (c', st') = serve job answer c (record st { nodes = nodes }) in
      (
        c',
        record st' {
          router =
              record_backend_latency h.float job.decision.backend job.decision.target_url d
                st'.router;
        },
      )
