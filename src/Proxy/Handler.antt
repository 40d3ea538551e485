-- ===== src/Proxy/Handler.antt =====
-- internal/proxy/handler.go: a request from its body to the nodes, with every refusal on the way.
pub mod Guards
pub mod Cached
pub mod Valid
use da_proxy.Prelude.{
  ℕ, suc, ◌+◌, Bool, true, false, not, ◌&&◌, ◌||◌, List, [], ◌∷◌, Option, none, some, ◌==◌, ltb,
  if◌then◌else◌, length, take, Table, Result, ok, err,
}
use da_proxy.Prelude.Text.{Text, codes, same}
use da_proxy.Prelude.Int.{ℤ, pos, negsuc, ltb_ℤ}
use da_proxy.Auth.Token.{TokenInfo, is_method_allowed}
use da_proxy.Cache.{Cache, is_cacheable}
use da_proxy.Middleware.Context.{Context, HttpError, fail, set_header, add_header, put_header}
use da_proxy.Proxy.Float.{Float}
use da_proxy.Proxy.Decode.{Json, Url, ParsedUrl}
use da_proxy.Proxy.Balancer.{Draw}
use da_proxy.Proxy.Height.{extract_height, extract_height_from_query, is_zero}
use da_proxy.Proxy.Router.{
  Backend, Router, RouteDecision, RouteError, backend_name, route, all_endpoints,
  has_archival_backend, archival_backend, record_backend_latency,
}
use da_proxy.Proxy.Exchange.{Response, Transport, director, unavailable, is_pruned_error, buffered}
use da_proxy.Proxy.Forward.{
  State, Handler, Job, or_nil, put_request_id, put_backend, write, proxy_with_retry, proxy_direct,
}

-- The body of a request: nil, one whose reading fails, or its bytes.
pub data Incoming : Type 0 where
  no_body : Incoming
  unreadable : Incoming
  bytes : Text → Incoming

module _ {C N : Type 0} (h : Handler C N) where
  -- `canRetry`
  abbrev pub can_retry : Job → State C N → Bool
  can_retry job st =
      ltb_ℤ (pos 0) job.height
      && (ltb 1 (length (all_endpoints job.decision.backend st.router))
          || has_archival_backend job.decision.backend st.router)

  -- The request as it goes to the nodes, once the cache has been asked.
  unfoldable pub proxy : Job → Context → State C N → Option HttpError × Context × State C N
  proxy job c st = elim (h.url.parse job.decision.target_url) [
    | none ↦ (fail 502 (codes "backend configuration error"), c, st)
    | some target ↦
        let (c', st') =
          (if can_retry job st
            then proxy_with_retry h target job c st
            else proxy_direct h target job c st) in
        (none, c', st')
  ]

  -- A hit is written at once.
  abbrev pub write_hit : Job → Text → Context → Context
  write_hit job cached c =
      let headers = set_header (codes "Content-Type") (codes "application/json") c.headers in
      let headers = put_backend job.decision.backend headers in
      let headers = set_header (codes "X-Cache-Status") (codes "HIT") headers in
      write 200 cached (record c { headers = put_request_id c headers })

  unfoldable pub answer_from :
      Job → Context → Option Text → State C N → Option HttpError × Context × State C N
  answer_from job c none st = proxy job c st
  answer_from job c (some cached) st = (none, write_hit job cached c, st)

  unfoldable pub look_up : Job → Context → State C N → Option HttpError × Context × State C N
  look_up job c st =
      if job.should_cache
      then (let (hit, cache) =
            h.cache.get job.decision.method job.height (or_nil job.body) st.cache in
          answer_from job c hit (record st { cache = cache }))
      else proxy job c st

  -- The height that the body names, or else the query.
  abbrev pub request_height : Text → Text → Text → ℤ
  request_height method body raw_query =
      let height = extract_height h.json method body in
      if is_zero height then extract_height_from_query h.url raw_query else height

  abbrev pub job_of : RouteDecision → Option Text → Context → Job
  job_of decision body c =
      let height = request_height decision.method (or_nil body) c.raw_query in
      record {
        decision = decision;
        path = c.path;
        raw_query = c.raw_query;
        body = body;
        height = height;
        should_cache = is_cacheable decision.method height;
      }

  -- Whether the token of the request, if there is one, permits the method.
  unfoldable pub is_permitted : Option TokenInfo → Text → Bool
  is_permitted none method = true
  is_permitted (some info) method =
      if length method == 0 then true else is_method_allowed info method

  abbrev pub mark : RouteDecision → Context → Context
  mark decision c = record c {
    backend = some (backend_name decision.backend);
    rpc_method = some decision.method;
  }

  unfoldable pub decide :
      Option Text
      → Context
      → Result RouteError RouteDecision
      → State C N
      → Option HttpError × Context × State C N
  decide body c (err e) st = (fail 400 (h.explain e), c, st)
  decide body c (ok decision) st =
      if is_permitted c.token_info decision.method
      then look_up (job_of decision body c) (mark decision c) st
      else (fail 403 (codes "method not allowed for this token"), mark decision c, st)

  unfoldable pub with_body :
      Draw → Option Text → Context → State C N → Option HttpError × Context × State C N
  with_body d body c st =
      let (decision, router) = route h.float h.json d (or_nil body) st.router in
      decide body c decision (record st { router = router })

  -- `HandleRequest`. At most one byte more than is allowed is read.
  unfoldable pub handle_request :
      Draw → Incoming → Context → State C N → Option HttpError × Context × State C N
  handle_request d no_body c st = with_body d none c st
  handle_request d unreadable c st = (fail 400 (codes "failed to read request body"), c, st)
  handle_request d (bytes sent) c st =
      let body = take (h.max_body_size + 1) sent in
      if ltb h.max_body_size (length body)
      then (fail 413 (codes "request body too large"), c, st)
      else with_body d (some body) c st
