-- ===== src/Tests/Handler.antt =====
-- Whole requests of the small configuration.
use da_proxy.Prelude.{
  ℕ, ◌+◌, ◌≡◌, refl, ◌↔◌, true, false, [], ◌∷◌, Option, none, some, Memᴰ, arith, insert, lookup,
  Table,
}
use da_proxy.Prelude.Text.{
  Text, codes, same, listed, has_prefix, has_suffix, trim_suffix, trim_prefix,
}
use da_proxy.Prelude.Int.{pos, ◌<ℤ◌}
use da_proxy.Auth.Token.{TokenInfo, is_method_allowed, is_scope_allowed, any_allows, entry_allows}
use da_proxy.Cache.Redis.{Redis, RedisCache, Metrics, new_metrics, redis_cache, instrumented, key}
use da_proxy.Prelude.Text.Decimal.{to_decimal}
use da_proxy.Cache.{is_cacheable, cacheable_methods}
use da_proxy.Cache.Cacheable.{is_cacheable_iff}
use da_proxy.Middleware.Context.{Context, HttpError, fail, set_header}
use da_proxy.Proxy.Decode.{ParsedUrl, Url}
use da_proxy.Proxy.Router.{
  node_rpc, backend_name, new_router_with_tracker, has_archival_backend, archival_backend,
  same_backend, build_balancers, record_backend_latency, put,
}
use da_proxy.Proxy.Balancer.{new_balancer}
use da_proxy.Proxy.Router.Valid.{IsValid, new_router_with_tracker-IsValid}
use da_proxy.Proxy.Exchange.{Response, OutRequest, is_pruned_error, is_missing, director}
use da_proxy.Proxy.Forward.{
  State, Handler, Job, proxy_with_retry, proxy_direct, serve, store, flush_buffered, try_endpoint,
  try_endpoints, flush_pool, try_archival, flush_archival, set_all, put_request_id,
}
use da_proxy.Proxy.Forward.Retry.{search, targets, deliver, proxy_with_retry-search}
use da_proxy.Proxy.Forward.Stored.{IsStored}
use da_proxy.Proxy.Handler.{bytes, look_up, answer_from, proxy, handle_request}
use da_proxy.Proxy.Handler.Guards.{IsRefused, handle_request-IsRefused, handle_request-forbidden}
use da_proxy.Proxy.Handler.Cached.{asked, look_up-IsStored}
use da_proxy.Proxy.Handler.Valid.{handle_request-IsValid}
use da_proxy.Tests.Proxy.{router, routed, decision}
use da_proxy.Tests.Data.{numbers, old_block, decoder, backends, tracker, draw, reader}

abbrev memory : Redis (Table Text)
memory = record {
  get = λ k r. (lookup k r, r);
  put = λ k v ttl r. (true, insert k v r);
  ping = λ r. (true, r);
}

abbrev hash : Text → Text
hash p = codes "00"

abbrev in_redis : RedisCache
in_redis = record { ttl = pos 1; max_entry_size = pos 100 }

-- Any text is a URL whose host is the text.
abbrev urls : Url
urls = record {
  parse = λ s. some (record { scheme = codes "http"; host = s; path = [] });
  print = λ u. u.host;
  query_height = λ _. none;
}

-- The nodes count the requests; each takes a millisecond and answers with a header.
abbrev answering : OutRequest → ℕ → (Option Response × ℕ) × ℕ
answering out n =
    ((some (record { status = 200; headers = []; body = codes "{\"result\":{}}" }), 1000000), n + 1)

abbrev handler : Handler (Table Text × Metrics) ℕ
handler = record {
  max_body_size = 100;
  cache = instrumented (redis_cache memory hash in_redis);
  float = numbers;
  json = decoder;
  url = urls;
  exchange = answering;
  explain = λ _. codes "parsing JSON-RPC request";
}

abbrev start : State (Table Text × Metrics) ℕ
start = record { router = router; cache = ([], new_metrics); nodes = 0 }

abbrev context : Context
context = record {
  path = codes "/";
  raw_path = [];
  raw_query = [];
  request_id = some (codes "r1");
  token_name = none;
  rate_limit = none;
  token_info = some reader;
  backend = some (backend_name node_rpc);
  rpc_method = none;
  headers = [];
  status = 0;
  written = [];
}

abbrev job : Job
job = record {
  decision = record {
    backend = node_rpc;
    target_url = codes "http://node1";
    method = codes "header.GetByHeight";
  };
  path = codes "/";
  raw_query = [];
  body = some old_block;
  height = pos 5;
  should_cache = true;
}

abbrev node1 : ParsedUrl
node1 = record { scheme = codes "http"; host = codes "http://node1"; path = [] }

abbrev nothing : Response
nothing = record { status = 0; headers = []; body = [] }

is_cacheable_iff_example :
    (is_cacheable (codes "block") (pos 7) ≡ true)
    ↔ ((pos 0 <ℤ pos 7) × Memᴰ (codes "block") cacheable_methods)
is_cacheable_iff_example = is_cacheable_iff (codes "block") (pos 7)

proxy_with_retry-search_example :
    proxy_with_retry handler node1 job context start
    ≡ deliver handler job context
        (search handler job (targets handler job node1 router) nothing start).0
        (search handler job (targets handler job node1 router) nothing start).1
proxy_with_retry-search_example =
    proxy_with_retry-search handler job node1 context nothing start refl

abbrev strict : Handler (Table Text × Metrics) ℕ
strict = record handler { max_body_size = 3 }

abbrev too_large : HttpError
too_large = record { code = 413; message = codes "request body too large" }

refused : (handle_request strict draw (bytes old_block) context start).0 ≡ some too_large
unfolding handle_request
refused = refl

handle_request-IsRefused_example :
    IsRefused strict too_large context start
      (handle_request strict draw (bytes old_block) context start).1
      (handle_request strict draw (bytes old_block) context start).2
handle_request-IsRefused_example =
    handle_request-IsRefused strict draw (bytes old_block) context start too_large refused

abbrev writer : TokenInfo
writer = record reader { allowed_methods = codes "blob.*" ∷ [] }

abbrev writing : Context
writing = record context { token_info = some writer }

not_permitted : is_method_allowed writer decision.method ≡ false
unfolding is_method_allowed is_scope_allowed any_allows entry_allows same listed has_prefix
    has_suffix trim_suffix trim_prefix
not_permitted = refl

handle_request-forbidden_example :
    ((handle_request handler draw (bytes old_block) writing start).0
      ≡ fail 403 (codes "method not allowed for this token"))
    × ((handle_request handler draw (bytes old_block) writing start).2.cache ≡ ([], new_metrics))
    × ((handle_request handler draw (bytes old_block) writing start).2.nodes ≡ 0)
    × ((handle_request handler draw (bytes old_block) writing start).1.status ≡ 0)
    × ((handle_request handler draw (bytes old_block) writing start).1.written ≡ [])
handle_request-forbidden_example =
    handle_request-forbidden handler draw old_block writing start writer decision (omega arith) refl
      routed (omega arith) not_permitted

handle_request-IsValid_example :
    IsValid (handle_request handler draw (bytes old_block) context start).2.router
handle_request-IsValid_example =
    handle_request-IsValid handler draw (bytes old_block) context start
      (new_router_with_tracker-IsValid backends (some tracker))

nothing_cached : (handler.cache.get job.decision.method job.height old_block start.cache).0 ≡ none
unfolding lookup key to_decimal
nothing_cached = refl

abbrev first : Option HttpError × Context × State (Table Text × Metrics) ℕ
first = look_up handler job context start

first_succeeds : first.0 ≡ none
unfolding handle_request look_up answer_from proxy proxy_with_retry proxy_direct serve store
    flush_buffered try_endpoint try_endpoints flush_pool try_archival flush_archival is_pruned_error
    is_missing has_archival_backend archival_backend same_backend new_router_with_tracker
    build_balancers new_balancer record_backend_latency put lookup insert same director set_all
    put_request_id set_header key to_decimal
first_succeeds = refl

look_up-IsStored_example :
    IsStored handler job (asked handler job start.cache).1 first.1 first.2.cache
look_up-IsStored_example =
    look_up-IsStored handler job context start (λ caching. nothing_cached) first_succeeds

abbrev later : State (Table Text × Metrics) ℕ
later = record start { cache = first.2.cache; nodes = 7 }
