-- ===== src/Proxy/Handler/Valid.antt =====
-- A request keeps the router valid.
use da_proxy.Prelude.{
  ◌+◌, false, Option, none, some, ltb, Bool-cases, Option-cases, length, take, Result, ok, err, inl,
  inr,
}
use da_proxy.Prelude.Text.{Text, same}
use da_proxy.Middleware.Context.{Context}
use da_proxy.Proxy.Decode.{ParsedUrl}
use da_proxy.Proxy.Balancer.{Draw}
use da_proxy.Proxy.Router.{
  Backend, RouteDecision, RouteError, route, all_endpoints, has_archival_backend, archival_backend,
}
use da_proxy.Proxy.Exchange.{Response, director}
use da_proxy.Proxy.Forward.{
  State, Handler, Job, or_nil, proxy_with_retry, proxy_direct, store, serve, flush_buffered,
  try_endpoint, flush_archival, flush_pool, try_archival, storable, pruned,
}
use da_proxy.Proxy.Handler.{
  Incoming, no_body, unreadable, bytes, can_retry, proxy, answer_from, look_up, job_of,
  is_permitted, mark, decide, with_body, handle_request,
}
use da_proxy.Proxy.Router.Valid.{IsValid, route-IsValid, record_backend_latency-IsValid}
use da_proxy.Proxy.Forward.Invariant.{IsKept, try_endpoint-keeps, try_endpoints-keeps}

module _ {C N : Type 0} (h : Handler C N) where
  abbrev IsRouted : State C N → Type 0
  IsRouted st = IsValid st.router

  IsRouted-IsKept : IsKept h IsRouted
  IsRouted-IsKept st k ep d nodes v = record_backend_latency-IsValid h.float k ep d v

  store-IsRouted :
      (job : Job) (buf : Response) (st : State C N) → IsRouted st → IsRouted (store h job buf st)
  unfolding store
  store-IsRouted job buf st v = elim (Bool-cases (storable h job buf)) [
    | inl p ↦ rw p v
    | inr q ↦ rw q v
  ]

  flush_buffered-IsRouted :
      (buf : Response) (k : Backend) (job : Job) (c : Context) (st : State C N)
      → IsRouted st
      → IsRouted (flush_buffered h buf k job c st).1
  unfolding flush_buffered
  flush_buffered-IsRouted buf k job c _ v = store-IsRouted job buf _ v

  flush_archival-IsRouted :
      (job : Job) (c : Context) (found : Result Response Response) (st : State C N)
      → IsRouted st
      → IsRouted (flush_archival h job c found st).1
  unfolding flush_archival
  flush_archival-IsRouted job c (ok buf) _ v = flush_buffered-IsRouted buf _ job _ _ v
  flush_archival-IsRouted job c (err buf) _ v = flush_buffered-IsRouted buf _ job c _ v

  try_archival-IsRouted :
      (job : Job) (buf : Response) (c : Context) (st : State C N)
      → IsRouted st
      → IsRouted (try_archival h job buf c st).1
  unfolding try_archival
  try_archival-IsRouted job buf c st v =
      elim (Bool-cases (has_archival_backend job.decision.backend st.router)) [
        | inr q ↦ rw q (flush_buffered-IsRouted buf _ job c _ v)
        | inl p ↦
            let a = archival_backend job.decision.backend in
            rw p (
              flush_archival-IsRouted job c _ _ (
                try_endpoints-keeps h IsRouted IsRouted-IsKept (λ _. false) job a
                  (all_endpoints a st.router) buf v))
      ]

  flush_pool-IsRouted :
      (job : Job) (c : Context) (found : Result Response Response) (st : State C N)
      → IsRouted st
      → IsRouted (flush_pool h job c found st).1
  unfolding flush_pool
  flush_pool-IsRouted job c (ok buf) _ v = flush_buffered-IsRouted buf _ job c _ v
  flush_pool-IsRouted job c (err buf) _ v = try_archival-IsRouted job buf c _ v

  proxy_with_retry-IsRouted :
      (target : ParsedUrl) (job : Job) (c : Context) (st : State C N)
      → IsRouted st
      → IsRouted (proxy_with_retry h target job c st).1
  unfolding proxy_with_retry
  proxy_with_retry-IsRouted target job c st v =
      let k = job.decision.backend in
      let (buf, st') = try_endpoint h target job k job.decision.target_url st in
      let here =
        try_endpoint-keeps h IsRouted IsRouted-IsKept target job k job.decision.target_url v in
      elim (Bool-cases (pruned h buf)) [
        | inr whole ↦ rw whole (flush_buffered-IsRouted buf k job c _ here)
        | inl gone ↦ rw gone (
            flush_pool-IsRouted job c _ _ (
              try_endpoints-keeps h IsRouted IsRouted-IsKept (λ ep. same ep (h.url.print target))
                job k (all_endpoints k st'.router) buf here))
      ]

  serve-IsRouted :
      (job : Job) (answer : Option Response) (c : Context) (st : State C N)
      → IsRouted st
      → IsRouted (serve h job answer c st).1
  unfolding serve
  serve-IsRouted job none c _ v = v
  serve-IsRouted job (some buf) c _ v = store-IsRouted job buf _ v

  proxy_direct-IsRouted :
      (target : ParsedUrl) (job : Job) (c : Context) (st : State C N)
      → IsRouted st
      → IsRouted (proxy_direct h target job c st).1
  unfolding proxy_direct
  proxy_direct-IsRouted target job c st v =
      let ((answer, d), nodes) =
        h.exchange (director target job.path job.raw_query job.body) st.nodes in
      record_backend_latency-IsValid h.float job.decision.backend job.decision.target_url d
        (serve-IsRouted job answer c (record st { nodes = nodes }) v)

  proxy-IsRouted :
      (job : Job) (c : Context) (st : State C N) → IsRouted st → IsRouted (proxy h job c st).2
  unfolding proxy
  proxy-IsRouted job c st v = elim (Option-cases (h.url.parse job.decision.target_url)) [
    | inl bad ↦ rw (bad, proxy) v
    | inr (target, good) ↦ elim (Bool-cases (can_retry h job st)) [
      | inl p ↦ rw (good, proxy, p) (proxy_with_retry-IsRouted target job c _ v)
      | inr q ↦ rw (good, proxy, q) (proxy_direct-IsRouted target job c _ v)
    ]
  ]

  look_up-IsRouted :
      (job : Job) (c : Context) (st : State C N) → IsRouted st → IsRouted (look_up h job c st).2
  unfolding look_up answer_from
  look_up-IsRouted job c st v = elim (Bool-cases job.should_cache) [
    | inr q ↦ simp q (proxy-IsRouted job c _ v)
    | inl p ↦
        simp p
          (answered (h.cache.get job.decision.method job.height (or_nil job.body) st.cache).0 _)
  ]
    where
      answered :
          (hit : Option Text) (cache : C)
          → IsRouted (answer_from h job c hit (record st { cache = cache })).2
      answered none cache = proxy-IsRouted job c (record st { cache = cache }) v
      answered (some cached) cache = v

  decide-IsRouted :
      (body : Option Text) (c : Context) (o : Result RouteError RouteDecision) (st : State C N)
      → IsRouted st
      → IsRouted (decide h body c o st).2
  unfolding decide
  decide-IsRouted body c (err x) _ v = v
  decide-IsRouted body c (ok decision) _ v =
      elim (Bool-cases (is_permitted h c.token_info decision.method)) [
        | inr q ↦ rw q v
        | inl p ↦ rw p (look_up-IsRouted (job_of h decision body c) (mark h decision c) _ v)
      ]

  with_body-IsRouted :
      (d : Draw) (body : Option Text) (c : Context) (st : State C N)
      → IsRouted st
      → IsRouted (with_body h d body c st).2
  unfolding with_body
  with_body-IsRouted d body c st v =
      decide-IsRouted body c (route h.float h.json d (or_nil body) st.router).0
        (record st { router = (route h.float h.json d (or_nil body) st.router).1 })
        (route-IsValid h.float h.json d (or_nil body) v)

  -- A request keeps every balancer valid, whatever the nodes, the cache and the draws are, and
  -- however the request ends.
  pub handle_request-IsValid :
      (d : Draw) (incoming : Incoming) (c : Context) (st : State C N)
      → IsValid st.router
      → IsValid (handle_request h d incoming c st).2.router
  unfolding handle_request
  handle_request-IsValid d no_body c _ v = with_body-IsRouted d none c _ v
  handle_request-IsValid d unreadable c _ v = v
  handle_request-IsValid d (bytes sent) c _ v =
      elim (Bool-cases (ltb h.max_body_size (length (take (h.max_body_size + 1) sent)))) [
        | inl p ↦ rw p v
        | inr q ↦ rw q (with_body-IsRouted d (some (take (h.max_body_size + 1) sent)) c _ v)
      ]
