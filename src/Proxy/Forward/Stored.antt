-- ===== src/Proxy/Forward/Stored.antt =====
-- What goes into the cache.
use da_proxy.Prelude.{
  ℕ, ◌≡◌, refl, sym, ◌∙◌, Bool, true, false, not, ◌&&◌, Option, none, some, ◌==◌, Bool-cases,
  Result, ok, err, arith, inl, inr,
}
use da_proxy.Prelude.Text.{same}
use da_proxy.Middleware.Context.{Context}
use da_proxy.Proxy.Decode.{ParsedUrl}
use da_proxy.Proxy.Router.{Backend, all_endpoints, has_archival_backend, archival_backend}
use da_proxy.Proxy.Exchange.{Response, director, is_pruned_error}
use da_proxy.Proxy.Forward.{
  State, Handler, Job, or_nil, pruned, storable, store, flush_buffered, try_endpoint,
  flush_archival, flush_pool, try_archival, proxy_with_retry, serve, proxy_direct,
}
use da_proxy.Proxy.Forward.Invariant.{try_endpoint-keeps, try_endpoints-keeps}

module _ {C N : Type 0} (h : Handler C N) (job : Job) where
  -- What the client was sent has been put into the cache where the request is cacheable, the status
  -- is 200, and the body is not the error of a pruned block; else the cache is as it was.
  pub data IsStored (before : C) (c : Context) (after : C) : Type 0 where
    untouched :
        (job.should_cache ≡ true
          → c.status ≡ 200
          → is_pruned_error h.json c.status c.written ≡ false
          → ⊥)
        → after ≡ before
        → IsStored before c after
    stored :
        job.should_cache ≡ true
        → c.status ≡ 200
        → is_pruned_error h.json c.status c.written ≡ false
        → after ≡ h.cache.put job.decision.method job.height (or_nil job.body) c.written before
        → IsStored before c after

  refuted :
      (status : ℕ) (gone : Bool)
      → job.should_cache ≡ true
      → status ≡ 200
      → gone ≡ false
      → (job.should_cache && status == 200 && not gone) ≡ false
      → ⊥
  refuted status gone caching good whole q = ground arith

  -- The context holds the answer `buf` whose storing gives the new state.
  store-IsStored :
      (buf : Response) (c : Context) (before : C) (st : State C N)
      → c.status ≡ buf.status
      → c.written ≡ buf.body
      → st.cache ≡ before
      → IsStored before c (store h job buf st).cache
  unfolding store
  store-IsStored buf c before st status body e = elim (Bool-cases (storable h job buf)) [
    | inr q ↦ rw q (
        IsStored.untouched
          (λ caching good whole.
            let whole : pruned h buf ≡ false = rw (← status, ← body) whole in
            let good : buf.status ≡ 200 = sym status ∙ good in
            refuted (buf.status) (pruned h buf) caching good whole q)
          e)
    | inl p ↦
        let ok_status : buf.status ≡ 200 = ground arith in
        let whole : pruned h buf ≡ false = ground arith in
        rw p (
          IsStored.stored (ground arith) (status ∙ ok_status) (rw (status, body) whole)
            (rw (body, e) refl))
  ]

  flush_buffered-IsStored :
      (buf : Response) (k : Backend) (c : Context) (before : C) (st : State C N)
      → st.cache ≡ before
      → (let (c', st') = flush_buffered h buf k job c st in IsStored before c' st'.cache)
  unfolding flush_buffered
  flush_buffered-IsStored buf k c before st e = store-IsStored buf _ before st refl refl e

  flush_archival-IsStored :
      (found : Result Response Response) (c : Context) (before : C) (st : State C N)
      → st.cache ≡ before
      → (let (c', st') = flush_archival h job c found st in IsStored before c' st'.cache)
  unfolding flush_archival
  flush_archival-IsStored (ok buf) c before st e = flush_buffered-IsStored buf _ _ before st e
  flush_archival-IsStored (err buf) c before st e = flush_buffered-IsStored buf _ c before st e

  HasCache : C → State C N → Type 0
  HasCache before st = st.cache ≡ before

  try_archival-IsStored :
      (buf : Response) (c : Context) (before : C) (st : State C N)
      → st.cache ≡ before
      → (let (c', st') = try_archival h job buf c st in IsStored before c' st'.cache)
  unfolding try_archival HasCache
  try_archival-IsStored buf c before st e =
      elim (Bool-cases (has_archival_backend job.decision.backend st.router)) [
        | inr q ↦ rw q (flush_buffered-IsStored buf _ c before st e)
        | inl p ↦
            let a = archival_backend job.decision.backend in
            rw p (
              flush_archival-IsStored _ c before _ (
                try_endpoints-keeps h (HasCache before) (λ st k ep d nodes p. p) (λ _. false) job a
                  (all_endpoints a st.router) buf e))
      ]

  flush_pool-IsStored :
      (found : Result Response Response) (c : Context) (before : C) (st : State C N)
      → st.cache ≡ before
      → (let (c', st') = flush_pool h job c found st in IsStored before c' st'.cache)
  unfolding flush_pool
  flush_pool-IsStored (ok buf) c before st e = flush_buffered-IsStored buf _ c before st e
  flush_pool-IsStored (err buf) c before st e = try_archival-IsStored buf c before st e

  pub proxy_with_retry-IsStored :
      (target : ParsedUrl) (c : Context) (st : State C N)
      → (let (c', st') = proxy_with_retry h target job c st in IsStored st.cache c' st'.cache)
  unfolding proxy_with_retry HasCache
  proxy_with_retry-IsStored target c st =
      let k = job.decision.backend in
      let (buf, st') = try_endpoint h target job k job.decision.target_url st in
      let here : st'.cache ≡ st.cache =
        try_endpoint-keeps h (HasCache st.cache) (λ st k ep d nodes p. p) target job k
          job.decision.target_url refl in
      elim (Bool-cases (pruned h buf)) [
        | inr whole ↦ rw whole (flush_buffered-IsStored buf k c st.cache st' here)
        | inl gone ↦ rw gone (
            flush_pool-IsStored _ c st.cache _ (
              try_endpoints-keeps h (HasCache st.cache) (λ st k ep d nodes p. p)
                (λ ep. same ep (h.url.print target)) job k (all_endpoints k st'.router) buf here))
      ]

  serve-IsStored :
      (answer : Option Response) (c : Context) (st : State C N)
      → (let (c', st') = serve h job answer c st in IsStored st.cache c' st'.cache)
  unfolding serve
  serve-IsStored none c st = IsStored.untouched (λ caching good whole. absurd (ground arith)) refl
  serve-IsStored (some buf) c st = store-IsStored buf _ st.cache st refl refl refl

  pub proxy_direct-IsStored :
      (target : ParsedUrl) (c : Context) (st : State C N)
      → (let (c', st') = proxy_direct h target job c st in IsStored st.cache c' st'.cache)
  unfolding proxy_direct
  proxy_direct-IsStored target c st =
      serve-IsStored (h.exchange (director target job.path job.raw_query job.body) st.nodes).0.0 c _
