-- ===== src/Proxy/Handler/Guards.antt =====
-- The refusals of a request.
use da_proxy.Prelude.{
  ℕ, ◌+◌, ◌<◌, ◌≡◌, refl, ◌⊎◌, true, false, Option, none, some, ◌==◌, ltb, Bool-cases, Option-cases,
  length, take, length-take, ◌≤◌, take_of_le, Result, ok, err, arith, inl, inr,
}
use da_proxy.Prelude.Text.{Text, codes}
use da_proxy.Auth.Token.{TokenInfo, is_method_allowed}
use da_proxy.Middleware.Context.{Context, HttpError, fail}
use da_proxy.Proxy.Balancer.{Draw}
use da_proxy.Proxy.Router.{RouteDecision, RouteError, route}
use da_proxy.Proxy.Forward.{State, Handler, Job, or_nil}
use da_proxy.Proxy.Handler.{
  Incoming, no_body, unreadable, bytes, proxy, answer_from, look_up, job_of, is_permitted, mark,
  decide, with_body, handle_request,
}

module _ {C N : Type 0} (h : Handler C N) where
  -- A refusal with one of the four codes, before any node was contacted or a response written.
  pub record IsRefused (e : HttpError) (c : Context) (st : State C N) (c' : Context)
      (st' : State C N) : Type 0 where
    pub code : (e.code ≡ 400) ⊎ (e.code ≡ 403) ⊎ (e.code ≡ 413) ⊎ (e.code ≡ 502)
    pub nodes : st'.nodes ≡ st.nodes
    pub status : c'.status ≡ c.status
    pub written : c'.written ≡ c.written
    pub headers : c'.headers ≡ c.headers

  abbrev Refuses : Context → State C N → Option HttpError × Context × State C N → Type 0
  Refuses c st r = (e : HttpError) → r.0 ≡ some e → IsRefused e c st r.1 r.2

  refusal :
      (code : ℕ) (message : Text) (c c' : Context) (st st' : State C N)
      → (code ≡ 400) ⊎ (code ≡ 403) ⊎ (code ≡ 413) ⊎ (code ≡ 502)
      → st'.nodes ≡ st.nodes
      → c'.status ≡ c.status
      → c'.written ≡ c.written
      → c'.headers ≡ c.headers
      → Refuses c st (fail code message, c', st')
  refusal code message c c' st st' known nodes status written headers e q = record {
    code = (let same : code ≡ e.code = cc in rw (← same) known);
    nodes = nodes;
    status = status;
    written = written;
    headers = headers;
  }

  proxy-Refuses : (job : Job) (c : Context) (st : State C N) → Refuses c st (proxy h job c st)
  unfolding proxy
  proxy-Refuses job c st = elim (Option-cases (h.url.parse job.decision.target_url)) [
    | inl bad ↦ rw (bad, proxy) (refusal 502 _ c c st st (inr (inr (inr refl))) refl refl refl refl)
    | inr (target, good) ↦ rw (good, proxy) (λ e q. absurd (ground arith))
  ]

  look_up-Refuses : (job : Job) (c : Context) (st : State C N) → Refuses c st (look_up h job c st)
  unfolding look_up answer_from
  look_up-Refuses job c st = elim (Bool-cases job.should_cache) [
    | inr q ↦ simp q (proxy-Refuses job c st)
    | inl p ↦
        let (hit, cache) = h.cache.get job.decision.method job.height (or_nil job.body) st.cache in
        simp p (answered hit cache)
  ]
    where
      answered :
          (hit : Option Text) (cache : C)
          → Refuses c st (answer_from h job c hit (record st { cache = cache }))
      answered none cache e q =
          let r = proxy-Refuses job c (record st { cache = cache }) e q in
          record {
            code = r.code;
            nodes = r.nodes;
            status = r.status;
            written = r.written;
            headers = r.headers;
          }
      answered (some cached) cache e q = absurd (ground arith)

  decide-Refuses :
      (body : Option Text) (c : Context) (o : Result RouteError RouteDecision) (st : State C N)
      → Refuses c st (decide h body c o st)
  unfolding decide
  decide-Refuses body c (err x) st = refusal 400 _ c c st st (inl refl) refl refl refl refl
  decide-Refuses body c (ok decision) st =
      elim (Bool-cases (is_permitted h c.token_info decision.method)) [
        | inr q ↦
            rw q (refusal 403 _ c (mark h decision c) st st (inr (inl refl)) refl refl refl refl)
        | inl p ↦ rw p (λ e q.
            let r = look_up-Refuses (job_of h decision body c) (mark h decision c) st e q in
            record {
              code = r.code;
              nodes = r.nodes;
              status = r.status;
              written = r.written;
              headers = r.headers;
            })
      ]

  with_body-Refuses :
      (d : Draw) (body : Option Text) (c : Context) (st : State C N)
      → Refuses c st (with_body h d body c st)
  unfolding with_body
  with_body-Refuses d body c st e q =
      let (decision, router) = route h.float h.json d (or_nil body) st.router in
      let r = decide-Refuses body c decision (record st { router = router }) e q in
      record {
        code = r.code;
        nodes = r.nodes;
        status = r.status;
        written = r.written;
        headers = r.headers;
      }

  -- An error of `HandleRequest` has the code 400, 403, 413 or 502, and where there is one, no node
  -- was contacted and nothing of the response was written.
  pub handle_request-IsRefused :
      (d : Draw) (incoming : Incoming) (c : Context) (st : State C N) (e : HttpError)
      → (let (error, c', st') = handle_request h d incoming c st in
          error ≡ some e → IsRefused e c st c' st')
  unfolding handle_request
  handle_request-IsRefused d no_body c st e = with_body-Refuses d none c st e
  handle_request-IsRefused d unreadable c st e =
      refusal 400 _ c c st st (inl refl) refl refl refl refl e
  handle_request-IsRefused d (bytes sent) c st e =
      elim (Bool-cases (ltb h.max_body_size (length (take (h.max_body_size + 1) sent)))) [
        | inl p ↦ rw p (refusal 413 _ c c st st (inr (inr (inl refl))) refl refl refl refl e)
        | inr q ↦ rw q (with_body-Refuses d (some (take (h.max_body_size + 1) sent)) c st e)
      ]

  length-take_le : (n : ℕ) (xs : Text) → n < length xs → length (take (n + 1) xs) ≡ n + 1
  length-take_le n xs p = length-take (n + 1) xs (omega arith)

  -- A body that is longer than the limit is refused with 413, and nothing else happens.
  pub handle_request-too_large :
      (d : Draw) (sent : Text) (c : Context) (st : State C N)
      → h.max_body_size < length sent
      → handle_request h d (bytes sent) c st ≡ (fail 413 (codes "request body too large"), c, st)
  unfolding handle_request
  handle_request-too_large d sent c st p =
      let over : ltb h.max_body_size (length (take (h.max_body_size + 1) sent)) ≡ true =
        ground (arith, length-take_le h.max_body_size sent p) in
      rw over refl

  -- A request whose token does not permit the method that its body names is refused with 403: only
  -- the balancers have been asked, neither the cache nor a node.
  pub handle_request-forbidden :
      (d : Draw) (sent : Text) (c : Context) (st : State C N) (info : TokenInfo)
      (decision : RouteDecision)
      → length sent ≤ h.max_body_size
      → c.token_info ≡ some info
      → (route h.float h.json d sent st.router).0 ≡ ok decision
      → 0 < length decision.method
      → is_method_allowed info decision.method ≡ false
      → let r = handle_request h d (bytes sent) c st in
        (r.0 ≡ fail 403 (codes "method not allowed for this token"))
        × (r.2.cache ≡ st.cache)
        × (r.2.nodes ≡ st.nodes)
        × (r.1.status ≡ c.status)
        × (r.1.written ≡ c.written)
  unfolding handle_request with_body decide is_permitted
  handle_request-forbidden d sent c st info decision small token routed named refused =
      let fits : ltb h.max_body_size (length sent) ≡ false = ground arith in
      let present : (length decision.method == 0) ≡ false = ground arith in
      rw
        (
          take_of_le sent (h.max_body_size + 1) (omega arith),
          fits,
          or_nil,
          routed,
          decide,
          token,
          is_permitted,
          present,
          refused,
        )
        (refl, refl, refl, refl, refl)
