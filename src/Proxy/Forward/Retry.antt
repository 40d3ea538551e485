-- ===== src/Proxy/Forward/Retry.antt =====
-- The retries go through one list of targets.
use da_proxy.Prelude.{
  ◌≡◌, refl, sym, ap, ◌∙◌, Bool, false, List, [], ◌∷◌, ◌++◌, Option, none, some, Bool-cases,
  Option-cases, if◌then◌else◌, Result, ok, err, inl, inr,
}
use mathlib.Core.List.{append-nil}
use da_proxy.Prelude.Text.{Text, same}
use da_proxy.Middleware.Context.{Context}
use da_proxy.Proxy.Decode.{ParsedUrl}
use da_proxy.Proxy.Router.{
  Backend, Router, backend_name, all_endpoints, has_archival_backend, archival_backend,
}
use da_proxy.Proxy.Router.Endpoints.{all_endpoints-record_backend_latency, has_archival_backend_eq}
use da_proxy.Proxy.Exchange.{Response}
use da_proxy.Proxy.Forward.{
  State, Handler, Job, pruned, flush_buffered, try_endpoint, try_endpoints, flush_archival,
  flush_pool, try_archival, proxy_with_retry,
}

-- An endpoint of a backend, with its URL.
pub record Target : Type 0 where
  pub backend : Backend
  pub endpoint : Text
  pub url : ParsedUrl

-- The context is already marked with the backend.
marked :
    (c : Context) (k : Backend)
    → c.backend ≡ some (backend_name k)
    → record c { backend = some (backend_name k) } ≡ c
marked c k e = ap (λ (b : Option Text). record c { backend = b }) (sym e)

module _ {C N : Type 0} (h : Handler C N) (job : Job) where
  -- The first answer that is no pruned error, with its backend, or else the last answer.
  unfoldable pub search :
      List Target → Response → State C N → Result Response (Backend × Response) × State C N
  search [] buf st = (err buf, st)
  search (t ∷ ts) buf st =
      let (buf', st') = try_endpoint h t.url job t.backend t.endpoint st in
      let rest = search ts buf' st' in if pruned h buf' then rest else (ok (t.backend, buf'), st')

  -- The endpoints of a backend that are not skipped and whose URL is one.
  unfoldable pub parsed : (Text → Bool) → Backend → List Text → List Target
  parsed skips k [] = []
  parsed skips k (ep ∷ eps) =
      let rest = parsed skips k eps in
      if skips ep then rest else elim (h.url.parse ep) [
        | none ↦ rest
        | some url ↦ record { backend = k; endpoint = ep; url = url } ∷ rest
      ]

  -- The targets that the archival backend adds.
  unfoldable pub archival_targets : Router → List Target
  archival_targets r =
      let a = archival_backend job.decision.backend in
      if has_archival_backend job.decision.backend r
      then parsed (λ _. false) a (all_endpoints a r)
      else []

  -- The chosen endpoint, the others of its backend, and those of the archival backend.
  unfoldable pub targets : ParsedUrl → Router → List Target
  targets target r =
      let k = job.decision.backend in
      record { backend = k; endpoint = job.decision.target_url; url = target }
        ∷ parsed (λ ep. same ep (h.url.print target)) k (all_endpoints k r)
      ++ archival_targets r

  -- The answer goes to the client as that of its backend; the last one as that of the first backend.
  unfoldable pub deliver :
      Context → Result Response (Backend × Response) → State C N → Context × State C N
  deliver c (ok (k, buf)) st =
      flush_buffered h buf k job (record c { backend = some (backend_name k) }) st
  deliver c (err last) st = flush_buffered h last job.decision.backend job c st

  all_endpoints-try_endpoint :
      (j : Backend) (url : ParsedUrl) (k : Backend) (ep : Text) (st : State C N)
      → all_endpoints j (try_endpoint h url job k ep st).1.router ≡ all_endpoints j st.router
  unfolding try_endpoint
  all_endpoints-try_endpoint j url k ep st =
      all_endpoints-record_backend_latency h.float j k ep _ st.router

  all_endpoints-try_endpoints :
      (j : Backend) (skips : Text → Bool) (k : Backend) (eps : List Text) (buf : Response)
      (st : State C N)
      → all_endpoints j (try_endpoints h skips job k eps buf st).1.router
        ≡ all_endpoints j st.router
  unfolding try_endpoints
  all_endpoints-try_endpoints j skips k [] buf st = refl
  all_endpoints-try_endpoints j skips k (ep ∷ eps) buf st = elim (Bool-cases (skips ep)) [
    | inl p ↦ rw (p, try_endpoints) (all_endpoints-try_endpoints j skips k eps buf st)
    | inr q ↦ elim (Option-cases (h.url.parse ep)) [
      | inl bad ↦ rw (q, try_endpoints, bad) (all_endpoints-try_endpoints j skips k eps buf st)
      | inr (url, good) ↦
          let (buf', st') = try_endpoint h url job k ep st in
          let here = all_endpoints-try_endpoint j url k ep st in
          elim (Bool-cases (pruned h buf')) [
            | inl gone ↦
                rw (q, try_endpoints, good, gone)
                  (all_endpoints-try_endpoints j skips k eps buf' st' ∙ here)
            | inr whole ↦ rw (q, try_endpoints, good, whole) here
          ]
    ]
  ]

  resume :
      Backend
      → List Target
      → Result Response Response
      → State C N
      → Result Response (Backend × Response) × State C N
  resume k ts (ok found) st = (ok (k, found), st)
  resume k ts (err last) st = search ts last st

  search-parsed :
      (skips : Text → Bool) (k : Backend) (eps : List Text) (ts : List Target) (buf : Response)
      (st : State C N)
      → search (parsed skips k eps ++ ts) buf st
        ≡ (let (found, st') = try_endpoints h skips job k eps buf st in resume k ts found st')
  unfolding search parsed try_endpoints resume
  search-parsed skips k [] ts buf st = refl
  search-parsed skips k (ep ∷ eps) ts buf st = elim (Bool-cases (skips ep)) [
    | inl p ↦ rw (p, try_endpoints, parsed) (search-parsed skips k eps ts buf st)
    | inr q ↦ elim (Option-cases (h.url.parse ep)) [
      | inl bad ↦ rw (q, try_endpoints, parsed, bad) (search-parsed skips k eps ts buf st)
      | inr (url, good) ↦
          let (buf', st') = try_endpoint h url job k ep st in
          elim (Bool-cases (pruned h buf')) [
            | inl gone ↦
                rw (q, try_endpoints, parsed, good, gone) (search-parsed skips k eps ts buf' st')
            | inr whole ↦ rw (q, try_endpoints, parsed, good, whole) refl
          ]
    ]
  ]

  flush_archival-deliver :
      (c : Context) (found : Result Response Response) (st : State C N)
      → flush_archival h job c found st ≡ (
          let (f, st') = resume (archival_backend job.decision.backend) [] found st in
          deliver c f st')
  unfolding flush_archival resume search deliver
  flush_archival-deliver c (ok found) st = refl
  flush_archival-deliver c (err last) st = refl

  try_archival-search :
      (c : Context) (buf : Response) (st : State C N)
      → try_archival h job buf c st
        ≡ (let (found, st') = search (archival_targets st.router) buf st in deliver c found st')
  unfolding try_archival archival_targets search deliver
  try_archival-search c buf st =
      elim (Bool-cases (has_archival_backend job.decision.backend st.router)) [
        | inr none_there ↦ rw none_there refl
        | inl there ↦
            let a = archival_backend job.decision.backend in
            let eps = all_endpoints a st.router in
            let (found, st') = try_endpoints h (λ _. false) job a eps buf st in
            rw there (
              flush_archival-deliver c found st'
              ∙ ap (λ (r : Result Response (Backend × Response) × State C N). deliver c r.0 r.1)
                  (sym (search-parsed (λ _. false) a eps [] buf st)
                    ∙ ap (λ (ts : List Target). search ts buf st) (append-nil _)))
      ]

  archival_targets_eq :
      (r r' : Router)
      → ((j : Backend) → all_endpoints j r ≡ all_endpoints j r')
      → archival_targets r ≡ archival_targets r'
  unfolding archival_targets
  archival_targets_eq r r' e =
      let a = archival_backend job.decision.backend in
      rw (has_archival_backend_eq job.decision.backend r r' (e a), e a) refl

  flush_pool-deliver :
      (c : Context) (found : Result Response Response) (st : State C N)
      → c.backend ≡ some (backend_name job.decision.backend)
      → flush_pool h job c found st ≡ (
          let (f, st') = resume job.decision.backend (archival_targets st.router) found st in
          deliver c f st')
  unfolding flush_pool resume deliver
  flush_pool-deliver c (ok buf) st e =
      ap (λ (c' : Context). flush_buffered h buf job.decision.backend job c' st)
        (sym (marked c job.decision.backend e))
  flush_pool-deliver c (err last) st e = try_archival-search c last st

  pool-search :
      (skips : Text → Bool) (c : Context) (buf : Response) (st : State C N) (r : Router)
      → c.backend ≡ some (backend_name job.decision.backend)
      → ((j : Backend) → all_endpoints j st.router ≡ all_endpoints j r)
      → (let (found, st') =
            try_endpoints h skips job job.decision.backend
              (all_endpoints job.decision.backend st.router)
              buf
              st in
          flush_pool h job c found st')
        ≡ (let (f, st') =
              search
                (parsed skips job.decision.backend (all_endpoints job.decision.backend r)
                  ++ archival_targets r)
                buf
                st in
            deliver c f st')
  pool-search skips c buf st r e same_endpoints =
      let k = job.decision.backend in
      let eps = all_endpoints k r in
      let (found, st') = try_endpoints h skips job k eps buf st in
      ap
        (λ (l : List Text).
          flush_pool h job c (try_endpoints h skips job k l buf st).0
            (try_endpoints h skips job k l buf st).1)
        (same_endpoints k)
      ∙ flush_pool-deliver c found st' e
      ∙ ap (λ (ts : List Target). deliver c (resume k ts found st').0 (resume k ts found st').1)
          (archival_targets_eq st'.router r
            (λ j. all_endpoints-try_endpoints j skips k eps buf st ∙ same_endpoints j))
      ∙ ap (λ (f : Result Response (Backend × Response) × State C N). deliver c f.0 f.1)
          (sym (search-parsed skips k eps (archival_targets r) buf st))

  -- The retries write what a search through one list of targets finds: the chosen endpoint, the
  -- others of its backend, and those of the archival backend. The first answer that is no pruned
  -- error is the client's, or else the last answer, in the name of the first backend; the context is
  -- one that is marked with this backend, as `HandleRequest` marks it.
  pub proxy_with_retry-search :
      (target : ParsedUrl) (c : Context) (buf : Response) (st : State C N)
      → c.backend ≡ some (backend_name job.decision.backend)
      → proxy_with_retry h target job c st
        ≡ (let (found, st') = search (targets target st.router) buf st in deliver c found st')
  unfolding proxy_with_retry search targets deliver
  proxy_with_retry-search target c buf st e =
      let k = job.decision.backend in
      let (buf0, st0) = try_endpoint h target job k job.decision.target_url st in
      elim (Bool-cases (pruned h buf0)) [
        | inr whole ↦
            rw whole
              (ap (λ (c' : Context). flush_buffered h buf0 k job c' st0) (sym (marked c k e)))
        | inl gone ↦ rw gone (
            pool-search (λ ep. same ep (h.url.print target)) c buf0 st0 st.router e
              (λ j. all_endpoints-try_endpoint j target k job.decision.target_url st))
      ]
