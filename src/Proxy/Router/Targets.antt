-- ===== src/Proxy/Router/Targets.antt =====
-- The target of a request is a configured endpoint.
use da_proxy.Proxy.Balancer.{Draw}
use da_proxy.Prelude.{
  ℕ, ◌<◌, ◌≡◌, inl, inr, true, List, [], Option, none, some, Memᴰ, arith, Bool-cases, if◌then◌else◌,
  length, Result, ok, err, ◌==◌,
}
use da_proxy.Prelude.Text.{Text, listed}
use da_proxy.Proxy.Float.{Float}
use da_proxy.Proxy.Decode.{Json}
use da_proxy.Proxy.Balancer.Valid
use da_proxy.Proxy.Router.{
  Backend, app_rpc, node_rpc, node_archival_rpc, app_archival_rpc, app_grpc, app_p2p, Router,
  fallback, has_endpoints, next_of, direct_url, fallback_url, target_url, route_method,
  RouteDecision, RouteError, choose_backend, route, parse_json_rpc_method, resolve_backend,
  archival_backend, wants_archival, extract_namespace, da_namespaces,
}
use da_proxy.Proxy.Router.Valid.{IsValid}

ok_eq : {E A : Type 0} {a b : A} → ◌≡◌ {A = Result E A} (ok a) (ok b) → a ≡ b
ok_eq e = cc

abbrev fallback_endpoints : Option Backend → Router → List Text
fallback_endpoints none r = []
fallback_endpoints (some p) r = (r.balancers p).endpoints

-- The endpoints that `TargetURL` chooses from: the backend's own, or those of the pruned backend
-- that an archival backend without endpoints falls back to.
abbrev pub candidates : Backend → Router → List Text
candidates k r =
    if has_endpoints k r then (r.balancers k).endpoints else fallback_endpoints (fallback k) r

-- What `Config.Validate` ensures: both pruned RPC backends have an endpoint.
pub record IsConfigured (r : Router) : Type 0 where
  pub app : 0 < length (r.balancers app_rpc).endpoints
  pub node : 0 < length (r.balancers node_rpc).endpoints

-- The four backends of HTTP requests have a candidate in a configured router.
abbrev pub IsRpc : Backend → Type 0
IsRpc app_grpc = ⊥
IsRpc app_p2p = ⊥
IsRpc _ = Unit

candidates_pos : (k : Backend) (r : Router) → IsConfigured r → IsRpc k → 0 < length (candidates k r)
candidates_pos app_rpc r c h = ground arith
candidates_pos node_rpc r c h = ground arith
candidates_pos node_archival_rpc r c h = ground arith
candidates_pos app_archival_rpc r c h = ground arith
candidates_pos app_grpc r c h = absurd h
candidates_pos app_p2p r c h = absurd h

resolve_backend-IsRpc :
    (method : Text)
    → IsRpc (resolve_backend method) × IsRpc (archival_backend (resolve_backend method))
unfolding resolve_backend archival_backend
resolve_backend-IsRpc method = elim (Bool-cases (listed da_namespaces (extract_namespace method))) [
  | inl p ↦ rw p (tt, tt)
  | inr q ↦ rw q (tt, tt)
]

choose_backend-IsRpc :
    (json : Json) (r : Router) (method body : Text) → IsRpc (choose_backend json r method body)
unfolding choose_backend
choose_backend-IsRpc json r method body =
    elim (Bool-cases (wants_archival json r.height_tracker method body)) [
      | inl p ↦ rw p (resolve_backend-IsRpc method).1
      | inr q ↦ rw q (resolve_backend-IsRpc method).0
    ]

module _ (fl : Float) where
  next_of-Memᴰ :
      (d : Draw) (k : Backend) {r : Router}
      → IsValid r
      → ((n : ℕ) → 0 < n → d.pick n < n)
      → has_endpoints k r ≡ true
      → Memᴰ (next_of fl d k r).0 (r.balancers k).endpoints
  unfolding next_of
  next_of-Memᴰ d k {r} v draw h =
      let (url, e, m) = Valid.next-Memᴰ fl d (r.balancers k) (v.balanced k) draw (ground arith) in
      rw e m

  direct_url-Memᴰ :
      (d : Draw) (k : Backend) {r : Router}
      → IsValid r
      → ((n : ℕ) → 0 < n → d.pick n < n)
      → 0 < length (r.balancers k).endpoints
      → Memᴰ (direct_url fl d k r).0 (r.balancers k).endpoints
  unfolding direct_url
  direct_url-Memᴰ d k {r} v draw h =
      let some_endpoint : has_endpoints k r ≡ true = ground arith in
      rw some_endpoint (next_of-Memᴰ d k v draw some_endpoint)

  -- Where the candidates of a backend are not empty, `TargetURL` answers with one of them.
  pub target_url-Memᴰ :
      (d : Draw) (k : Backend) {r : Router}
      → IsValid r
      → ((n : ℕ) → 0 < n → d.pick n < n)
      → 0 < length (candidates k r)
      → Memᴰ (target_url fl d k r).0 (candidates k r)
  unfolding target_url fallback_url
  target_url-Memᴰ d k {r} v draw h = elim (Bool-cases (has_endpoints k r)) [
    | inl p ↦ rw p (next_of-Memᴰ d k v draw p)
    | inr q ↦ rw q (other (fallback k) (rw q at h))
  ]
    where
      other :
          (o : Option Backend)
          → 0 < length (fallback_endpoints o r)
          → Memᴰ (fallback_url fl d o r).0 (fallback_endpoints o r)
      other none h = absurd (omega arith)
      other (some p) h = direct_url-Memᴰ d p v draw h

  -- A request is routed to one of the four RPC backends, and its target is one of the endpoints
  -- that are configured for that backend or for the one that it falls back to, in a valid router
  -- whose two pruned RPC backends have an endpoint, if `rand.IntN` answers below its argument.
  pub route-Memᴰ :
      (json : Json) (d : Draw) (body : Text) {r : Router} {decision : RouteDecision}
      → IsValid r
      → IsConfigured r
      → ((n : ℕ) → 0 < n → d.pick n < n)
      → (route fl json d body r).0 ≡ ok decision
      → IsRpc decision.backend × Memᴰ decision.target_url (candidates decision.backend r)
  unfolding route route_method
  route-Memᴰ json d body {r} {decision} v c draw e = elim (Bool-cases (length body == 0)) [
    | inl p ↦
        let q : record {
          backend = app_rpc;
          target_url = (target_url fl d app_rpc r).0;
          method = [];
        }
            ≡ decision =
          ok_eq (rw p at e) in
        rw (← q) (tt, target_url-Memᴰ d app_rpc v draw (candidates_pos app_rpc r c tt))
    | inr q ↦ routed (parse_json_rpc_method json body).1 (rw q at e)
  ]
    where
      routed :
          (o : Result RouteError Text)
          → (route_method fl json d body o r).0 ≡ ok decision
          → IsRpc decision.backend × Memᴰ decision.target_url (candidates decision.backend r)
      routed (err x) h = absurd (ground arith)
      routed (ok method) h =
          let k = choose_backend json r method body in
          let q : record { backend = k; target_url = (target_url fl d k r).0; method = method }
              ≡ decision =
            ok_eq h in
          let rpc = choose_backend-IsRpc json r method body in
          rw (← q) (rpc, target_url-Memᴰ d k v draw (candidates_pos k r c rpc))
