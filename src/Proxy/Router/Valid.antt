-- ===== src/Proxy/Router/Valid.antt =====
-- The invariant of the router, and that the target of a request is a configured endpoint.
use da_proxy.Prelude.Text.{Text}
use da_proxy.Proxy.Balancer.{Draw, Balancer}
use da_proxy.Prelude.{
  ℕ, ◌≡◌, inl, inr, Bool, true, false, Option, none, some, Bool-cases, if◌then◌else◌, length,
  Result, ok, err, ◌==◌,
}
use da_proxy.Proxy.Float.{Float}
use da_proxy.Proxy.Decode.{Json}
use da_proxy.Proxy.Balancer.Valid
use da_proxy.Proxy.Router.{
  Backend, app_rpc, node_rpc, node_archival_rpc, app_archival_rpc, app_grpc, app_p2p, same_backend,
  same_backend_iff, BackendsConfig, Router, build_balancers, new_router_with_tracker, put, fallback,
  has_endpoints, next_of, direct_url, fallback_url, target_url, route_method, RouteError,
  choose_backend, route, record_backend_latency, parse_json_rpc_method,
}

pub record IsValid (r : Router) : Type 0 where
  pub balanced : (k : Backend) → Valid.IsValid (r.balancers k)

-- A new router is valid.
pub new_router_with_tracker-IsValid :
    (b : BackendsConfig) (ht : Option _) → IsValid (new_router_with_tracker b ht)
unfolding new_router_with_tracker build_balancers
new_router_with_tracker-IsValid b ht = record { balanced = each }
  where
    each : (k : Backend) → Valid.IsValid (build_balancers b k)
    each app_rpc = Valid.new_balancer-IsValid b.celestia_app_rpc
    each node_rpc = Valid.new_balancer-IsValid b.celestia_node_rpc
    each node_archival_rpc = Valid.new_balancer-IsValid b.celestia_node_archival_rpc
    each app_archival_rpc = Valid.new_balancer-IsValid b.celestia_app_archival_rpc
    each app_grpc = Valid.new_balancer-IsValid b.celestia_app_grpc
    each app_p2p = Valid.new_balancer-IsValid b.celestia_app_p2p

put-IsValid :
    (k : Backend) (b : Balancer) {r : Router} → Valid.IsValid b → IsValid r → IsValid (put k b r)
unfolding put
put-IsValid k b {r} vb v = record { balanced = λ j. each (same_backend j k) j }
  where
    each : (same : Bool) (j : Backend) → Valid.IsValid (if same then b else r.balancers j)
    each true j = vb
    each false j = v.balanced j

-- Only the choice of endpoints changes: the endpoints themselves stay.
endpoints-put :
    (k : Backend) (b : Balancer) (r : Router)
    → b.endpoints ≡ (r.balancers k).endpoints
    → (j : Backend) → ((put k b r).balancers j).endpoints ≡ (r.balancers j).endpoints
unfolding put
endpoints-put k b r e j = elim (Bool-cases (same_backend j k)) [
  | inl p ↦ rw p (rw ((same_backend_iff j k).0 p) e)
  | inr q ↦ rw q
]

module _ (fl : Float) where
  next_of-IsValid : (d : Draw) (k : Backend) {r : Router} → IsValid r → IsValid (next_of fl d k r).1
  unfolding next_of
  next_of-IsValid d k {r} v = put-IsValid k _ (Valid.next-IsValid fl d (v.balanced k)) v

  direct_url-IsValid :
      (d : Draw) (k : Backend) {r : Router} → IsValid r → IsValid (direct_url fl d k r).1
  unfolding direct_url
  direct_url-IsValid d k {r} v = elim (Bool-cases (has_endpoints k r)) [
    | inl p ↦ rw p (next_of-IsValid d k v)
    | inr q ↦ rw q v
  ]

  fallback_url-IsValid :
      (d : Draw) (o : Option Backend) {r : Router} → IsValid r → IsValid (fallback_url fl d o r).1
  unfolding fallback_url
  fallback_url-IsValid d none v = v
  fallback_url-IsValid d (some p) v = direct_url-IsValid d p v

  pub target_url-IsValid :
      (d : Draw) (k : Backend) {r : Router} → IsValid r → IsValid (target_url fl d k r).1
  unfolding target_url
  target_url-IsValid d k {r} v = elim (Bool-cases (has_endpoints k r)) [
    | inl p ↦ rw p (next_of-IsValid d k v)
    | inr q ↦ rw q (fallback_url-IsValid d (fallback k) v)
  ]

  route_method-IsValid :
      (json : Json) (d : Draw) (body : Text) (o : Result RouteError Text) {r : Router}
      → IsValid r
      → IsValid (route_method fl json d body o r).1
  unfolding route_method
  route_method-IsValid json d body (err e) v = v
  route_method-IsValid json d body (ok method) {r} v =
      target_url-IsValid d (choose_backend json r method body) v

  -- Routing a request keeps the router valid, whether it succeeds or fails.
  pub route-IsValid :
      (json : Json) (d : Draw) (body : Text) {r : Router}
      → IsValid r
      → IsValid (route fl json d body r).1
  unfolding route
  route-IsValid json d body {r} v = elim (Bool-cases (length body == 0)) [
    | inl p ↦ rw p (target_url-IsValid d app_rpc v)
    | inr q ↦ rw q (route_method-IsValid json d body (parse_json_rpc_method json body).1 v)
  ]

  -- So does recording a latency.
  pub record_backend_latency-IsValid :
      (k : Backend) (ep : Text) (d : ℕ) {r : Router}
      → IsValid r
      → IsValid (record_backend_latency fl k ep d r)
  unfolding record_backend_latency
  record_backend_latency-IsValid k ep d {r} v =
      put-IsValid k _ (Valid.record_latency-IsValid fl ep d (v.balanced k)) v
