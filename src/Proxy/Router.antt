-- ===== src/Proxy/Router.antt =====
-- internal/proxy/router.go: the backend and the endpoint of a request.
pub mod Namespaces
pub mod Valid
pub mod Endpoints
pub mod Targets
pub mod Decisions
use da_proxy.Prelude.{
  ℕ, ◌≡◌, refl, sym, ap, ◌∙◌, ◌↔◌, ==_iff, ==_refl, Bool, true, false, ◌&&◌, List, [], ◌∷◌, Option,
  none, some, ◌==◌, ltb, if◌then◌else◌, length, Table, Result, ok, err,
}
use da_proxy.Prelude.Text.{Text, codes, cut_at, listed, trim_space}
use da_proxy.Prelude.Int.{ℤ}
use da_proxy.Proxy.Float.{Float}
use da_proxy.Proxy.Balancer.{
  Balancer, Draw, EndpointStats, new_balancer, next, record_latency, stats,
}
use da_proxy.Proxy.Decode.{Json}
use da_proxy.Proxy.Height.{
  HeightTracker, new_height_tracker, begins_with, enabled, is_archival, extract_height,
}

pub data Backend : Type 0 where
  app_rpc : Backend
  node_rpc : Backend
  node_archival_rpc : Backend
  app_archival_rpc : Backend
  app_grpc : Backend
  app_p2p : Backend

-- The constants' values.
abbrev pub backend_name : Backend → Text
backend_name app_rpc = codes "celestia-app-rpc"
backend_name node_rpc = codes "celestia-node-rpc"
backend_name node_archival_rpc = codes "celestia-node-archival-rpc"
backend_name app_archival_rpc = codes "celestia-app-archival-rpc"
backend_name app_grpc = codes "celestia-app-grpc"
backend_name app_p2p = codes "celestia-app-p2p"

-- Go's `==` on backends.
abbrev tag : Backend → ℕ
tag app_rpc = 0
tag node_rpc = 1
tag node_archival_rpc = 2
tag app_archival_rpc = 3
tag app_grpc = 4
tag app_p2p = 5

unfoldable pub same_backend : Backend → Backend → Bool
same_backend j k = tag j == tag k

pub same_backend_iff : (j k : Backend) → (same_backend j k ≡ true) ↔ (j ≡ k)
unfolding same_backend
same_backend_iff j k = (
  λ e. sym (untag-tag j) ∙ ap untag ((==_iff (tag j) (tag k)).0 e) ∙ untag-tag k,
  λ e. rw e (==_refl (tag k)),
)
  where
    untag : ℕ → Backend
    untag n =
        if n == 0
        then app_rpc
        else if n == 1
        then node_rpc
        else if n == 2
        then node_archival_rpc
        else if n == 3
        then app_archival_rpc
        else if n == 4
        then app_grpc
        else app_p2p

    untag-tag : (k : Backend) → untag (tag k) ≡ k
    untag-tag app_rpc = refl
    untag-tag node_rpc = refl
    untag-tag node_archival_rpc = refl
    untag-tag app_archival_rpc = refl
    untag-tag app_grpc = refl
    untag-tag app_p2p = refl

abbrev pub da_namespaces : List Text
da_namespaces =
    codes "blob"
    ∷ codes "header"
    ∷ codes "share"
    ∷ codes "das"
    ∷ codes "state"
    ∷ codes "p2p"
    ∷ codes "node"
    ∷ []

pub record RouteDecision : Type 0 where
  pub backend : Backend
  pub target_url : Text
  pub method : Text

-- `config.BackendsConfig`, without the interval of the health checks.
pub record BackendsConfig : Type 0 where
  pub celestia_app_rpc : List Text
  pub celestia_node_rpc : List Text
  pub celestia_node_archival_rpc : List Text
  pub celestia_app_archival_rpc : List Text
  pub celestia_app_grpc : List Text
  pub celestia_app_p2p : List Text
  pub pruning_window : ℤ

-- The map of balancers has a key for each backend.
pub record Router : Type 0 where
  pub balancers : Backend → Balancer
  pub height_tracker : Option HeightTracker

unfoldable pub build_balancers : BackendsConfig → Backend → Balancer
build_balancers b app_rpc = new_balancer b.celestia_app_rpc
build_balancers b node_rpc = new_balancer b.celestia_node_rpc
build_balancers b node_archival_rpc = new_balancer b.celestia_node_archival_rpc
build_balancers b app_archival_rpc = new_balancer b.celestia_app_archival_rpc
build_balancers b app_grpc = new_balancer b.celestia_app_grpc
build_balancers b app_p2p = new_balancer b.celestia_app_p2p

unfoldable pub new_router_with_tracker : BackendsConfig → Option HeightTracker → Router
new_router_with_tracker b ht = record { balancers = build_balancers b; height_tracker = ht }

unfoldable pub new_router : BackendsConfig → Router
new_router b = new_router_with_tracker b (some (new_height_tracker b.pruning_window))

-- The balancer of one backend is changed in place.
unfoldable pub put : Backend → Balancer → Router → Router
put k b r = record r { balancers = λ j. if same_backend j k then b else r.balancers j }

-- `archivalBackend`, which is `ArchivalBackendFor` too.
unfoldable pub archival_backend : Backend → Backend
archival_backend node_rpc = node_archival_rpc
archival_backend app_rpc = app_archival_rpc
archival_backend b = b

-- The backend that the recursive calls of `TargetURL` name.
abbrev pub fallback : Backend → Option Backend
fallback node_archival_rpc = some node_rpc
fallback app_archival_rpc = some app_rpc
fallback _ = none

-- "" stands for a panic of `Next`, which `Valid` rules out.
abbrev or_empty : Option Text → Text
or_empty none = []
or_empty (some url) = url

-- Up to the first dot.
unfoldable pub extract_namespace : Text → Text
extract_namespace method = elim (cut_at b'.' method) [ none ↦ method | some (before, _) ↦ before ]

unfoldable pub resolve_backend : Text → Backend
resolve_backend method =
    if listed da_namespaces (extract_namespace method) then node_rpc else app_rpc

pub data RouteError : Type 0 where
  empty_body : RouteError
  invalid_batch : RouteError
  empty_batch : RouteError
  missing_batch_method : RouteError
  invalid_request : RouteError
  missing_method : RouteError

unfoldable pub first_method : Option (List Text) → Result RouteError Text
first_method none = err invalid_batch
first_method (some []) = err empty_batch
first_method (some (m ∷ ms)) = if length m == 0 then err missing_batch_method else ok m

unfoldable pub only_method : Option Text → Result RouteError Text
only_method none = err invalid_request
only_method (some m) = if length m == 0 then err missing_method else ok m

-- The method or an error, beside whether the request is a batch.
unfoldable pub parse_json_rpc_method : Json → Text → Bool × Result RouteError Text
parse_json_rpc_method json body =
    if length body == 0
    then (false, err empty_body)
    else if length (trim_space body) == 0
    then (false, err empty_body)
    else if begins_with b'[' (trim_space body)
    then (true, first_method (json.batch body))
    else (false, only_method (json.request body))

abbrev pub has_endpoints : Backend → Router → Bool
has_endpoints k r = ltb 0 (length (r.balancers k).endpoints)

-- `AllEndpoints`.
abbrev pub all_endpoints : Backend → Router → List Text
all_endpoints k r = (r.balancers k).endpoints

unfoldable pub has_archival_backend : Backend → Router → Bool
has_archival_backend k r =
    if same_backend (archival_backend k) k then false else has_endpoints (archival_backend k) r

-- `EndpointStats`.
unfoldable pub endpoint_stats : Backend → Router → List EndpointStats
endpoint_stats k r = stats (r.balancers k)

-- Whether the tracker, if there is one, sends the request to an archival node.
unfoldable pub wants_archival : Json → Option HeightTracker → Text → Text → Bool
wants_archival json none method body = false
wants_archival json (some ht) method body =
    enabled ht && is_archival ht (extract_height json method body)

-- The backend of a request with a body, once its method is known.
unfoldable pub choose_backend : Json → Router → Text → Text → Backend
choose_backend json r method body =
    if wants_archival json r.height_tracker method body
    then archival_backend (resolve_backend method)
    else resolve_backend method

module _ (fl : Float) where
  unfoldable pub next_of : Draw → Backend → Router → Text × Router
  next_of d k r = let (url, b) = next fl d (r.balancers k) in (or_empty url, put k b r)

  -- `TargetURL` of a backend that has no fallback.
  unfoldable pub direct_url : Draw → Backend → Router → Text × Router
  direct_url d k r = if has_endpoints k r then next_of d k r else ([], r)

  -- The `switch` of `TargetURL`.
  unfoldable pub fallback_url : Draw → Option Backend → Router → Text × Router
  fallback_url d none r = ([], r)
  fallback_url d (some p) r = direct_url d p r

  unfoldable pub target_url : Draw → Backend → Router → Text × Router
  target_url d k r = if has_endpoints k r then next_of d k r else fallback_url d (fallback k) r

  -- `RecordLatency`.
  unfoldable pub record_backend_latency : Backend → Text → ℕ → Router → Router
  record_backend_latency k endpoint d r = put k (record_latency fl endpoint d (r.balancers k)) r

  -- What `Route` does with the answer of `parseJSONRPCMethod`.
  unfoldable pub route_method :
      Json
      → Draw
      → Text
      → Result RouteError Text
      → Router
      → Result RouteError RouteDecision × Router
  route_method json d body (err e) r = (err e, r)
  route_method json d body (ok method) r =
      let backend = choose_backend json r method body in
      let (url, r') = target_url d backend r in
      (ok (record { backend = backend; target_url = url; method = method }), r')

  unfoldable pub route : Json → Draw → Text → Router → Result RouteError RouteDecision × Router
  route json d body r =
      if length body == 0
      then (let (url, r') = target_url d app_rpc r in
          (ok (record { backend = app_rpc; target_url = url; method = [] }), r'))
      else route_method json d body (parse_json_rpc_method json body).1 r
