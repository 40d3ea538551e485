-- ===== src/Admin/Backends.antt =====
-- internal/admin/backend_handlers.go: the state of the backends over HTTP.
-- A float64 is its bits, and a time is a number of nanoseconds.
pub mod Names
pub mod Overall
pub mod Shown
use da_proxy.Prelude.{
  ℕ, suc, ◌+◌, ◌-◌, Bool, true, false, not, ◌&&◌, ◌||◌, List, [], ◌∷◌, ◌++◌, Option, none, some,
  leb, ltb, ◌==◌, if◌then◌else◌, length, Table, lookup, insert, ok,
}
use da_proxy.Prelude.Text.{Text, codes, same, has_prefix}
use da_proxy.Prelude.Text.Decimal.{to_decimal}
use da_proxy.Prelude.Int.{ℤ, pos}
use da_proxy.Proxy.Float.{Float}
use da_proxy.Proxy.Balancer.{EndpointStats}
use da_proxy.Proxy.Router.{
  Backend, app_rpc, node_rpc, node_archival_rpc, app_archival_rpc, app_grpc, app_p2p, backend_name,
  BackendsConfig, Router, endpoint_stats,
}
use da_proxy.Proxy.Health.{HealthStatus}
use da_proxy.Admin.{Answer, json}
use da_proxy.Admin.Logs.{window_of}

-- `logging.BackendStat`
pub record BackendStat : Type 0 where
  pub backend : Text
  pub avg_latency : ℕ
  pub total_requests : ℤ
  pub methods : List Text

-- `none` for a pointer that is nil.
pub record EndpointInfo : Type 0 where
  pub url : Text
  pub ewma_latency : ℕ
  pub request_count : ℕ
  pub healthy : Option Bool
  pub health_latency : Option ℕ

pub record BackendInfo : Type 0 where
  pub name : Text
  pub endpoints : List Text
  pub endpoint_stats : List EndpointInfo
  pub healthy : Option Bool
  pub health_latency : Option ℕ
  pub avg_latency : ℕ
  pub total_requests : ℤ
  pub methods : List Text

unfoldable pub endpoint_health_key : Text → ℕ → ℕ → Text
unfolding to_decimal
endpoint_health_key base_name idx total =
    if leb total 1 then base_name else base_name ++ codes "/" ++ to_decimal idx

abbrev pub Statuses : Type 0
Statuses = Option (Table (HealthStatus ℕ))

-- The loop over the stats of the router: the first of the URL.
unfoldable pub find_stats : Text → List EndpointStats → Option EndpointStats
unfolding same
find_stats url [] = none
find_stats url (s ∷ ss) = let rest = find_stats url ss in if same s.url url then some s else rest

abbrev pub status_of : Statuses → Text → Option (HealthStatus ℕ)
status_of none key = none
status_of (some statuses) key = lookup key statuses

abbrev pub merged_info : Text → Option EndpointStats → Option (HealthStatus ℕ) → EndpointInfo
merged_info url stats status = record {
  url = url;
  ewma_latency = elim stats [ none ↦ 0 | some s ↦ s.ewma_latency ];
  request_count = elim stats [ none ↦ 0 | some s ↦ s.request_count ];
  healthy = elim status [ none ↦ none | some s ↦ some s.healthy ];
  health_latency = elim status [ none ↦ none | some s ↦ some s.latency_ms ];
}

-- The loop over the endpoints of a backend, from the index `i`.
unfoldable pub endpoint_infos :
    Text → List EndpointStats → Statuses → ℕ → ℕ → List Text → List EndpointInfo
unfolding find_stats endpoint_health_key lookup
endpoint_infos name stats statuses total i [] = []
endpoint_infos name stats statuses total i (url ∷ urls) =
    merged_info url (find_stats url stats) (status_of statuses (endpoint_health_key name i total))
    ∷ endpoint_infos name stats statuses total (suc i) urls

-- Whether a key of the statuses belongs to the backend.
unfoldable pub is_of : Text → Text → Bool
unfolding same has_prefix
is_of name key = same key name || has_prefix key (name ++ codes "/")

-- `allHealthy`, `totalLatency` and `count`.
pub record Health : Type 0 where
  pub all_healthy : Bool
  pub total_latency : ℕ
  pub count : ℕ

module _ (fl : Float) where
  abbrev pub counted_status : HealthStatus ℕ → Health → Health
  counted_status hs h = record {
    all_healthy = if not hs.healthy then false else h.all_healthy;
    total_latency = fl.add h.total_latency hs.latency_ms;
    count = h.count + 1;
  }

  -- The loop over the map of statuses, whose order Go leaves open.
  unfoldable pub aggregate : Text → Table (HealthStatus ℕ) → Health → Health
  unfolding is_of
  aggregate name [] h = h
  aggregate name ((key, hs) ∷ m) h =
      aggregate name m (if is_of name key then counted_status hs h else h)

  abbrev pub overall : Text → Statuses → Health
  overall name none = record { all_healthy = true; total_latency = 0; count = 0 }
  overall name (some m) =
      aggregate name m (record { all_healthy = true; total_latency = 0; count = 0 })

unfoldable pub without_empty : List Text → List Text
without_empty [] = []
without_empty (m ∷ ms) = let rest = without_empty ms in if ltb 0 (length m) then m ∷ rest else rest

abbrev pub stats_of : Option BackendStat → BackendInfo → BackendInfo
stats_of none info = info
stats_of (some s) info = record info {
  avg_latency = s.avg_latency;
  total_requests = s.total_requests;
  methods = without_empty s.methods;
}

abbrev pub router_stats : Option Router → Backend → List EndpointStats
router_stats none k = []
router_stats (some r) k = endpoint_stats k r

module _ (fl : Float) where
  unfoldable pub backend_info :
      Option Router → Statuses → Table BackendStat → Backend → List Text → BackendInfo
  unfolding endpoint_infos aggregate endpoint_stats lookup without_empty
  backend_info router statuses stats k endpoints =
      let name = backend_name k in
      let health = overall fl name statuses in
      stats_of (lookup name stats) (record {
        name = name;
        endpoints = endpoints;
        endpoint_stats =
            endpoint_infos name (router_stats router k) statuses (length endpoints) 0 endpoints;
        healthy = if ltb 0 health.count then some health.all_healthy else none;
        health_latency =
            if ltb 0 health.count
            then some (fl.div health.total_latency (fl.of_int health.count))
            else none;
        avg_latency = 0;
        total_requests = pos 0;
        methods = [];
      })

  -- The loop over the backends; one that is not configured is skipped.
  unfoldable pub assembled :
      Option Router → Statuses → Table BackendStat → List (Backend × List Text) → List BackendInfo
  unfolding backend_info
  assembled router statuses stats [] = []
  assembled router statuses stats ((k, endpoints) ∷ defs) =
      let rest = assembled router statuses stats defs in
      if length endpoints == 0 then rest else backend_info router statuses stats k endpoints ∷ rest

abbrev pub backend_defs : Option BackendsConfig → List (Backend × List Text)
backend_defs none = []
backend_defs (some b) =
    (app_rpc, b.celestia_app_rpc)
    ∷ (node_rpc, b.celestia_node_rpc)
    ∷ (node_archival_rpc, b.celestia_node_archival_rpc)
    ∷ (app_archival_rpc, b.celestia_app_archival_rpc)
    ∷ (app_grpc, b.celestia_app_grpc)
    ∷ (app_p2p, b.celestia_app_p2p)
    ∷ []

unfoldable pub stats_map : Table BackendStat → List BackendStat → Table BackendStat
unfolding insert
stats_map m [] = m
stats_map m (s ∷ ss) = stats_map (insert s.backend s m) ss

abbrev pub stats_since : Option (ℕ → List BackendStat) → ℕ → Table BackendStat
stats_since none since = []
stats_since (some backend_stats) since = stats_map [] (backend_stats since)

-- `deps.Config`, what `deps.HealthChecker.Status()` answers, `deps.Router`, what `deps.LogStore.BackendStats` returns
-- beside an error or not; the parameter `window`, and the time of the request.
unfoldable pub handle_backends :
    Float
    → Option BackendsConfig
    → Statuses
    → Option Router
    → Option (ℕ → List BackendStat)
    → Text
    → ℕ
    → Answer (List BackendInfo)
unfolding assembled stats_map window_of
handle_backends fl backends statuses router backend_stats window now =
    let since = now - (window_of window).0 in
    ok (
      json 200
        (assembled fl router statuses (stats_since backend_stats since) (backend_defs backends)))
