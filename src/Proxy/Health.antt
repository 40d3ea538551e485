-- ===== src/Proxy/Health.antt =====
-- internal/proxy/health.go: the health of every endpoint, and the height of the head.
pub mod Heads
pub mod Statuses
use da_proxy.Prelude.{
  ℕ, suc, Bool, true, false, not, ◌&&◌, List, [], ◌∷◌, ◌++◌, Option, none, some, ◌==◌, ltb, leb,
  if◌then◌else◌, length, Table, insert,
}
use da_proxy.Prelude.Text.{Text, codes, trim_prefix}
use da_proxy.Prelude.Text.Decimal.{to_decimal}
use da_proxy.Prelude.Int.{ℤ, pos, ltb_ℤ}
use da_proxy.Config.{first_endpoint}
use da_proxy.Proxy.Height.{HeightTracker, set_head, enabled}
use da_proxy.Proxy.Router.{BackendsConfig}

-- What comes back from the network: an error in words, or a status and a body.
pub data Reply : Type 0 where
  refused : Text → Reply
  answered : ℕ → Text → Reply

-- The network at the time of a round of checks, with what a call takes in milliseconds as a float64; and the decoders.
pub record Net (F : Type 0) : Type 0 where
  pub get : Text → Reply
  pub post : Text → Text → Reply
  -- `none` for a connection
  pub dial : Text → Option Text
  pub latency : Text → F
  -- `json.Decode` into a struct with the field `error`: whether it is there and not null
  pub has_error : Text → Option Bool
  -- `json.Decode` of `result.sync_info.latest_block_height`, "" where there is none
  pub latest_block_height : Text → Option Text
  -- `fmt.Sscanf` with `%d` into an int64
  pub scan_int : Text → Option ℤ

pub record HealthStatus (F : Type 0) : Type 0 where
  pub backend : Text
  pub healthy : Bool
  pub latency_ms : F
  pub error : Text
  pub last_check : ℕ

pub record HealthChecker (F : Type 0) : Type 0 where
  pub backends : BackendsConfig
  pub height_tracker : Option HeightTracker
  pub statuses : Table (HealthStatus F)

unfoldable pub new_health_checker :
    {F : Type 0} → BackendsConfig → Option HeightTracker → HealthChecker F
new_health_checker backends ht = record { backends = backends; height_tracker = ht; statuses = [] }

unfoldable pub endpoint_name : Text → ℕ → ℕ → Text
unfolding to_decimal
endpoint_name base idx total = if leb total 1 then base else base ++ codes "/" ++ to_decimal idx

abbrev pub healthy_status : {F : Type 0} → F → HealthStatus F
healthy_status latency = record {
  backend = [];
  healthy = true;
  latency_ms = latency;
  error = [];
  last_check = 0;
}

abbrev pub unhealthy_status : {F : Type 0} → F → Text → HealthStatus F
unhealthy_status latency error = record {
  backend = [];
  healthy = false;
  latency_ms = latency;
  error = error;
  last_check = 0;
}

abbrev pub http_error : ℕ → Text
http_error code = codes "HTTP " ++ to_decimal code

abbrev http_status : {F : Type 0} → F → Reply → HealthStatus F
http_status latency (refused e) = unhealthy_status latency e
http_status latency (answered code body) =
    if leb 200 code && ltb code 400
    then healthy_status latency
    else unhealthy_status latency (http_error code)

abbrev decoded_status : {F : Type 0} → F → Option Bool → HealthStatus F
decoded_status latency none = unhealthy_status latency (codes "invalid JSON response")
decoded_status latency (some true) = unhealthy_status latency (codes "JSON-RPC error")
decoded_status latency (some false) = healthy_status latency

abbrev rpc_status : {F : Type 0} → F → (Text → Option Bool) → Reply → HealthStatus F
rpc_status latency has_error (refused e) = unhealthy_status latency e
rpc_status latency has_error (answered code body) =
    if not (code == 200)
    then unhealthy_status latency (http_error code)
    else decoded_status latency (has_error body)

abbrev dial_status : {F : Type 0} → F → Option Text → HealthStatus F
dial_status latency none = healthy_status latency
dial_status latency (some e) = unhealthy_status latency e

-- The checks of the endpoints of one backend, from the index `i`, each stored under the name of its endpoint.
unfoldable pub check_endpoints :
    {F : Type 0}
    → ℕ
    → Text
    → ℕ
    → ℕ
    → (Text → HealthStatus F)
    → List Text
    → Table (HealthStatus F)
    → Table (HealthStatus F)
unfolding endpoint_name insert
check_endpoints now base total i check [] statuses = statuses
check_endpoints now base total i check (e ∷ es) statuses =
    let name = endpoint_name base i total in
    check_endpoints now base total (suc i) check es
      (insert name (record (check e) { backend = name; last_check = now }) statuses)

abbrev pub check_backend :
    {F : Type 0}
    → ℕ
    → Text
    → (Text → HealthStatus F)
    → List Text
    → Table (HealthStatus F)
    → Table (HealthStatus F)
check_backend now base check es statuses = check_endpoints now base (length es) 0 check es statuses

module _ {F : Type 0} (net : Net F) where
  unfoldable pub check_http : Text → Text → HealthStatus F
  unfolding to_decimal
  check_http base_url path = http_status (net.latency base_url) (net.get (base_url ++ path))

  unfoldable pub check_json_rpc : Text → HealthStatus F
  unfolding to_decimal
  check_json_rpc base_url = rpc_status (net.latency base_url) net.has_error (
      net.post base_url
        (codes "{\"jsonrpc\":\"2.0\",\"id\":1,\"method\":\"node.Info\",\"params\":[]}"))

  unfoldable pub check_tcp_dial : Text → HealthStatus F
  unfolding trim_prefix
  check_tcp_dial addr =
      let bare = trim_prefix (trim_prefix addr (codes "http://")) (codes "https://") in
      dial_status (net.latency addr) (net.dial bare)

  -- `now` stands for the times of all the checks of a round.
  unfoldable pub check_statuses :
      ℕ → BackendsConfig → Table (HealthStatus F) → Table (HealthStatus F)
  unfolding check_endpoints check_http check_json_rpc check_tcp_dial
  check_statuses now b statuses =
      let http = λ (e : Text). check_http e (codes "/health") in
      check_backend now (codes "celestia-app-p2p") check_tcp_dial b.celestia_app_p2p (
        check_backend now (codes "celestia-app-grpc") check_tcp_dial b.celestia_app_grpc (
          check_backend now (codes "celestia-app-archival-rpc") http b.celestia_app_archival_rpc (
            check_backend now (codes "celestia-node-archival-rpc") check_json_rpc
              b.celestia_node_archival_rpc
              (check_backend now (codes "celestia-node-rpc") check_json_rpc b.celestia_node_rpc
                (check_backend now (codes "celestia-app-rpc") http b.celestia_app_rpc statuses)))))

  abbrev polled : Option ℤ → HeightTracker → HeightTracker
  polled none ht = ht
  polled (some height) ht = if ltb_ℤ (pos 0) height then set_head height ht else ht

  abbrev decoded : Option Text → HeightTracker → HeightTracker
  decoded none ht = ht
  decoded (some text) ht = if length text == 0 then ht else polled (net.scan_int text) ht

  abbrev head_reply : Reply → HeightTracker → HeightTracker
  head_reply (refused e) ht = ht
  head_reply (answered code body) ht = decoded (net.latest_block_height body) ht

  unfoldable pub poll_head_height : BackendsConfig → HeightTracker → HeightTracker
  unfolding set_head first_endpoint
  poll_head_height b ht =
      head_reply
        (net.post (first_endpoint b.celestia_app_rpc)
          (codes "{\"jsonrpc\":\"2.0\",\"id\":1,\"method\":\"status\",\"params\":[]}"))
        ht

  abbrev poll_if_enabled : BackendsConfig → Option HeightTracker → Option HeightTracker
  poll_if_enabled b none = none
  poll_if_enabled b (some ht) = if enabled ht then some (poll_head_height b ht) else some ht

  unfoldable pub check_all : ℕ → HealthChecker F → HealthChecker F
  unfolding check_statuses poll_head_height enabled
  check_all now h = record h {
    statuses = check_statuses now h.backends h.statuses;
    height_tracker = poll_if_enabled h.backends h.height_tracker;
  }

-- `Start`: a round at once and one at each tick, each with its time and the network as it is then.
unfoldable pub rounds : {F : Type 0} → List (ℕ × Net F) → HealthChecker F → HealthChecker F
unfolding check_all
rounds [] h = h
rounds ((now, net) ∷ ns) h = rounds ns (check_all net now h)
