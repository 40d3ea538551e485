-- ===== src/Tests/Config.antt =====
-- A configuration file that names one token and leaves the rest open.
use da_proxy.Prelude.{
  ◌≡◌, ◌↔◌, refl, if◌then◌else◌, ◌*◌, true, false, [], ◌∷◌, Option, none, some, ok, Memᴰ,
}
use da_proxy.Prelude.Text.{Text, codes, listed, same, trim_space, has_suffix, trim_suffix}
use da_proxy.Prelude.Int.{pos}
use da_proxy.Proxy.Router.{
  app_rpc, RouteDecision, new_router, new_router_with_tracker, build_balancers, target_url, next_of,
  route,
}
use da_proxy.Proxy.Balancer.{new_balancer, next, scan, has_data}
use da_proxy.Proxy.Router.Targets.{IsRpc}
use da_proxy.Config.Size.{Floats, parse_size}
use da_proxy.Config.{Config, load, apply_defaults, validate, validate_tokens, max_body_size_bytes}
use da_proxy.Config.Accepted.{IsAccepted, load-ok_iff}
use da_proxy.Config.Routed.{configured, load-route}
use da_proxy.Tests.Data.{numbers, decoder, draw}

-- Reads the number ten alone.
abbrev tens : Floats
tens = record {
  parse_scaled = λ s mult. if same s (codes "10") then some (pos (10 * mult)) else none;
}

abbrev plain : Config Unit
plain = record {
  server = record {
    listen = [];
    grpc_listen = [];
    p2p_listen = [];
    tls_cert = [];
    tls_key = [];
    read_timeout = pos 0;
    write_timeout = pos 0;
    max_body_size = [];
  };
  backends = record {
    celestia_app_rpc = [];
    celestia_node_rpc = [];
    celestia_node_archival_rpc = [];
    celestia_app_archival_rpc = [];
    celestia_app_grpc = [];
    celestia_app_p2p = [];
    pruning_window = pos 100;
  };
  health_check_interval = pos 0;
  tokens =
      record {
        token = codes "secret";
        name = codes "ci";
        enabled = true;
        rate_limit = pos 0;
        allowed_methods = [];
      }
      ∷ [];
  admin = record {
    listen = [];
    username = [];
    password_hash = [];
    cors_origins = [];
    log_buffer_size = pos 0;
    log_retention_days = pos 0;
    log_db_path = [];
  };
  logging = record { level = codes "warn"; format = [] };
  metrics = record { listen = []; enabled = none };
  cache = record { enabled = false; redis_url = []; ttl = pos 0; max_entry_size = [] };
  storage = record { log_driver = []; postgres_dsn = []; redis_url = [] };
  tracing = record { enabled = false; endpoint = []; sample_rate = tt };
}

abbrev parse : Text → Option (Config Unit)
parse yaml = some plain

load-ok_iff_example :
    (load tens (some []) parse ≡ ok (apply_defaults plain)) ↔ IsAccepted tens plain
unfolding same
load-ok_iff_example = load-ok_iff tens [] parse plain refl refl

load-plain : load tens (some []) parse ≡ ok (apply_defaults plain)
unfolding load validate validate_tokens max_body_size_bytes parse_size listed trim_space has_suffix
    trim_suffix
load-plain = refl

abbrev decision : RouteDecision
decision = record { backend = app_rpc; target_url = codes "http://127.0.0.1:26657"; method = [] }

routed :
    (route numbers decoder draw [] (new_router (apply_defaults plain).backends)).0 ≡ ok decision
unfolding route target_url next has_data scan build_balancers new_router_with_tracker new_router
    new_balancer apply_defaults next_of
routed = refl

load-route_example :
    IsRpc app_rpc
    × Memᴰ (codes "http://127.0.0.1:26657") (configured (apply_defaults plain).backends app_rpc)
load-route_example =
    load-route tens numbers decoder draw [] (some []) parse (apply_defaults plain)
      {decision = decision} load-plain (λ n p. p) routed
