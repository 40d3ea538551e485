-- ===== src/Config.antt =====
-- internal/config/config.go: the configuration, its defaults and its validation.
pub mod Size
pub mod Accepted
pub mod Routed
use da_proxy.Prelude.{
  ℕ, zero, suc, ◌+◌, Bool, true, false, not, ◌&&◌, List, [], ◌∷◌, Option, none, some, ◌==◌,
  if◌then◌else◌, length, Result, ok, err,
}
use da_proxy.Prelude.Text.{Text, codes, listed}
use da_proxy.Prelude.Int.{ℤ, pos, negsuc}
use da_proxy.Auth.Token.{TokenConfig}
use da_proxy.Proxy.Router.{BackendsConfig}
use da_proxy.Config.Size.{Floats, parse_size}

-- A duration is a number of nanoseconds.
pub record ServerConfig : Type 0 where
  pub listen : Text
  pub grpc_listen : Text
  pub p2p_listen : Text
  pub tls_cert : Text
  pub tls_key : Text
  pub read_timeout : ℤ
  pub write_timeout : ℤ
  pub max_body_size : Text

pub record AdminConfig : Type 0 where
  pub listen : Text
  pub username : Text
  pub password_hash : Text
  pub cors_origins : List Text
  pub log_buffer_size : ℤ
  pub log_retention_days : ℤ
  pub log_db_path : Text

pub record LoggingConfig : Type 0 where
  pub level : Text
  pub format : Text

pub record MetricsConfig : Type 0 where
  pub listen : Text
  pub enabled : Option Bool

pub record CacheConfig : Type 0 where
  pub enabled : Bool
  pub redis_url : Text
  pub ttl : ℤ
  pub max_entry_size : Text

pub record StorageConfig : Type 0 where
  pub log_driver : Text
  pub postgres_dsn : Text
  pub redis_url : Text

pub record TracingConfig (F : Type 0) : Type 0 where
  pub enabled : Bool
  pub endpoint : Text
  pub sample_rate : F

-- The interval of the health checks stands beside the other fields of `backends`.
pub record Config (F : Type 0) : Type 0 where
  pub server : ServerConfig
  pub backends : BackendsConfig
  pub health_check_interval : ℤ
  pub tokens : List TokenConfig
  pub admin : AdminConfig
  pub logging : LoggingConfig
  pub metrics : MetricsConfig
  pub cache : CacheConfig
  pub storage : StorageConfig
  pub tracing : TracingConfig F

-- `none` stands for a value of YAML that is no string, or no list of strings.
unfoldable pub unmarshal_endpoints : Option Text → Option (List Text) → Option (List Text)
unmarshal_endpoints none list = list
unmarshal_endpoints (some single) list = some (single ∷ [])

-- `Endpoints.First`
unfoldable pub first_endpoint : List Text → Text
first_endpoint [] = []
first_endpoint (e ∷ es) = e

unfoldable pub metrics_enabled : MetricsConfig → Bool
metrics_enabled m = elim m.enabled [ none ↦ true | some b ↦ b ]

abbrev pub is_empty {ℓ} : {A : Type ℓ} → List A → Bool
is_empty [] = true
is_empty (x ∷ xs) = false

-- What stands in place of an empty text or list, or of 0.
abbrev pub or_default {ℓ} : {A : Type ℓ} → List A → List A → List A
or_default [] d = d
or_default (x ∷ xs) d = x ∷ xs

abbrev pub or_number : ℤ → ℕ → ℤ
or_number (pos zero) d = pos d
or_number (pos (suc n)) d = pos (suc n)
or_number (negsuc n) d = negsuc n

abbrev server_defaults : ServerConfig → ServerConfig
server_defaults s = record s {
  listen = or_default s.listen (codes ":443");
  read_timeout = or_number s.read_timeout 30000000000;
  write_timeout = or_number s.write_timeout 30000000000;
  max_body_size = or_default s.max_body_size (codes "10MB");
  grpc_listen = or_default s.grpc_listen (codes ":9090");
  p2p_listen = or_default s.p2p_listen (codes ":26656");
}

abbrev backends_defaults : BackendsConfig → BackendsConfig
backends_defaults b = record b {
  celestia_app_rpc = or_default b.celestia_app_rpc (codes "http://127.0.0.1:26657" ∷ []);
  celestia_node_rpc = or_default b.celestia_node_rpc (codes "http://127.0.0.1:26658" ∷ []);
}

abbrev admin_defaults : AdminConfig → AdminConfig
admin_defaults a = record a {
  listen = or_default a.listen (codes ":8080");
  log_buffer_size = or_number a.log_buffer_size 100000;
  log_retention_days = or_number a.log_retention_days 30;
  log_db_path = or_default a.log_db_path (codes "data/logs.db");
}

unfoldable pub apply_defaults : {F : Type 0} → Config F → Config F
apply_defaults c = record c {
  server = server_defaults c.server;
  backends = backends_defaults c.backends;
  health_check_interval = or_number c.health_check_interval 30000000000;
  admin = admin_defaults c.admin;
  logging = record {
    level = or_default c.logging.level (codes "info");
    format = or_default c.logging.format (codes "json");
  };
  metrics = record c.metrics { listen = or_default c.metrics.listen (codes ":9191") };
}

pub data ConfigError : Type 0 where
  unreadable : ConfigError
  unparsable : ConfigError
  no_tokens : ConfigError
  no_token_value : ℕ → ConfigError
  no_token_name : ℕ → ConfigError
  no_listen : ConfigError
  no_app_rpc : ConfigError
  no_node_rpc : ConfigError
  bad_size : ConfigError
  bad_level : ConfigError
  bad_format : ConfigError

abbrev pub valid_levels : List Text
valid_levels = codes "debug" ∷ codes "info" ∷ codes "warn" ∷ codes "error" ∷ []

abbrev pub valid_formats : List Text
valid_formats = codes "json" ∷ codes "console" ∷ []

-- The loop over the tokens, from the index `i`; `none` for no error.
unfoldable pub validate_tokens : ℕ → List TokenConfig → Option ConfigError
validate_tokens i [] = none
validate_tokens i (t ∷ ts) =
    let rest = validate_tokens (i + 1) ts in
    if is_empty t.token
    then some (no_token_value i)
    else if is_empty t.name
    then some (no_token_name i)
    else rest

-- The first of two checks that fails.
abbrev pub and_then : Option ConfigError → Option ConfigError → Option ConfigError
and_then none e = e
and_then (some e) f = some e

abbrev pub unless : Bool → ConfigError → Option ConfigError
unless true e = none
unless false e = some e

abbrev pub has_size : Option ℤ → Bool
has_size none = false
has_size (some n) = true

module _ (floats : Floats) where
  unfoldable pub max_body_size_bytes : ServerConfig → Option ℤ
  unfolding parse_size
  max_body_size_bytes s = parse_size floats s.max_body_size

  unfoldable pub max_entry_size_bytes : CacheConfig → Option ℤ
  unfolding parse_size
  max_entry_size_bytes c =
      if is_empty c.max_entry_size then some (pos 5242880) else parse_size floats c.max_entry_size

abbrev pub checked : {F : Type 0} → Config F → Option ConfigError → Result ConfigError (Config F)
checked c none = ok c
checked c (some e) = err e

module _ {F : Type 0} (floats : Floats) where
  unfoldable pub validate : Config F → Option ConfigError
  unfolding validate_tokens max_body_size_bytes listed
  validate c = and_then (unless (not (is_empty c.tokens)) no_tokens) (
      and_then (validate_tokens 0 c.tokens) (
        and_then (unless (not (is_empty c.server.listen)) no_listen) (
          and_then (unless (not (is_empty c.backends.celestia_app_rpc)) no_app_rpc) (
            and_then (unless (not (is_empty c.backends.celestia_node_rpc)) no_node_rpc) (
              and_then (unless (has_size (max_body_size_bytes floats c.server)) bad_size) (
                and_then (unless (listed valid_levels c.logging.level) bad_level)
                  (unless (listed valid_formats c.logging.format) bad_format)))))))

  -- `read` is what `os.ReadFile` answers, `parse` is `yaml.Unmarshal` into an empty configuration.
  unfoldable pub load : Option Text → (Text → Option (Config F)) → Result ConfigError (Config F)
  unfolding validate apply_defaults
  load none parse = err unreadable
  load (some yaml) parse = elim (parse yaml) [
    | none ↦ err unparsable
    | some c ↦ checked (apply_defaults c) (validate (apply_defaults c))
  ]

-- The flag, the environment variable DA_PROXY_CONFIG, or the default.
unfoldable pub resolve_config_path : Text → Text → Text
resolve_config_path flag env =
    if not (is_empty flag)
    then flag
    else if not (is_empty env)
    then env
    else codes "/etc/da-proxy/config.yaml"
