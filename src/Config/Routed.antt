-- ===== src/Config/Routed.antt =====
-- internal/config/config.go and internal/proxy/router.go: the router of a configuration that is loaded.
use da_proxy.Prelude.{
  ℕ, ◌<◌, ◌≡◌, refl, ltb, ◌==◌, if◌then◌else◌, inl, inr, sym, List, [], ◌∷◌, Option, none, some, ok,
  err, Memᴰ, length, arith, Option-cases,
}
use da_proxy.Prelude.Text.{Text}
use da_proxy.Proxy.Float.{Float}
use da_proxy.Proxy.Decode.{Json}
use da_proxy.Proxy.Balancer.{Draw, new_balancer}
use da_proxy.Proxy.Router.{
  Backend, app_rpc, node_rpc, node_archival_rpc, app_archival_rpc, app_grpc, app_p2p,
  BackendsConfig, RouteDecision, new_router, new_router_with_tracker, build_balancers, route,
}
use da_proxy.Proxy.Router.Valid.{IsValid, new_router_with_tracker-IsValid}
use da_proxy.Proxy.Router.Targets.{candidates, IsConfigured, IsRpc, route-Memᴰ}
use da_proxy.Config.Size.{Floats}
use da_proxy.Config.{Config, ConfigError, or_default, apply_defaults, validate, checked, load}

checked_same : {F : Type 0} (c d : Config F) (o : Option ConfigError) → checked c o ≡ ok d → c ≡ d
checked_same c d none e = cc
checked_same c d (some x) e = absurd (cc)

err_ok : {F : Type 0} {x : ConfigError} {d : Config F} → err x ≡ ok d → ⊥
err_ok e = absurd (cc)

length-or_default : (t : List Text) (u : Text) (ts : List Text) → 0 < length (or_default t (u ∷ ts))
length-or_default [] u ts = omega arith
length-or_default (a ∷ t) u ts = omega arith

module _ {F : Type 0} (floats : Floats) where
  load-defaults :
      (o : Option Text) (parse : Text → Option (Config F)) (cfg : Config F)
      → load floats o parse ≡ ok cfg
      → (c : Config F) × (apply_defaults c ≡ cfg)
  unfolding load
  load-defaults none parse cfg e = absurd (cc)
  load-defaults (some yaml) parse cfg e = elim (Option-cases (parse yaml)) [
    | inl q ↦ absurd (err_ok (rw (load, q) at e))
    | inr (c, q) ↦ (
      c,
      checked_same (apply_defaults c) cfg (validate floats (apply_defaults c)) (rw (load, q) at e),
    )
  ]

-- The two RPC backends have an endpoint.
apply_defaults-IsConfigured :
    {F : Type 0} (c : Config F) → IsConfigured (new_router (apply_defaults c).backends)
unfolding apply_defaults new_router new_router_with_tracker build_balancers new_balancer
apply_defaults-IsConfigured c = record {
  app = length-or_default c.backends.celestia_app_rpc _ _;
  node = length-or_default c.backends.celestia_node_rpc _ _;
}

-- The endpoints that a configuration has for a backend, where an archival backend without endpoints
-- stands for the pruned one.
abbrev pub configured : BackendsConfig → Backend → List Text
configured b app_rpc = b.celestia_app_rpc
configured b node_rpc = b.celestia_node_rpc
configured b node_archival_rpc =
    if length b.celestia_node_archival_rpc == 0
    then b.celestia_node_rpc
    else b.celestia_node_archival_rpc
configured b app_archival_rpc =
    if length b.celestia_app_archival_rpc == 0
    then b.celestia_app_rpc
    else b.celestia_app_archival_rpc
configured b app_grpc = b.celestia_app_grpc
configured b app_p2p = b.celestia_app_p2p

own_or :
    (own other : List Text)
    → (if ltb 0 (length own) then own else other) ≡ (if length own == 0 then other else own)
own_or [] other = refl
own_or (x ∷ xs) other = ground arith

own_or_none : (own : List Text) → (if ltb 0 (length own) then own else []) ≡ own
own_or_none [] = refl
own_or_none (x ∷ xs) = ground arith

new_router-configured :
    (b : BackendsConfig) (k : Backend) → candidates k (new_router b) ≡ configured b k
unfolding new_router new_router_with_tracker build_balancers new_balancer
new_router-configured b app_rpc = own_or_none b.celestia_app_rpc
new_router-configured b node_rpc = own_or_none b.celestia_node_rpc
new_router-configured b node_archival_rpc = own_or b.celestia_node_archival_rpc b.celestia_node_rpc
new_router-configured b app_archival_rpc = own_or b.celestia_app_archival_rpc b.celestia_app_rpc
new_router-configured b app_grpc = own_or_none b.celestia_app_grpc
new_router-configured b app_p2p = own_or_none b.celestia_app_p2p

new_router-IsValid : (b : BackendsConfig) → IsValid (new_router b)
unfolding new_router
new_router-IsValid b = new_router_with_tracker-IsValid b _

module _ {F : Type 0} (floats : Floats) (fl : Float) where
  -- Once a configuration is loaded, each request that the new router routes goes to one of the four RPC backends, and
  -- its target is an endpoint that the configuration lists for that backend or, if the backend is archival and the configuration
  -- lists none for it, one that it lists for the pruned backend of the same service, if rand.IntN answers below its argument.
  pub load-route :
      (json : Json) (d : Draw) (body : Text) (file : Option Text) (parse : Text → Option (Config F))
      (cfg : Config F) {decision : RouteDecision}
      → load floats file parse ≡ ok cfg
      → ((n : ℕ) → 0 < n → d.pick n < n)
      → (route fl json d body (new_router cfg.backends)).0 ≡ ok decision
      → IsRpc decision.backend × Memᴰ decision.target_url (configured cfg.backends decision.backend)
  load-route json d body file parse cfg {decision} l draw e =
      let (c, q) = load-defaults floats file parse cfg l in
      let (rpc, m) =
        route-Memᴰ fl json d body (new_router-IsValid cfg.backends)
          (rw (sym q) (apply_defaults-IsConfigured c)) draw e in
      (rpc, rw (new_router-configured cfg.backends decision.backend) at m)
