-- ===== src/Tests/Proxy.antt =====
-- The routing of the small configuration.
use da_proxy.Proxy.Router.{
  app_rpc, da_namespaces, only_method, node_rpc, node_archival_rpc, first_method, archival_backend,
  extract_namespace, wants_archival, choose_backend, same_backend, put, fallback_url, direct_url,
  next_of, target_url, route_method, build_balancers, route, resolve_backend, parse_json_rpc_method,
  new_router_with_tracker, Router, RouteError, RouteDecision,
}
use da_proxy.Prelude.Int.{pos_part, ◌<ℤ◌, parse_int, sub_int64, pos, IsInt64}
use da_proxy.Proxy.Latency.{Phase, run, Goroutine, Ewma}
use da_proxy.Proxy.Balancer.{scan, new_balancer, next, has_data, Balancer}
use da_proxy.Prelude.{
  ℕ, ◌+◌, ◌<◌, suc, zero, ◌≡◌, refl, ◌≢◌, ◌↔◌, ◌⊎◌, true, false, List, [], ◌∷◌, some, Memᴰ, arith,
  ok, err, get_elem?, length, map, lookup,
}
use da_proxy.Prelude.Text.{Text, codes, listed, cut_at, trim_space, same, same_iff}
use da_proxy.Proxy.Latency.Interleaving.{IsMerged, callers, run-IsMerged-callers, run-returned}
use da_proxy.Proxy.Balancer.RoundRobin.{nexts, nexts-rotation}
use da_proxy.Proxy.Balancer.Fastest.{IsFound, next-IsFound}
use da_proxy.Proxy.Balancer.Valid as Balanced
use da_proxy.Proxy.Height.{is_archival, enabled, parse_height, extract_height}
use da_proxy.Proxy.Router.Valid as Routed
use da_proxy.Proxy.Router.Targets.{candidates, IsConfigured, IsRpc, route-Memᴰ}
use da_proxy.Proxy.Router.Namespaces.{IsIn, resolve_backend_iff}
use da_proxy.Proxy.Router.Decisions.{
  Names, is_archival_backend, parse_json_rpc_method_iff, route-err_iff, route-archival_iff,
}
use da_proxy.Tests.Data.{
  numbers, IsSmall, numbers-IsOrdered, old_block, nameless, decoder, backends, tracker, draw,
}

abbrev pub router : Router
router = new_router_with_tracker backends (some tracker)

abbrev pub decision : RouteDecision
decision = record {
  backend = node_archival_rpc;
  target_url = codes "http://old";
  method = codes "header.GetByHeight";
}

pub routed : (route numbers decoder draw old_block router).0 ≡ ok decision
unfolding route route_method target_url next_of direct_url fallback_url put same_backend next
    has_data scan choose_backend wants_archival resolve_backend extract_namespace archival_backend
    parse_json_rpc_method first_method only_method new_router_with_tracker build_balancers
    new_balancer enabled is_archival extract_height parse_height sub_int64 parse_int lookup listed
    cut_at trim_space same
routed = refl

router-IsValid : Routed.IsValid router
router-IsValid = Routed.new_router_with_tracker-IsValid backends (some tracker)

router-IsConfigured : IsConfigured router
unfolding new_router_with_tracker build_balancers new_balancer
router-IsConfigured = record { app = omega arith; node = omega arith }

route-Memᴰ_example :
    IsRpc node_archival_rpc × Memᴰ (codes "http://old") (candidates node_archival_rpc router)
route-Memᴰ_example =
    route-Memᴰ numbers decoder draw old_block router-IsValid router-IsConfigured (λ n p. p) routed

ten-IsInt64 : IsInt64 (pos 10)
ten-IsInt64 = omega arith

tracked : router.height_tracker ≡ some tracker
unfolding new_router_with_tracker
tracked = refl

route-archival_iff_example :
    Names decoder old_block decision.method
    × ((is_archival_backend node_archival_rpc ≡ true) ↔ (
        (pos 0 <ℤ pos 10)
        × (0 < 100)
        × (pos 0 <ℤ extract_height decoder decision.method old_block)
        × (pos_part (extract_height decoder decision.method old_block) + 10 < 100)))
    × ((is_archival_backend node_archival_rpc ≡ false)
        → node_archival_rpc ≡ resolve_backend decision.method)
route-archival_iff_example =
    route-archival_iff numbers decoder draw router old_block decision 100 (pos 10) (omega arith)
      routed tracked (omega arith) ten-IsInt64

route-err_iff_example :
    ((e : RouteError) × ((route numbers decoder draw nameless router).0 ≡ err e))
    ↔ ((0 < length nameless) × ((method : Text) → ¬ Names decoder nameless method))
route-err_iff_example = route-err_iff numbers decoder draw router nameless

parse_json_rpc_method_iff_example :
    ((parse_json_rpc_method decoder old_block).1 ≡ ok decision.method)
    ↔ Names decoder old_block decision.method
parse_json_rpc_method_iff_example = parse_json_rpc_method_iff decoder old_block decision.method

resolve_backend_iff_example :
    ((resolve_backend (codes "blob.Get") ≡ node_rpc)
      ↔ ((ns : Text) × Memᴰ ns da_namespaces × IsIn (codes "blob.Get") ns))
    × ((resolve_backend (codes "blob.Get") ≡ node_rpc)
        ⊎ (resolve_backend (codes "blob.Get") ≡ app_rpc))
resolve_backend_iff_example = resolve_backend_iff (codes "blob.Get")

-- Three goroutines, of which the second comes between the load and the swap of the first.
abbrev schedule : List ℕ
schedule = 0 ∷ 0 ∷ 1 ∷ 1 ∷ 1 ∷ 0 ∷ 2 ∷ 0 ∷ 0 ∷ []

abbrev idle : Ewma
idle = record { bits = 0; count = 0 }

run-IsMerged-callers_example :
    IsMerged numbers 0 0
      (run numbers schedule (record { shared = idle; goroutines = callers (20 ∷ 30 ∷ 40 ∷ []) }))
run-IsMerged-callers_example =
    run-IsMerged-callers numbers idle (20 ∷ 30 ∷ 40 ∷ []) schedule (omega arith)

abbrev stale : Goroutine
stale = record { sample = 20; phase = Phase.loaded 7 }

run-returned_example :
    get_elem?
      (run numbers (0 ∷ 0 ∷ 0 ∷ []) (record { shared = idle; goroutines = stale ∷ [] })).goroutines
      0
    ≡ some (record stale { phase = Phase.returned })
run-returned_example =
    run-returned numbers (record { shared = idle; goroutines = stale ∷ [] }) 0 stale refl

abbrev three : List Text
three = codes "a" ∷ codes "b" ∷ codes "c" ∷ []

abbrev unmeasured : Balancer
unmeasured = record {
  endpoints = three;
  counter = 7;
  latencies = idle ∷ idle ∷ idle ∷ [];
  endpoint_index = (codes "a", 0) ∷ (codes "b", 1) ∷ (codes "c", 2) ∷ [];
}

nothing_measured : has_data unmeasured.latencies ≡ false
unfolding has_data
nothing_measured = refl

nexts-rotation_example :
    nexts numbers (draw ∷ draw ∷ draw ∷ []) unmeasured
    ≡ map some (codes "b" ∷ codes "c" ∷ codes "a" ∷ [])
nexts-rotation_example =
    nexts-rotation numbers (draw ∷ draw ∷ draw ∷ []) unmeasured nothing_measured (omega arith) refl
      (omega arith)

abbrev measured : Balancer
measured = record unmeasured {
  latencies =
      record { bits = 30; count = 2 }
      ∷ record { bits = 20; count = 1 }
      ∷ record { bits = 25; count = 4 }
      ∷ [];
}

measured-IsValid : Balanced.IsValid measured
unfolding lookup same
measured-IsValid = record {
  averages = refl;
  indexed = λ k i e.
      ground (arith, same_iff (codes "a") k, same_iff (codes "b") k, same_iff (codes "c") k);
}

measured-IsSmall :
    (k : ℕ) (m : Ewma) → get_elem? measured.latencies k ≡ some m → m.count ≢ 0 → IsSmall m.bits
measured-IsSmall zero m e c = ground arith
measured-IsSmall (suc zero) m e c = ground arith
measured-IsSmall (suc (suc zero)) m e c = ground arith
measured-IsSmall (suc (suc (suc k))) m e c = absurd (ground arith)

some_measured : has_data measured.latencies ≡ true
unfolding has_data
some_measured = refl

next-IsFound_example :
    (j : ℕ) × IsFound numbers IsSmall numbers-IsOrdered measured.latencies j
    × ((next numbers draw measured).0 ≡ get_elem? three j)
next-IsFound_example =
    next-IsFound numbers IsSmall numbers-IsOrdered draw measured measured-IsValid measured-IsSmall
      (omega arith) some_measured refl
