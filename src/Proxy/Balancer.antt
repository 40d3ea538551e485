-- ===== src/Proxy/Balancer.antt =====
-- internal/proxy/balancer.go: the choice of one endpoint of a backend.
pub mod Valid
pub mod RoundRobin
pub mod Fastest
use da_proxy.Prelude.{
  ℕ, zero, suc, ◌+◌, ◌-◌, ◌%◌, ◌^◌, Bool, true, false, ◌&&◌, ◌||◌, List, [], ◌∷◌, Option, none,
  some, ◌==◌, ltb, if◌then◌else◌, get_elem?, set, length, map, Table, lookup, insert,
}
use da_proxy.Prelude.Text.{Text}
use da_proxy.Proxy.Float.{Float}
use da_proxy.Proxy.Latency.{Ewma, fresh, update}

pub record Balancer : Type 0 where
  pub endpoints : List Text
  -- a uint64
  pub counter : ℕ
  -- one for each endpoint, at the same index
  pub latencies : List Ewma
  pub endpoint_index : Table ℕ

-- What `math/rand` draws in one call of `Next`: a float64 of [0, 1), and a number below its argument.
pub record Draw : Type 0 where
  pub roll : ℕ
  pub pick : ℕ → ℕ

pub record EndpointStats : Type 0 where
  pub url : Text
  pub ewma_latency : ℕ
  pub request_count : ℕ

-- The loop of `NewBalancer` over the endpoints.
index_from : ℕ → Table ℕ → List Text → Table ℕ
index_from i idx [] = idx
index_from i idx (ep ∷ eps) = index_from (suc i) (insert ep i idx) eps

unfoldable pub new_balancer : List Text → Balancer
unfolding index_from insert
new_balancer endpoints = record {
  endpoints = endpoints;
  counter = 0;
  latencies = map (λ _. fresh) endpoints;
  endpoint_index = index_from 0 [] endpoints;
}

-- Whether some endpoint has a measurement.
unfoldable pub has_data : List Ewma → Bool
has_data [] = false
has_data (l ∷ ls) = ltb 0 l.count || has_data ls

module _ (fl : Float) where
  -- The loop over `b.latencies` from index `i`, with the best index and value so far.
  unfoldable pub scan : ℕ → ℕ → ℕ → List Ewma → ℕ
  scan i best_idx best_val [] = best_idx
  scan i best_idx best_val (l ∷ ls) =
      let faster = fl.lt l.bits best_val in
      let rest =
        scan (suc i) (if faster then i else best_idx) (if faster then l.bits else best_val) ls in
      if l.count == 0 then i else rest

  -- `Next`, with an index that is out of range (a panic) as the answer `none`.
  unfoldable pub next : Draw → Balancer → Option Text × Balancer
  unfolding has_data scan
  next d b =
      let n = length b.endpoints in
      if n == 0
      then (some [], b)
      else if n == 1
      then (get_elem? b.endpoints 0, b)
      else if has_data b.latencies
      then (if fl.lt d.roll fl.exploration_rate
          then (get_elem? b.endpoints (d.pick n), b)
          else (get_elem? b.endpoints (scan 0 0 fl.max b.latencies), b))
      else (let counter = (b.counter + 1) % 2 ^ 64 in
          let idx = (counter + 2 ^ 64 - 1) % 2 ^ 64 in
          (get_elem? b.endpoints (idx % n), record b { counter = counter }))

  -- An index out of range would be a panic; `Valid` shows that there is none.
  unfoldable pub record_latency : Text → ℕ → Balancer → Balancer
  unfolding lookup update
  record_latency endpoint d b = elim (lookup endpoint b.endpoint_index) [
    | none ↦ b
    | some i ↦ elim (get_elem? b.latencies i) [
      | none ↦ b
      | some l ↦ record b { latencies = set b.latencies i (update fl l d) }
    ]
  ]

-- The loop of `Stats` over the endpoints and the latencies at the same index.
stats_from : List Text → List Ewma → List EndpointStats
stats_from [] ls = []
stats_from (ep ∷ eps) [] = []
stats_from (ep ∷ eps) (l ∷ ls) =
    record { url = ep; ewma_latency = l.bits; request_count = l.count } ∷ stats_from eps ls

unfoldable pub stats : Balancer → List EndpointStats
unfolding stats_from
stats b = stats_from b.endpoints b.latencies

-- `All` and `Len`.
abbrev pub all : Balancer → List Text
all b = b.endpoints

abbrev pub len : Balancer → ℕ
len b = length b.endpoints
