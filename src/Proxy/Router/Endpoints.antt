-- ===== src/Proxy/Router/Endpoints.antt =====
-- The endpoints of a backend do not change.
use da_proxy.Prelude.{
  ℕ, ◌≡◌, refl, sym, ap, ◌∙◌, false, List, Bool-cases, Option-cases, ltb, length, get_elem?, lookup,
  if◌then◌else◌, inl, inr,
}
use da_proxy.Prelude.Text.{Text}
use da_proxy.Proxy.Float.{Float}
use da_proxy.Proxy.Balancer.{Balancer, record_latency}
use da_proxy.Proxy.Router.{
  Backend, Router, all_endpoints, has_archival_backend, archival_backend, record_backend_latency,
  put, same_backend, same_backend_iff,
}

endpoints-record_latency :
    (fl : Float) (ep : Text) (d : ℕ) (b : Balancer)
    → (record_latency fl ep d b).endpoints ≡ b.endpoints
unfolding record_latency
endpoints-record_latency fl ep d b = elim (Option-cases (lookup ep b.endpoint_index)) [
  | inl unknown ↦ rw (unknown, record_latency) refl
  | inr (i, found) ↦ elim (Option-cases (get_elem? b.latencies i)) [
    | inl out ↦ rw (found, record_latency, out) refl
    | inr (l, at) ↦ rw (found, record_latency, at) refl
  ]
]

-- Recording a latency changes no backend's endpoints.
pub all_endpoints-record_backend_latency :
    (fl : Float) (j k : Backend) (ep : Text) (d : ℕ) (r : Router)
    → all_endpoints j (record_backend_latency fl k ep d r) ≡ all_endpoints j r
unfolding record_backend_latency put
all_endpoints-record_backend_latency fl j k ep d r = elim (Bool-cases (same_backend j k)) [
  | inl p ↦
      rw (p, all_endpoints)
        (endpoints-record_latency fl ep d (r.balancers k)
          ∙ ap (λ i. (r.balancers i).endpoints) (sym ((same_backend_iff j k).0 p)))
  | inr q ↦ rw (q, all_endpoints) refl
]

pub has_archival_backend_eq :
    (k : Backend) (r r' : Router)
    → all_endpoints (archival_backend k) r ≡ all_endpoints (archival_backend k) r'
    → has_archival_backend k r ≡ has_archival_backend k r'
unfolding has_archival_backend
has_archival_backend_eq k r r' e =
    ap
      (λ (eps : List Text).
        if same_backend (archival_backend k) k then false else ltb 0 (length eps))
      e
