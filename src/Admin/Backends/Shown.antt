-- ===== src/Admin/Backends/Shown.antt =====
-- internal/admin/backend_handlers.go over internal/proxy/health.go: what is shown of an endpoint that has been checked.
use da_proxy.Prelude.{
  ℕ, zero, suc, ◌+◌, ◌-◌, ◌≡◌, ◌∙◌, refl, sym, ap, Bool, true, false, ◌&&◌, List, [], ◌∷◌, Memᴰ,
  Option, none, some, ok, ltb, ◌==◌, length, get_elem?, Table, lookup, arith, Bool-cases, inl, inr,
}
use da_proxy.Prelude.Text.{Text}
use da_proxy.Proxy.Float.{Float}
use da_proxy.Proxy.Balancer.{EndpointStats}
use da_proxy.Proxy.Router.{
  Backend, app_rpc, node_rpc, node_archival_rpc, app_archival_rpc, app_grpc, app_p2p, backend_name,
  BackendsConfig, Router,
}
use da_proxy.Proxy.Health.{Net, HealthStatus, HealthChecker, endpoint_name, check_all}
use da_proxy.Admin.{json}
use da_proxy.Admin.Logs.{window_of}
use da_proxy.Admin.Backends.{
  BackendStat, BackendInfo, EndpointInfo, Statuses, endpoint_health_key, status_of, merged_info,
  find_stats, endpoint_infos, overall, backend_info, assembled, backend_defs, stats_since,
  handle_backends, router_stats, stats_of,
}
use da_proxy.Admin.Backends.Overall.{is_of-endpoint_name, aggregate-lookup}
use da_proxy.Admin.Backends.Names.{endpoints_of, check_of, name_of, check_statuses-lookup}

endpoint_infos-get_elem? :
    (name : Text) (stats : List EndpointStats) (statuses : Statuses) (total i k : ℕ)
    (urls : List Text) (url : Text)
    → get_elem? urls k ≡ some url
    → get_elem? (endpoint_infos name stats statuses total i urls) k
      ≡ some (
          merged_info url
            (find_stats url stats)
            (status_of statuses (endpoint_health_key name (i + k) total)))
unfolding endpoint_infos
endpoint_infos-get_elem? name stats statuses total i k [] url e = absurd (cc)
endpoint_infos-get_elem? name stats statuses total i zero (u ∷ us) url e =
    let z : i + 0 ≡ i = omega arith in
    let q : u ≡ url = cc in
    rw z (
      ap
        (λ v. some (
          merged_info v (find_stats v stats)
            (status_of statuses (endpoint_health_key name i total))))
        q)
endpoint_infos-get_elem? name stats statuses total i (suc k) (u ∷ us) url e =
    let z : i + suc k ≡ suc i + k = omega arith in
    rw z (endpoint_infos-get_elem? name stats statuses total (suc i) k us url e)

-- The handler looks up the name under which the checker stores.
endpoint_health_key-endpoint_name :
    (name : Text) (i total : ℕ) → endpoint_health_key name i total ≡ endpoint_name name i total
unfolding endpoint_health_key endpoint_name
endpoint_health_key-endpoint_name name i total = refl

endpoint_infos-lookup :
    (name : Text) (stats : List EndpointStats) (m : Table (HealthStatus ℕ)) (i : ℕ)
    (urls : List Text) (url : Text) (hs : HealthStatus ℕ)
    → get_elem? urls i ≡ some url
    → lookup (endpoint_name name i (length urls)) m ≡ some hs
    → get_elem? (endpoint_infos name stats (some m) (length urls) 0 urls) i
      ≡ some (merged_info url (find_stats url stats) (some hs))
endpoint_infos-lookup name stats m i urls url hs g e =
    let z : 0 + i ≡ i = omega arith in
    let key : endpoint_health_key name (0 + i) (length urls) ≡ endpoint_name name i (length urls) =
      rw z (endpoint_health_key-endpoint_name name i (length urls)) in
    endpoint_infos-get_elem? name stats (some m) (length urls) 0 i urls url g
    ∙ ap (λ o. some (merged_info url (find_stats url stats) o)) (ap (λ n. lookup n m) key ∙ e)

-- What the log adds leaves the health alone.
stats_of-kept :
    (o : Option BackendStat) (info : BackendInfo)
    → ((stats_of o info).name ≡ info.name)
      × ((stats_of o info).endpoint_stats ≡ info.endpoint_stats)
      × ((stats_of o info).healthy ≡ info.healthy)
stats_of-kept none info = (refl, refl, refl)
stats_of-kept (some s) info = (refl, refl, refl)

-- A status under the name of an endpoint is shown with the endpoint, and counts for the backend.
abbrev pub IsShown : Backend → ℕ → Text → Bool → BackendInfo → Type 0
IsShown k i url healthy info =
    (info.name ≡ backend_name k)
    × ((ep : EndpointInfo) × (get_elem? info.endpoint_stats i ≡ some ep)
        × (ep.url ≡ url)
        × (ep.healthy ≡ some healthy))
    × ((all : Bool) × (info.healthy ≡ some all) × (all ≡ (all && healthy)))

module _ (fl : Float) (router : Option Router) (stats : Table BackendStat) where
  backend_info-IsShown :
      (k : Backend) (endpoints : List Text) (i : ℕ) (url : Text) (m : Table (HealthStatus ℕ))
      (hs : HealthStatus ℕ)
      → get_elem? endpoints i ≡ some url
      → lookup (endpoint_name (backend_name k) i (length endpoints)) m ≡ some hs
      → IsShown k i url hs.healthy (backend_info fl router (some m) stats k endpoints)
  unfolding backend_info
  backend_info-IsShown k endpoints i url m hs g e =
      let name = backend_name k in
      let ss = router_stats router k in
      let (c, a) =
        aggregate-lookup fl name m (record { all_healthy = true; total_latency = 0; count = 0 })
          (endpoint_name name i (length endpoints)) hs
          (is_of-endpoint_name name i (length endpoints)) e in
      let f = endpoint_infos-lookup name ss m i endpoints url hs g e in
      let pos_count : ltb 0 (overall fl name (some m)).count ≡ true = ground arith in
      let (n, p, h) = stats_of-kept (lookup name stats) _ in
      (
        n,
        (merged_info url (find_stats url ss) (some hs), rw p f, refl, refl),
        ((overall fl name (some m)).all_healthy, h ∙ rw pos_count refl, a),
      )

  assembled-Memᴰ :
      (statuses : Statuses) (k : Backend) (es : List Text) (defs : List (Backend × List Text))
      → Memᴰ (k, es) defs
      → (length es == 0) ≡ false
      → Memᴰ (backend_info fl router statuses stats k es) (assembled fl router statuses stats defs)
  unfolding assembled
  assembled-Memᴰ statuses k es [] m n = elim m [ ]
  assembled-Memᴰ statuses k es ((j, ds) ∷ defs) (Memᴰ.head e) n =
      let p : j ≡ k = sym (ap (λ d. d.0) e) in
      let q : ds ≡ es = sym (ap (λ d. d.1) e) in
      let z : (length ds == 0) ≡ false = rw q n in
      rw z (Memᴰ.head (ap (λ d. backend_info fl router statuses stats d.0 d.1) e))
  assembled-Memᴰ statuses k es ((j, ds) ∷ defs) (Memᴰ.tail m) n =
      elim (Bool-cases (length ds == 0)) [
        | inl z ↦ rw z (assembled-Memᴰ statuses k es defs m n)
        | inr z ↦ rw z (Memᴰ.tail (assembled-Memᴰ statuses k es defs m n))
      ]

backend_defs-Memᴰ :
    (b : BackendsConfig) (k : Backend) → Memᴰ (k, endpoints_of b k) (backend_defs (some b))
backend_defs-Memᴰ b app_rpc = Memᴰ.head refl
backend_defs-Memᴰ b node_rpc = Memᴰ.tail (Memᴰ.head refl)
backend_defs-Memᴰ b node_archival_rpc = Memᴰ.tail (Memᴰ.tail (Memᴰ.head refl))
backend_defs-Memᴰ b app_archival_rpc = Memᴰ.tail (Memᴰ.tail (Memᴰ.tail (Memᴰ.head refl)))
backend_defs-Memᴰ b app_grpc = Memᴰ.tail (Memᴰ.tail (Memᴰ.tail (Memᴰ.tail (Memᴰ.head refl))))
backend_defs-Memᴰ b app_p2p =
    Memᴰ.tail (Memᴰ.tail (Memᴰ.tail (Memᴰ.tail (Memᴰ.tail (Memᴰ.head refl)))))

get_elem?-length :
    (es : List Text) (i : ℕ) (e : Text) → get_elem? es i ≡ some e → (length es == 0) ≡ false
get_elem?-length [] i e g = absurd (cc)
get_elem?-length (d ∷ es) i e g = ground arith

-- The health checker has done a round of checks. The handler of the backends then shows, for each backend and each of its endpoints,
-- in its place, the health that the check of this endpoint found, as it is done for this backend; and the backend as a whole is shown, and as healthy
-- only if this endpoint is. The window, the router and the log do not matter.
pub handle_backends-check_all :
    (fl : Float) (net : Net ℕ) (now later : ℕ) (h : HealthChecker ℕ) (router : Option Router)
    (log : Option (ℕ → List BackendStat)) (window : Text) (k : Backend) (i : ℕ) (e : Text)
    → get_elem? (endpoints_of h.backends k) i ≡ some e
    → (infos : List BackendInfo) × (info : BackendInfo) × (handle_backends fl
          (some h.backends)
          (some (check_all net now h).statuses)
          router
          log
          window
          later
        ≡ ok (json 200 infos))
      × Memᴰ info infos
      × IsShown k i e (check_of net k e).healthy info
unfolding handle_backends check_all
handle_backends-check_all fl net now later h router log window k i e g =
    let statuses = some (check_all net now h).statuses in
    let stats = stats_since log (later - (window_of window).0) in
    (
      _,
      _,
      refl,
      assembled-Memᴰ fl router stats statuses k (endpoints_of h.backends k) _
          (backend_defs-Memᴰ h.backends k) (get_elem?-length (endpoints_of h.backends k) i e g),
      backend_info-IsShown fl router stats k (endpoints_of h.backends k) i e _
          (record (check_of net k e) { backend = name_of h.backends k i; last_check = now }) g
          (check_statuses-lookup net now h.backends k i e h.statuses g),
    )
