-- ===== src/Admin/Backends/Names.antt =====
-- internal/proxy/health.go: the statuses of a round under the names of all the backends.
use da_proxy.Prelude.{
  ℕ, suc, ◌≡◌, ◌∙◌, refl, sym, ap, false, List, [], ◌∷◌, ◌++◌, none, some, leb, length, get_elem?,
  Table, lookup, lookup-insert, arith, Bool-cases, inl, inr,
}
use da_proxy.Prelude.Text.{
  Text, codes, same, same_iff, cut_at, Lacks, cut_at-IsCut, cut_at-append, cut_at_of_Lacks,
}
use da_proxy.Prelude.Text.Decimal.{to_decimal}
use da_proxy.Proxy.Router.{
  Backend, app_rpc, node_rpc, node_archival_rpc, app_archival_rpc, app_grpc, app_p2p, backend_name,
  BackendsConfig,
}
use da_proxy.Proxy.Health.{
  Net, HealthStatus, endpoint_name, check_http, check_json_rpc, check_tcp_dial, check_endpoints,
  check_backend, check_statuses,
}
use da_proxy.Proxy.Health.Statuses.{check_backend-lookup}

before_slash : Text → Text
unfolding cut_at
before_slash s = elim (cut_at b'/' s) [ none ↦ s | some (before, from) ↦ before ]

append_assoc : (s t u : Text) → s ++ t ++ u ≡ s ++ (t ++ u)
append_assoc [] t u = refl
append_assoc (a ∷ s) t u = ap (◌∷◌ a) (append_assoc s t u)

before_slash-none : (s : Text) → cut_at b'/' s ≡ none → before_slash s ≡ s
unfolding before_slash
before_slash-none s e = rw (before_slash, e) refl

before_slash-some :
    (s before from : Text) → cut_at b'/' s ≡ some (before, from) → before_slash s ≡ before
unfolding before_slash
before_slash-some s before from e = rw (before_slash, e) refl

before_slash-endpoint_name :
    (base : Text) (i total : ℕ) → Lacks b'/' base → before_slash (endpoint_name base i total) ≡ base
unfolding endpoint_name
before_slash-endpoint_name base i total l = elim (Bool-cases (leb total 1)) [
  | inl p ↦
      (let e : endpoint_name base i total ≡ base = rw (endpoint_name, p) refl in
        rw e (before_slash-none base (cut_at_of_Lacks b'/' base l)))
  | inr p ↦
      (let e : endpoint_name base i total ≡ base ++ b'/' ∷ to_decimal i =
          rw (endpoint_name, p) (append_assoc base (codes "/") (to_decimal i)) in
        rw e (before_slash-some _ base _ (cut_at-append b'/' base (to_decimal i) l)))
]

backend_name-Lacks : (k : Backend) → Lacks b'/' (backend_name k)
unfolding cut_at
backend_name-Lacks app_rpc = cut_at-IsCut b'/' (backend_name app_rpc)
backend_name-Lacks node_rpc = cut_at-IsCut b'/' (backend_name node_rpc)
backend_name-Lacks node_archival_rpc = cut_at-IsCut b'/' (backend_name node_archival_rpc)
backend_name-Lacks app_archival_rpc = cut_at-IsCut b'/' (backend_name app_archival_rpc)
backend_name-Lacks app_grpc = cut_at-IsCut b'/' (backend_name app_grpc)
backend_name-Lacks app_p2p = cut_at-IsCut b'/' (backend_name app_p2p)

-- Endpoints of different backends have different names.
name_ne :
    (j k : Backend) (i l s t : ℕ)
    → same (backend_name j) (backend_name k) ≡ false
    → same (endpoint_name (backend_name j) i s) (endpoint_name (backend_name k) l t) ≡ false
name_ne j k i l s t n =
    let a = endpoint_name (backend_name j) i s in
    let b = endpoint_name (backend_name k) l t in
    elim (Bool-cases (same a b)) [
      | inl p ↦
          (let e : a ≡ b = (same_iff a b).0 p in
            let f : backend_name j ≡ backend_name k =
              sym (before_slash-endpoint_name (backend_name j) i s (backend_name-Lacks j))
              ∙ (ap before_slash e
                  ∙ before_slash-endpoint_name (backend_name k) l t (backend_name-Lacks k)) in
            let g = (same_iff (backend_name j) (backend_name k)).1 f in absurd (ground arith))
      | inr q ↦ q
    ]

-- The endpoints of a backend, and how one of them is checked.
abbrev pub endpoints_of : BackendsConfig → Backend → List Text
endpoints_of b app_rpc = b.celestia_app_rpc
endpoints_of b node_rpc = b.celestia_node_rpc
endpoints_of b node_archival_rpc = b.celestia_node_archival_rpc
endpoints_of b app_archival_rpc = b.celestia_app_archival_rpc
endpoints_of b app_grpc = b.celestia_app_grpc
endpoints_of b app_p2p = b.celestia_app_p2p

abbrev pub check_of : {F : Type 0} → Net F → Backend → Text → HealthStatus F
check_of net app_rpc e = check_http net e (codes "/health")
check_of net node_rpc e = check_json_rpc net e
check_of net node_archival_rpc e = check_json_rpc net e
check_of net app_archival_rpc e = check_http net e (codes "/health")
check_of net app_grpc e = check_tcp_dial net e
check_of net app_p2p e = check_tcp_dial net e

abbrev pub name_of : BackendsConfig → Backend → ℕ → Text
name_of b k i = endpoint_name (backend_name k) i (length (endpoints_of b k))

module _ {F : Type 0} (net : Net F) (now : ℕ) (b : BackendsConfig) where
  abbrev checked : Backend → Table (HealthStatus F) → Table (HealthStatus F)
  checked k m = check_backend now (backend_name k) (check_of net k) (endpoints_of b k) m

  other_endpoints :
      (j k : Backend) (i l total : ℕ) (es : List Text) (m : Table (HealthStatus F))
      → same (backend_name j) (backend_name k) ≡ false
      → lookup (name_of b k l) (check_endpoints now (backend_name j) total i (check_of net j) es m)
        ≡ lookup (name_of b k l) m
  unfolding check_endpoints
  other_endpoints j k i l total [] m n = refl
  other_endpoints j k i l total (e ∷ es) m n =
      other_endpoints j k (suc i) l total es _ n
      ∙ (lookup-insert (endpoint_name (backend_name j) i total) (name_of b k l) _ m
          ∙ rw (name_ne j k i l total (length (endpoints_of b k)) n) refl)

  skip :
      (j k : Backend) (l : ℕ) (m : Table (HealthStatus F))
      → same (backend_name j) (backend_name k) ≡ false
      → lookup (name_of b k l) (checked j m) ≡ lookup (name_of b k l) m
  skip j k l m n = other_endpoints j k 0 l (length (endpoints_of b j)) (endpoints_of b j) m n

  -- A round stores for each endpoint of each backend what its own check answers.
  pub check_statuses-lookup :
      (k : Backend) (i : ℕ) (e : Text) (m : Table (HealthStatus F))
      → get_elem? (endpoints_of b k) i ≡ some e
      → lookup (name_of b k i) (check_statuses net now b m)
        ≡ some (record (check_of net k e) { backend = name_of b k i; last_check = now })
  unfolding check_statuses same
  check_statuses-lookup app_p2p i e m g =
      check_backend-lookup now _ (check_of net app_p2p) _ _ i e g
  check_statuses-lookup app_grpc i e m g =
      skip app_p2p app_grpc i _ refl ∙ check_backend-lookup now _ (check_of net app_grpc) _ _ i e g
  check_statuses-lookup app_archival_rpc i e m g =
      skip app_p2p app_archival_rpc i _ refl
      ∙ (skip app_grpc app_archival_rpc i _ refl
          ∙ check_backend-lookup now _ (check_of net app_archival_rpc) _ _ i e g)
  check_statuses-lookup node_archival_rpc i e m g =
      skip app_p2p node_archival_rpc i _ refl
      ∙ (skip app_grpc node_archival_rpc i _ refl
          ∙ (skip app_archival_rpc node_archival_rpc i _ refl
              ∙ check_backend-lookup now _ (check_of net node_archival_rpc) _ _ i e g))
  check_statuses-lookup node_rpc i e m g =
      skip app_p2p node_rpc i _ refl
      ∙ (skip app_grpc node_rpc i _ refl
          ∙ (skip app_archival_rpc node_rpc i _ refl
              ∙ (skip node_archival_rpc node_rpc i _ refl
                  ∙ check_backend-lookup now _ (check_of net node_rpc) _ _ i e g)))
  check_statuses-lookup app_rpc i e m g =
      skip app_p2p app_rpc i _ refl
      ∙ (skip app_grpc app_rpc i _ refl
          ∙ (skip app_archival_rpc app_rpc i _ refl
              ∙ (skip node_archival_rpc app_rpc i _ refl
                  ∙ (skip node_rpc app_rpc i _ refl
                      ∙ check_backend-lookup now _ (check_of net app_rpc) _ _ i e g))))
