-- ===== src/Proxy/WebSocket/Dialed.antt =====
-- internal/proxy/websocket.go over internal/proxy/router.go: where a WebSocket goes.
use da_proxy.Prelude.{
  ℕ, ◌<◌, ◌≡◌, ◌⊎◌, refl, Bool, true, ◌&&◌, ◌||◌, if◌then◌else◌, List, Option, none, some, length,
  ◌==◌, Memᴰ, Bool-cases, inl, inr, arith,
}
use da_proxy.Prelude.Text.{Text, codes, same, has_prefix}
use da_proxy.Middleware.Context.{Context, fail}
use da_proxy.Proxy.Float.{Float}
use da_proxy.Proxy.Balancer.{Draw}
use da_proxy.Proxy.Decode.{ParsedUrl, Url}
use da_proxy.Proxy.Router.{Backend, app_rpc, node_rpc, Router, has_endpoints, target_url}
use da_proxy.Proxy.Router.Valid.{IsValid}
use da_proxy.Proxy.Router.Targets.{IsConfigured, candidates, target_url-Memᴰ}
use da_proxy.Proxy.WebSocket.{
  resolve_ws_backend, ws_url, printed, http_to_ws_url, Connection, Outcome, finished, running,
  panicked, both, connected, upgraded, converted, targeted, handle, proxy_frames,
}

module _ (url : Url) (path : Text) (endpoints : List Text) where
  -- A URL made of one of the endpoints, with the scheme and the path of a WebSocket.
  abbrev pub IsUrl : Text → Type 0
  IsUrl u =
      (e : Text) × (p : ParsedUrl) × Memᴰ e endpoints
      × (url.parse e ≡ some p)
      × (u
          ≡ url.print (record {
            scheme = if same p.scheme (codes "https") then codes "wss" else codes "ws";
            host = p.host;
            path = if length path == 0 || same path (codes "/") then codes "/websocket" else path;
          }))

  -- No panic; an error is a 502; and what has been dialed is such a URL.
  abbrev pub IsProxied : Outcome → Type 0
  IsProxied (finished h) =
      ((h.error ≡ none) ⊎ ((text : Text) × (h.error ≡ fail 502 text)))
      × ((h.dialed ≡ none) ⊎ ((u : Text) × (h.dialed ≡ some u) × IsUrl u))
  IsProxied running = Unit
  IsProxied panicked = ⊥

  both-IsProxied :
      (c : Context) (r : Router) (u : Text) (p q : List (ℕ × Text) × Bool)
      → IsUrl u
      → IsProxied (both c r u p q)
  both-IsProxied c r u (s, b) (t, d) i = elim (Bool-cases (b && d)) [
    | inl e ↦ rw e (inl refl, inr (u, refl, i))
    | inr e ↦ rw e tt
  ]

module _ (fl : Float) (url : Url) (close : Text) (conn : Connection) (endpoints : List Text) where
  connected-IsProxied :
      (path : Text) (name : Option Text) (n : Text) (c : Context) (r : Router) (u : Text)
      → name ≡ some n
      → IsUrl url path endpoints u
      → IsProxied url path endpoints (connected fl url close conn name c r u)
  connected-IsProxied path none n c r u e i = absurd (cc)
  connected-IsProxied path (some m) n c r u e i =
      both-IsProxied url path endpoints c r u (proxy_frames close conn.client)
        (proxy_frames close conn.backend) i

  upgraded-IsProxied :
      (path n : Text) (c : Context) (r : Router) (u : Text)
      → c.token_name ≡ some n
      → IsUrl url path endpoints u
      → IsProxied url path endpoints (upgraded fl url close conn c r u)
  upgraded-IsProxied path n c r u e i = elim (Bool-cases conn.upgrades) [
    | inl p ↦ simp p (connected-IsProxied path c.token_name n c r u e i)
    | inr p ↦ simp p (inl refl, inr (u, refl, i))
  ]

  converted-IsProxied :
      (path n target : Text) (k : Backend) (c : Context) (r : Router) (o : Option ParsedUrl)
      → c.token_name ≡ some n
      → Memᴰ target endpoints
      → url.parse target ≡ o
      → IsProxied url path endpoints (converted fl url close conn k c r (printed url path o))
  converted-IsProxied path n target k c r none e m q = (inr (_, refl), inl refl)
  converted-IsProxied path n target k c r (some p) e m q =
      let u = url.print (ws_url path p) in
      let i : IsUrl url path endpoints u = (target, p, m, q, refl) in
      elim (Bool-cases (conn.dials u conn.authorization)) [
        | inl d ↦ rw d (upgraded-IsProxied path n _ r u e i)
        | inr d ↦ rw d (inr (_, refl), inr (u, refl, i))
      ]

  targeted-IsProxied :
      (n : Text) (k : Backend) (c : Context) (q : Text × Router)
      → c.token_name ≡ some n
      → Memᴰ q.0 endpoints
      → IsProxied url c.path endpoints (targeted fl url close conn k c q)
  unfolding http_to_ws_url
  targeted-IsProxied n k c (target, r) e m = elim (Bool-cases (length target == 0)) [
    | inl p ↦ rw p (inr (_, refl), inl refl)
    | inr p ↦ rw p (converted-IsProxied c.path n target k c r (url.parse target) e m refl)
  ]

-- The endpoints that a path may go to: those of celestia-node for "/ws" and what is below it, else those of celestia-app.
abbrev pub endpoints_for : Text → Router → List Text
endpoints_for path r =
    if same path (codes "/ws") || has_prefix path (codes "/ws/")
    then (r.balancers node_rpc).endpoints
    else (r.balancers app_rpc).endpoints

resolve_ws_backend_cases :
    (path : Text) → (resolve_ws_backend path ≡ node_rpc) ⊎ (resolve_ws_backend path ≡ app_rpc)
unfolding resolve_ws_backend
resolve_ws_backend_cases path =
    elim (Bool-cases (same path (codes "/ws") || has_prefix path (codes "/ws/"))) [
      | inl p ↦ inl (rw p refl)
      | inr p ↦ inr (rw p refl)
    ]

resolve_ws_backend-endpoints :
    (path : Text) (r : Router)
    → (r.balancers (resolve_ws_backend path)).endpoints ≡ endpoints_for path r
unfolding resolve_ws_backend
resolve_ws_backend-endpoints path r =
    elim (Bool-cases (same path (codes "/ws") || has_prefix path (codes "/ws/"))) [
      | inl p ↦ rw p refl
      | inr p ↦ rw p refl
    ]

abbrev HasCandidates : Backend → Router → Type 0
HasCandidates k r =
    (0 < length (r.balancers k).endpoints) × (candidates k r ≡ (r.balancers k).endpoints)

rpc-HasCandidates :
    (k : Backend) (r : Router) → (k ≡ node_rpc) ⊎ (k ≡ app_rpc) → IsConfigured r → HasCandidates k r
rpc-HasCandidates k r (inl e) i = rw e (
    let b : has_endpoints node_rpc r ≡ true = (let h = i.node in ground arith) in
    (i.node, rw b refl))
rpc-HasCandidates k r (inr e) i =
    rw e (
      let b : has_endpoints app_rpc r ≡ true = (let h = i.app in ground arith) in
      (i.app, rw b refl))

-- In a valid router whose two pruned RPC backends have an endpoint, and if `rand.IntN` answers below its argument, the handler of
-- WebSockets does not panic on a context that has the name of a token. Where it returns an error, this is a 502. What it dials, if anything, is the URL
-- of an endpoint that is configured for celestia-node if the path is "/ws" or below it and for celestia-app else. The
-- scheme is "wss" if that of the endpoint is "https" and "ws" else, the host is that of the endpoint, and the path is "/websocket" if the path of the request is empty or "/" and the latter else.
pub handle-IsProxied :
    (fl : Float) (url : Url) (close : Text) (conn : Connection) (d : Draw) (c : Context)
    (r : Router) (name : Text)
    → c.token_name ≡ some name
    → IsValid r
    → IsConfigured r
    → ((n : ℕ) → 0 < n → d.pick n < n)
    → IsProxied url c.path (endpoints_for c.path r) (handle fl url close conn d c r)
unfolding handle
handle-IsProxied fl url close conn d c r name e v i draw =
    let k = resolve_ws_backend c.path in
    let (h, q) = rpc-HasCandidates k r (resolve_ws_backend_cases c.path) i in
    let m = target_url-Memᴰ fl d k v draw (rw q h) in
    let found : Memᴰ (target_url fl d k r).0 (endpoints_for c.path r) =
      rw (← resolve_ws_backend-endpoints c.path r) (rw q at m) in
    targeted-IsProxied fl url close conn (endpoints_for c.path r) name k c (target_url fl d k r) e
      found
