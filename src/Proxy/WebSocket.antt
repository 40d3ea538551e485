-- ===== src/Proxy/WebSocket.antt =====
-- internal/proxy/websocket.go: a WebSocket between a client and a node.
pub mod Dialed
use da_proxy.Prelude.{
  ℕ, Bool, true, false, ◌&&◌, ◌||◌, List, [], ◌∷◌, Option, none, some, if◌then◌else◌, length, ◌==◌,
}
use da_proxy.Prelude.Text.{Text, codes, same, has_prefix}
use da_proxy.Middleware.Context.{Context, HttpError, fail}
use da_proxy.Proxy.Float.{Float}
use da_proxy.Proxy.Balancer.{Draw}
use da_proxy.Proxy.Decode.{ParsedUrl, Url}
use da_proxy.Proxy.Router.{Backend, app_rpc, node_rpc, backend_name, Router, target_url}

unfoldable pub resolve_ws_backend : Text → Backend
unfolding same has_prefix
resolve_ws_backend path =
    if same path (codes "/ws") || has_prefix path (codes "/ws/") then node_rpc else app_rpc

abbrev pub ws_path : Text → Text
ws_path path = if length path == 0 || same path (codes "/") then codes "/websocket" else path

abbrev pub ws_url : Text → ParsedUrl → ParsedUrl
ws_url path u = record u {
  scheme = if same u.scheme (codes "https") then codes "wss" else codes "ws";
  path = ws_path path;
}

abbrev pub printed : Url → Text → Option ParsedUrl → Option Text
printed url path none = none
printed url path (some u) = some (url.print (ws_url path u))

unfoldable pub http_to_ws_url : Url → Text → Text → Option Text
unfolding same
http_to_ws_url url http_url path = printed url path (url.parse http_url)

-- A round of a loop: a message of a type, with whether it could be written to the other side, or an error of the read.
pub data Frame : Type 0 where
  message : ℕ → Text → Bool → Frame
  read_error : Frame

-- `websocket.CloseMessage`
abbrev pub close_message : ℕ
close_message = 8

-- The messages written, and whether the loop has returned; `close` is the text of a normal closure.
unfoldable pub proxy_frames : Text → List Frame → List (ℕ × Text) × Bool
proxy_frames close [] = ([], false)
proxy_frames close (read_error ∷ frames) = ((close_message, close) ∷ [], true)
proxy_frames close (message type text written ∷ frames) =
    let (rest, ended) = proxy_frames close frames in
    if written then ((type, text) ∷ rest, ended) else ([], true)

-- What the network makes of a request.
pub record Connection : Type 0 where
  -- the header Authorization
  pub authorization : Text
  -- `Dial` of a URL, with the header if it is not empty, and `Upgrade`
  pub dials : Text → Text → Bool
  pub upgrades : Bool
  pub client : List Frame
  pub backend : List Frame

pub record WsHandled : Type 0 where
  pub error : Option HttpError
  pub context : Context
  pub router : Router
  pub dialed : Option Text
  pub to_backend : List (ℕ × Text)
  pub to_client : List (ℕ × Text)

-- A type assertion on a name that is not set panics.
pub data Outcome : Type 0 where
  finished : WsHandled → Outcome
  running : Outcome
  panicked : Outcome

abbrev pub bad_gateway : Text → Option Text → Context → Router → Outcome
bad_gateway text dialed c r = finished (record {
  error = fail 502 text;
  context = c;
  router = r;
  dialed = dialed;
  to_backend = [];
  to_client = [];
})

abbrev pub both :
    Context → Router → Text → List (ℕ × Text) × Bool → List (ℕ × Text) × Bool → Outcome
both c r ws_url (to_backend, b) (to_client, d) =
    if b && d
    then finished (record {
      error = none;
      context = c;
      router = r;
      dialed = some ws_url;
      to_backend = to_backend;
      to_client = to_client;
    })
    else running

module _ (fl : Float) (url : Url) (close : Text) (conn : Connection) where
  abbrev pub connected : Option Text → Context → Router → Text → Outcome
  connected none c r ws_url = panicked
  connected (some name) c r ws_url =
      both c r ws_url (proxy_frames close conn.client) (proxy_frames close conn.backend)

  abbrev pub upgraded : Context → Router → Text → Outcome
  upgraded c r ws_url =
      if conn.upgrades
      then connected c.token_name c r ws_url
      else finished (record {
        error = none;
        context = c;
        router = r;
        dialed = some ws_url;
        to_backend = [];
        to_client = [];
      })

  abbrev pub converted : Backend → Context → Router → Option Text → Outcome
  converted backend c r none = bad_gateway (codes "backend configuration error") none c r
  converted backend c r (some ws_url) =
      let c' = record c { backend = some (backend_name backend) } in
      if conn.dials ws_url conn.authorization
      then upgraded c' r ws_url
      else bad_gateway (codes "backend WebSocket unavailable") (some ws_url) c' r

  abbrev pub targeted : Backend → Context → Text × Router → Outcome
  targeted backend c (target, r) =
      if length target == 0
      then bad_gateway (codes "no backend configured for WebSocket") none c r
      else converted backend c r (http_to_ws_url url target c.path)

  unfoldable pub handle : Draw → Context → Router → Outcome
  unfolding resolve_ws_backend target_url http_to_ws_url proxy_frames
  handle d c r =
      let backend = resolve_ws_backend c.path in targeted backend c (target_url fl d backend r)
