-- ===== src/Tests/Streams.antt =====
-- internal/proxy: a gRPC call, a WebSocket and TCP connections.
use da_proxy.Prelude.{◌+◌, ◌≡◌, ◌⊎◌, Memᴰ, refl, true, false, List, [], ◌∷◌, none, some, arith}
use da_proxy.Prelude.Text.{codes}
use da_proxy.Middleware.Context.{Context}
use da_proxy.Proxy.Decode.{Url}
use da_proxy.Proxy.Balancer.{next, new_balancer}
use da_proxy.Proxy.Router.{
  BackendsConfig, Router, new_router_with_tracker, build_balancers, next_of,
}
use da_proxy.Proxy.Router.Valid.{IsValid, new_router_with_tracker-IsValid}
use da_proxy.Proxy.Router.Targets.{IsConfigured}
use da_proxy.Proxy.Grpc.{Call, Handled, frame, eof, stream_handler, failed, status_error}
use da_proxy.Proxy.Grpc.Complete.{IsSuccess, stream_handler-IsSuccess}
use da_proxy.Proxy.Tcp.{
  TcpConn, TcpState, TcpEvent, accepted, asked, dialed, copied, accept_error, closing, serve_tcp,
}
use da_proxy.Proxy.Tcp.Counted.{IsCounted, taken_of, serve_tcp-IsCounted}
use da_proxy.Proxy.WebSocket.{Connection, message, read_error, handle}
use da_proxy.Proxy.WebSocket.Dialed.{IsProxied, endpoints_for, handle-IsProxied}
use da_proxy.Tests.Data.{numbers, backends, draw}

abbrev with_grpc : BackendsConfig
with_grpc = record backends { celestia_app_grpc = codes "n:9090" ∷ [] }

abbrev router : Router
router = new_router_with_tracker with_grpc none

router-IsValid : IsValid router
router-IsValid = new_router_with_tracker-IsValid with_grpc none

abbrev call : Call
call = record {
  full_method = some (codes "/x/Y");
  client_ip = codes "1.2.3.4";
  dial_error = none;
  stream_error = none;
  client = frame (codes "q") none ∷ eof ∷ [];
  backend = frame (codes "a") none ∷ frame (codes "b") none ∷ eof ∷ [];
  timed_out = false;
  start = 5;
  elapsed = 7;
  latency = 8;
}

abbrev handled : Handled
handled = elim (stream_handler numbers draw call router) [
  | none ↦ failed (status_error 14 []) router
  | some h ↦ h
]

stream_handler-call : stream_handler numbers draw call router ≡ some handled
unfolding stream_handler new_router_with_tracker build_balancers new_balancer next_of next
stream_handler-call = refl

handled-error : handled.error ≡ none
unfolding stream_handler new_router_with_tracker build_balancers new_balancer next_of next
handled-error = refl

stream_handler-IsSuccess_example : IsSuccess numbers call handled
stream_handler-IsSuccess_example =
    stream_handler-IsSuccess numbers call draw router handled router-IsValid stream_handler-call
      handled-error

router-IsConfigured : IsConfigured router
unfolding new_router_with_tracker build_balancers new_balancer
router-IsConfigured = record { app = omega arith; node = omega arith }

-- Any text is a URL whose host is the text.
abbrev urls : Url
urls = record {
  parse = λ s. some (record { scheme = codes "http"; host = s; path = [] });
  print = λ u. u.host;
  query_height = λ _. none;
}

abbrev context : Context
context = record {
  path = codes "/ws";
  raw_path = [];
  raw_query = [];
  request_id = none;
  token_name = some (codes "t");
  rate_limit = none;
  token_info = none;
  backend = none;
  rpc_method = none;
  headers = [];
  status = 0;
  written = [];
}

abbrev connection : Connection
connection = record {
  authorization = [];
  dials = λ url header. true;
  upgrades = true;
  client = message 1 (codes "hi") true ∷ read_error ∷ [];
  backend = read_error ∷ [];
}

handle-IsProxied_example :
    IsProxied urls
      (codes "/ws")
      (endpoints_for (codes "/ws") router)
      (handle numbers urls [] connection draw context router)
handle-IsProxied_example =
    handle-IsProxied numbers urls [] connection draw context router (codes "t") refl router-IsValid
      router-IsConfigured (λ n p. p)

abbrev conn : TcpConn
conn = record {
  draw = draw;
  remote_addr = codes "1.2.3.4";
  dials = λ endpoint. true;
  sent = 3;
  received = 4;
  start = 5;
  duration = 6;
}

abbrev idle : TcpState
idle = record {
  router = router;
  started = [];
  dialing = [];
  active = [];
  counters = record { success = 0; error = 0; sent = 0; received = 0 };
  pushed = [];
}

idle-IsCounted : IsCounted 0 idle
idle-IsCounted = record { total = refl; entries = refl; valid = router-IsValid }

abbrev events : List TcpEvent
events =
    accepted conn
    ∷ accepted conn
    ∷ asked 0
    ∷ dialed 0
    ∷ copied 0
    ∷ asked 0
    ∷ closing
    ∷ accept_error
    ∷ dialed 0
    ∷ []

serve_tcp-IsCounted_example :
    let (returned, s) = serve_tcp numbers events false false idle in
    IsCounted (0 + taken_of events false false) s
    × ((returned ≡ false) ⊎ ((false ≡ true) ⊎ Memᴰ closing events))
serve_tcp-IsCounted_example = serve_tcp-IsCounted numbers events false 0 idle idle-IsCounted
