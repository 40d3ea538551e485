-- ===== src/Proxy/Grpc.antt =====
-- internal/proxy/grpc_proxy.go: a gRPC call, whose frames are forwarded as they are.
pub mod Complete
use da_proxy.Prelude.{
  ℕ, Bool, true, false, List, [], ◌∷◌, ◌++◌, Option, none, some, if◌then◌else◌, length, ◌==◌,
}
use da_proxy.Prelude.Text.{Text, codes}
use da_proxy.Prelude.Int.{ℤ, pos}
use da_proxy.Logging.Entry.{LogEntry}
use da_proxy.Proxy.Float.{Float}
use da_proxy.Proxy.Balancer.{Draw}
use da_proxy.Proxy.Latency.{sample}
use da_proxy.Proxy.Router.{
  Backend, app_grpc, backend_name, Router, target_url, record_backend_latency,
}

-- An error: its words, and its code where `status.FromError` knows one.
pub record GrpcError : Type 0 where
  pub code : Option ℕ
  pub message : Text

-- What a round of a loop meets: a frame, with what `SendMsg` then answers on the other side; `io.EOF`; another error.
pub data Round : Type 0 where
  frame : Text → Option GrpcError → Round
  eof : Round
  broken : GrpcError → Round

-- How far a loop has come: the frames that `SendMsg` took, and its result once it has returned.
pub record Forwarded : Type 0 where
  pub sent : List Text
  pub result : Option (Option GrpcError)
  -- `CloseSend` has been called.
  pub closed : Bool

abbrev returned : Option GrpcError → Bool → Forwarded
returned e closed = record { sent = []; result = some e; closed = closed }

abbrev pub sent_first : Text → Forwarded → Forwarded
sent_first payload f = record f { sent = payload ∷ f.sent }

unfoldable pub forward_client_to_backend : List Round → Forwarded
forward_client_to_backend [] = record { sent = []; result = none; closed = false }
forward_client_to_backend (eof ∷ rounds) = returned none true
forward_client_to_backend (broken e ∷ rounds) = returned (some e) true
forward_client_to_backend (frame payload (some e) ∷ rounds) = returned (some e) false
forward_client_to_backend (frame payload none ∷ rounds) =
    sent_first payload (forward_client_to_backend rounds)

unfoldable pub forward_backend_to_client : List Round → Forwarded
forward_backend_to_client [] = record { sent = []; result = none; closed = false }
forward_backend_to_client (eof ∷ rounds) = returned none false
forward_backend_to_client (broken e ∷ rounds) = returned (some e) false
forward_backend_to_client (frame payload (some e) ∷ rounds) = returned (some e) false
forward_backend_to_client (frame payload none ∷ rounds) =
    sent_first payload (forward_backend_to_client rounds)

-- A call, with what the network makes of it. `client` and `backend` are the rounds of the two loops.
pub record Call : Type 0 where
  pub full_method : Option Text
  pub client_ip : Text
  -- the errors of `grpc.NewClient` and `conn.NewStream`
  pub dial_error : Option GrpcError
  pub stream_error : Option GrpcError
  pub client : List Round
  pub backend : List Round
  -- The five seconds after the end of the answer have passed before the other loop returned.
  pub timed_out : Bool
  -- the start, and what `time.Since` answers the first and the last time, in nanoseconds
  pub start : ℕ
  pub elapsed : ℕ
  pub latency : ℕ

-- What the handler has done when it returns. Each sink is given the entry.
pub record Handled : Type 0 where
  pub error : Option GrpcError
  pub to_client : List Text
  pub to_backend : List Text
  pub router : Router
  pub pushed : Option LogEntry

abbrev pub failed : GrpcError → Router → Handled
failed e r = record { error = some e; to_client = []; to_backend = []; router = r; pushed = none }

abbrev pub status_error : ℕ → Text → GrpcError
status_error code message = record { code = some code; message = message }

abbrev pub grpc_code : Option GrpcError → ℕ
grpc_code none = 0
grpc_code (some e) = elim e.code [ none ↦ 2 | some code ↦ code ]

abbrev pub message_of : Option GrpcError → Text
message_of none = []
message_of (some e) = e.message

-- The error of the backend before that of the client.
abbrev pub return_error : Option GrpcError → Option GrpcError → Option GrpcError
return_error none c = c
return_error (some e) c = some e

abbrev pub awaited : Bool → Option (Option GrpcError) → Option GrpcError
awaited true result = none
awaited false none = none
awaited false (some e) = e

module _ (fl : Float) where
  unfoldable pub entry_of : Call → Text → Option GrpcError → LogEntry
  unfolding sample
  entry_of call method error = record {
    timestamp = call.start;
    request_id = [];
    token_name = [];
    method = method;
    backend = backend_name app_grpc;
    status_code = grpc_code error;
    latency_ms = sample fl call.latency;
    request_bytes = pos 0;
    response_bytes = pos 0;
    client_ip = call.client_ip;
    error = message_of error;
    path = codes "grpc";
  }

  abbrev pub concluded :
      Call → Text → Text → Forwarded → Forwarded → Option GrpcError → Router → Handled
  concluded call method endpoint c2b b2c error r = record {
    error = error;
    to_client = b2c.sent;
    to_backend = c2b.sent;
    router = record_backend_latency fl app_grpc endpoint call.elapsed r;
    pushed = some (entry_of call method error);
  }

  -- `none` as long as the backend has not ended its answer.
  abbrev pub ended :
      Call
      → Text
      → Text
      → Forwarded
      → Forwarded
      → Option (Option GrpcError)
      → Router
      → Option Handled
  ended call method endpoint c2b b2c none r = none
  ended call method endpoint c2b b2c (some e) r = some (
      concluded call method endpoint c2b b2c (return_error e (awaited call.timed_out c2b.result)) r)

  abbrev pub opened : Call → Text → Text → Option GrpcError → Router → Option Handled
  opened call method endpoint (some e) r = some (failed e r)
  opened call method endpoint none r =
      let c2b = forward_client_to_backend call.client in
      let b2c = forward_backend_to_client call.backend in
      ended call method endpoint c2b b2c b2c.result r

  abbrev pub dialed : Call → Text → Text → Option GrpcError → Router → Option Handled
  dialed call method endpoint (some e) r =
      some (failed (status_error 14 (codes "backend connection failed: " ++ e.message)) r)
  dialed call method endpoint none r = opened call method endpoint call.stream_error r

  abbrev pub chosen : Call → Text → Text × Router → Option Handled
  chosen call method (endpoint, r) =
      if length endpoint == 0
      then some (failed (status_error 14 (codes "no gRPC backend available")) r)
      else dialed call method endpoint call.dial_error r

  abbrev pub named : Draw → Call → Option Text → Router → Option Handled
  named d call none r = some (failed (status_error 13 (codes "failed to get method from stream")) r)
  named d call (some method) r = chosen call method (target_url fl d app_grpc r)

  unfoldable pub stream_handler : Draw → Call → Router → Option Handled
  unfolding forward_client_to_backend forward_backend_to_client target_url record_backend_latency
      entry_of
  stream_handler d call r = named d call call.full_method r
