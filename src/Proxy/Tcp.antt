-- ===== src/Proxy/Tcp.antt =====
-- internal/proxy/tcp_proxy.go: connections of the peer-to-peer port, whose bytes are copied in both directions.
pub mod Counted
use da_proxy.Prelude.{
  ℕ, zero, suc, get_elem?, ◌+◌, Bool, true, false, List, [], ◌∷◌, ◌++◌, Option, none, some, ◌||◌,
  if◌then◌else◌, length, ◌==◌,
}
use da_proxy.Prelude.Text.{Text, codes}
use da_proxy.Prelude.Int.{ℤ, pos}
use da_proxy.Logging.Entry.{LogEntry}
use da_proxy.Proxy.Float.{Float}
use da_proxy.Proxy.Balancer.{Draw}
use da_proxy.Proxy.Latency.{sample}
use da_proxy.Proxy.Router.{
  Backend, app_p2p, backend_name, Router, target_url, record_backend_latency,
}

-- A connection, with what the network makes of it: what rand draws for it, whether the backend can be dialed, and the bytes
-- that `io.Copy` has copied when each direction has ended.
pub record TcpConn : Type 0 where
  pub draw : Draw
  pub remote_addr : Text
  pub dials : Text → Bool
  pub sent : ℕ
  pub received : ℕ
  pub start : ℕ
  pub duration : ℕ

-- The counters of Prometheus: connections by status, and bytes by direction.
pub record Counters : Type 0 where
  pub success : ℕ
  pub error : ℕ
  pub sent : ℕ
  pub received : ℕ

-- What the proxy shares: the router, the goroutines by where they are, the counters, and the entries that each sink was given, the latest last. A goroutine
-- has been started for a connection, is dialing an endpoint, or is copying. The metrics are there, so `recordMetrics` counts.
pub record TcpState : Type 0 where
  pub router : Router
  pub started : List TcpConn
  pub dialing : List (TcpConn × Text)
  pub active : List (TcpConn × Text)
  pub counters : Counters
  pub pushed : List LogEntry

-- `recordMetrics`; a direction without bytes adds nothing.
abbrev pub record_error : TcpState → TcpState
record_error s = let m = s.counters in record s { counters = record m { error = m.error + 1 } }

abbrev pub record_success : ℕ → ℕ → TcpState → TcpState
record_success sent received s =
    let m = s.counters in
    record s {
      counters = record m {
        success = m.success + 1;
        sent = m.sent + sent;
        received = m.received + received;
      };
    }

abbrev pub remove_at {ℓ} : {A : Type ℓ} → ℕ → List A → List A
remove_at i [] = []
remove_at zero (x ∷ xs) = xs
remove_at (suc i) (x ∷ xs) = x ∷ remove_at i xs

module _ (fl : Float) where
  unfoldable pub tcp_entry : TcpConn → LogEntry
  unfolding sample
  tcp_entry conn = record {
    timestamp = conn.start;
    request_id = [];
    token_name = [];
    method = codes "tcp";
    backend = backend_name app_p2p;
    status_code = 0;
    latency_ms = sample fl conn.duration;
    request_bytes = pos 0;
    response_bytes = pos 0;
    client_ip = conn.remote_addr;
    error = [];
    path = codes "tcp";
  }

  abbrev pub relayed : TcpConn → Text → TcpState → TcpState
  relayed conn endpoint s =
      let s' =
        record_success conn.sent conn.received (record s {
          router = record_backend_latency fl app_p2p endpoint conn.duration s.router;
        }) in
      record s' { pushed = s'.pushed ++ tcp_entry conn ∷ [] }

  -- `handleConn` up to the dial, of the goroutine at a place of the list.
  abbrev pub selected : TcpConn → Text × Router → TcpState → TcpState
  selected conn (endpoint, r) s =
      let s' = record s { router = r } in
      if length endpoint == 0
      then record_error s'
      else record s' { dialing = (conn, endpoint) ∷ s'.dialing }

  abbrev pub selected_at : ℕ → Option TcpConn → TcpState → TcpState
  selected_at i none s = s
  selected_at i (some conn) s =
      selected conn (target_url fl conn.draw app_p2p s.router)
        (record s { started = remove_at i s.started })

  unfoldable pub select_conn : ℕ → TcpState → TcpState
  unfolding target_url
  select_conn i s = selected_at i (get_elem? s.started i) s

  -- `handleConn` from the answer of the dial up to the copies.
  abbrev pub connected_tcp : TcpConn → Text → TcpState → TcpState
  connected_tcp conn endpoint s =
      if conn.dials endpoint
      then record s { active = (conn, endpoint) ∷ s.active }
      else record_error s

  abbrev pub connected_at : ℕ → Option (TcpConn × Text) → TcpState → TcpState
  connected_at i none s = s
  connected_at i (some (conn, endpoint)) s =
      connected_tcp conn endpoint (record s { dialing = remove_at i s.dialing })

  unfoldable pub dial_conn : ℕ → TcpState → TcpState
  dial_conn i s = connected_at i (get_elem? s.dialing i) s

  -- `handleConn` behind the copies, of the goroutine at a place of the list.
  abbrev pub ended_at : ℕ → Option (TcpConn × Text) → TcpState → TcpState
  ended_at i none s = s
  ended_at i (some (conn, endpoint)) s =
      relayed conn endpoint (record s { active = remove_at i s.active })

  unfoldable pub end_conn : ℕ → TcpState → TcpState
  unfolding record_backend_latency tcp_entry
  end_conn i s = ended_at i (get_elem? s.active i) s

-- `Accept` answers with a connection; the goroutine at a place of its list has asked for its endpoint, its dial has answered, or both its copies have ended; `Accept` fails;
-- or `Close` sets the flag.
pub data TcpEvent : Type 0 where
  accepted : TcpConn → TcpEvent
  asked : ℕ → TcpEvent
  dialed : ℕ → TcpEvent
  copied : ℕ → TcpEvent
  accept_error : TcpEvent
  closing : TcpEvent

-- A goroutine is started for a connection.
abbrev pub begin_conn : TcpConn → TcpState → TcpState
begin_conn conn s = record s { started = conn ∷ s.started }

-- `Serve` with its goroutines, which go on after it has returned: whether it has, and the state. `closed` is the flag. Once it has returned, nothing is accepted.
unfoldable pub serve_tcp : Float → List TcpEvent → Bool → Bool → TcpState → Bool × TcpState
unfolding select_conn dial_conn end_conn
serve_tcp fl [] closed returned s = (returned, s)
serve_tcp fl (accepted conn ∷ events) closed false s =
    serve_tcp fl events closed false (begin_conn conn s)
serve_tcp fl (accepted conn ∷ events) closed true s = serve_tcp fl events closed true s
serve_tcp fl (asked i ∷ events) closed returned s =
    serve_tcp fl events closed returned (select_conn fl i s)
serve_tcp fl (dialed i ∷ events) closed returned s =
    serve_tcp fl events closed returned (dial_conn fl i s)
serve_tcp fl (copied i ∷ events) closed returned s =
    serve_tcp fl events closed returned (end_conn fl i s)
serve_tcp fl (accept_error ∷ events) closed returned s =
    serve_tcp fl events closed (returned || closed) s
serve_tcp fl (closing ∷ events) closed returned s = serve_tcp fl events true returned s
