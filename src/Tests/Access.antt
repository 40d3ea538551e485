-- ===== src/Tests/Access.antt =====
-- Tokens, the authentication of a request, and the buffer of log entries.
use da_proxy.Prelude.Int.{pos}
use da_proxy.Middleware.Context.{Handler, Context}
use da_proxy.Prelude.{
  ltb, ◌-◌, ◌≢◌, refl, ◌≤◌, ℕ, ◌≡◌, ◌↔◌, ◌⊎◌, true, List, [], ◌∷◌, Option, none, some, Memᴰ, arith,
  take,
}
use da_proxy.Prelude.Text.{Text, codes, Lacks}
use da_proxy.Auth.Token.{TokenInfo, is_method_allowed, write_methods}
use da_proxy.Auth.Token.Permission.{Permits, is_method_allowed_iff}
use da_proxy.Middleware.Logger.{Request}
use da_proxy.Middleware.Logger.Recorded.{chain, IsRecorded, auth-recorded}
use da_proxy.Logging.RingBuffer.{
  Subscriber, RingBuffer, push, subscribe, notify, cancel, new_ring_buffer, entries,
}
use da_proxy.Logging.RingBuffer.History.{push_all, entries-push_all}
use da_proxy.Logging.RingBuffer.Subscribers.{Reaches, Reaches-new_ring_buffer}
use da_proxy.Middleware.RateLimit.{Limiters, passes}
use da_proxy.Middleware.RateLimit.Tokens.{allowed, passes-passes}
use da_proxy.Tests.Data.{reader}

is_method_allowed_iff_example : (is_method_allowed reader (codes "header.GetByHeight") ≡ true) ↔ (
    (reader.scope ≡ codes "read-only" → Memᴰ (codes "header.GetByHeight") write_methods → ⊥)
    × ((reader.allowed_methods ≡ [])
        ⊎ ((m : Text) × Memᴰ m reader.allowed_methods × Permits m (codes "header.GetByHeight"))))
is_method_allowed_iff_example = is_method_allowed_iff reader (codes "header.GetByHeight")

not_empty : codes "secret" ≢ []
not_empty e = ground arith

lacks : Lacks b'/' (codes "secret")
lacks = (
  λ e. omega arith,
  (
    λ e. omega arith,
    (λ e. omega arith, (λ e. omega arith, (λ e. omega arith, (λ e. omega arith, tt)))),
  ),
)

abbrev request : Context
request = record {
  path = codes "/secret/status";
  raw_path = [];
  raw_query = [];
  request_id = none;
  token_name = none;
  rate_limit = none;
  token_info = none;
  backend = none;
  rpc_method = none;
  headers = [];
  status = 0;
  written = [];
}

-- A store that knows every token, and a count of its lookups.
abbrev find_any : Text → ℕ → Option TokenInfo × ℕ
find_any token w = (some reader, w)

abbrev five : List ℕ
five = 10 ∷ 20 ∷ 30 ∷ 40 ∷ 50 ∷ []

entries-push_all_example :
    entries (pos 2) (push_all five (new_ring_buffer 0 3)) ≡ take 2 (50 ∷ 40 ∷ 30 ∷ 20 ∷ 10 ∷ [])
entries-push_all_example = entries-push_all 0 3 five (pos 2) (omega arith)

abbrev empty : RingBuffer ℕ
empty = new_ring_buffer 0 3

abbrev listening : RingBuffer ℕ
listening = push 10 (subscribe empty).1

abbrev listener : Subscriber ℕ
listener = record { channel = 0; waiting = 10 ∷ [] }

listens : Memᴰ listener listening.subscribers
unfolding push subscribe new_ring_buffer notify
listens = Memᴰ.head refl

Reaches-new_ring_buffer_example :
    (¬ Memᴰ 0 listening.closed) × (1 ≤ 100) × ((r : RingBuffer ℕ) × (cancel 0 listening ≡ some r))
Reaches-new_ring_buffer_example =
    Reaches-new_ring_buffer 0 3 listener (Reaches.pushed 10 (Reaches.subscribed Reaches.start))
      listens

-- Limiters that count down from their burst.
abbrev counters : Limiters ℕ
counters = record { new = λ rate burst. burst; allow = λ now n. (ltb 0 n, n - 1) }

apart : codes "alice" ≢ codes "bob"
apart e = ground arith

passes-passes_example :
    ((passes counters 7
        (some (codes "bob"))
        (some (pos 20))
        (passes counters 5 (some (codes "alice")) (some (pos 10)) []).1).0
      ≡ (passes counters 7 (some (codes "bob")) (some (pos 20)) []).0)
    × ((passes counters 7
          (some (codes "bob"))
          (some (pos 20))
          (passes counters 5 (some (codes "alice")) (some (pos 10)) []).1).0
        ≡ allowed counters 7 (codes "bob") (some (pos 20)) [])
passes-passes_example =
    passes-passes counters 5 7 (codes "alice") (codes "bob") (some (pos 10)) (some (pos 20)) []
      apart

abbrev observed : Request
observed = record { content_length = pos 3; real_ip = codes "1.2.3.4"; start = 5; latency_ms = 0 }

abbrev answer : Handler ℕ
answer c w = (none, record c { status = 200 }, w)

auth-recorded_example :
    IsRecorded counters find_any answer observed 50 7 request [] [] [] 0
      (chain counters find_any answer observed 50 7 request ([], ([], ([], 0))))
auth-recorded_example = auth-recorded counters find_any answer observed 50 7 request [] [] [] 0
