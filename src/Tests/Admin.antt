-- ===== src/Tests/Admin.antt =====
-- internal/admin: requests for tokens, over a table in memory.
use Prim.Native.Nat.{min}
use da_proxy.Prelude.{
  false, take, reverse, arith, ℕ, ◌≡◌, ◌≢◌, refl, [], ◌∷◌, List, Memᴰ, none, some, ok,
  if◌then◌else◌,
}
use da_proxy.Prelude.Text.{Text, codes, listed, same}
use da_proxy.Prelude.Text.Split.{join}
use da_proxy.Prelude.Int.{ℤ, pos, parse_int}
use da_proxy.Prelude.Text.Decimal.{to_decimal}
use da_proxy.Logging.Entry.{LogEntry}
use da_proxy.Logging.RingBuffer.{new_ring_buffer}
use da_proxy.Logging.RingBuffer.History.{push_all}
use da_proxy.Admin.Query.{parse_log_filter}
use da_proxy.Admin.Logs.{Page, handle_logs}
use da_proxy.Admin.Logs.Buffered.{handle_logs-push_all}
use da_proxy.Auth.Table.{Row, TokenTable, find_hash, find_id, without_id, insert_row, delete_row}
use da_proxy.Auth.Store.{TokenStore, valid_scopes, create, delete, find, load_cache}
use da_proxy.Auth.Store.View.{known}
use da_proxy.Auth.Store.Issued.{requested}
use da_proxy.Middleware.Context.{Context, Handler}
use da_proxy.Middleware.Auth.{auth, extract_token}
use da_proxy.Middleware.Auth.Revoked.{IsUnauthorized}
use da_proxy.Admin.{json, no_content, rejected}
use da_proxy.Admin.Tokens.{
  issued_token, creating, deleting, serve_tokens, handle_create_token, handle_delete_token,
}
use da_proxy.Admin.Tokens.Unchanged.{serve_tokens-unchanged}
use da_proxy.Admin.Tokens.Requests.{Request, admin, proxied, requests, requests-find}
use da_proxy.Admin.Tokens.Revoked.{handle_delete_token-auth, handle_create_token-find}
use da_proxy.Tests.Store.{
  memory, table, memory-IsDatabase, memory-IsReadable, hash, first, empty, empty-IsProper, opened,
  opened-IsSynced, new_token_store-empty, first-IsListable, used, used-IsSynced, issued,
}

-- A token is made, used, and deleted by a request for its id; another is made.
abbrev asked : List (ℕ × Request)
asked =
    (20, admin (creating (some first) (some (codes "a"))))
    ∷ (30, proxied (codes "a"))
    ∷ (40, admin (deleting (codes "1")))
    ∷ (50, admin (creating (some first) (some (codes "b"))))
    ∷ []

requests-find_example :
    (s' : TokenStore TokenTable) × (requests memory hash asked (some opened) ≡ some s')
    × ((find memory hash (codes "b") 80 s').0 ≡ known (find_hash (hash (codes "b")) s'.db.rows))
requests-find_example =
    requests-find memory table memory-IsDatabase memory-IsReadable hash (some empty) 60 10 opened
      asked (codes "b") 80 empty-IsProper new_token_store-empty

serve_tokens-missing :
    serve_tokens memory hash 40 (deleting (codes "7")) (some used)
    ≡ (rejected 404 (codes "token not found"), some used)
unfolding serve_tokens handle_delete_token delete delete_row find_id without_id parse_int
serve_tokens-missing = refl

serve_tokens-unchanged_example : used.db ≡ used.db
serve_tokens-unchanged_example =
    serve_tokens-unchanged memory table memory-IsDatabase hash 40 (deleting (codes "7")) used used
      (record { code = 404; message = codes "token not found" }) serve_tokens-missing

abbrev deleted : TokenStore TokenTable
deleted = (delete memory (pos 1) 40 used).1

handle_delete_token-used :
    handle_delete_token memory (codes "1") 40 (some used) ≡ (ok (no_content 204), some deleted)
unfolding handle_delete_token delete delete_row find_id parse_int
handle_delete_token-used = refl

handle_delete_token-auth_example :
    (i : ℤ) × (r : Row) × (parse_int (codes "1") ≡ some i)
    × (find_id i used.db.rows ≡ some r)
    × ((later : ℕ) (next : Handler (TokenStore TokenTable)) (c : Context)
        → hash (extract_token c.path).0 ≡ r.token_hash
        → IsUnauthorized c (auth (λ token. find memory hash token later) later next c deleted))
handle_delete_token-auth_example =
    handle_delete_token-auth memory table memory-IsDatabase memory-IsReadable hash (codes "1") 40
      204 used deleted used-IsSynced handle_delete_token-used

handle_create_token-opened :
    handle_create_token memory hash (some first) (some (codes "a")) 20 (some opened)
    ≡ (ok (json 201 (issued_token issued)), some used)
unfolding handle_create_token create insert_row find_hash load_cache join listed
handle_create_token-opened = refl

handle_create_token-find_example :
    (first.name ≢ [])
    × Memᴰ first.scope valid_scopes
    × ((find memory hash issued.plaintext_token 90 used).0 ≡ some (requested first))
handle_create_token-find_example =
    handle_create_token-find memory table memory-IsDatabase memory-IsReadable hash first
      (some (codes "a")) 20 90 201 issued opened used first-IsListable opened-IsSynced
      handle_create_token-opened

abbrev entry : Text → LogEntry
entry id = record {
  timestamp = 0;
  request_id = id;
  token_name = [];
  method = [];
  backend = [];
  status_code = 200;
  latency_ms = 0;
  request_bytes = pos 0;
  response_bytes = pos 0;
  client_ip = [];
  error = [];
  path = [];
}

abbrev three : List LogEntry
three = entry (codes "a") ∷ entry (codes "b") ∷ entry (codes "c") ∷ []

-- `?limit=2`
abbrev two_entries : Text → Text
two_entries name = if same name (codes "limit") then codes "2" else []

limit-two_entries : two_entries (codes "limit") ≡ to_decimal 2
unfolding same to_decimal
limit-two_entries = refl

handle_logs-push_all_example :
    (p : Page) × (handle_logs {F = ℕ} none
        (some (push_all three (new_ring_buffer (entry []) 5)))
        (parse_log_filter 0 (λ s. none) (λ s. 0) two_entries)
      ≡ ok (json 200 p))
    × (p.logs ≡ take (min (min 2 1000) (min 3 5)) (reverse three))
    × (p.has_more ≡ false)
handle_logs-push_all_example =
    handle_logs-push_all 0 (λ s. none) (λ s. 0) (entry []) 5 three two_entries 2 (omega arith)
      limit-two_entries (omega arith)
