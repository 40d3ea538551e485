-- ===== src/Admin/Tokens.antt =====
-- internal/admin/token_handlers.go: the tokens over HTTP.
pub mod Unchanged
pub mod Requests
pub mod Revoked
use da_proxy.Prelude.{
  ℕ, Bool, false, not, ◌&&◌, List, Option, none, some, if◌then◌else◌, length, ◌==◌, Result, ok, err,
}
use da_proxy.Prelude.Text.{Text, codes, listed}
use da_proxy.Prelude.Int.{ℤ, parse_int}
use da_proxy.Auth.Table.{Database}
use da_proxy.Auth.Store.{
  Token, CreateTokenRequest, UpdateTokenRequest, IssuedToken, StoreError, TokenStore, valid_scopes,
  or_else, get, list, create, update, delete, rotate,
}
use da_proxy.Admin.{Answer, json, no_content, rejected}

-- The value that is printed.
pub data Body : Type 0 where
  token_list : List Token → Body
  one_token : Token → Body
  issued_token : IssuedToken → Body

-- The answer, and `deps.TokenStore`, which is `none` for nil.
abbrev pub Served : Type 0 → Type 0
Served D = Answer Body × Option (TokenStore D)

abbrev pub is_scope_refused : Option Text → Bool
is_scope_refused none = false
is_scope_refused (some scope) = not (listed valid_scopes scope)

abbrev pub refused : {D : Type 0} → ℕ → Text → TokenStore D → Served D
refused code message s = (rejected code message, some s)

abbrev pub invalid_id : {D : Type 0} → TokenStore D → Served D
invalid_id s = refused 400 (codes "invalid token ID") s

abbrev pub invalid_body : {D : Type 0} → TokenStore D → Served D
invalid_body s = refused 400 (codes "invalid request body") s

abbrev pub invalid_scope : {D : Type 0} → TokenStore D → Served D
invalid_scope s = refused 400 (codes "invalid scope: must be read-only, write, or admin") s

abbrev pub unavailable : {D : Type 0} → Served D
unavailable = (rejected 503 (codes "token store not configured"), none)

module _ {D : Type 0} where
  abbrev pub list_reply : Result StoreError (List Token) × TokenStore D → Served D
  list_reply (err e, s) = refused 500 (codes "failed to list tokens") s
  list_reply (ok tokens, s) = (ok (json 200 (token_list tokens)), some s)

  abbrev pub token_reply : Text → Result StoreError (Option Token) × TokenStore D → Served D
  token_reply message (err e, s) = refused 500 message s
  token_reply message (ok none, s) = refused 404 (codes "token not found") s
  token_reply message (ok (some t), s) = (ok (json 200 (one_token t)), some s)

  abbrev pub create_reply : Result StoreError IssuedToken × TokenStore D → Served D
  create_reply (err e, s) = refused 500 (codes "failed to create token") s
  create_reply (ok t, s) = (ok (json 201 (issued_token t)), some s)

  abbrev pub delete_reply : Result StoreError ℕ × TokenStore D → Served D
  delete_reply (err e, s) = refused 404 (codes "token not found") s
  delete_reply (ok n, s) = (ok (no_content 204), some s)

  abbrev pub rotate_reply : Result StoreError IssuedToken × TokenStore D → Served D
  rotate_reply (err e, s) = refused 404 (codes "token not found") s
  rotate_reply (ok t, s) = (ok (json 200 (issued_token t)), some s)

-- `id` is the parameter of the path, `bound` what `c.Bind` makes of the body, `none` for an error.
module _ {D : Type 0} (conn : Database D) where
  unfoldable pub handle_list_tokens : Option (TokenStore D) → Served D
  handle_list_tokens none = unavailable
  handle_list_tokens (some s) = list_reply (list conn s)

  abbrev pub get_id : Option ℤ → TokenStore D → Served D
  get_id none s = invalid_id s
  get_id (some id) s = token_reply (codes "failed to get token") (get conn id s)

  unfoldable pub handle_get_token : Text → Option (TokenStore D) → Served D
  handle_get_token id none = unavailable
  handle_get_token id (some s) = get_id (parse_int id) s

  abbrev pub update_id : Option ℤ → Option UpdateTokenRequest → ℕ → TokenStore D → Served D
  update_id none bound now s = invalid_id s
  update_id (some id) none now s = invalid_body s
  update_id (some id) (some req) now s =
      if is_scope_refused req.scope
      then invalid_scope s
      else token_reply (codes "failed to update token") (update conn id req now s)

  unfoldable pub handle_update_token :
      Text → Option UpdateTokenRequest → ℕ → Option (TokenStore D) → Served D
  unfolding listed
  handle_update_token id bound now none = unavailable
  handle_update_token id bound now (some s) = update_id (parse_int id) bound now s

  abbrev pub delete_id : Option ℤ → ℕ → TokenStore D → Served D
  delete_id none now s = invalid_id s
  delete_id (some id) now s = delete_reply (delete conn id now s)

  unfoldable pub handle_delete_token : Text → ℕ → Option (TokenStore D) → Served D
  handle_delete_token id now none = unavailable
  handle_delete_token id now (some s) = delete_id (parse_int id) now s

-- `random` is what is drawn for a new token.
module _ {D : Type 0} (conn : Database D) (hash_token : Text → Text) where
  abbrev pub create_bound : Option CreateTokenRequest → Option Text → ℕ → TokenStore D → Served D
  create_bound none random now s = invalid_body s
  create_bound (some req) random now s =
      if length req.name == 0
      then refused 400 (codes "name is required") s
      else if not (length req.scope == 0) && not (listed valid_scopes req.scope)
      then invalid_scope s
      else create_reply (create conn hash_token req random now s)

  unfoldable pub handle_create_token :
      Option CreateTokenRequest → Option Text → ℕ → Option (TokenStore D) → Served D
  unfolding listed
  handle_create_token bound random now none = unavailable
  handle_create_token bound random now (some s) = create_bound bound random now s

  abbrev pub rotate_id : Option ℤ → Option Text → ℕ → TokenStore D → Served D
  rotate_id none random now s = invalid_id s
  rotate_id (some id) random now s = rotate_reply (rotate conn hash_token id random now s)

  unfoldable pub handle_rotate_token : Text → Option Text → ℕ → Option (TokenStore D) → Served D
  handle_rotate_token id random now none = unavailable
  handle_rotate_token id random now (some s) = rotate_id (parse_int id) random now s

-- A request to one of the routes under /admin/api/tokens, with what is drawn for it.
pub data TokenRequest : Type 0 where
  listing : TokenRequest
  creating : Option CreateTokenRequest → Option Text → TokenRequest
  getting : Text → TokenRequest
  updating : Text → Option UpdateTokenRequest → TokenRequest
  deleting : Text → TokenRequest
  rotating : Text → Option Text → TokenRequest

unfoldable pub serve_tokens :
    {D : Type 0} → Database D → (Text → Text) → ℕ → TokenRequest → Option (TokenStore D) → Served D
unfolding handle_list_tokens handle_create_token handle_get_token handle_update_token
    handle_delete_token handle_rotate_token
serve_tokens conn hash now listing s = handle_list_tokens conn s
serve_tokens conn hash now (creating bound random) s =
    handle_create_token conn hash bound random now s
serve_tokens conn hash now (getting id) s = handle_get_token conn id s
serve_tokens conn hash now (updating id bound) s = handle_update_token conn id bound now s
serve_tokens conn hash now (deleting id) s = handle_delete_token conn id now s
serve_tokens conn hash now (rotating id random) s = handle_rotate_token conn hash id random now s
