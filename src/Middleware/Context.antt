-- ===== src/Middleware/Context.antt =====
-- The part of `echo.Context` that the program uses, with the keys of
-- internal/middleware/context_keys.go as fields, and the handlers over it.
use da_proxy.Prelude.{List, [], ◌∷◌, Table, insert, Option, none, some, ℕ, ◌++◌, lookup}
use da_proxy.Prelude.Text.{Text}
use da_proxy.Prelude.Int.{ℤ}
use da_proxy.Auth.Token.{TokenInfo}

-- A value is `none` as long as no middleware has set it.
pub record Context : Type 0 where
  pub path : Text
  pub raw_path : Text
  pub raw_query : Text
  pub request_id : Option Text
  pub token_name : Option Text
  pub rate_limit : Option ℤ
  pub token_info : Option TokenInfo
  pub backend : Option Text
  pub rpc_method : Option Text
  -- the response: its headers, status and body
  pub headers : Table (List Text)
  pub status : ℕ
  pub written : Text

-- `*echo.HTTPError`
pub record HttpError : Type 0 where
  pub code : ℕ
  pub message : Text

-- `echo.HandlerFunc` over a program state `W`: the error, or `none` for nil.
abbrev pub Handler : Type 0 → Type 0
Handler W = Context → W → Option HttpError × Context × W

abbrev pub fail : ℕ → Text → Option HttpError
fail code message = some (record { code = code; message = message })

-- `Header.Set`, and `Header.Add`.
unfoldable pub set_header : Text → Text → Table (List Text) → Table (List Text)
unfolding insert
set_header name value headers = insert name (value ∷ []) headers

abbrev values : Option (List Text) → List Text
values none = []
values (some vs) = vs

unfoldable pub add_header : Text → Text → Table (List Text) → Table (List Text)
unfolding insert lookup
add_header name value headers = insert name (values (lookup name headers) ++ value ∷ []) headers

-- `c.Response().Header().Set`
abbrev pub put_header : Text → Text → Context → Context
put_header name value c = record c { headers = set_header name value c.headers }
