-- ===== src/Auth/Store/Data.antt =====
-- internal/auth/store.go: the tokens, the requests, and what a row says of them.
use da_proxy.Prelude.{
  ℕ, Bool, true, List, [], ◌∷◌, Option, none, some, ◌==◌, if◌then◌else◌, length, take, Table,
  insert,
}
use da_proxy.Prelude.Text.{Text, codes}
use da_proxy.Prelude.Text.Split.{split, join}
use da_proxy.Prelude.Int.{ℤ, pos}
use da_proxy.Auth.Token.{TokenInfo, TokenConfig}
use da_proxy.Auth.Table.{Row, Settings}

pub record Token : Type 0 where
  pub id : ℤ
  pub name : Text
  pub token_prefix : Text
  pub enabled : Bool
  pub rate_limit : ℤ
  pub scope : Text
  pub allowed_methods : List Text
  pub expires_at : Option ℕ
  pub created_at : ℕ
  pub updated_at : ℕ

-- The keys of `ValidScopes`; the empty one is no restriction.
abbrev pub valid_scopes : List Text
valid_scopes = codes "read-only" ∷ codes "write" ∷ codes "admin" ∷ [] ∷ []

-- `none` for a pointer that is nil.
pub record CreateTokenRequest : Type 0 where
  pub name : Text
  pub enabled : Option Bool
  pub rate_limit : ℤ
  pub scope : Text
  pub allowed_methods : List Text
  pub expires_at : Option ℕ

pub record UpdateTokenRequest : Type 0 where
  pub name : Option Text
  pub enabled : Option Bool
  pub rate_limit : Option ℤ
  pub scope : Option Text
  pub allowed_methods : Option (List Text)
  pub expires_at : Option ℕ

-- `CreateTokenResult` and `RotateTokenResult`.
pub record IssuedToken : Type 0 where
  pub token : Token
  pub plaintext_token : Text

pub data StoreError : Type 0 where
  no_random : StoreError
  database : StoreError
  not_found : StoreError

-- The times are the ones of a monotonic clock, in nanoseconds.
pub record TokenStore (D : Type 0) : Type 0 where
  pub db : D
  pub cache : Table TokenInfo
  pub cache_ttl : ℕ
  pub last_load : ℕ

abbrev pub or_else {ℓ} : {A : Type ℓ} → Option A → A → A
or_else none d = d
or_else (some a) d = a

-- The column allowed_methods; a row that is scanned has been given a list, or nil.
unfoldable pub methods_of : Text → List Text
unfolding split
methods_of methods = if length methods == 0 then [] else split b',' methods

abbrev pub info_of : Row → TokenInfo
info_of r = record {
  name = r.settings.name;
  enabled = r.settings.enabled;
  rate_limit = r.settings.rate_limit;
  scope = r.settings.scope;
  allowed_methods = methods_of r.settings.allowed_methods;
  expires_at = r.settings.expires_at;
}

-- `scanToken` and `scanTokenRow` on a row that is there.
abbrev pub scan_token : Row → Token
scan_token r = record {
  id = pos r.id;
  name = r.settings.name;
  token_prefix = r.token_prefix;
  enabled = r.settings.enabled;
  rate_limit = r.settings.rate_limit;
  scope = r.settings.scope;
  allowed_methods = methods_of r.settings.allowed_methods;
  expires_at = r.settings.expires_at;
  created_at = r.created_at;
  updated_at = r.updated_at;
}

-- The loop of `loadCache`, over the rows in the order of the answer.
unfoldable pub cache_from : Table TokenInfo → List Row → Table TokenInfo
unfolding insert
cache_from m [] = m
cache_from m (r ∷ rs) = cache_from (insert r.token_hash (info_of r) m) rs

abbrev pub settings_of : Token → Settings
settings_of t = record {
  name = t.name;
  enabled = t.enabled;
  rate_limit = t.rate_limit;
  scope = t.scope;
  allowed_methods = join b',' t.allowed_methods;
  expires_at = t.expires_at;
}

abbrev pub apply_request : UpdateTokenRequest → Token → Token
apply_request req t = record t {
  name = or_else req.name t.name;
  enabled = or_else req.enabled t.enabled;
  rate_limit = or_else req.rate_limit t.rate_limit;
  scope = or_else req.scope t.scope;
  allowed_methods = or_else req.allowed_methods t.allowed_methods;
  expires_at = elim req.expires_at [ none ↦ t.expires_at | some at ↦ some at ];
}

abbrev pub new_token : CreateTokenRequest → Text → ℕ → ℤ → Token
new_token req plaintext now id = record {
  id = id;
  name = req.name;
  token_prefix = take 8 plaintext;
  enabled = or_else req.enabled true;
  rate_limit = req.rate_limit;
  scope = if length req.scope == 0 then codes "write" else req.scope;
  allowed_methods = req.allowed_methods;
  expires_at = req.expires_at;
  created_at = now;
  updated_at = now;
}

abbrev pub imported_settings : TokenConfig → Settings
imported_settings t = record {
  name = t.name;
  enabled = t.enabled;
  rate_limit = t.rate_limit;
  scope = [];
  allowed_methods = join b',' t.allowed_methods;
  expires_at = none;
}
