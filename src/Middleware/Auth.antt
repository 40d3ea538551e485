-- ===== src/Middleware/Auth.antt =====
-- internal/middleware/auth.go: the token in the first segment of the path.
pub mod Guards
pub mod Revoked
use da_proxy.Prelude.{
  ℕ, Bool, true, false, not, List, [], ◌∷◌, Option, none, some, ◌==◌, if◌then◌else◌, length,
}
use da_proxy.Prelude.Text.{Text, codes, cut_at, trim_prefix}
use da_proxy.Auth.Token.{TokenInfo, is_expired}
use da_proxy.Middleware.Context.{Context, Handler, fail}

-- The two slices at the first slash behind the leading one.
abbrev split_token : Text → Option (Text × Text) → Text × Text
split_token trimmed none = (trimmed, codes "/")
split_token trimmed (some (token, remaining)) = (token, remaining)

unfoldable pub extract_token : Text → Text × Text
extract_token path =
    let trimmed = trim_prefix path (codes "/") in
    if length trimmed == 0 then ([], codes "/") else split_token trimmed (cut_at b'/' trimmed)

-- The context that the next handler sees.
abbrev pub admit : TokenInfo → Text → Context → Context
admit info remaining c = record c {
  path = remaining;
  raw_path = [];
  token_name = some info.name;
  rate_limit = some info.rate_limit;
  token_info = some info;
}

module _ {W : Type 0} where
  -- What `Auth` does with the answer of `store.Lookup`.
  unfoldable pub check_token : ℕ → Handler W → Option TokenInfo → Text → Handler W
  check_token now next none remaining c w = (fail 401 (codes "invalid authentication token"), c, w)
  check_token now next (some info) remaining c w =
      if not info.enabled
      then (fail 403 (codes "token is disabled"), c, w)
      else if is_expired now info
      then (fail 401 (codes "token has expired"), c, w)
      else next (admit info remaining c) w

  -- `Auth` over a token store, whose lookup may reload its cache, at the time `now`.
  unfoldable pub auth : (Text → W → Option TokenInfo × W) → ℕ → Handler W → Handler W
  auth lookup now next c w =
      let (token, remaining) = extract_token c.path in
      if length token == 0
      then (fail 401 (codes "missing authentication token"), c, w)
      else (let (found, w') = lookup token w in check_token now next found remaining c w')
