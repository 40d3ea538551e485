-- ===== src/Proxy/Exchange.antt =====
-- internal/proxy/handler.go: the answers of the nodes.
-- An exchange with a node is one call of the transport: it answers with the whole response, or
-- `none` where the node cannot be reached, and with the time that it took.
use da_proxy.Prelude.{
  ℕ, Bool, false, not, ◌&&◌, ◌||◌, List, [], Option, none, some, ◌==◌, if◌then◌else◌, length, Table,
}
use da_proxy.Prelude.Text.{Text, codes, same, contains, to_lower}
use da_proxy.Proxy.Decode.{Json, ParsedUrl}

-- What the director sets of the request that goes to a node.
pub record OutRequest : Type 0 where
  pub scheme : Text
  pub host : Text
  pub path : Text
  pub raw_query : Text
  -- `none` for nil
  pub body : Option Text

pub record Response : Type 0 where
  pub status : ℕ
  pub headers : Table (List Text)
  pub body : Text

abbrev pub Transport : Type 0 → Type 0
Transport N = OutRequest → N → (Option Response × ℕ) × N

unfoldable pub director : ParsedUrl → Text → Text → Option Text → OutRequest
director target path raw_query body = record {
  scheme = target.scheme;
  host = target.host;
  path = if not (length path == 0) && not (same path (codes "/")) then path else codes "/";
  raw_query = raw_query;
  body = body;
}

-- What the error handlers write.
abbrev pub unavailable : Text
unavailable = codes "{\"error\":\"backend unavailable\"}"

abbrev pub missing_block : Text → Bool
missing_block text =
    contains text (codes "is not available")
    || contains text (codes "block not found")
    || contains text (codes "header not found")
    || contains text (codes "lowest height is")
    || contains text (codes "height must be less than or equal")
    || contains text (codes "could not find results")

-- What is left to test once the body has been decoded into its field `error`.
unfoldable pub is_missing : Option Text → Bool
is_missing none = false
is_missing (some error) =
    if length error == 0 || same error (codes "null") then false else missing_block (to_lower error)

unfoldable pub is_pruned_error : Json → ℕ → Text → Bool
is_pruned_error json status body =
    if not (status == 200) && not (status == 500)
    then false
    else if length body == 0
    then false
    else is_missing (json.error body)

-- What a `bufferedResponseWriter` holds after `ServeHTTP`.
abbrev pub buffered : Option Response → Response
buffered none = record { status = 502; headers = []; body = unavailable }
buffered (some response) = response
