-- ===== src/Proxy/Decode.antt =====
-- What the code asks of `encoding/json` and `net/url`. The answer `none` is an error.
use da_proxy.Prelude.{Table, List, Option}
use da_proxy.Prelude.Text.{Text}

-- `json.Unmarshal` at the types that the code decodes into.
pub record Json : Type 0 where
  -- into `[]jsonRPCRequest` and `jsonRPCRequest`: the methods, "" where there is none
  pub batch : Text → Option (List Text)
  pub request : Text → Option Text
  -- into a struct with the one field `params` or `error`: its raw text, "" where it is absent
  pub params : Text → Option Text
  pub error : Text → Option Text
  -- into `[]json.RawMessage`, `map[string]json.RawMessage` and `string`
  pub elements : Text → Option (List Text)
  pub fields : Text → Option (Table Text)
  pub string : Text → Option Text

pub record ParsedUrl : Type 0 where
  pub scheme : Text
  pub host : Text
  pub path : Text

pub record Url : Type 0 where
  -- `url.Parse`
  pub parse : Text → Option ParsedUrl
  -- `(*url.URL).String`
  pub print : ParsedUrl → Text
  -- `url.ParseQuery` and then `Get("height")`, "" where there is none
  pub query_height : Text → Option Text
