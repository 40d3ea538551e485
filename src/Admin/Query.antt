-- ===== src/Admin/Query.antt =====
-- internal/admin/handlers.go: what the parameters of a request ask of the log.
pub mod Limits
use da_proxy.Prelude.{
  ℕ, suc, ◌+◌, ◌-◌, ◌*◌, ◌^◌, Bool, true, false, not, ◌&&◌, List, [], ◌∷◌, Option, none, some, ◌==◌,
  ltb, leb, if◌then◌else◌,
}
use da_proxy.Prelude.Text.{Text, codes, same}
use da_proxy.Prelude.Int.{ℤ, pos, negsuc, sub_ℕ, ltb_ℤ}
use da_proxy.Logging.Query.{LogFilter}

-- `strconv.ParseUint` in base 10: `none` for a syntax error, the largest number from the digit on at which the value
-- does not fit.
unfoldable pub magnitude : ℕ → Text → Option ℕ
magnitude acc [] = some acc
magnitude acc (c ∷ s) =
    let acc' = acc * 10 + (c - b'0') in
    let rest = magnitude acc' s in
    if not (leb b'0' c && leb c b'9')
    then none
    else if ltb acc' (2 ^ 64)
    then rest
    else some (2 ^ 64 - 1)

unfoldable pub unsigned : Text → Option ℕ
unfolding magnitude
unsigned [] = none
unsigned (c ∷ s) = magnitude 0 (c ∷ s)

abbrev pub signed : Bool → Option ℕ → ℤ
signed negative none = pos 0
signed true (some n) = if leb n (2 ^ 63) then sub_ℕ 0 n else negsuc (2 ^ 63 - 1)
signed false (some n) = if ltb n (2 ^ 63) then pos n else pos (2 ^ 63 - 1)

-- The number that `strconv.Atoi` and `strconv.ParseInt` return, beside an error or not: 0 for a syntax error,
-- and the nearest number where the value is out of range.
unfoldable pub int_value : Text → ℤ
unfolding unsigned
int_value [] = pos 0
int_value (c ∷ s) =
    if c == b'-'
    then signed true (unsigned s)
    else if c == b'+'
    then signed false (unsigned s)
    else signed false (unsigned (c ∷ s))

-- `if v := c.QueryParam(…); v != ""`
abbrev pub number_param : Text → ℤ
number_param [] = pos 0
number_param (c ∷ s) = int_value (c ∷ s)

abbrev pub time_param : (Text → Option ℕ) → Text → Option ℕ
time_param parse_time [] = none
time_param parse_time (c ∷ s) = parse_time (c ∷ s)

abbrev pub float_param : {F : Type 0} → F → (Text → F) → Text → F
float_param zero_float parse_float [] = zero_float
float_param zero_float parse_float (c ∷ s) = parse_float (c ∷ s)

abbrev pub at_least_one : ℤ → ℤ
at_least_one limit = if not (ltb_ℤ (pos 0) limit) then pos 100 else limit

abbrev pub at_most_1000 : ℤ → ℤ
at_most_1000 limit = if ltb_ℤ (pos 1000) limit then pos 1000 else limit

-- `param` is `c.QueryParam`; `parse_time` gives `none` for the zero time, which `time.Parse` returns with an
-- error; `parse_float` is the float64 that `strconv.ParseFloat` returns, beside an error or not.
unfoldable pub parse_log_filter :
    {F : Type 0} → F → (Text → Option ℕ) → (Text → F) → (Text → Text) → LogFilter F
unfolding int_value same
parse_log_filter zero_float parse_time parse_float param = record {
  method = param (codes "method");
  token_name = param (codes "token_name");
  backend = param (codes "backend");
  status_code = number_param (param (codes "status_code"));
  status_min = number_param (param (codes "status_min"));
  status_max = number_param (param (codes "status_max"));
  from = time_param parse_time (param (codes "from"));
  to = time_param parse_time (param (codes "to"));
  latency_min = float_param zero_float parse_float (param (codes "latency_min"));
  limit = at_most_1000 (at_least_one (number_param (param (codes "limit"))));
  cursor = number_param (param (codes "cursor"));
  sort_desc = not (same (param (codes "sort")) (codes "asc"));
}
