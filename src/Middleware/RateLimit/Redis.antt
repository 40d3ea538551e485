-- ===== src/Middleware/RateLimit/Redis.antt =====
-- internal/middleware/ratelimit_redis.go: a limit in Redis that several instances share. The client is a parameter.
pub mod Window
use da_proxy.Prelude.{
  ℕ, suc, ◌+◌, ◌-◌, ◌/◌, ◌≡◌, ◌≢◌, Bool, true, false, not, List, [], ◌∷◌, ◌++◌, Option, none, some,
  ◌==◌, ltb, leb, if◌then◌else◌, length,
}
use da_proxy.Prelude.Text.{Text, codes}
use da_proxy.Prelude.Text.Decimal.{to_decimal}
use da_proxy.Prelude.Int.{ℤ, pos, negsuc, sub_ℕ, ltb_ℤ}
use da_proxy.Middleware.Context.{Context, HttpError, Handler, fail, put_header}

-- The pipeline of `Allow` on the sorted set of a key: ZREMRANGEBYSCORE from 0 to the start of the window, ZCARD, ZADD of the
-- time, EXPIRE. It answers with what ZCARD counts, `none` for an error.
pub record Redis (R : Type 0) : Type 0 where
  pub exec : Text → ℕ → ℕ → R → Option ℕ × R

abbrev pub counted : ℤ → Option ℕ → Bool
counted rate none = true
counted rate (some count) = ltb_ℤ (pos count) rate

-- `Allow` at a time in milliseconds since 1970.
unfoldable pub allow : {R : Type 0} → Redis R → ℕ → Text → ℤ → R → Bool × R
allow redis now token_name rate_per_minute r =
    let (count, r') = redis.exec (codes "ratelimit:" ++ token_name) (now - 60000) now r in
    (counted rate_per_minute count, r')

-- Go's `60/ratePerMinute + 1` in decimal.
abbrev print_int : ℤ → Text
print_int (pos n) = to_decimal n
print_int (negsuc n) = b'-' ∷ to_decimal (suc n)

unfoldable pub retry_after : ℤ → Text
unfolding to_decimal
retry_after (pos n) = to_decimal (60 / n + 1)
retry_after (negsuc n) = print_int (sub_ℕ 1 (60 / suc n))

abbrev pub is_zero : ℤ → Bool
is_zero (pos n) = n == 0
is_zero (negsuc n) = false

module _ {R W : Type 0} (redis : Redis R) (now : ℕ) (next : Handler (R × W)) (c : Context) where
  abbrev pub limited : ℤ → Bool × R → W → Option HttpError × Context × (R × W)
  limited rate (true, r) w = next c (r, w)
  limited rate (false, r) w = (
    fail 429 (codes "rate limit exceeded"),
    put_header (codes "Retry-After") (retry_after rate) c,
    (r, w),
  )

  abbrev pub limited_by : Option Text → Option ℤ → R × W → Option HttpError × Context × (R × W)
  limited_by none rate s = next c s
  limited_by (some token_name) none s = next c s
  limited_by (some token_name) (some rate) s =
      if is_zero rate then next c s else limited rate (allow redis now token_name rate s.0) s.1

  unfoldable pub redis_rate_limit : R × W → Option HttpError × Context × (R × W)
  unfolding allow retry_after
  redis_rate_limit s = limited_by c.token_name c.rate_limit s

-- The members of a sorted set whose scores are these times and lie behind the start of the window; and with one more, which
-- is its own member and so counts once.
unfoldable pub trimmed : ℕ → List ℕ → List ℕ
trimmed start [] = []
trimmed start (t ∷ ts) = let rest = trimmed start ts in if ltb start t then t ∷ rest else rest

unfoldable pub is_in : ℕ → List ℕ → Bool
is_in t [] = false
is_in t (u ∷ us) = if u == t then true else is_in t us

abbrev pub added : ℕ → List ℕ → List ℕ
added t ts = if is_in t ts then ts else t ∷ ts

-- Redis as documented, where it answers. That a key is forgotten two minutes after its last request is left out: all its members are
-- out of the window by then.
pub record IsRedis {R : Type 0} (redis : Redis R) (members : R → Text → List ℕ) : Type 0 where
  pub counts :
      (key : Text) (start now : ℕ) (r : R)
      → (redis.exec key start now r).0 ≡ some (length (trimmed start (members r key)))
  pub adds :
      (key : Text) (start now : ℕ) (r : R)
      → members (redis.exec key start now r).1 key ≡ added now (trimmed start (members r key))
  pub others :
      (key other : Text) (start now : ℕ) (r : R)
      → key ≢ other
      → members (redis.exec key start now r).1 other ≡ members r other
