-- ===== src/Middleware/RateLimit.antt =====
-- internal/middleware/ratelimit.go: a limiter for each token, in memory. The lock and its double
-- check make one step of `GetLimiter`.
pub mod Tokens
pub mod Redis
use da_proxy.Prelude.{
  ℕ, ◌+◌, ◌/◌, ◌%◌, Bool, true, false, not, List, [], ◌∷◌, Option, none, some, ◌==◌, ltb,
  if◌then◌else◌, Table, lookup, insert,
}
use da_proxy.Prelude.Text.{Text, codes}
use da_proxy.Prelude.Int.{ℤ, pos, pos_part, ltb_ℤ}
use da_proxy.Middleware.Context.{Context, HttpError, Handler, fail, put_header}

-- `rate.Limiter`: a new one with a rate per minute and a burst, and whether it allows an event at a
-- time in nanoseconds.
pub record Limiters (L : Type 0) : Type 0 where
  pub new : ℕ → ℕ → L
  pub allow : ℕ → L → Bool × L

abbrev pub burst_of : ℕ → ℕ
burst_of rate_per_minute = if ltb (rate_per_minute / 10) 1 then 1 else rate_per_minute / 10

-- `%d` of a number below 100.
abbrev decimal : ℕ → Text
decimal n = if ltb n 10 then (b'0' + n) ∷ [] else (b'0' + n / 10) ∷ (b'0' + n % 10) ∷ []

module _ {L : Type 0} (limiters : Limiters L) where
  unfoldable pub get_limiter : Text → ℤ → Table L → Option L × Table L
  unfolding lookup insert
  get_limiter token_name rate_per_minute store =
      let made = limiters.new (pos_part rate_per_minute) (burst_of (pos_part rate_per_minute)) in
      if not (ltb_ℤ (pos 0) rate_per_minute)
      then (none, store)
      else elim (lookup token_name store) [
        | some limiter ↦ (some limiter, store)
        | none ↦ (some made, insert token_name made store)
      ]

  -- The limiter is asked, and changed in place.
  unfoldable pub ask : ℕ → Text → ℤ → Option L → Table L → Bool × Table L
  unfolding insert
  ask now token_name rate_per_minute none store = (true, store)
  ask now token_name rate_per_minute (some limiter) store =
      let (allowed, limiter') = limiters.allow now limiter in
      (allowed, insert token_name limiter' store)

  -- Whether the limits let a request through.
  unfoldable pub passes : ℕ → Option Text → Option ℤ → Table L → Bool × Table L
  passes now none rate store = (true, store)
  passes now (some token_name) none store = (true, store)
  passes now (some token_name) (some rate) store =
      let (limiter, store') = get_limiter token_name rate store in
      ask now token_name rate limiter store'

  abbrev or_zero_rate : Option ℤ → ℕ
  or_zero_rate none = 0
  or_zero_rate (some rate) = pos_part rate

  -- `RateLimit` at the time `now`. A rate of 0 or less has no limiter.
  unfoldable pub rate_limit : {W : Type 0} → ℕ → Handler (Table L × W) → Handler (Table L × W)
  rate_limit now next c (store, w) =
      let (allowed, store') = passes now c.token_name c.rate_limit store in
      if allowed then next c (store', w) else (
        fail 429 (codes "rate limit exceeded"),
        put_header (codes "Retry-After") (decimal (60 / or_zero_rate c.rate_limit + 1)) c,
        (store', w),
      )
