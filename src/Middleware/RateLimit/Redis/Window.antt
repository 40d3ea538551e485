-- ===== src/Middleware/RateLimit/Redis/Window.antt =====
-- internal/middleware/ratelimit_redis.go: which requests are counted.
use da_proxy.Prelude.{
  ℕ, ◌-◌, ◌≤◌, ◌≡◌, ◌∙◌, refl, ap, Bool, true, false, List, [], ◌∷◌, ◌++◌, Option, none, some, ltb,
  if◌then◌else◌, length, arith, Bool-cases, inl, inr,
}
use da_proxy.Prelude.Text.{Text, codes}
use da_proxy.Prelude.Int.{ℤ, pos, ltb_ℤ}
use da_proxy.Middleware.Context.{Context, Handler, fail, put_header}
use da_proxy.Middleware.RateLimit.Redis.{
  Redis, IsRedis, allow, trimmed, is_in, added, is_zero, limited, limited_by, redis_rate_limit,
  retry_after,
}

trimmed-trimmed : (v w : ℕ) (ts : List ℕ) → v ≤ w → trimmed w (trimmed v ts) ≡ trimmed w ts
unfolding trimmed
trimmed-trimmed v w [] h = refl
trimmed-trimmed v w (t ∷ ts) h = ground (arith, trimmed-trimmed v w ts h)

is_in-trimmed : (w t : ℕ) (ts : List ℕ) → ltb w t ≡ true → is_in t (trimmed w ts) ≡ is_in t ts
unfolding trimmed is_in
is_in-trimmed w t [] h = refl
is_in-trimmed w t (u ∷ ts) h = ground (arith, is_in-trimmed w t ts h)

-- A time within the window is added before or after the others are dropped.
trimmed-added :
    (w t : ℕ) (ts : List ℕ)
    → trimmed w (added t ts) ≡ (if ltb w t then added t (trimmed w ts) else trimmed w ts)
unfolding trimmed
trimmed-added w t ts = elim (Bool-cases (ltb w t)) [
  | inl p ↦ ground (arith, is_in-trimmed w t ts p)
  | inr q ↦ ground arith
]

-- The different times among some.
unfoldable pub distinct : List ℕ → List ℕ
unfolding is_in
distinct [] = []
distinct (t ∷ ts) = added t (distinct ts)

-- None of the times, the latest first, is later than `now`, and none is later than the one before it.
abbrev pub IsUpTo : ℕ → List ℕ → Type 0
IsUpTo now [] = Unit
IsUpTo now (t ∷ ts) = (t ≤ now) × IsUpTo t ts

IsUpTo-le : (t now : ℕ) (ts : List ℕ) → t ≤ now → IsUpTo t ts → IsUpTo now ts
IsUpTo-le t now [] h u = tt
IsUpTo-le t now (s ∷ ts) h (a, u) = (omega arith, u)

module _ {R : Type 0} (redis : Redis R) where
  -- The requests of a token at these times, the latest first.
  unfoldable pub requested : Text → ℤ → List ℕ → R → R
  unfolding allow
  requested token_name rate [] r = r
  requested token_name rate (t ∷ ts) r =
      (allow redis t token_name rate (requested token_name rate ts r)).1

module _ {R : Type 0} (redis : Redis R) (members : R → Text → List ℕ) (doc : IsRedis redis members)
    (token_name : Text) (rate : ℤ) where
  abbrev key_of : Text
  key_of = codes "ratelimit:" ++ token_name

  requested-members :
      (now : ℕ) (ts : List ℕ) (r : R)
      → members r key_of ≡ []
      → IsUpTo now ts
      → trimmed (now - 60000) (members (requested redis token_name rate ts r) key_of)
        ≡ trimmed (now - 60000) (distinct ts)
  unfolding requested distinct allow
  requested-members now [] r e u = ap (trimmed (now - 60000)) e
  requested-members now (t ∷ ts) r e (h, u) =
      let w = now - 60000 in
      let r' = requested redis token_name rate ts r in
      let ms = members r' key_of in
      let i : trimmed w ms ≡ trimmed w (distinct ts) =
        requested-members now ts r e (IsUpTo-le t now ts h u) in
      let j : trimmed w (trimmed (t - 60000) ms) ≡ trimmed w (distinct ts) =
        trimmed-trimmed (t - 60000) w ms (omega arith) ∙ i in
      rw
        (
          doc.adds key_of (t - 60000) t r',
          trimmed-added w t (trimmed (t - 60000) ms),
          trimmed-added w t (distinct ts),
          j,
        )
        refl

  allow-count :
      (now : ℕ) (ts : List ℕ) (r : R)
      → members r key_of ≡ []
      → IsUpTo now ts
      → (allow redis now token_name rate (requested redis token_name rate ts r)).0
        ≡ ltb_ℤ (pos (length (trimmed (now - 60000) (distinct ts)))) rate
  unfolding allow
  allow-count now ts r e u =
      let r' = requested redis token_name rate ts r in
      rw (doc.counts key_of (now - 60000) now r', requested-members now ts r e u) refl

module _ {R W : Type 0} (redis : Redis R) (now : ℕ) (next : Handler (R × W)) (c : Context) where
  limited-if :
      (rate : ℤ) (q : Bool × R) (w : W)
      → limited redis now next c rate q w ≡ (
          if q.0 then next c (q.1, w) else (
            fail 429 (codes "rate limit exceeded"),
            put_header (codes "Retry-After") (retry_after rate) c,
            (q.1, w),
          ))
  limited-if rate (true, r) w = refl
  limited-if rate (false, r) w = refl

  limited_by-allow :
      (token_name : Text) (rate : ℤ) (name : Option Text) (limit : Option ℤ) (s : R × W)
      → name ≡ some token_name
      → limit ≡ some rate
      → is_zero rate ≡ false
      → limited_by redis now next c name limit s
        ≡ limited redis now next c rate (allow redis now token_name rate s.0) s.1
  limited_by-allow token_name rate none limit s e f z = absurd (cc)
  limited_by-allow token_name rate (some t) none s e f z = absurd (cc)
  limited_by-allow token_name rate (some t) (some l) s e f z =
      let p : t ≡ token_name = cc in let q : l ≡ rate = cc in rw (p, q, z) refl

module _ {R W : Type 0} (redis : Redis R) (members : R → Text → List ℕ)
    (doc : IsRedis redis members) where
  -- Redis answers and has nothing of a token at first, and the token has made requests at some times, none later than the
  -- one after it or than now. A request of the token, with a rate that is not 0, is passed on exactly when the different milliseconds within the last minute
  -- in which the token has asked, let through or not, are fewer than the rate; else it is answered with 429.
  pub redis_rate_limit-distinct :
      (token_name : Text) (rate : ℤ) (now : ℕ) (ts : List ℕ) (next : Handler (R × W)) (c : Context)
      (r : R) (w : W)
      → c.token_name ≡ some token_name
      → c.rate_limit ≡ some rate
      → is_zero rate ≡ false
      → members r (codes "ratelimit:" ++ token_name) ≡ []
      → IsUpTo now ts
      → let before = requested redis token_name rate ts r in
        let after = (allow redis now token_name rate before).1 in
        redis_rate_limit redis now next c (before, w) ≡ (
          if ltb_ℤ (pos (length (trimmed (now - 60000) (distinct ts)))) rate
          then next c (after, w)
          else (
            fail 429 (codes "rate limit exceeded"),
            put_header (codes "Retry-After") (retry_after rate) c,
            (after, w),
          ))
  unfolding redis_rate_limit
  redis_rate_limit-distinct token_name rate now ts next c r w n l z e u =
      let before = requested redis token_name rate ts r in
      let q = allow redis now token_name rate before in
      let a =
        limited_by-allow redis now next c token_name rate c.token_name c.rate_limit (before, w) n l
          z in
      let k = allow-count redis members doc token_name rate now ts r e u in
      a ∙ (limited-if redis now next c rate q w ∙ rw k refl)
