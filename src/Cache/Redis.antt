-- ===== src/Cache/Redis.antt =====
-- internal/cache/cache.go: the cache in Redis, whose client is a parameter.
use da_proxy.Prelude.{
  ℕ, suc, ◌+◌, ◌*◌, ◌==◌, ◌≡◌, ◌⊎◌, Bool, true, false, ◌∷◌, ◌++◌, Option, none, some, if◌then◌else◌,
  length,
}
use da_proxy.Prelude.Text.{Text}
use da_proxy.Prelude.Text.Decimal.{to_decimal}
use da_proxy.Prelude.Int.{ℤ, pos, negsuc, ltb_ℤ}
use da_proxy.Cache.{Cache}

-- `redis.Client`: GET answers `none` for a key that is not there and for an error; SET takes a time to live and says
-- whether it succeeded; PING.
pub record Redis (R : Type 0) : Type 0 where
  pub get : Text → R → Option Text × R
  pub put : Text → Text → ℤ → R → Bool × R
  pub ping : R → Bool × R

-- `Config`; `redis_url` is what `redis.ParseURL` and `NewClient` make of the URL.
pub record RedisConfig (R : Type 0) : Type 0 where
  pub redis_url : Option R
  pub ttl : ℤ
  pub max_entry_size : ℤ

pub record RedisCache : Type 0 where
  pub ttl : ℤ
  pub max_entry_size : ℤ

abbrev pub or_number : ℤ → ℕ → ℤ
or_number (pos n) d = if n == 0 then pos d else pos n
or_number (negsuc n) d = negsuc n

abbrev pinged : {R : Type 0} → RedisConfig R → Bool × R → Option (RedisCache × R)
pinged cfg (false, r) = none
pinged cfg (true, r) = some (
  record {
    ttl = or_number cfg.ttl (720 * 3600000000000);
    max_entry_size = or_number cfg.max_entry_size (5 * 1024 * 1024);
  },
  r,
)

unfoldable pub new_redis_cache : {R : Type 0} → Redis R → RedisConfig R → Option (RedisCache × R)
new_redis_cache redis cfg = elim cfg.redis_url [ none ↦ none | some r ↦ pinged cfg (redis.ping r) ]

-- `%d` of an int64.
abbrev pub print_int : ℤ → Text
print_int (pos n) = to_decimal n
print_int (negsuc n) = b'-' ∷ to_decimal (suc n)

-- `hash` is the hexadecimal text of the first 16 bytes of SHA-256.
unfoldable pub key : (Text → Text) → Text → ℤ → Text → Text
unfolding to_decimal
key hash method height params = method ++ b':' ∷ (print_int height ++ b':' ∷ hash params)

-- The methods `Get` and `Set`; the answer of SET is only logged.
abbrev pub redis_cache : {R : Type 0} → Redis R → (Text → Text) → RedisCache → Cache R
redis_cache redis hash c = record {
  get = λ method height params r. redis.get (key hash method height params) r;
  put = λ method height params response r.
      if ltb_ℤ c.max_entry_size (pos (length response))
      then r
      else (redis.put (key hash method height params) response c.ttl r).1;
}

-- `Metrics`, without the counter of skipped sets, which nothing counts.
pub record Metrics : Type 0 where
  pub hits_total : ℕ
  pub misses_total : ℕ
  pub sets_total : ℕ
  pub total_requests : ℕ
  pub total_hits : ℕ
  -- numerator and denominator of the gauge
  pub hit_ratio : Option (ℕ × ℕ)

abbrev pub new_metrics : Metrics
new_metrics = record {
  hits_total = 0;
  misses_total = 0;
  sets_total = 0;
  total_requests = 0;
  total_hits = 0;
  hit_ratio = none;
}

abbrev counted_hit : Option Text → Metrics → Metrics
counted_hit none m = record m { misses_total = m.misses_total + 1 }
counted_hit (some response) m = record m {
  hits_total = m.hits_total + 1;
  total_hits = m.total_hits + 1;
}

-- A float64 that counts is exact up to 2 ^ 53.
abbrev pub counted_request : Option Text → Metrics → Metrics
counted_request found m =
    let m' = counted_hit found m in
    record m' {
      total_requests = m'.total_requests + 1;
      hit_ratio = some (m'.total_hits, m'.total_requests + 1);
    }

-- `InstrumentedCache`, over any cache.
abbrev pub instrumented : {C : Type 0} → Cache C → Cache (C × Metrics)
instrumented inner = record {
  get = λ method height params s.
      let (found, c) = inner.get method height params s.0 in
      (found, (c, counted_request found s.1));
  put = λ method height params response s.
      let m = s.1 in
      (inner.put method height params response s.0, record m { sets_total = m.sets_total + 1 });
}

-- Redis as documented: it answers only with a value that it holds, and it holds only what it was given. It may lose a
-- value at any time.
pub record IsRedis {R : Type 0} (redis : Redis R) (holds : R → Text → Option Text) : Type 0 where
  pub gets : (k v : Text) (r : R) → (redis.get k r).0 ≡ some v → holds r k ≡ some v
  pub keeps : (k j v : Text) (r : R) → holds (redis.get k r).1 j ≡ some v → holds r j ≡ some v
  pub puts :
      (k j v w : Text) (ttl : ℤ) (r : R)
      → holds (redis.put k v ttl r).1 j ≡ some w
      → ((j ≡ k) × (w ≡ v)) ⊎ (holds r j ≡ some w)
