-- ===== src/Tests/Limits.antt =====
-- internal/middleware/ratelimit_redis.go over a Redis in memory.
use da_proxy.Prelude.{
  ℕ, suc, ◌≡◌, ◌≢◌, refl, ◌∙◌, ap, List, [], ◌∷◌, Option, none, some, if◌then◌else◌, length, Table,
  lookup, insert, lookup-insert, arith, Bool-cases, inl, inr,
}
use da_proxy.Prelude.Text.{Text, codes, same, same_iff, same_refl}
use da_proxy.Prelude.Int.{pos, ltb_ℤ}
use da_proxy.Middleware.Context.{Context, Handler, fail, put_header}
use da_proxy.Middleware.RateLimit.Redis.{
  Redis, IsRedis, allow, trimmed, added, redis_rate_limit, retry_after,
}
use da_proxy.Middleware.RateLimit.Redis.Window.{distinct, requested, redis_rate_limit-distinct}

abbrev times : Option (List ℕ) → List ℕ
times none = []
times (some ts) = ts

abbrev members : Table (List ℕ) → Text → List ℕ
members r k = times (lookup k r)

abbrev memory : Redis (Table (List ℕ))
memory = record {
  exec = λ k start now r.
      let ms = trimmed start (members r k) in (some (length ms), insert k (added now ms) r);
}

memory-adds : (k : Text) (v : List ℕ) (r : Table (List ℕ)) → members (insert k v r) k ≡ v
memory-adds k v r =
    let e : lookup k (insert k v r) ≡ some v = lookup-insert k k v r ∙ rw (same_refl k) refl in
    ap times e

memory-others :
    (k j : Text) (v : List ℕ) (r : Table (List ℕ)) → k ≢ j → members (insert k v r) j ≡ members r j
memory-others k j v r n = elim (Bool-cases (same k j)) [
  | inl p ↦ absurd (n ((same_iff k j).0 p))
  | inr p ↦
      (let e : lookup j (insert k v r) ≡ lookup j r = lookup-insert k j v r ∙ rw p refl in
        ap times e)
]

memory-IsRedis : IsRedis memory members
memory-IsRedis = record {
  counts = λ k start now r. refl;
  adds = λ k start now r. memory-adds k (added now (trimmed start (members r k))) r;
  others = λ k j start now r n. memory-others k j (added now (trimmed start (members r k))) r n;
}

abbrev context : Context
context = record {
  path = codes "/";
  raw_path = [];
  raw_query = [];
  request_id = none;
  token_name = some (codes "t");
  rate_limit = some (pos 2);
  token_info = none;
  backend = none;
  rpc_method = none;
  headers = [];
  status = 0;
  written = [];
}

abbrev pass_on : Handler (Table (List ℕ) × ℕ)
pass_on c (r, n) = (none, c, (r, suc n))

nothing_held : members [] (codes "ratelimit:t") ≡ []
unfolding lookup
nothing_held = refl

abbrev before : Table (List ℕ)
before = requested memory (codes "t") (pos 2) (70001 ∷ 70000 ∷ 5000 ∷ []) []

redis_rate_limit-distinct_example : redis_rate_limit memory 70002 pass_on context (before, 0) ≡ (
    if ltb_ℤ (pos (length (trimmed 10002 (distinct (70001 ∷ 70000 ∷ 5000 ∷ []))))) (pos 2)
    then pass_on context ((allow memory 70002 (codes "t") (pos 2) before).1, 0)
    else (
      fail 429 (codes "rate limit exceeded"),
      put_header (codes "Retry-After") (retry_after (pos 2)) context,
      ((allow memory 70002 (codes "t") (pos 2) before).1, 0),
    ))
redis_rate_limit-distinct_example =
    redis_rate_limit-distinct memory members memory-IsRedis (codes "t") (pos 2) 70002
      (70001 ∷ 70000 ∷ 5000 ∷ []) pass_on context [] 0 refl refl refl nothing_held
      (omega arith, (omega arith, (omega arith, tt)))
