-- ===== src/Tests/Redis.antt =====
-- internal/cache and internal/middleware over a Redis in memory.
use da_proxy.Prelude.{
  ◌+◌, ◌≡◌, ◌≢◌, ◌⊎◌, inl, inr, refl, ◌∙◌, true, false, [], ◌∷◌, Memᴰ, Option, some, Table, lookup,
  insert, lookup-insert, arith, Bool-cases,
}
use da_proxy.Prelude.Text.{Text, codes, same, same_iff, Lacks}
use da_proxy.Prelude.Int.{pos, ltb_ℤ}
use da_proxy.Prelude.Text.Decimal.{to_decimal}
use da_proxy.Cache.Redis.{Redis, IsRedis, RedisCache, new_metrics, redis_cache, instrumented, key}
use da_proxy.Cache.Served.{CacheCall, setting, run, gets_of, sets_of, run-get}

abbrev memory : Redis (Table Text)
memory = record {
  get = λ k r. (lookup k r, r);
  put = λ k v ttl r. (true, insert k v r);
  ping = λ r. (true, r);
}

abbrev holds : Table Text → Text → Option Text
holds r k = lookup k r

memory-puts :
    (k j v w : Text) (r : Table Text)
    → lookup j (insert k v r) ≡ some w
    → ((j ≡ k) × (w ≡ v)) ⊎ (lookup j r ≡ some w)
memory-puts k j v w r e = elim (Bool-cases (same k j)) [
  | inl p ↦
      (let a : k ≡ j = (same_iff k j).0 p in
        let f : lookup j (insert k v r) ≡ some v = lookup-insert k j v r ∙ rw p refl in
        inl (cc, cc))
  | inr p ↦
      (let f : lookup j (insert k v r) ≡ lookup j r = lookup-insert k j v r ∙ rw p refl in inr (cc))
]

memory-IsRedis : IsRedis memory holds
memory-IsRedis = record {
  gets = λ k v r e. e;
  keeps = λ k j v r e. e;
  puts = λ k j v w ttl r e. memory-puts k j v w r e;
}

abbrev hash : Text → Text
hash p = codes "00"

hash-Lacks : (p : Text) → Lacks b':' (hash p)
hash-Lacks p = (λ e. omega arith, (λ e. omega arith, tt))

abbrev small : RedisCache
small = record { ttl = pos 1; max_entry_size = pos 100 }

abbrev cached : CacheCall
cached = setting (codes "block") (pos 5) (codes "p") (codes "v")

one : (p v : Text) → Memᴰ (setting (codes "block") (pos 5) p v) (cached ∷ []) → p ≡ codes "p"
one p v (Memᴰ.head e) = cc
one p v (Memᴰ.tail m) = elim m [ ]

nothing_held : (k v : Text) → holds [] k ≢ some v
unfolding lookup
nothing_held k v e = absurd (cc)

get-cached :
    ((instrumented (redis_cache memory hash small)).get
      (codes "block")
      (pos 5)
      (codes "p")
      (run (instrumented (redis_cache memory hash small)) (cached ∷ []) ([], new_metrics))).0
    ≡ some (codes "v")
unfolding run key insert lookup same to_decimal
get-cached = refl

run-get_example :
    let m =
      (run (instrumented (redis_cache memory hash small)) (cached ∷ []) ([], new_metrics)).1 in
    Memᴰ cached (cached ∷ [])
    × (ltb_ℤ (pos 100) (pos 1) ≡ false)
    × (m.hits_total + m.misses_total ≡ gets_of (cached ∷ []))
    × (m.sets_total ≡ sets_of (cached ∷ []))
run-get_example =
    run-get memory holds memory-IsRedis hash small (cached ∷ []) [] (codes "block") (pos 5)
      (codes "p") (codes "v") nothing_held hash-Lacks (λ p v m e. one p v m) get-cached
