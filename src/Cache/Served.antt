-- ===== src/Cache/Served.antt =====
-- internal/cache/cache.go and metrics.go: what is answered out of Redis.
use da_proxy.Prelude.{
  ℕ, ◌+◌, ◌≡◌, ◌≢◌, ◌⊎◌, inl, inr, refl, sym, false, List, [], ◌∷◌, Memᴰ, Option, none, some,
  length, arith, Bool-cases,
}
use da_proxy.Prelude.Text.{Text, Lacks}
use da_proxy.Prelude.Int.{ℤ, pos, ltb_ℤ}
use da_proxy.Cache.{Cache}
use da_proxy.Cache.Redis.{
  Redis, RedisCache, IsRedis, Metrics, new_metrics, counted_request, redis_cache, instrumented, key,
}
use da_proxy.Cache.Keys.{key_eq}

-- A call of the cache: `Get` with the method, the height and the parameters, or `Set` with the response as well.
pub data CacheCall : Type 0 where
  getting : Text → ℤ → Text → CacheCall
  setting : Text → ℤ → Text → Text → CacheCall

module _ {C : Type 0} (cache : Cache C) where
  unfoldable pub run : List CacheCall → C → C
  run [] c = c
  run (getting m h p ∷ cs) c = run cs (cache.get m h p c).1
  run (setting m h p v ∷ cs) c = run cs (cache.put m h p v c)

-- The calls of each kind.
unfoldable pub gets_of : List CacheCall → ℕ
gets_of [] = 0
gets_of (getting m h p ∷ cs) = gets_of cs + 1
gets_of (setting m h p v ∷ cs) = gets_of cs

unfoldable pub sets_of : List CacheCall → ℕ
sets_of [] = 0
sets_of (getting m h p ∷ cs) = sets_of cs
sets_of (setting m h p v ∷ cs) = sets_of cs + 1

counted_request-total :
    (found : Option Text) (m : Metrics)
    → ((counted_request found m).hits_total + (counted_request found m).misses_total
        ≡ m.hits_total + m.misses_total + 1)
      × ((counted_request found m).sets_total ≡ m.sets_total)
counted_request-total none m = (omega arith, refl)
counted_request-total (some v) m = (omega arith, refl)

module _ {C : Type 0} (inner : Cache C) where
  run-total :
      (cs : List CacheCall) (s : C × Metrics)
      → let m = (run (instrumented inner) cs s).1 in
        (m.hits_total + m.misses_total ≡ s.1.hits_total + s.1.misses_total + gets_of cs)
        × (m.sets_total ≡ s.1.sets_total + sets_of cs)
  unfolding run gets_of sets_of
  run-total [] s = (omega arith, omega arith)
  run-total (getting m h p ∷ cs) s =
      let (a, b) = run-total cs ((instrumented inner).get m h p s).1 in
      let (c, d) = counted_request-total (inner.get m h p s.0).0 s.1 in (omega arith, omega arith)
  run-total (setting m h p v ∷ cs) s =
      let (a, b) = run-total cs ((instrumented inner).put m h p v s) in (omega arith, omega arith)

module _ {R : Type 0} (redis : Redis R) (holds : R → Text → Option Text) (doc : IsRedis redis holds)
    (hash : Text → Text) (c : RedisCache) where
  abbrev served : Cache (R × Metrics)
  served = instrumented (redis_cache redis hash c)

  -- Every value has been set, and was not too large.
  IsKept : (Text → ℤ → Text → Text → Type 0) → R → Type 0
  IsKept Q r =
      (k v : Text)
      → holds r k ≡ some v
      → (m : Text) × (h : ℤ) × (p : Text) × (k ≡ key hash m h p) × Q m h p v

  put-IsKept :
      (Q : Text → ℤ → Text → Text → Type 0) (m : Text) (h : ℤ) (p v : Text) (s : R × Metrics)
      → (ltb_ℤ c.max_entry_size (pos (length v)) ≡ false → Q m h p v)
      → IsKept Q s.0
      → IsKept Q (served.put m h p v s).0
  unfolding IsKept
  put-IsKept Q m h p v s q i = elim (Bool-cases (ltb_ℤ c.max_entry_size (pos (length v)))) [
    | inl t ↦ rw t i
    | inr t ↦ rw t (λ j w e. stored_under j w (doc.puts (key hash m h p) j v w c.ttl s.0 e) (q t))
  ]
    where
      stored_under :
          (j w : Text)
          → ((j ≡ key hash m h p) × (w ≡ v)) ⊎ (holds s.0 j ≡ some w)
          → Q m h p v
          → (n : Text) × (k : ℤ) × (o : Text) × (j ≡ key hash n k o) × Q n k o w
      stored_under j w (inl (a, b)) x = (m, h, p, a, rw b x)
      stored_under j w (inr e) x = i j w e

  run-IsKept :
      (Q : Text → ℤ → Text → Text → Type 0) (cs : List CacheCall) (s : R × Metrics)
      → ((m : Text) (h : ℤ) (p v : Text)
          → Memᴰ (setting m h p v) cs
          → ltb_ℤ c.max_entry_size (pos (length v)) ≡ false
          → Q m h p v)
      → IsKept Q s.0
      → IsKept Q (run served cs s).0
  unfolding run IsKept
  run-IsKept Q [] s q i = i
  run-IsKept Q (getting m h p ∷ cs) s q i =
      run-IsKept Q cs (served.get m h p s).1 (λ m h p v e. q m h p v (Memᴰ.tail e))
        (λ k v e. i k v (doc.keeps (key hash m h p) k v s.0 e))
  run-IsKept Q (setting m h p v ∷ cs) s q i =
      run-IsKept Q cs (served.put m h p v s) (λ m h p v e. q m h p v (Memᴰ.tail e))
        (put-IsKept Q m h p v s (q m h p v (Memᴰ.head refl)) i)

  -- The cache is used over a Redis that is empty at first, that holds only what it was given and may lose any of it. The hash has no colon, and
  -- no other parameters set for this method and height have the hash of these. Then a hit is the response of an earlier Set with the same
  -- method, height and parameters, and is not larger than the limit. The hits and misses counted before are the calls of Get, the
  -- sets the calls of Set.
  pub run-get :
      (cs : List CacheCall) (r : R) (method : Text) (height : ℤ) (params response : Text)
      → ((k v : Text) → holds r k ≢ some v)
      → ((p : Text) → Lacks b':' (hash p))
      → ((p v : Text) → Memᴰ (setting method height p v) cs → hash p ≡ hash params → p ≡ params)
      → (served.get method height params (run served cs (r, new_metrics))).0 ≡ some response
      → let m = (run served cs (r, new_metrics)).1 in
        Memᴰ (setting method height params response) cs
        × (ltb_ℤ c.max_entry_size (pos (length response)) ≡ false)
        × (m.hits_total + m.misses_total ≡ gets_of cs)
        × (m.sets_total ≡ sets_of cs)
  unfolding IsKept
  run-get cs r method height params response empty hex free e =
      let s = run served cs (r, new_metrics) in
      let Q : Text → ℤ → Text → Text → Type 0 =
        λ m h p v. Memᴰ (setting m h p v) cs × (ltb_ℤ c.max_entry_size (pos (length v)) ≡ false) in
      let (m, h, p, k, (a, b)) =
        run-IsKept Q cs (r, new_metrics) (λ m h p v x y. (x, y)) (λ k v x. absurd (empty k v x))
          (key hash method height params) response
          (doc.gets (key hash method height params) response s.0 e) in
      let (x, y, z) = key_eq hash hex method m height h params p k in
      let a' : Memᴰ (setting method height p response) cs = rw (sym x, sym y) at a in
      let w : p ≡ params = free p response a' (sym z) in
      let (t, u) = run-total (redis_cache redis hash c) cs (r, new_metrics) in
      (rw w at a', b, omega arith, omega arith)
