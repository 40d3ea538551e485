-- ===== src/Proxy/Handler/Cached.antt =====
-- What the cache holds after a request, and how it answers the next one.
use da_proxy.Prelude.{
  ◌≡◌, if◌then◌else◌, true, false, Option, none, some, Bool-cases, Option-cases, arith, inl, inr,
}
use da_proxy.Prelude.Text.{Text, same}
use da_proxy.Prelude.Int.{ℤ}
use da_proxy.Cache.{Cache}
use da_proxy.Cache.Redis.{Redis}
use da_proxy.Middleware.Context.{Context}
use da_proxy.Proxy.Forward.{State, Handler, Job, or_nil}
use da_proxy.Proxy.Handler.{can_retry, proxy, answer_from, look_up}
use da_proxy.Proxy.Forward.Stored.{IsStored, proxy_with_retry-IsStored, proxy_direct-IsStored}

-- Redis as long as it loses nothing: GET answers with the value that SET has just been given.
pub record IsReliable {R : Type 0} (redis : Redis R) : Type 0 where
  pub get_put : (k v : Text) (ttl : ℤ) (r : R) → (redis.get k (redis.put k v ttl r).1).0 ≡ some v

module _ {C N : Type 0} (h : Handler C N) (job : Job) where
  proxy-IsStored :
      (c : Context) (st : State C N)
      → (let (e, c', st') = proxy h job c st in e ≡ none → IsStored h job st.cache c' st'.cache)
  unfolding proxy
  proxy-IsStored c st = elim (Option-cases (h.url.parse job.decision.target_url)) [
    | inl bad ↦ rw (bad, proxy) (λ e. absurd (ground arith))
    | inr (target, good) ↦ elim (Bool-cases (can_retry h job st)) [
      | inl p ↦ rw (good, proxy, p) (λ e. proxy_with_retry-IsStored h job target c st)
      | inr q ↦ rw (good, proxy, q) (λ e. proxy_direct-IsStored h job target c st)
    ]
  ]

  look_up_miss :
      (c : Context) (st : State C N)
      → job.should_cache ≡ true
      → (h.cache.get job.decision.method job.height (or_nil job.body) st.cache).0 ≡ none
      → look_up h job c st
        ≡ proxy h job c (record st {
          cache = (h.cache.get job.decision.method job.height (or_nil job.body) st.cache).1;
        })
  unfolding look_up answer_from
  look_up_miss c st caching miss = simp (caching, miss)

  abbrev pub asked : C → Option Text × C
  asked cache = h.cache.get job.decision.method job.height (or_nil job.body) cache

  look_up_uncached :
      (c : Context) (st : State C N)
      → job.should_cache ≡ false
      → look_up h job c st ≡ proxy h job c st
  unfolding look_up
  look_up_uncached c st never = simp never

  look_up_stored :
      (c : Context) (st : State C N)
      → job.should_cache ≡ true
      → (asked st.cache).0 ≡ none
      → (let (e, c', st') = look_up h job c st in
          e ≡ none → IsStored h job (asked st.cache).1 c' st'.cache)
  look_up_stored c st caching miss none_wrong =
      let same = look_up_miss c st caching miss in
      rw same (proxy-IsStored c (record st { cache = (asked st.cache).1 }) (rw same at none_wrong))

  -- Where a request is cacheable and the cache has no answer, or the request is not cacheable and the cache is not asked: once the request is proxied
  -- without an error, what the client was sent has been put into the cache if the request is cacheable, the status is 200 and the body is not the error of a pruned
  -- block, and else the cache was left as it was.
  pub look_up-IsStored :
      (c : Context) (st : State C N)
      → (job.should_cache ≡ true → (asked st.cache).0 ≡ none)
      → (let (e, c', st') = look_up h job c st in
          e ≡ none
          → IsStored h job (if job.should_cache then (asked st.cache).1 else st.cache) c' st'.cache)
  look_up-IsStored c st miss none_wrong = elim (Bool-cases job.should_cache) [
    | inl caching ↦ simp caching (look_up_stored c st caching (miss caching) none_wrong)
    | inr never ↦
        let same = look_up_uncached c st never in
        simp never (rw same (proxy-IsStored c st (rw same at none_wrong)))
  ]
