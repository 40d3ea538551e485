-- ===== src/Proxy/Balancer/Valid.antt =====
-- The invariant of a balancer, and that `Next` always answers with a configured endpoint.
use da_proxy.Prelude.Text.{same_iff, Text}
use da_proxy.Proxy.Latency.{Ewma}
use da_proxy.Prelude.{
  ℕ, suc, ◌+◌, ◌-◌, ◌%◌, ◌^◌, ◌<◌, ◌≤◌, ◌≡◌, ap, ◌∙◌, inl, inr, List, [], ◌∷◌, some, ◌==◌,
  if◌then◌else◌, get_elem?, length, Table, lookup, insert, lookup-insert, arith, Memᴰ, length-map,
  length-set, get_elem?_total, Option-cases,
}
use da_proxy.Proxy.Float.{Float}
use da_proxy.Proxy.Balancer.{
  Balancer, Draw, index_from, new_balancer, has_data, scan, next, record_latency,
}

-- Every endpoint has its average, and the index sends an endpoint's URL to a place where the
-- endpoint stands.
pub record IsValid (b : Balancer) : Type 0 where
  pub averages : length b.latencies ≡ length b.endpoints
  pub indexed :
      (k : Text) (i : ℕ) → lookup k b.endpoint_index ≡ some i → get_elem? b.endpoints i ≡ some k

abbrev Points : List Text → Table ℕ → Type 0
Points eps idx = (k : Text) (i : ℕ) → lookup k idx ≡ some i → get_elem? eps i ≡ some k

Points-insert :
    (eps : List Text) (idx : Table ℕ) (ep : Text) (i : ℕ)
    → get_elem? eps i ≡ some ep
    → Points eps idx
    → Points eps (insert ep i idx)
Points-insert eps idx ep i at h k j e =
    ground (arith, lookup-insert ep k i idx, same_iff ep k, h k j)

index_from-Points :
    (eps : List Text) (i : ℕ) (idx : Table ℕ) (rest : List Text)
    → ((j : ℕ) → get_elem? eps (i + j) ≡ get_elem? rest j)
    → Points eps idx
    → Points eps (index_from i idx rest)
unfolding index_from
index_from-Points eps i idx [] at h = h
index_from-Points eps i idx (ep ∷ rest) at h =
    index_from-Points eps (suc i) (insert ep i idx) rest
      (λ j. ap (get_elem? eps) (omega arith) ∙ at (suc j))
      (Points-insert eps idx ep i (ap (get_elem? eps) (omega arith) ∙ at 0) h)

-- `NewBalancer` makes a valid balancer.
pub new_balancer-IsValid : (eps : List Text) → IsValid (new_balancer eps)
unfolding new_balancer lookup
new_balancer-IsValid eps = record {
  averages = length-map _ eps;
  indexed = index_from-Points eps 0 [] eps (λ j. ap (get_elem? eps) (omega arith)) (λ k i e. cc);
}

module _ (fl : Float) where
  pub endpoints-next : (d : Draw) (b : Balancer) → (next fl d b).1.endpoints ≡ b.endpoints
  unfolding next
  endpoints-next d b = ground arith

  pub next-IsValid : (d : Draw) {b : Balancer} → IsValid b → IsValid (next fl d b).1
  unfolding next
  next-IsValid d {b} v = record {
    averages = ground arith;
    indexed = λ k i e. ground (arith, v.indexed k i);
  }

  pub record_latency-IsValid :
      (ep : Text) (d : ℕ) {b : Balancer} → IsValid b → IsValid (record_latency fl ep d b)
  unfolding record_latency
  record_latency-IsValid ep d {b} v = elim (Option-cases (lookup ep b.endpoint_index)) [
    | inl unknown ↦ rw (unknown, record_latency) v
    | inr (i, found) ↦ elim (Option-cases (get_elem? b.latencies i)) [
      | inl out ↦ rw (found, record_latency, out) v
      | inr (l, at) ↦
          rw (found, record_latency, at)
            (record { averages = length-set b.latencies i _ ∙ v.averages; indexed = v.indexed })
    ]
  ]

  scan-lt :
      (i best val n : ℕ) (ls : List Ewma) → best < n → i + length ls ≤ n → scan fl i best val ls < n
  unfolding scan
  scan-lt i best val n [] h k = h
  scan-lt i best val n (l ∷ ls) h k = ground (
    arith,
    scan-lt (suc i) (if fl.lt l.bits val then i else best)
        (if fl.lt l.bits val then l.bits else val) n ls,
  )

  -- The index that `Next` reads at.
  index : Draw → Balancer → ℕ
  index d b =
      let n = length b.endpoints in
      if n == 1
      then 0
      else if has_data b.latencies
      then (if fl.lt d.roll fl.exploration_rate then d.pick n else scan fl 0 0 fl.max b.latencies)
      else (((b.counter + 1) % 2 ^ 64 + 2 ^ 64 - 1) % 2 ^ 64) % n

  next-index :
      (d : Draw) (b : Balancer)
      → 0 < length b.endpoints
      → (next fl d b).0 ≡ get_elem? b.endpoints (index d b)
  unfolding next index
  next-index d b h = ground arith

  index-lt :
      (d : Draw) (b : Balancer)
      → IsValid b
      → ((n : ℕ) → 0 < n → d.pick n < n)
      → 0 < length b.endpoints
      → index d b < length b.endpoints
  unfolding index
  index-lt d b v draw h =
      ground (arith, draw (length b.endpoints), scan-lt 0 0 fl.max (length b.endpoints) b.latencies)

  -- With an endpoint configured, `Next` answers with one of them and does not run out of range, if
  -- `rand.IntN` answers with a number below its argument.
  pub next-Memᴰ :
      (d : Draw) (b : Balancer)
      → IsValid b
      → ((n : ℕ) → 0 < n → d.pick n < n)
      → 0 < length b.endpoints
      → (url : Text) × ((next fl d b).0 ≡ some url) × Memᴰ url b.endpoints
  next-Memᴰ d b v draw h =
      let (url, e, m) = get_elem?_total b.endpoints (index d b) (index-lt d b v draw h) in
      (url, next-index d b h ∙ e, m)
