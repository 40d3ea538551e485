-- ===== src/Admin/Backends/Overall.antt =====
-- internal/admin/backend_handlers.go: the health of a backend as a whole.
use da_proxy.Prelude.{
  ℕ, ◌≤◌, ◌<◌, ◌≡◌, ◌∙◌, refl, ap, Bool, true, ◌&&◌, [], ◌∷◌, ◌++◌, some, leb, if◌then◌else◌, Table,
  lookup, arith, Bool-cases, inl, inr,
}
use da_proxy.Prelude.Text.{Text, codes, same, same_iff, has_prefix}
use da_proxy.Prelude.Text.Decimal.{to_decimal}
use da_proxy.Proxy.Float.{Float}
use da_proxy.Proxy.Health.{HealthStatus, endpoint_name}
use da_proxy.Admin.Backends.{Health, is_of, counted_status, aggregate}

has_prefix-append : (s t : Text) → has_prefix (s ++ t) s ≡ true
unfolding has_prefix
has_prefix-append [] t = refl
has_prefix-append (a ∷ s) t = ground (arith, has_prefix-append s t)

pub is_of-endpoint_name :
    (base : Text) (i total : ℕ) → is_of base (endpoint_name base i total) ≡ true
unfolding is_of endpoint_name
is_of-endpoint_name base i total = elim (Bool-cases (leb total 1)) [
  | inl p ↦ rw p (ground (arith, same_iff base base))
  | inr q ↦ rw (q, has_prefix-append (base ++ codes "/") (to_decimal i)) (ground arith)
]

module _ (fl : Float) (name : Text) where
  -- A step of the loop.
  after : Text → HealthStatus ℕ → Health → Health
  after key hs h = if is_of name key then counted_status fl hs h else h

  after-healthy :
      (key : Text) (hs : HealthStatus ℕ) (h : Health) (b : Bool)
      → (h.count ≤ (after key hs h).count)
        × (b ≡ (b && (after key hs h).all_healthy) → b ≡ (b && h.all_healthy))
  unfolding after
  after-healthy key hs h b = ground arith

  aggregate-count :
      (m : Table (HealthStatus ℕ)) (h : Health)
      → (h.count ≤ (aggregate fl name m h).count)
        × ((aggregate fl name m h).all_healthy
            ≡ ((aggregate fl name m h).all_healthy && h.all_healthy))
  unfolding aggregate after
  aggregate-count [] h = (omega arith, ground arith)
  aggregate-count ((key, hs) ∷ m) h =
      let (a, b) = aggregate-count m (after key hs h) in
      let (c, d) = after-healthy key hs h (aggregate fl name m (after key hs h)).all_healthy in
      (omega arith, d b)

  after-counted_status :
      (key : Text) (hs : HealthStatus ℕ) (h : Health) (b : Bool)
      → is_of name key ≡ true
      → (0 < (after key hs h).count)
        × (b ≡ (b && (after key hs h).all_healthy) → b ≡ (b && hs.healthy))
  unfolding after
  after-counted_status key hs h b o = ground arith

  -- A status of the backend is counted_status.
  pub aggregate-lookup :
      (m : Table (HealthStatus ℕ)) (h : Health) (key : Text) (hs : HealthStatus ℕ)
      → is_of name key ≡ true
      → lookup key m ≡ some hs
      → (0 < (aggregate fl name m h).count)
        × ((aggregate fl name m h).all_healthy
            ≡ ((aggregate fl name m h).all_healthy && hs.healthy))
  unfolding aggregate lookup after
  aggregate-lookup [] h key hs o e = absurd (cc)
  aggregate-lookup ((j, x) ∷ m) h key hs o e = elim (Bool-cases (same j key)) [
    | inl p ↦
        (let q : j ≡ key = (same_iff j key).0 p in
          let w : x ≡ hs = (let f = rw p at e in cc) in
          let t : is_of name j ≡ true = rw q o in
          let (a, b) = aggregate-count m (after j x h) in
          let (c, d) =
            after-counted_status j x h (aggregate fl name m (after j x h)).all_healthy t in
          (
            omega arith,
            d b ∙ ap (λ r. (aggregate fl name m (after j x h)).all_healthy && r.healthy) w,
          ))
    | inr p ↦ aggregate-lookup m _ key hs o (rw p at e)
  ]
