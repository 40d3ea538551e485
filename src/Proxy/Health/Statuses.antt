-- ===== src/Proxy/Health/Statuses.antt =====
-- internal/proxy/health.go: the status under the name of an endpoint.
use da_proxy.Prelude.{
  ℕ, zero, suc, ◌+◌, ◌<◌, ◌≤◌, ◌≡◌, refl, sym, ap, ◌∙◌, false, List, [], ◌∷◌, ◌++◌, some, leb,
  length, get_elem?, Table, lookup, lookup-insert, arith, Bool-cases, inl, inr,
}
use da_proxy.Prelude.Text.{Text, codes, same, same_iff, same_refl}
use da_proxy.Prelude.Text.Decimal.{to_decimal, value_of, value_of-to_decimal}
use da_proxy.Proxy.Health.{HealthStatus, endpoint_name, check_endpoints, check_backend}

append_cancel : (s x y : Text) → s ++ x ≡ s ++ y → x ≡ y
append_cancel [] x y e = e
append_cancel (a ∷ s) x y e = append_cancel s x y (cc)

to_decimal_inj : (i j : ℕ) → to_decimal i ≡ to_decimal j → i ≡ j
to_decimal_inj i j e = sym (value_of-to_decimal i) ∙ (ap (value_of 0) e ∙ value_of-to_decimal j)

-- Two endpoints of a backend have different names.
endpoint_name_ne :
    (base : Text) (i j total : ℕ)
    → j < i
    → i < total
    → same (endpoint_name base i total) (endpoint_name base j total) ≡ false
unfolding endpoint_name
endpoint_name_ne base i j total h k =
    let two : leb total 1 ≡ false = ground arith in
    rw two
      (elim (Bool-cases
        (same (base ++ codes "/" ++ to_decimal i) (base ++ codes "/" ++ to_decimal j))) [
          | inl p ↦
              (let e =
                  (same_iff (base ++ codes "/" ++ to_decimal i)
                      (base ++ codes "/" ++ to_decimal j)).0
                    p in
                let d =
                  to_decimal_inj i j
                    (append_cancel (base ++ codes "/") (to_decimal i) (to_decimal j) e) in
                absurd (omega arith))
          | inr q ↦ q
        ])

module _ {F : Type 0} (now : ℕ) (base : Text) (total : ℕ) (check : Text → HealthStatus F) where
  -- The status that a check stores.
  abbrev pub stored : ℕ → Text → HealthStatus F
  stored i e = record (check e) { backend = endpoint_name base i total; last_check = now }

  check_endpoints_before :
      (i j : ℕ) (es : List Text) (m : Table (HealthStatus F))
      → j < i
      → i + length es ≤ total
      → lookup (endpoint_name base j total) (check_endpoints now base total i check es m)
        ≡ lookup (endpoint_name base j total) m
  unfolding check_endpoints
  check_endpoints_before i j [] m h k = refl
  check_endpoints_before i j (e ∷ es) m h k =
      check_endpoints_before (suc i) j es _ (omega arith) (omega arith)
      ∙ (lookup-insert (endpoint_name base i total) (endpoint_name base j total) (stored i e) m
          ∙ rw (endpoint_name_ne base i j total h (omega arith)) refl)

  check_endpoints-lookup :
      (i k : ℕ) (es : List Text) (m : Table (HealthStatus F)) (e : Text)
      → i + length es ≤ total
      → get_elem? es k ≡ some e
      → lookup (endpoint_name base (i + k) total) (check_endpoints now base total i check es m)
        ≡ some (stored (i + k) e)
  unfolding check_endpoints
  check_endpoints-lookup i k [] m e h g = absurd (cc)
  check_endpoints-lookup i zero (d ∷ es) m e h g =
      let z : i + 0 ≡ i = omega arith in
      let q : d ≡ e = cc in
      rw (z, sym q)
        (check_endpoints_before (suc i) i es _ (omega arith) (omega arith)
          ∙ (lookup-insert (endpoint_name base i total) (endpoint_name base i total) (stored i d) m
              ∙ rw (same_refl (endpoint_name base i total)) refl))
  check_endpoints-lookup i (suc k) (d ∷ es) m e h g =
      let z : i + suc k ≡ suc i + k = omega arith in
      rw z (check_endpoints-lookup (suc i) k es _ e (omega arith) g)

-- Once the endpoints of a backend have been checked, the status under the name of each of them is the one that its own check answers, with
-- this name and the time of the round, and not that of another endpoint of the backend.
pub check_backend-lookup :
    {F : Type 0} (now : ℕ) (base : Text) (check : Text → HealthStatus F) (es : List Text)
    (m : Table (HealthStatus F)) (i : ℕ) (e : Text)
    → get_elem? es i ≡ some e
    → lookup (endpoint_name base i (length es)) (check_backend now base check es m)
      ≡ some (record (check e) { backend = endpoint_name base i (length es); last_check = now })
check_backend-lookup now base check es m i e g =
    let z : 0 + i ≡ i = omega arith in
    let t = check_endpoints-lookup now base (length es) check 0 i es m e (omega arith) g in
    rw z at t
