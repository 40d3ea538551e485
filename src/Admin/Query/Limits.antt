-- ===== src/Admin/Query/Limits.antt =====
-- internal/admin/handlers.go over internal/logging/store.go: the length of a page.
use da_proxy.Prelude.{
  ℕ, ◌+◌, ◌-◌, ◌*◌, ◌^◌, ◌≤◌, ◌≡◌, ◌≢◌, ◌<◌, refl, true, false, ◌&&◌, [], ◌∷◌, All, Option, some,
  ltb, leb, if◌then◌else◌, ◌==◌, arith, Bool-cases, inl, inr,
}
use Prim.Native.Nat.{min}
use da_proxy.Prelude.Text.{Text, codes}
use da_proxy.Prelude.Text.Decimal.{
  to_decimal, to_decimal_ne, to_decimal-All, value_of, value_of-to_decimal,
}
use da_proxy.Prelude.Int.{pos}
use da_proxy.Logging.Query.{page_limit}
use da_proxy.Admin.Query.{
  magnitude, unsigned, int_value, at_least_one, at_most_1000, number_param, parse_log_filter,
}

-- The filter and the query are clamped alike.
clamped :
    (k : ℕ)
    → (at_most_1000 (at_least_one (pos k)) ≡ pos (page_limit (pos k)))
      × (page_limit (pos (page_limit (pos k))) ≡ page_limit (pos k))
unfolding page_limit
clamped k = elim (Bool-cases (k == 0)) [
  | inl p ↦ (ground arith, rw p refl)
  | inr p ↦ elim (Bool-cases (ltb 1000 k)) [
    | inl q ↦ (ground arith, rw (p, q) refl)
    | inr q ↦ (ground arith, rw (p, q, p, q) refl)
  ]
]

value_of_le : (v : ℕ) (s : Text) → v ≤ value_of v s
unfolding value_of
value_of_le v [] = omega arith
value_of_le v (d ∷ s) = let h = value_of_le (10 * v + (d - b'0')) s in omega arith

-- Digits whose value fits are read as their value.
magnitude-value_of :
    (v : ℕ) (s : Text)
    → All (λ d. (b'0' ≤ d) × (d < b':')) s
    → value_of v s < 2 ^ 64
    → magnitude v s ≡ some (value_of v s)
unfolding magnitude value_of
magnitude-value_of v [] a h = refl
magnitude-value_of v (d ∷ s) ((l, u), a) h =
    let e : v * 10 + (d - b'0') ≡ 10 * v + (d - b'0') = omega arith in
    let digit : leb b'0' d && leb d b'9' ≡ true = ground arith in
    let small : ltb (10 * v + (d - b'0')) (2 ^ 64) ≡ true =
      (let w = value_of_le (10 * v + (d - b'0')) s in ground arith) in
    rw (e, digit, small) (magnitude-value_of (10 * v + (d - b'0')) s a h)

int_value_digits :
    (s : Text)
    → s ≢ []
    → All (λ d. (b'0' ≤ d) × (d < b':')) s
    → value_of 0 s < 2 ^ 63
    → number_param s ≡ pos (value_of 0 s)
unfolding int_value unsigned
int_value_digits [] n a h = absurd (n refl)
int_value_digits (c ∷ s) n ((l, u), a) h =
    let minus : (c == b'-') ≡ false = ground arith in
    let plus : (c == b'+') ≡ false = ground arith in
    let small : ltb (value_of 0 (c ∷ s)) (2 ^ 63) ≡ true = ground arith in
    rw (minus, plus, magnitude-value_of 0 (c ∷ s) ((l, u), a) (omega arith), small) refl

number_param-to_decimal : (n : ℕ) → n < 2 ^ 63 → number_param (to_decimal n) ≡ pos n
number_param-to_decimal n h =
    let v = value_of-to_decimal n in
    let e =
      int_value_digits (to_decimal n) (to_decimal_ne n)
        (to_decimal-All (λ d. (b'0' ≤ d) × (d < b':')) (λ k l. (omega arith, omega arith)) n)
        (rw v h) in
    rw v at e

module _ {F : Type 0} (zero_float : F) (parse_time : Text → Option ℕ) (parse_float : Text → F) where
  -- The parameter "limit" of a request is the decimal text of a number below 2 ^ 63, whatever the others are. Then the limit of the filter
  -- is the number of rows that a log store's query asks for: the number itself from 1 to 1000, 100 for 0, and 1000 above.
  pub parse_log_filter-page_limit :
      (param : Text → Text) (k : ℕ)
      → param (codes "limit") ≡ to_decimal k
      → k < 2 ^ 63
      → let limit = (parse_log_filter zero_float parse_time parse_float param).limit in
        let n = if k == 0 then 100 else min k 1000 in (limit ≡ pos n) × (page_limit limit ≡ n)
  unfolding parse_log_filter page_limit
  parse_log_filter-page_limit param k t h =
      let (e, p) = clamped k in
      let same_number : page_limit (pos k) ≡ (if k == 0 then 100 else min k 1000) = ground arith in
      rw (t, number_param-to_decimal k h, e) (rw (p, same_number) (refl, refl))
