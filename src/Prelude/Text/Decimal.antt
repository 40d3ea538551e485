-- ===== src/Prelude/Text/Decimal.antt =====
-- `%d` of a number that is not negative.
use Prim.Native.Nat.{ℕ, zero, suc, ◌+◌, ◌*◌, ◌-◌, ◌/◌, ◌%◌, ◌≤◌, ◌<◌}
use mathlib.Core.Path.{◌≡◌, refl}
use mathlib.Core.Logic.{◌≢◌, inl, inr}
use mathlib.Core.List.{[], ◌∷◌, ◌++◌}
use native.Mathlib.Omega.{arith}
use da_proxy.Prelude.Tests.{ltb, if◌then◌else◌, Bool-cases}
use da_proxy.Prelude.Lists.{All}
use da_proxy.Prelude.Text.{Text}

-- The digits, at most as many as the fuel.
unfoldable pub digits : ℕ → ℕ → Text
digits zero n = []
digits (suc fuel) n =
    let rest = digits fuel (n / 10) in
    if ltb n 10 then (b'0' + n) ∷ [] else rest ++ (b'0' + n % 10) ∷ []

-- A number has fewer digits than its successor says.
unfoldable pub to_decimal : ℕ → Text
unfolding digits
to_decimal n = digits (suc n) n

-- What digits stand for, behind the value `v`.
unfoldable pub value_of : ℕ → Text → ℕ
value_of v [] = v
value_of v (d ∷ ds) = value_of (10 * v + (d - b'0')) ds

value_of-append :
    (v : ℕ) (s : Text) (d : ℕ) → value_of v (s ++ d ∷ []) ≡ 10 * value_of v s + (d - b'0')
unfolding value_of
value_of-append v [] d = refl
value_of-append v (e ∷ s) d = value_of-append (10 * v + (e - b'0')) s d

value_of-digits : (fuel n : ℕ) → n < fuel → value_of 0 (digits fuel n) ≡ n
unfolding value_of digits
value_of-digits zero n h = absurd (omega arith)
value_of-digits (suc fuel) n h = elim (Bool-cases (ltb n 10)) [
  | inl p ↦ rw p (omega arith)
  | inr q ↦
      (let ten : 10 ≤ n = ground arith in
        rw
          (
            q,
            value_of-append 0 (digits fuel (n / 10)) (b'0' + n % 10),
            value_of-digits fuel (n / 10) (omega arith),
          )
          (omega arith))
]

-- The digits stand for the number: the fuel is enough.
pub value_of-to_decimal : (n : ℕ) → value_of 0 (to_decimal n) ≡ n
unfolding to_decimal
value_of-to_decimal n = value_of-digits (suc n) n (omega arith)

-- What holds of the ten digits holds of each character.
module _ (P : ℕ → Type 0) (each : (k : ℕ) → k < 10 → P (b'0' + k)) where
  All-append : (s : Text) (d : ℕ) → All P s → P d → All P (s ++ d ∷ [])
  All-append [] d h b = (b, tt)
  All-append (e ∷ s) d (a, h) b = (a, All-append s d h b)

  digits-All : (fuel n : ℕ) → All P (digits fuel n)
  unfolding digits
  digits-All zero n = tt
  digits-All (suc fuel) n = elim (Bool-cases (ltb n 10)) [
    | inl p ↦ rw p (each n (ground arith), tt)
    | inr q ↦ rw q (
        All-append (digits fuel (n / 10)) (b'0' + n % 10) (digits-All fuel (n / 10))
          (each (n % 10) (omega arith)))
  ]

  pub to_decimal-All : (n : ℕ) → All P (to_decimal n)
  unfolding to_decimal
  to_decimal-All n = digits-All (suc n) n

-- There is a digit.
pub to_decimal_ne : (n : ℕ) → to_decimal n ≢ []
unfolding to_decimal digits
to_decimal_ne n e = elim (Bool-cases (ltb n 10)) [
  | inl p ↦ absurd (let w = rw p at e in cc)
  | inr q ↦ absurd (append_ne (digits n (n / 10)) (b'0' + n % 10) (rw q at e))
]
  where
    append_ne : (s : Text) (d : ℕ) → s ++ d ∷ [] ≢ []
    append_ne [] d e = absurd (cc)
    append_ne (c ∷ s) d e = absurd (cc)
