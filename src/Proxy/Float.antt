-- ===== src/Proxy/Float.antt =====
-- The IEEE operations of Go's `float64` that the code uses. A value is its bit pattern, as
-- `math.Float64bits` gives it, so that `Float64bits` and `Float64frombits` are the identity. The
-- operations are the processor's and stay abstract.
use da_proxy.Prelude.{ℕ, ◌≡◌, ◌⊎◌, Bool, true, false}

pub record Float : Type 0 where
  -- `a + b`, `a * b`, `a / b`, `a < b`
  pub add : ℕ → ℕ → ℕ
  pub mul : ℕ → ℕ → ℕ
  pub div : ℕ → ℕ → ℕ
  pub lt : ℕ → ℕ → Bool
  -- `a == 0`, true of both zeros
  pub is_zero : ℕ → Bool
  -- `float64(n)`
  pub of_int : ℕ → ℕ
  -- the constants 1e6, 0.3, 1 - 0.3, 0.1 and `math.MaxFloat64`
  pub million : ℕ
  pub ewma_alpha : ℕ
  pub ewma_rest : ℕ
  pub exploration_rate : ℕ
  pub max : ℕ

-- The order of the numbers that are no NaN and lie below `math.MaxFloat64`, such as latencies.
pub record IsOrdered (fl : Float) (IsLatency : ℕ → Type 0) : Type 0 where
  pub lt_asymm : (a b : ℕ) → IsLatency a → IsLatency b → fl.lt a b ≡ true → fl.lt b a ≡ false
  pub lt_cotrans :
      (a b c : ℕ)
      → IsLatency a
      → IsLatency b
      → IsLatency c
      → fl.lt a c ≡ true
      → (fl.lt a b ≡ true) ⊎ (fl.lt b c ≡ true)
  pub lt_max : (a : ℕ) → IsLatency a → fl.lt a fl.max ≡ true
