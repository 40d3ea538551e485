-- ===== src/Prelude/Int.antt =====
-- Go's `int64`: integers over the native numbers, their order, and decimal text.
use Prim.Native.Nat.{ℕ, suc, ◌+◌, ◌-◌, ◌*◌, ◌%◌, ◌^◌, ◌≤◌, ◌<◌}
use mathlib.Core.Path.{◌≡◌}
use mathlib.Core.Logic.{inl, inr}
use mathlib.Core.Bool.{Bool, true, false, ◌&&◌}
use mathlib.Core.Option.{Option, none, some}
use mathlib.Core.List.{[], ◌∷◌}
use native.Mathlib.Omega.{arith}
use da_proxy.Prelude.Tests.{ltb, leb, ◌==◌, if◌then◌else◌, Bool-cases}
use da_proxy.Prelude.Text.{Text}

-- `negsuc n` is -(n + 1).
pub data ℤ : Type 0 where
  pos : ℕ → ℤ
  negsuc : ℕ → ℤ

abbrev pub pos_part : ℤ → ℕ
pos_part (pos n) = n
pos_part (negsuc n) = 0

abbrev pub neg_part : ℤ → ℕ
neg_part (pos n) = 0
neg_part (negsuc n) = suc n

-- a - b, as an integer.
abbrev pub sub_ℕ : ℕ → ℕ → ℤ
sub_ℕ a b = if leb b a then pos (a - b) else negsuc (b - a - 1)

abbrev pub ltb_ℤ : ℤ → ℤ → Bool
ltb_ℤ a b = ltb (pos_part a + neg_part b) (pos_part b + neg_part a)

infix 50 ◌<ℤ◌
abbrev pub ◌<ℤ◌ : ℤ → ℤ → Type 0
a <ℤ b = pos_part a + neg_part b < pos_part b + neg_part a

-- The values of an `int64`.
pub record IsInt64 (a : ℤ) : Type 0 where
  pub below : pos_part a < 2 ^ 63
  pub above : neg_part a ≤ 2 ^ 63

-- `a - b` on `int64`, which wraps round.
abbrev pub wrap : ℕ → ℤ
wrap u = if ltb u (2 ^ 63) then pos u else sub_ℕ u (2 ^ 64)

unfoldable pub sub_int64 : ℤ → ℤ → ℤ
sub_int64 a b = wrap ((pos_part a + neg_part b + 2 ^ 65 - neg_part a - pos_part b) % 2 ^ 64)

-- No wrap: the difference of two numbers of `int64` that are not negative.
pub sub_int64-pos : (a b : ℕ) → a < 2 ^ 63 → b < 2 ^ 63 → sub_int64 (pos a) (pos b) ≡ sub_ℕ a b
unfolding sub_int64
sub_int64-pos a b h k = ground arith

-- The digits of `strconv.ParseInt` in base 10; `none` where there is another byte.
digits_from : ℕ → Text → Option ℕ
digits_from acc [] = some acc
digits_from acc (c ∷ s) =
    let rest = digits_from (acc * 10 + (c - b'0')) s in
    if leb b'0' c && leb c b'9' then rest else none

unsigned : Text → Option ℕ
unfolding digits_from
unsigned [] = none
unsigned (c ∷ s) = digits_from 0 (c ∷ s)

in_range : Bool → Option ℕ → Option ℤ
in_range negative none = none
in_range true (some n) = if leb n (2 ^ 63) then some (sub_ℕ 0 n) else none
in_range false (some n) = if ltb n (2 ^ 63) then some (pos n) else none

-- `strconv.ParseInt(s, 10, 64)`; `none` where it fails.
unfoldable pub parse_int : Text → Option ℤ
unfolding unsigned in_range
parse_int [] = none
parse_int (c ∷ s) =
    if c == b'-'
    then in_range true (unsigned s)
    else if c == b'+'
    then in_range false (unsigned s)
    else in_range false (unsigned (c ∷ s))

in_range-IsInt64 : (b : Bool) (o : Option ℕ) {z : ℤ} → in_range b o ≡ some z → IsInt64 z
unfolding in_range
in_range-IsInt64 true none e = absurd (cc)
in_range-IsInt64 false none e = absurd (cc)
in_range-IsInt64 true (some n) e = ground arith
in_range-IsInt64 false (some n) e = ground arith

-- Whatever it answers is an `int64`.
pub parse_int-IsInt64 : (s : Text) {z : ℤ} → parse_int s ≡ some z → IsInt64 z
unfolding parse_int
parse_int-IsInt64 [] e = absurd (cc)
parse_int-IsInt64 (c ∷ s) e = elim (Bool-cases (c == b'-')) [
  | inl m ↦ in_range-IsInt64 true (unsigned s) (rw m at e)
  | inr n ↦ elim (Bool-cases (c == b'+')) [
    | inl p ↦ in_range-IsInt64 false (unsigned s) (rw (n, p) at e)
    | inr q ↦ in_range-IsInt64 false (unsigned (c ∷ s)) (rw (n, q) at e)
  ]
]
