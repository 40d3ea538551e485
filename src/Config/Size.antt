-- ===== src/Config/Size.antt =====
-- internal/config/config.go: `parseSize`.
use da_proxy.Prelude.{ℕ, ◌-◌, List, [], ◌∷◌, Option, none, ◌==◌, leb, ◌&&◌, if◌then◌else◌, length}
use da_proxy.Prelude.Text.{Text, codes, trim_space, has_suffix, trim_suffix}
use da_proxy.Prelude.Int.{ℤ, parse_int}

-- `strconv.ParseFloat` with what becomes of its number: `int64(num * float64(mult))`. `none` where it fails.
pub record Floats : Type 0 where
  pub parse_scaled : Text → ℕ → Option ℤ

-- `strings.ToUpper` as far as ASCII letters come of it: of their own small letters, and of the long s and the
-- dotless i. Other bytes are kept.
ascii_upper : ℕ → ℕ
ascii_upper a = if leb b'a' a && leb a b'z' then a - 32 else a

unfoldable pub to_upper : Text → Text
unfolding ascii_upper
to_upper [] = []
to_upper (a ∷ []) = ascii_upper a ∷ []
to_upper (a ∷ b ∷ s) =
    let plain = ascii_upper a ∷ to_upper (b ∷ s) in
    let rest = to_upper s in
    if a == 0xc4 && b == 0xb1
    then b'I' ∷ rest
    else if a == 0xc5 && b == 0xbf
    then b'S' ∷ rest
    else plain

abbrev pub ordered_suffixes : List (Text × ℕ)
ordered_suffixes =
    (codes "GB", 1073741824) ∷ (codes "MB", 1048576) ∷ (codes "KB", 1024) ∷ (codes "B", 1) ∷ []

module _ (floats : Floats) where
  -- The loop over the suffixes.
  unfoldable pub with_suffix : List (Text × ℕ) → Text → Option ℤ
  with_suffix [] s = parse_int s
  with_suffix ((suffix, mult) ∷ rest) s =
      let others = with_suffix rest s in
      if has_suffix s suffix
      then floats.parse_scaled (trim_space (trim_suffix s suffix)) mult
      else others

  -- `none` for an error.
  unfoldable pub parse_size : Text → Option ℤ
  unfolding with_suffix to_upper
  parse_size s =
      let t = trim_space s in
      if length t == 0 then none else with_suffix ordered_suffixes (to_upper t)
