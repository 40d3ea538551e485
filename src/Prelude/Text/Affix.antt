-- ===== src/Prelude/Text/Affix.antt =====
-- Prefixes and suffixes.
use mathlib.Core.List.{[], reverse-reverse, reverse-append, ◌∷◌, reverse, ◌++◌}
use mathlib.Core.Path.{◌≡◌, refl, sym, ap, ◌∙◌}
use mathlib.Core.Logic.{◌↔◌}
use mathlib.Core.Bool.{true}
use native.Mathlib.Omega.{arith}
use da_proxy.Prelude.Lists.{length, drop}
use da_proxy.Prelude.Text.{Text, has_prefix, has_suffix, trim_prefix, trim_suffix}

pub has_prefix-append : (p rest : Text) → has_prefix (p ++ rest) p ≡ true
unfolding has_prefix
has_prefix-append [] [] = refl
has_prefix-append [] (a ∷ s) = refl
has_prefix-append (a ∷ p) rest = ground (arith, has_prefix-append p rest)

has_prefix_split : (s p : Text) → has_prefix s p ≡ true → (rest : Text) × (s ≡ p ++ rest)
unfolding has_prefix
has_prefix_split s [] e = (s, refl)
has_prefix_split [] (b ∷ p) e = absurd (ground arith)
has_prefix_split (a ∷ s) (b ∷ p) e =
    let (rest, q) = has_prefix_split s p (ground arith) in
    let same : a ≡ b = ground arith in (rest, cc)

-- A prefix is what stands before some rest.
pub has_prefix_iff : (s p : Text) → (has_prefix s p ≡ true) ↔ ((rest : Text) × (s ≡ p ++ rest))
has_prefix_iff s p = (has_prefix_split s p, λ h. rw h.1 (has_prefix-append p h.0))

-- A suffix is what stands behind some start.
pub has_suffix_iff : (s p : Text) → (has_suffix s p ≡ true) ↔ ((start : Text) × (s ≡ start ++ p))
unfolding has_suffix
has_suffix_iff s p = (
  λ e.
      let (rest, q) = (has_prefix_iff (reverse s) (reverse p)).0 e in
      (
        reverse rest,
        sym (reverse-reverse s)
            ∙ ap reverse q
            ∙ reverse-append (reverse p) rest
            ∙ ap (◌++◌ (reverse rest)) (reverse-reverse p),
      ),
  λ h. rw (h.1, reverse-append) (has_prefix-append (reverse p) (reverse h.0)),
)

drop-append : (p rest : Text) → drop (length p) (p ++ rest) ≡ rest
drop-append [] rest = refl
drop-append (a ∷ p) rest = drop-append p rest

pub trim_prefix-append : (p rest : Text) → trim_prefix (p ++ rest) p ≡ rest
unfolding trim_prefix
trim_prefix-append p rest = rw (has_prefix-append p rest) (drop-append p rest)

pub trim_suffix-append : (start p : Text) → trim_suffix (start ++ p) p ≡ start
unfolding trim_suffix
trim_suffix-append start p = rw (reverse-append, trim_prefix-append) (reverse-reverse start)
