-- ===== src/Prelude/Text/Split.antt =====
-- `strings.Split` and `strings.Join` at a separator of one byte.
use Prim.Native.Nat.{ℕ}
use mathlib.Core.Path.{◌≡◌, refl, ap, ◌∙◌}
use mathlib.Core.Logic.{◌≢◌}
use mathlib.Core.List.{List, [], ◌∷◌, ◌++◌}
use native.Mathlib.Omega.{arith}
use da_proxy.Prelude.Tests.{◌==◌, if◌then◌else◌}
use da_proxy.Prelude.Lists.{All}
use da_proxy.Prelude.Text.{Text, Lacks}

abbrev pub cons_first : ℕ → List Text → List Text
cons_first a [] = (a ∷ []) ∷ []
cons_first a (t ∷ ts) = (a ∷ t) ∷ ts

unfoldable pub split : ℕ → Text → List Text
split c [] = [] ∷ []
split c (a ∷ s) = let rest = split c s in if a == c then [] ∷ rest else cons_first a rest

unfoldable pub join : ℕ → List Text → Text
join c [] = []
join c (t ∷ []) = t
join c (t ∷ u ∷ ts) = t ++ c ∷ join c (u ∷ ts)

split-Lacks : (c : ℕ) (t : Text) → Lacks c t → split c t ≡ t ∷ []
unfolding split
split-Lacks c [] l = refl
split-Lacks c (a ∷ t) (n, l) = ground (arith, split-Lacks c t l)

split-append : (c : ℕ) (t s : Text) → Lacks c t → split c (t ++ c ∷ s) ≡ t ∷ split c s
unfolding split
split-append c [] s l = ground arith
split-append c (a ∷ t) s (n, l) = ground (arith, split-append c t s l)

-- Texts without the separator, one at least, are what their join is split into.
pub split-join : (c : ℕ) (ts : List Text) → ts ≢ [] → All (Lacks c) ts → split c (join c ts) ≡ ts
unfolding join
split-join c [] n h = absurd (n refl)
split-join c (t ∷ []) n (l, h) = split-Lacks c t l
split-join c (t ∷ u ∷ ts) n (l, h) =
    split-append c t (join c (u ∷ ts)) l ∙ ap (◌∷◌ t) (split-join c (u ∷ ts) (λ e. ground arith) h)

-- `strings.Join` at any separator.
unfoldable pub join_text : Text → List Text → Text
join_text sep [] = []
join_text sep (t ∷ []) = t
join_text sep (t ∷ u ∷ ts) = t ++ (sep ++ join_text sep (u ∷ ts))
