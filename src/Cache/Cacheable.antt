-- ===== src/Cache/Cacheable.antt =====
-- Which methods are cacheable.
use da_proxy.Prelude.{◌≡◌, refl, ◌↔◌, true, false, List, [], ◌∷◌, Memᴰ, arith, All}
use da_proxy.Prelude.Text.{Text, same, listed, listed-Memᴰ, listed_of_Memᴰ}
use da_proxy.Prelude.Int.{ℤ, pos, ◌<ℤ◌}
use da_proxy.Cache.{cacheable_methods, non_cacheable_methods, is_cacheable}

All-lookup : (P : Text → Type 0) (ts : List Text) {t : Text} → All P ts → Memᴰ t ts → P t
All-lookup P [] h m = elim m [ ]
All-lookup P (t ∷ ts) (p, h) (Memᴰ.head e) = rw e p
All-lookup P (t ∷ ts) (p, h) (Memᴰ.tail m) = All-lookup P ts h m

-- No method stands in both tables.
apart : All (λ m. listed non_cacheable_methods m ≡ false) cacheable_methods
unfolding listed same
apart = (
  refl,
  (refl, (refl, (refl, (refl, (refl, (refl, (refl, (refl, (refl, (refl, (refl, tt))))))))))),
)

-- An answer is cacheable exactly when its height is positive and its method is one of the twelve
-- cacheable ones: none of them is excluded by the other table.
pub is_cacheable_iff :
    (method : Text) (height : ℤ)
    → (is_cacheable method height ≡ true) ↔ ((pos 0 <ℤ height) × Memᴰ method cacheable_methods)
unfolding is_cacheable
is_cacheable_iff method height = (
  λ e. (ground arith, listed-Memᴰ cacheable_methods method (ground arith)),
  λ h. ground (
    arith,
    h.0,
    All-lookup (λ m. listed non_cacheable_methods m ≡ false) cacheable_methods apart h.1,
    listed_of_Memᴰ cacheable_methods method h.1,
  ),
)
