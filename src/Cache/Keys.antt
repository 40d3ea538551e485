-- ===== src/Cache/Keys.antt =====
-- internal/cache/cache.go: two requests with the same key.
use da_proxy.Prelude.{ℕ, suc, ◌≡◌, ◌≢◌, ◌≤◌, refl, sym, ap, ◌∙◌, [], ◌∷◌, ◌++◌, All, arith}
use da_proxy.Prelude.Text.{Text, Lacks}
use da_proxy.Prelude.Text.Decimal.{to_decimal, to_decimal-All, value_of, value_of-to_decimal}
use da_proxy.Prelude.Int.{ℤ, pos, negsuc}
use da_proxy.Cache.Redis.{key, print_int}

no_append : (c : ℕ) (s u : Text) → Lacks c (s ++ c ∷ u) → c ≢ c
no_append c [] u (n, l) = n
no_append c (a ∷ s) u (n, l) = no_append c s u l

assoc : (s t u : Text) → (s ++ b':' ∷ t) ++ b':' ∷ u ≡ s ++ b':' ∷ (t ++ b':' ∷ u)
assoc [] t u = refl
assoc (a ∷ s) t u = ap (◌∷◌ a) (assoc s t u)

-- A text is split at its last `c` in one way.
last_split :
    (c : ℕ) (s t u v : Text) → Lacks c u → Lacks c v → s ++ c ∷ u ≡ t ++ c ∷ v → (s ≡ t) × (u ≡ v)
last_split c [] [] u v a b e = (refl, cc)
last_split c [] (y ∷ t) u v a b e =
    let w : u ≡ t ++ c ∷ v = cc in absurd (no_append c t v (rw w at a) refl)
last_split c (x ∷ s) [] u v a b e =
    let w : s ++ c ∷ u ≡ v = cc in absurd (no_append c s u (rw (sym w) at b) refl)
last_split c (x ∷ s) (y ∷ t) u v a b e =
    let (p, q) = last_split c s t u v a b (cc) in let h : x ≡ y = cc in (rw (p, h) refl, q)

Lacks-All : (c : ℕ) (s : Text) → All (λ d. d ≢ c) s → Lacks c s
Lacks-All c [] a = tt
Lacks-All c (d ∷ s) (n, a) = (n, Lacks-All c s a)

digits-Lacks : (n : ℕ) → Lacks b':' (to_decimal n)
digits-Lacks n =
    Lacks-All b':' (to_decimal n) (to_decimal-All (λ d. d ≢ b':') (λ k h e. omega arith) n)

print_int-Lacks : (z : ℤ) → Lacks b':' (print_int z)
print_int-Lacks (pos n) = digits-Lacks n
print_int-Lacks (negsuc n) = (λ e. omega arith, digits-Lacks (suc n))

to_decimal_eq : (i j : ℕ) → to_decimal i ≡ to_decimal j → i ≡ j
to_decimal_eq i j e = sym (value_of-to_decimal i) ∙ (ap (value_of 0) e ∙ value_of-to_decimal j)

-- No number begins with a minus.
no_minus : (n : ℕ) (s : Text) → to_decimal n ≢ b'-' ∷ s
no_minus n s e =
    let a = to_decimal-All (λ d. b'0' ≤ d) (λ k h. omega arith) n in
    let b : b'0' ≤ b'-' = (rw e at a).0 in omega arith

print_int_eq : (a b : ℤ) → print_int a ≡ print_int b → a ≡ b
print_int_eq (pos n) (pos m) e = ap pos (to_decimal_eq n m e)
print_int_eq (pos n) (negsuc m) e = absurd (no_minus n (to_decimal (suc m)) e)
print_int_eq (negsuc n) (pos m) e = absurd (no_minus m (to_decimal (suc n)) (sym e))
print_int_eq (negsuc n) (negsuc m) e =
    let f : to_decimal (suc n) ≡ to_decimal (suc m) = cc in
    let g = to_decimal_eq (suc n) (suc m) f in ap negsuc (omega arith)

-- The key tells the method and the height, whatever characters the method has, and the hash of the parameters.
pub key_eq :
    (hash : Text → Text) (hex : (p : Text) → Lacks b':' (hash p)) (m n : Text) (h k : ℤ)
    (p q : Text)
    → key hash m h p ≡ key hash n k q
    → (m ≡ n) × (h ≡ k) × (hash p ≡ hash q)
unfolding key
key_eq hash hex m n h k p q e =
    let (a, b) =
      last_split b':' (m ++ b':' ∷ print_int h) (n ++ b':' ∷ print_int k) (hash p) (hash q) (hex p)
        (hex q) (assoc m (print_int h) (hash p) ∙ (e ∙ sym (assoc n (print_int k) (hash q)))) in
    let (c, d) =
      last_split b':' m n (print_int h) (print_int k) (print_int-Lacks h) (print_int-Lacks k) a in
    (c, print_int_eq h k d, b)
