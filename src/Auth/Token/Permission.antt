-- ===== src/Auth/Token/Permission.antt =====
-- Which methods a token permits.
use mathlib.Core.List.{append_assoc}
use da_proxy.Prelude.{
  ◌≡◌, refl, sym, ap, ◌∙◌, ◌↔◌, ◌⊎◌, inl, inr, true, List, [], ◌∷◌, ◌++◌, Memᴰ, arith, Bool-cases,
  if◌then◌else◌,
}
use da_proxy.Prelude.Text.{
  Text, codes, same, same_iff, listed, listed-Memᴰ, listed_of_Memᴰ, has_prefix, has_suffix,
  trim_suffix,
}
use da_proxy.Prelude.Text.Affix.{has_prefix_iff, has_suffix_iff, trim_suffix-append}
use da_proxy.Auth.Token.{
  TokenInfo, write_methods, is_scope_allowed, entry_allows, any_allows, is_empty, is_method_allowed,
}

-- The entry is the method, or a namespace with ".*" whose dot the method goes on behind.
abbrev pub Permits : Text → Text → Type 0
Permits m method =
    (m ≡ method)
    ⊎ ((ns : Text) × (m ≡ ns ++ codes ".*")
        × ((rest : Text) × (method ≡ (ns ++ codes ".") ++ rest)))

trim_star : (ns : Text) → trim_suffix (ns ++ codes ".*") (codes "*") ≡ ns ++ codes "."
trim_star ns =
    ap (λ s. trim_suffix s (codes "*")) (sym (append_assoc ns (codes ".") (codes "*")))
    ∙ trim_suffix-append (ns ++ codes ".") (codes "*")

entry_allows_to : (m method : Text) → entry_allows m method ≡ true → Permits m method
unfolding entry_allows
entry_allows_to m method e = elim (Bool-cases (same m method)) [
  | inl p ↦ inl ((same_iff m method).0 p)
  | inr q ↦
      let wild : has_suffix m (codes ".*") ≡ true = ground arith in
      let under : has_prefix method (trim_suffix m (codes "*")) ≡ true = ground arith in
      let (ns, split) = (has_suffix_iff m (codes ".*")).0 wild in
      let (rest, more) = (has_prefix_iff method (trim_suffix m (codes "*"))).0 under in
      inr (
        ns,
        split,
        (
          rest,
          more ∙ ap (λ s. s ++ rest) (ap (λ s. trim_suffix s (codes "*")) split ∙ trim_star ns),
        ),
      )
]

entry_allows_from : (m method : Text) → Permits m method → entry_allows m method ≡ true
unfolding entry_allows
entry_allows_from m method (inl e) = rw ((same_iff m method).1 e)
entry_allows_from m method (inr (ns, split, (rest, more))) =
    let wild : has_suffix m (codes ".*") ≡ true = (has_suffix_iff m (codes ".*")).1 (ns, split) in
    let under : has_prefix method (trim_suffix m (codes "*")) ≡ true =
      (has_prefix_iff method (trim_suffix m (codes "*"))).1 (
        rest,
        more ∙ ap (λ s. s ++ rest) (sym (ap (λ s. trim_suffix s (codes "*")) split ∙ trim_star ns)),
      ) in
    ground arith

any_allows_to :
    (ms : List Text) (method : Text)
    → any_allows ms method ≡ true
    → (m : Text) × Memᴰ m ms × Permits m method
unfolding any_allows
any_allows_to [] method e = absurd (ground arith)
any_allows_to (m ∷ ms) method e = elim (Bool-cases (entry_allows m method)) [
  | inl p ↦ (m, Memᴰ.head refl, entry_allows_to m method p)
  | inr q ↦
      let (n, listed, permits) = any_allows_to ms method (ground arith) in
      (n, Memᴰ.tail listed, permits)
]

any_allows_from :
    (ms : List Text) (method m : Text) → Memᴰ m ms → Permits m method → any_allows ms method ≡ true
unfolding any_allows
any_allows_from [] method m l p = elim l [ ]
any_allows_from (n ∷ ms) method m (Memᴰ.head e) p = rw (entry_allows_from n method (rw (← e) p))
any_allows_from (n ∷ ms) method m (Memᴰ.tail l) p = ground (arith, any_allows_from ms method m l p)

is_scope_allowed_iff :
    (scope method : Text)
    → (is_scope_allowed scope method ≡ true)
      ↔ (scope ≡ codes "read-only" → Memᴰ method write_methods → ⊥)
unfolding is_scope_allowed
is_scope_allowed_iff scope method = elim (Bool-cases (same scope (codes "read-only"))) [
  | inl read_only ↦ elim (Bool-cases (listed write_methods method)) [
    | inl writes ↦
        rw (read_only, writes)
          (
            λ e. absurd (ground arith),
            λ h.
                absurd
                  (h ((same_iff scope _).0 read_only) (listed-Memᴰ write_methods method writes)),
          )
    | inr reads ↦
        rw (read_only, reads)
          (λ e s l. let m = listed_of_Memᴰ write_methods method l in ground arith, λ h. refl)
  ]
  | inr other ↦
      rw other
        (λ e s l. let m = (same_iff scope (codes "read-only")).1 s in ground arith, λ h. refl)
]

allowlist_iff :
    (ms : List Text) (method : Text)
    → ((if is_empty ms then true else any_allows ms method) ≡ true)
      ↔ ((ms ≡ []) ⊎ ((m : Text) × Memᴰ m ms × Permits m method))
allowlist_iff [] method = (λ e. inl refl, λ h. refl)
allowlist_iff (n ∷ ms) method = (λ e. inr (any_allows_to (n ∷ ms) method e), from)
  where
    from :
        ((n ∷ ms ≡ []) ⊎ ((m : Text) × Memᴰ m (n ∷ ms) × Permits m method))
        → any_allows (n ∷ ms) method ≡ true
    from (inl e) = absurd (ground arith)
    from (inr (m, l, p)) = any_allows_from (n ∷ ms) method m l p

-- A token permits a method exactly when it is not a writing method under a read-only scope, and the
-- allowlist is empty or has an entry for it: the method itself, or a namespace with ".*" of which
-- the method is a member.
pub is_method_allowed_iff :
    (t : TokenInfo) (method : Text)
    → (is_method_allowed t method ≡ true) ↔ (
        (t.scope ≡ codes "read-only" → Memᴰ method write_methods → ⊥)
        × ((t.allowed_methods ≡ []) ⊎ ((m : Text) × Memᴰ m t.allowed_methods × Permits m method)))
unfolding is_method_allowed
is_method_allowed_iff t method =
    let (scope_to, scope_from) = is_scope_allowed_iff t.scope method in
    let (list_to, list_from) = allowlist_iff t.allowed_methods method in
    elim (Bool-cases (is_scope_allowed t.scope method)) [
      | inl scoped ↦ rw scoped (λ e. (scope_to scoped, list_to e), λ h. list_from h.1)
      | inr refused ↦
          rw refused
            (λ e. absurd (ground arith), λ h. absurd (let s = scope_from h.0 in ground arith))
    ]
