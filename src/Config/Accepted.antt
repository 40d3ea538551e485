-- ===== src/Config/Accepted.antt =====
-- internal/config/config.go: which configurations are loaded, and the router that they give.
use da_proxy.Prelude.{
  ℕ, ◌+◌, ◌≡◌, ◌≢◌, ◌↔◌, ◌⊎◌, inl, inr, refl, Bool, true, not, List, [], ◌∷◌, Option, none, some,
  ok, All, Memᴰ, arith, Option-cases,
}
use da_proxy.Prelude.Text.{
  trim_space, has_suffix, trim_suffix, Text, codes, listed, listed-Memᴰ, listed_of_Memᴰ,
}
use da_proxy.Auth.Token.{TokenConfig}
use da_proxy.Config.Size.{with_suffix, to_upper, Floats, parse_size}
use da_proxy.Config.{
  Config, ConfigError, no_tokens, no_listen, no_app_rpc, no_node_rpc, bad_size, bad_level,
  bad_format, or_default, validate_tokens, valid_levels, valid_formats, apply_defaults, validate,
  checked, load, has_size, and_then, unless, is_empty, max_body_size_bytes,
}

-- The value and the name of a token are given.
abbrev pub IsNamed : TokenConfig → Type 0
IsNamed t = (t.token ≢ []) × (t.name ≢ [])

-- What is asked of the file; all else has a default.
pub record IsAccepted {F : Type 0} (floats : Floats) (c : Config F) : Type 0 where
  pub any : c.tokens ≢ []
  pub named : All IsNamed c.tokens
  pub sized : (c.server.max_body_size ≡ []) ⊎ (parse_size floats c.server.max_body_size ≢ none)
  pub leveled : (c.logging.level ≡ []) ⊎ Memᴰ c.logging.level valid_levels
  pub formatted : (c.logging.format ≡ []) ⊎ Memᴰ c.logging.format valid_formats

empty_iff {ℓ} : {A : Type ℓ} (xs : List A) → (not (is_empty xs) ≡ true) ↔ (xs ≢ [])
empty_iff [] = (λ e. absurd (cc), λ n. absurd (n refl))
empty_iff (x ∷ xs) = (λ e q. absurd (cc), λ n. refl)

validate_tokens-All :
    (i : ℕ) (ts : List TokenConfig) → (validate_tokens i ts ≡ none) ↔ All IsNamed ts
unfolding validate_tokens
validate_tokens-All i [] = (λ e. tt, λ a. refl)
validate_tokens-All i (t ∷ ts) = (
  λ e. (
    ((empty_iff t.token).0 (ground arith), (empty_iff t.name).0 (ground arith)),
    (validate_tokens-All (i + 1) ts).0 (ground arith),
  ),
  λ h.
      let ((a, b), r) = h in
      ground (
        arith,
        (empty_iff t.token).1 a,
        (empty_iff t.name).1 b,
        (validate_tokens-All (i + 1) ts).1 r,
      ),
)

-- A text that is listed, or stands for a default that is.
defaulted :
    (t d : Text) (ts : List Text)
    → Memᴰ d ts
    → (listed ts (or_default t d) ≡ true) ↔ ((t ≡ []) ⊎ Memᴰ t ts)
defaulted [] d ts m = (λ e. inl refl, λ o. listed_of_Memᴰ ts d m)
defaulted (a ∷ t) d ts m = (
  λ e. inr (listed-Memᴰ ts (a ∷ t) e),
  λ o. elim o [ inl e ↦ absurd (cc) | inr n ↦ listed_of_Memᴰ ts (a ∷ t) n ],
)

sized_or :
    (floats : Floats) (t d : Text)
    → has_size (parse_size floats (or_default t d)) ≡ true
    → (t ≡ []) ⊎ (parse_size floats t ≢ none)
sized_or floats [] d e = inl refl
sized_or floats (a ∷ t) d e = inr (λ q. absurd (ground arith))

-- The checks of `Validate`, one after the other.
abbrev chain :
    Bool → Option ConfigError → Bool → Bool → Bool → Bool → Bool → Bool → Option ConfigError
chain a o b c d s l f = and_then (unless a no_tokens) (
    and_then o (
      and_then (unless b no_listen) (
        and_then (unless c no_app_rpc) (
          and_then (unless d no_node_rpc)
            (and_then (unless s bad_size) (and_then (unless l bad_level) (unless f bad_format)))))))

chain-none :
    (a : Bool) (o : Option ConfigError) (b c d s l f : Bool)
    → chain a o b c d s l f ≡ none
    → (a ≡ true) × (o ≡ none) × (s ≡ true) × (l ≡ true) × (f ≡ true)
chain-none a o b c d s l f e = ground arith

chain_pass :
    (a : Bool) (o : Option ConfigError) (b c d s l f : Bool)
    → a ≡ true
    → o ≡ none
    → b ≡ true
    → c ≡ true
    → d ≡ true
    → s ≡ true
    → l ≡ true
    → f ≡ true
    → chain a o b c d s l f ≡ none
chain_pass a o b c d s l f ea eo eb ec ed es el ef = rw (ea, eo, eb, ec, ed, es, el, ef) refl

or_default_given {ℓ} : {A : Type ℓ} (t d : List A) → d ≢ [] → not (is_empty (or_default t d)) ≡ true
or_default_given [] d n = (empty_iff d).1 n
or_default_given (a ∷ t) d n = refl

sized_of :
    (floats : Floats) (t d : Text)
    → has_size (parse_size floats d) ≡ true
    → ((t ≡ []) ⊎ (parse_size floats t ≢ none))
    → has_size (parse_size floats (or_default t d)) ≡ true
sized_of floats [] d h o = h
sized_of floats (a ∷ t) d h (inl e) = absurd (cc)
sized_of floats (a ∷ t) d h (inr n) = elim (Option-cases (parse_size floats (a ∷ t))) [
  | inl q ↦ absurd (n q)
  | inr (z, q) ↦ rw q refl
]

parse_size_default :
    (floats : Floats) → parse_size floats (codes "10MB") ≡ floats.parse_scaled (codes "10") 1048576
unfolding parse_size with_suffix to_upper trim_space has_suffix trim_suffix
parse_size_default floats = refl

checked_ok : {F : Type 0} (c d : Config F) (o : Option ConfigError) → checked c o ≡ ok d → o ≡ none
checked_ok c d none e = refl
checked_ok c d (some x) e = absurd (cc)

module _ {F : Type 0} (floats : Floats) where
  validate-IsAccepted :
      (c : Config F) → validate floats (apply_defaults c) ≡ none → IsAccepted floats c
  unfolding validate apply_defaults max_body_size_bytes
  validate-IsAccepted c e =
      let (any, named, sized, level, format) =
        chain-none (not (is_empty c.tokens)) (validate_tokens 0 c.tokens)
          (not (is_empty (or_default c.server.listen (codes ":443"))))
          (not (
            is_empty
              (or_default c.backends.celestia_app_rpc (codes "http://127.0.0.1:26657" ∷ []))))
          (not (
            is_empty
              (or_default c.backends.celestia_node_rpc (codes "http://127.0.0.1:26658" ∷ []))))
          (has_size (parse_size floats (or_default c.server.max_body_size (codes "10MB"))))
          (listed valid_levels (or_default c.logging.level (codes "info")))
          (listed valid_formats (or_default c.logging.format (codes "json"))) e in
      record {
        any = (empty_iff c.tokens).0 (any);
        named = (validate_tokens-All 0 c.tokens).0 named;
        sized = sized_or floats c.server.max_body_size _ sized;
        leveled =
            (defaulted c.logging.level (codes "info") valid_levels (Memᴰ.tail (Memᴰ.head refl))).0
              (level);
        formatted =
            (defaulted c.logging.format (codes "json") valid_formats (Memᴰ.head refl)).0 (format);
      }

  validate-none :
      (c : Config F)
      → IsAccepted floats c
      → (ten : has_size (parse_size floats (codes "10MB")) ≡ true)
      → validate floats (apply_defaults c) ≡ none
  unfolding validate apply_defaults max_body_size_bytes
  validate-none c a ten =
      chain_pass (not (is_empty c.tokens)) (validate_tokens 0 c.tokens)
        (not (is_empty (or_default c.server.listen (codes ":443"))))
        (not
          (is_empty (or_default c.backends.celestia_app_rpc (codes "http://127.0.0.1:26657" ∷ []))))
        (not (
          is_empty (or_default c.backends.celestia_node_rpc (codes "http://127.0.0.1:26658" ∷ []))))
        (has_size (parse_size floats (or_default c.server.max_body_size (codes "10MB"))))
        (listed valid_levels (or_default c.logging.level (codes "info")))
        (listed valid_formats (or_default c.logging.format (codes "json")))
        ((empty_iff c.tokens).1 a.any) ((validate_tokens-All 0 c.tokens).1 a.named)
        (or_default_given c.server.listen _ (λ e. absurd (cc)))
        (or_default_given c.backends.celestia_app_rpc _ (λ e. absurd (cc)))
        (or_default_given c.backends.celestia_node_rpc _ (λ e. absurd (cc)))
        (sized_of floats c.server.max_body_size _ ten a.sized)
        ((defaulted c.logging.level (codes "info") valid_levels (Memᴰ.tail (Memᴰ.head refl))).1
          a.leveled)
        ((defaulted c.logging.format (codes "json") valid_formats (Memᴰ.head refl)).1 a.formatted)

  -- A file that is read and parsed is loaded, with its defaults, exactly when it has a token, each token has a value and a name,
  -- and the size, the level and the format are left out or have a valid value. ParseFloat reads the default size, 10MB.
  -- No other check of Validate can fail.
  pub load-ok_iff :
      (yaml : Text) (parse : Text → Option (Config F)) (c : Config F)
      → has_size (floats.parse_scaled (codes "10") 1048576) ≡ true
      → parse yaml ≡ some c
      → (load floats (some yaml) parse ≡ ok (apply_defaults c)) ↔ IsAccepted floats c
  unfolding load
  load-ok_iff yaml parse c ten e = (
    λ l. validate-IsAccepted c (
        checked_ok (apply_defaults c) (apply_defaults c) (validate floats (apply_defaults c))
          (rw (load, e) at l)),
    λ a. rw (load, e, validate-none c a (rw (parse_size_default floats) ten)) refl,
  )
