-- ===== src/Auth/Token.antt =====
-- internal/auth/token.go: what a token permits, and the store that is built from the configuration.
pub mod Permission
use da_proxy.Prelude.{
  ℕ, Bool, true, false, not, ◌&&◌, ◌||◌, List, [], ◌∷◌, Option, none, some, ltb, if◌then◌else◌,
  Table, lookup, insert,
}
use da_proxy.Prelude.Text.{Text, codes, same, listed, has_prefix, has_suffix, trim_suffix}
use da_proxy.Prelude.Int.{ℤ, pos}

-- A time is a number of nanoseconds.
pub record TokenInfo : Type 0 where
  pub name : Text
  pub enabled : Bool
  pub rate_limit : ℤ
  pub scope : Text
  pub allowed_methods : List Text
  pub expires_at : Option ℕ

-- `config.TokenConfig`
pub record TokenConfig : Type 0 where
  pub token : Text
  pub name : Text
  pub enabled : Bool
  pub rate_limit : ℤ
  pub allowed_methods : List Text

-- `time.Now().After(*t.ExpiresAt)`, at the time `now`.
unfoldable pub is_expired : ℕ → TokenInfo → Bool
is_expired now t = elim t.expires_at [ none ↦ false | some at ↦ ltb at now ]

abbrev pub write_methods : List Text
write_methods =
    codes "broadcast_tx_sync"
    ∷ codes "broadcast_tx_async"
    ∷ codes "broadcast_tx_commit"
    ∷ codes "blob.Submit"
    ∷ codes "state.SubmitTx"
    ∷ codes "state.Transfer"
    ∷ codes "state.SubmitPayForBlob"
    ∷ codes "state.CancelUnbondingDelegation"
    ∷ codes "state.BeginRedelegate"
    ∷ codes "state.Undelegate"
    ∷ codes "state.Delegate"
    ∷ []

-- The other cases of the `switch` all return true.
unfoldable pub is_scope_allowed : Text → Text → Bool
is_scope_allowed scope method =
    if same scope (codes "read-only") then not (listed write_methods method) else true

-- One entry of the allowlist: the method itself, or a namespace with a wildcard.
unfoldable pub entry_allows : Text → Text → Bool
entry_allows m method =
    same m method || has_suffix m (codes ".*") && has_prefix method (trim_suffix m (codes "*"))

unfoldable pub any_allows : List Text → Text → Bool
any_allows [] method = false
any_allows (m ∷ ms) method = entry_allows m method || any_allows ms method

abbrev is_empty {ℓ} : {A : Type ℓ} → List A → Bool
is_empty [] = true
is_empty (_ ∷ _) = false

unfoldable pub is_method_allowed : TokenInfo → Text → Bool
is_method_allowed t method =
    if not (is_scope_allowed t.scope method)
    then false
    else if is_empty t.allowed_methods
    then true
    else any_allows t.allowed_methods method

-- The loop of `NewMemoryTokenStore`.
tokens_from : Table TokenInfo → List TokenConfig → Table TokenInfo
tokens_from m [] = m
tokens_from m (t ∷ ts) =
    tokens_from
      (insert t.token
        (record {
          name = t.name;
          enabled = t.enabled;
          rate_limit = t.rate_limit;
          scope = [];
          allowed_methods = t.allowed_methods;
          expires_at = none;
        })
        m)
      ts

unfoldable pub new_memory_token_store : List TokenConfig → Table TokenInfo
unfolding tokens_from
new_memory_token_store tokens = tokens_from [] tokens
