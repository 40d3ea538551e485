-- ===== src/Middleware/Auth/Revoked.antt =====
-- internal/middleware/auth.go over internal/auth/store.go: a token that is revoked no longer opens the proxy.
use da_proxy.Prelude.{ℕ, ◌≡◌, refl, ◌∙◌, ◌==◌, Option, none, some, ok, length, Bool-cases, inl, inr}
use da_proxy.Prelude.Text.{Text, same_refl}
use da_proxy.Prelude.Int.{ℤ}
use da_proxy.Auth.Token.{TokenInfo}
use da_proxy.Auth.Table.{Row, Database, IsDatabase, TokenTable, find_id}
use da_proxy.Auth.Store.{TokenStore, find, delete}
use da_proxy.Auth.Store.View.{IsReadable, IsSynced}
use da_proxy.Auth.Store.Revoked.{delete-find}
use da_proxy.Middleware.Context.{Context, Handler, HttpError, fail}
use da_proxy.Middleware.Auth.{extract_token, auth, check_token}

-- The request is answered with 401, by a message of the middleware, and the context is left as it was.
abbrev pub IsUnauthorized : {W : Type 0} → Context → Option HttpError × Context × W → Type 0
IsUnauthorized c r = ((m : Text) × (r.0 ≡ fail 401 m)) × (r.1 ≡ c)

module _ {W : Type 0} (lookup : Text → W → Option TokenInfo × W) where
  check_token-IsUnauthorized :
      (now : ℕ) (next : Handler W) (q : Option TokenInfo × W) (remaining : Text) (c : Context)
      → q.0 ≡ none
      → IsUnauthorized c (check_token now next q.0 remaining c q.1)
  unfolding check_token
  check_token-IsUnauthorized now next (none, w) remaining c e = ((_, refl), refl)
  check_token-IsUnauthorized now next (some i, w) remaining c e = absurd (cc)

  unknown-IsUnauthorized :
      (now : ℕ) (next : Handler W) (c : Context) (w : W)
      → (lookup (extract_token c.path).0 w).0 ≡ none
      → IsUnauthorized c (auth lookup now next c w)
  unfolding auth
  unknown-IsUnauthorized now next c w e = elim (Bool-cases (length (extract_token c.path).0 == 0)) [
    | inl p ↦ rw p ((_, refl), refl)
    | inr q ↦ rw q (
        check_token-IsUnauthorized now next (lookup (extract_token c.path).0 w)
          (extract_token c.path).1 c e)
  ]

module _ {D : Type 0} (conn : Database D) (table : D → TokenTable) (doc : IsDatabase conn table)
    (answers : IsReadable conn) (hash : Text → Text) where
  -- In a database that keeps to its statements and answers each query of the tokens, and in a store whose cache is in step, a Delete that succeeds was given the id of a row. Any later request with a token of the hash of that
  -- row is answered with 401 and its context is left as it was, whatever the next handler is.
  pub auth-delete :
      (id : ℤ) (now n : ℕ) (s s' : TokenStore D)
      → IsSynced table s
      → delete conn id now s ≡ (ok n, s')
      → (r : Row) × (find_id id (table s.db).rows ≡ some r)
        × ((later : ℕ) (next : Handler (TokenStore D)) (c : Context)
            → hash (extract_token c.path).0 ≡ r.token_hash
            → IsUnauthorized c (auth (λ token. find conn hash token later) later next c s'))
  auth-delete id now n s s' i e =
      let (r, f, g) = delete-find conn table doc answers hash id now n s s' i e in
      (
        r,
        f,
        λ later next c h.
            unknown-IsUnauthorized (λ token. find conn hash token later) later next c s'
              (g (extract_token c.path).0 later ∙ rw (h, same_refl r.token_hash) refl),
      )
