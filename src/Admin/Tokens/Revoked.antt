-- ===== src/Admin/Tokens/Revoked.antt =====
-- internal/admin/token_handlers.go over internal/middleware/auth.go: what becomes of the tokens that the
-- administrators make and revoke.
use da_proxy.Prelude.{
  ℕ, ◌≡◌, ◌≢◌, refl, true, false, not, ◌&&◌, [], ◌∷◌, Memᴰ, ◌==◌, Option, none, some, Result, ok,
  err, Bool-cases, inl, inr, length, arith,
}
use da_proxy.Prelude.Text.{Text, listed, listed-Memᴰ}
use da_proxy.Prelude.Int.{ℤ, parse_int}
use da_proxy.Auth.Table.{Row, Database, IsDatabase, TokenTable, find_id}
use da_proxy.Auth.Store.{
  CreateTokenRequest, IssuedToken, StoreError, TokenStore, valid_scopes, delete, create, find,
}
use da_proxy.Auth.Store.View.{IsReadable, IsSynced}
use da_proxy.Auth.Store.Issued.{IsListable, requested, create-find}
use da_proxy.Middleware.Context.{Context, Handler}
use da_proxy.Middleware.Auth.{extract_token, auth}
use da_proxy.Middleware.Auth.Revoked.{IsUnauthorized, auth-delete}
use da_proxy.Admin.{json, no_content}
use da_proxy.Admin.Tokens.{
  issued_token, delete_reply, create_reply, delete_id, create_bound, handle_delete_token,
  handle_create_token,
}

module _ {D : Type 0} where
  delete_reply-ok :
      (r : Result StoreError ℕ × TokenStore D) (s' : TokenStore D) (code : ℕ)
      → delete_reply r ≡ (ok (no_content code), some s')
      → (n : ℕ) × (r ≡ (ok n, s'))
  delete_reply-ok (err e, s) s' code p = absurd (cc)
  delete_reply-ok (ok n, s) s' code p = let q : s ≡ s' = cc in (n, rw q refl)

  create_reply-ok :
      (r : Result StoreError IssuedToken × TokenStore D) (s' : TokenStore D) (code : ℕ)
      (t : IssuedToken)
      → create_reply r ≡ (ok (json code (issued_token t)), some s')
      → r ≡ (ok t, s')
  create_reply-ok (err e, s) s' code t p = absurd (cc)
  create_reply-ok (ok u, s) s' code t p =
      let q : s ≡ s' = cc in let x : u ≡ t = cc in rw (q, x) refl

module _ {D : Type 0} (conn : Database D) where
  delete_id-ok :
      (id : Option ℤ) (now code : ℕ) (s s' : TokenStore D)
      → delete_id conn id now s ≡ (ok (no_content code), some s')
      → (i : ℤ) × (n : ℕ) × (id ≡ some i) × (delete conn i now s ≡ (ok n, s'))
  delete_id-ok none now code s s' e = absurd (cc)
  delete_id-ok (some i) now code s s' e =
      let (n, p) = delete_reply-ok (delete conn i now s) s' code e in (i, n, refl, p)

  create_bound-ok :
      (hash : Text → Text) (bound : Option CreateTokenRequest) (random : Option Text) (now code : ℕ)
      (t : IssuedToken) (s s' : TokenStore D)
      → create_bound conn hash bound random now s ≡ (ok (json code (issued_token t)), some s')
      → (req : CreateTokenRequest) × (bound ≡ some req)
        × ((length req.name == 0) ≡ false)
        × (not (length req.scope == 0) && not (listed valid_scopes req.scope) ≡ false)
        × (create conn hash req random now s ≡ (ok t, s'))
  create_bound-ok hash none random now code t s s' e = absurd (cc)
  create_bound-ok hash (some req) random now code t s s' e =
      elim (Bool-cases (length req.name == 0)) [
        | inl p ↦ absurd (let w = rw p at e in cc)
        | inr q ↦
            elim (Bool-cases (not (length req.scope == 0) && not (listed valid_scopes req.scope))) [
              | inl p ↦ absurd (let w = rw (q, p) at e in cc)
              | inr p ↦ (
                req,
                refl,
                q,
                p,
                create_reply-ok (create conn hash req random now s) s' code t (rw (q, p) at e),
              )
            ]
      ]

valid_scope :
    (scope : Text)
    → not (length scope == 0) && not (listed valid_scopes scope) ≡ false
    → Memᴰ scope valid_scopes
unfolding listed
valid_scope [] e = listed-Memᴰ valid_scopes [] refl
valid_scope (a ∷ scope) e =
    listed-Memᴰ valid_scopes (a ∷ scope) (elim (Bool-cases (listed valid_scopes (a ∷ scope))) [
      | inl p ↦ p
      | inr q ↦ absurd (let w = rw q at e in ground arith)
    ])

module _ {D : Type 0} (conn : Database D) (table : D → TokenTable) (doc : IsDatabase conn table)
    (answers : IsReadable conn) (hash : Text → Text) where
  -- In a database that keeps to its statements and answers each query of the tokens, and in a store whose cache is in step, a request to delete a token that is answered without an error has the
  -- number of a row as its id. Any later proxied request with a token of the hash of that row is answered with 401 and
  -- its context is left as it was, whatever the next handler is.
  pub handle_delete_token-auth :
      (id : Text) (now code : ℕ) (s s' : TokenStore D)
      → IsSynced table s
      → handle_delete_token conn id now (some s) ≡ (ok (no_content code), some s')
      → (i : ℤ) × (r : Row) × (parse_int id ≡ some i)
        × (find_id i (table s.db).rows ≡ some r)
        × ((later : ℕ) (next : Handler (TokenStore D)) (c : Context)
            → hash (extract_token c.path).0 ≡ r.token_hash
            → IsUnauthorized c (auth (λ token. find conn hash token later) later next c s'))
  unfolding handle_delete_token
  handle_delete_token-auth id now code s s' i e =
      let (z, n, p, q) = delete_id-ok conn (parse_int id) now code s s' e in
      let (r, f, g) = auth-delete conn table doc answers hash z now n s s' i q in (z, r, p, f, g)

  -- In a database that keeps to its statements and answers each query of the tokens, and in a store whose cache is in step, a request to create a token, whose body is read, is answered with a token. Then the
  -- name in the body is not empty and the scope is one of the four; and a lookup of the token that is handed out answers
  -- with what the body asks for, at any later time. No method of the body's list contains a comma, and the list is not one empty
  -- method.
  pub handle_create_token-find :
      (req : CreateTokenRequest) (random : Option Text) (now later code : ℕ) (t : IssuedToken)
      (s s' : TokenStore D)
      → IsListable req.allowed_methods
      → IsSynced table s
      → handle_create_token conn hash (some req) random now (some s)
        ≡ (ok (json code (issued_token t)), some s')
      → (req.name ≢ [])
        × Memᴰ req.scope valid_scopes
        × ((find conn hash t.plaintext_token later s').0 ≡ some (requested req))
  unfolding handle_create_token
  handle_create_token-find req random now later code t s s' l i e =
      let (q, b, n, v, p) = create_bound-ok conn hash (some req) random now code t s s' e in
      let x : q ≡ req = cc in
      let n' = rw x at n in
      (
        λ m. absurd (let w : (length req.name == 0) ≡ true = rw m refl in cc),
        valid_scope req.scope (rw x at v),
        create-find conn table doc answers hash req random now later s s' t l i (rw x at p),
      )
