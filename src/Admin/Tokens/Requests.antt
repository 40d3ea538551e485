-- ===== src/Admin/Tokens/Requests.antt =====
-- internal/admin/token_handlers.go: what a proxied request finds, whatever the administrators have asked for.
use da_proxy.Prelude.{
  ℕ, ◌≡◌, refl, not, ◌&&◌, List, [], ◌∷◌, ◌==◌, Option, none, some, Result, ok, err, Bool-cases,
  inl, inr, length,
}
use da_proxy.Prelude.Text.{Text, listed}
use da_proxy.Prelude.Int.{ℤ, parse_int}
use da_proxy.Auth.Table.{Database, IsDatabase, TokenTable, find_hash}
use da_proxy.Auth.Table.Unique.{IsProper}
use da_proxy.Auth.Token.{TokenInfo}
use da_proxy.Auth.Store.{
  Token, CreateTokenRequest, UpdateTokenRequest, IssuedToken, StoreError, TokenStore, valid_scopes,
  new_token_store, get, list, update, delete, create, rotate, find,
}
use da_proxy.Auth.Store.View.{known, IsReadable, IsSynced}
use da_proxy.Auth.Store.Synced.{
  find-known, find-IsSynced, list-IsSynced, get-IsSynced, update-IsSynced, create-IsSynced,
  delete-IsSynced, rotate-IsSynced,
}
use da_proxy.Auth.Store.Calls.{new_token_store-IsSynced}
use da_proxy.Admin.Tokens.{
  TokenRequest, listing, creating, getting, updating, deleting, rotating, serve_tokens, list_reply,
  token_reply, create_reply, delete_reply, rotate_reply, get_id, update_id, delete_id, rotate_id,
  create_bound, is_scope_refused, handle_list_tokens, handle_create_token, handle_get_token,
  handle_update_token, handle_delete_token, handle_rotate_token,
}

-- A request to the admin interface, or the lookup of a proxied one.
pub data Request : Type 0 where
  admin : TokenRequest → Request
  proxied : Text → Request

module _ {D : Type 0} (conn : Database D) (hash : Text → Text) where
  abbrev found : Text → ℕ → Option (TokenStore D) → Option TokenInfo × Option (TokenStore D)
  found token now none = (none, none)
  found token now (some s) = let (info, s') = find conn hash token now s in (info, some s')

  abbrev handled : ℕ → Request → Option (TokenStore D) → Option (TokenStore D)
  handled now (admin req) s = (serve_tokens conn hash now req s).1
  handled now (proxied token) s = (found token now s).1

  -- Requests at their times, in their order.
  unfoldable pub requests : List (ℕ × Request) → Option (TokenStore D) → Option (TokenStore D)
  requests [] s = s
  requests ((now, r) ∷ rs) s = requests rs (handled now r s)

module _ {D : Type 0} where
  list_reply-store :
      (r : Result StoreError (List Token) × TokenStore D) → (list_reply r).1 ≡ some r.1
  list_reply-store (err e, s) = refl
  list_reply-store (ok ts, s) = refl

  token_reply-store :
      (m : Text) (r : Result StoreError (Option Token) × TokenStore D)
      → (token_reply m r).1 ≡ some r.1
  token_reply-store m (err e, s) = refl
  token_reply-store m (ok none, s) = refl
  token_reply-store m (ok (some t), s) = refl

  create_reply-store :
      (r : Result StoreError IssuedToken × TokenStore D) → (create_reply r).1 ≡ some r.1
  create_reply-store (err e, s) = refl
  create_reply-store (ok t, s) = refl

  delete_reply-store : (r : Result StoreError ℕ × TokenStore D) → (delete_reply r).1 ≡ some r.1
  delete_reply-store (err e, s) = refl
  delete_reply-store (ok n, s) = refl

  rotate_reply-store :
      (r : Result StoreError IssuedToken × TokenStore D) → (rotate_reply r).1 ≡ some r.1
  rotate_reply-store (err e, s) = refl
  rotate_reply-store (ok t, s) = refl

module _ {D : Type 0} (conn : Database D) (table : D → TokenTable) (doc : IsDatabase conn table)
    (answers : IsReadable conn) (hash : Text → Text) where
  -- A store that is in step is there.
  abbrev IsServed : Option (TokenStore D) → Type 0
  IsServed o = (s : TokenStore D) × (o ≡ some s) × IsSynced table s

  get_id-IsServed :
      (id : Option ℤ) (s : TokenStore D) → IsSynced table s → IsServed (get_id conn id s).1
  get_id-IsServed none s i = (s, refl, i)
  get_id-IsServed (some id) s i =
      (_, token_reply-store _ (get conn id s), get-IsSynced conn table doc answers id s i)

  update_id-IsServed :
      (id : Option ℤ) (bound : Option UpdateTokenRequest) (now : ℕ) (s : TokenStore D)
      → IsSynced table s
      → IsServed (update_id conn id bound now s).1
  update_id-IsServed none bound now s i = (s, refl, i)
  update_id-IsServed (some id) none now s i = (s, refl, i)
  update_id-IsServed (some id) (some req) now s i = elim (Bool-cases (is_scope_refused req.scope)) [
    | inl p ↦ rw p (s, refl, i)
    | inr q ↦ rw q (
      _,
      token_reply-store _ (update conn id req now s),
      update-IsSynced conn table doc answers id req now s i,
    )
  ]

  delete_id-IsServed :
      (id : Option ℤ) (now : ℕ) (s : TokenStore D)
      → IsSynced table s
      → IsServed (delete_id conn id now s).1
  delete_id-IsServed none now s i = (s, refl, i)
  delete_id-IsServed (some id) now s i = (
    _,
    delete_reply-store (delete conn id now s),
    delete-IsSynced conn table doc answers id now s i,
  )

  create_bound-IsServed :
      (bound : Option CreateTokenRequest) (random : Option Text) (now : ℕ) (s : TokenStore D)
      → IsSynced table s
      → IsServed (create_bound conn hash bound random now s).1
  create_bound-IsServed none random now s i = (s, refl, i)
  create_bound-IsServed (some req) random now s i = elim (Bool-cases (length req.name == 0)) [
    | inl p ↦ rw p (s, refl, i)
    | inr q ↦
        elim (Bool-cases (not (length req.scope == 0) && not (listed valid_scopes req.scope))) [
          | inl p ↦ rw (q, p) (s, refl, i)
          | inr p ↦
              rw (q, p)
                (
                  _,
                  create_reply-store (create conn hash req random now s),
                  create-IsSynced conn table doc answers hash req random now s i,
                )
        ]
  ]

  rotate_id-IsServed :
      (id : Option ℤ) (random : Option Text) (now : ℕ) (s : TokenStore D)
      → IsSynced table s
      → IsServed (rotate_id conn hash id random now s).1
  rotate_id-IsServed none random now s i = (s, refl, i)
  rotate_id-IsServed (some id) random now s i = (
    _,
    rotate_reply-store (rotate conn hash id random now s),
    rotate-IsSynced conn table doc answers hash id random now s i,
  )

  serve_tokens-IsServed :
      (now : ℕ) (req : TokenRequest) (s : TokenStore D)
      → IsSynced table s
      → IsServed (serve_tokens conn hash now req (some s)).1
  unfolding serve_tokens handle_list_tokens handle_create_token handle_get_token handle_update_token
      handle_delete_token handle_rotate_token
  serve_tokens-IsServed now listing s i =
      (_, list_reply-store (list conn s), list-IsSynced conn table doc answers s i)
  serve_tokens-IsServed now (creating bound random) s i = create_bound-IsServed bound random now s i
  serve_tokens-IsServed now (getting id) s i = get_id-IsServed (parse_int id) s i
  serve_tokens-IsServed now (updating id bound) s i =
      update_id-IsServed (parse_int id) bound now s i
  serve_tokens-IsServed now (deleting id) s i = delete_id-IsServed (parse_int id) now s i
  serve_tokens-IsServed now (rotating id random) s i =
      rotate_id-IsServed (parse_int id) random now s i

  handled-IsServed :
      (now : ℕ) (r : Request) (s : TokenStore D)
      → IsSynced table s
      → IsServed (handled conn hash now r (some s))
  handled-IsServed now (admin req) s i = serve_tokens-IsServed now req s i
  handled-IsServed now (proxied token) s i =
      (_, refl, find-IsSynced conn table doc answers hash token now s i)

  requests-IsServed :
      (rs : List (ℕ × Request)) (s : TokenStore D)
      → IsSynced table s
      → IsServed (requests conn hash rs (some s))
  unfolding requests
  requests-IsServed [] s i = (s, refl, i)
  requests-IsServed ((now, r) ∷ rs) s i =
      let (u, e, j) = handled-IsServed now r s i in rw e (requests-IsServed rs u j)

  -- A store is opened on a table whose ids and hashes are distinct, in a database that keeps to its
  -- statements and answers each query of the tokens. After any requests for tokens to the admin interface and any proxied requests,
  -- whatever their answers are, the store is there, and a lookup answers what the table then has for the hash of the token, and nothing if
  -- it has none.
  pub requests-find :
      (opened : Option D) (ttl now : ℕ) (s : TokenStore D) (rs : List (ℕ × Request)) (token : Text)
      (later : ℕ)
      → ((d : D) → opened ≡ some d → IsProper (table d))
      → new_token_store conn opened ttl now ≡ some s
      → (s' : TokenStore D) × (requests conn hash rs (some s) ≡ some s')
        × ((find conn hash token later s').0 ≡ known (find_hash (hash token) (table s'.db).rows))
  requests-find opened ttl now s rs token later p e =
      let i = new_token_store-IsSynced conn table doc answers hash opened ttl now s p e in
      let (u, f, j) = requests-IsServed rs s i in
      (u, f, find-known conn table doc answers hash token later u j)
