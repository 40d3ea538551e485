-- ===== src/Admin/Tokens/Unchanged.antt =====
-- internal/admin/token_handlers.go: requests that end in an error.
use da_proxy.Prelude.{
  ℕ, ◌≡◌, ◌∙◌, sym, refl, not, ◌&&◌, List, ap, ◌==◌, Option, none, some, Result, ok, err,
  Bool-cases, inl, inr, length,
}
use da_proxy.Prelude.Text.{Text, listed}
use da_proxy.Prelude.Int.{ℤ, parse_int}
use da_proxy.Auth.Table.{Row, Database, IsDatabase, Outcome, TokenTable, reads, find_id, delete_row}
use da_proxy.Auth.Store.{
  Token, CreateTokenRequest, UpdateTokenRequest, IssuedToken, StoreError, TokenStore, valid_scopes,
  fetched, get, list, tokens_listed, update, updated, update_found, delete, deleted, create,
  created, rotate, rotated, rotate_found, apply_request,
}
use da_proxy.Auth.Store.View.{delete_row-none}
use da_proxy.Middleware.Context.{HttpError}
use da_proxy.Admin.Tokens.{
  Served, TokenRequest, listing, creating, getting, updating, deleting, rotating, serve_tokens,
  list_reply, token_reply, create_reply, delete_reply, rotate_reply, get_id, update_id, delete_id,
  rotate_id, create_bound, is_scope_refused, handle_list_tokens, handle_create_token,
  handle_get_token, handle_update_token, handle_delete_token, handle_rotate_token,
}

module _ {D : Type 0} (table : D → TokenTable) where
  -- A result that is an error left the table of `s` as it was.
  abbrev IsHarmless : {A : Type 0} → TokenStore D → Result StoreError A × TokenStore D → Type 0
  IsHarmless s r = (e : StoreError) → r.0 ≡ err e → table r.1.db ≡ table s.db

  -- So did a result that is nil.
  abbrev IsNilHarmless : TokenStore D → Result StoreError (Option Token) × TokenStore D → Type 0
  IsNilHarmless s r = r.0 ≡ ok none → table r.1.db ≡ table s.db

  -- A store is there, and its table is the one of `s` where the answer is an error.
  abbrev pub IsKept : TokenStore D → Served D → Type 0
  IsKept s r =
      (s' : TokenStore D) × (r.1 ≡ some s')
      × ((e : HttpError) → r.0 ≡ err e → table s'.db ≡ table s.db)

  list_reply-IsKept :
      (s : TokenStore D) (r : Result StoreError (List Token) × TokenStore D)
      → IsHarmless s r
      → IsKept s (list_reply r)
  list_reply-IsKept s (err e, u) h = (u, refl, λ x p. h e refl)
  list_reply-IsKept s (ok ts, u) h = (u, refl, λ x p. absurd (cc))

  token_reply-IsKept :
      (m : Text) (s : TokenStore D) (r : Result StoreError (Option Token) × TokenStore D)
      → IsHarmless s r
      → IsNilHarmless s r
      → IsKept s (token_reply m r)
  token_reply-IsKept m s (err e, u) h n = (u, refl, λ x p. h e refl)
  token_reply-IsKept m s (ok none, u) h n = (u, refl, λ x p. n refl)
  token_reply-IsKept m s (ok (some t), u) h n = (u, refl, λ x p. absurd (cc))

  create_reply-IsKept :
      (s : TokenStore D) (r : Result StoreError IssuedToken × TokenStore D)
      → IsHarmless s r
      → IsKept s (create_reply r)
  create_reply-IsKept s (err e, u) h = (u, refl, λ x p. h e refl)
  create_reply-IsKept s (ok t, u) h = (u, refl, λ x p. absurd (cc))

  delete_reply-IsKept :
      (s : TokenStore D) (r : Result StoreError ℕ × TokenStore D)
      → IsHarmless s r
      → IsKept s (delete_reply r)
  delete_reply-IsKept s (err e, u) h = (u, refl, λ x p. h e refl)
  delete_reply-IsKept s (ok n, u) h = (u, refl, λ x p. absurd (cc))

  rotate_reply-IsKept :
      (s : TokenStore D) (r : Result StoreError IssuedToken × TokenStore D)
      → IsHarmless s r
      → IsKept s (rotate_reply r)
  rotate_reply-IsKept s (err e, u) h = (u, refl, λ x p. h e refl)
  rotate_reply-IsKept s (ok t, u) h = (u, refl, λ x p. absurd (cc))

module _ {D : Type 0} (conn : Database D) (table : D → TokenTable)
    (doc : IsDatabase conn table) where
  fetched-table :
      (id : ℤ) (q : Option (Option Row) × D) (s : TokenStore D)
      → Outcome table (table s.db) (reads (find_id id) (table s.db)) q
      → table (fetched q s).1.db ≡ table s.db
  fetched-table id (none, d) s o = o.failed refl
  fetched-table id (some none, d) s o = let e = o.answered none refl in cc
  fetched-table id (some (some r), d) s o = let e = o.answered (some r) refl in cc

  get-table : (id : ℤ) (s : TokenStore D) → table (get conn id s).1.db ≡ table s.db
  unfolding get
  get-table id s = fetched-table id _ s (doc.selects_id id s.db)

  tokens_listed-table :
      (q : Option (List Row) × D) (s : TokenStore D)
      → table q.1 ≡ table s.db
      → table (tokens_listed q s).1.db ≡ table s.db
  tokens_listed-table (none, d) s e = e
  tokens_listed-table (some rows, d) s e = e

  updated-IsHarmless :
      (t : Token) (now : ℕ) (m : Option (ℕ × TokenTable)) (q : Option ℕ × D) (s u : TokenStore D)
      → Outcome table (table u.db) m q
      → table u.db ≡ table s.db
      → IsHarmless table s (updated conn t now q u) × IsNilHarmless table s (updated conn t now q u)
  updated-IsHarmless t now m (none, d) s u o e = (λ x p. o.failed refl ∙ e, λ p. absurd (cc))
  updated-IsHarmless t now m (some n, d) s u o e = (λ x p. absurd (cc), λ p. absurd (cc))

  update_found-IsHarmless :
      (id : ℤ) (req : UpdateTokenRequest) (now : ℕ) (s : TokenStore D)
      (r : Result StoreError (Option Token) × TokenStore D)
      → table r.1.db ≡ table s.db
      → IsHarmless table s (update_found conn id req now r)
        × IsNilHarmless table s (update_found conn id req now r)
  update_found-IsHarmless id req now s (err e, u) h = (λ x p. h, λ p. h)
  update_found-IsHarmless id req now s (ok none, u) h = (λ x p. h, λ p. h)
  update_found-IsHarmless id req now s (ok (some t), u) h =
      updated-IsHarmless (apply_request req t) now _ _ s u (doc.updates _ _ now u.db) h

  deleted-IsHarmless :
      (id : ℤ) (now : ℕ) (q : Option ℕ × D) (s : TokenStore D)
      → Outcome table (table s.db) (delete_row id (table s.db)) q
      → IsHarmless table s (deleted conn now q s)
  deleted-IsHarmless id now (none, d) s o e p = o.failed refl
  deleted-IsHarmless id now (some n, d) s o e p = elim (Bool-cases (n == 0)) [
    | inl z ↦ rw z (delete_row-none id (table s.db) (table d) n (o.answered n refl) z)
    | inr z ↦ absurd (let w = rw z at p in cc)
  ]

module _ {D : Type 0} (conn : Database D) (table : D → TokenTable) (doc : IsDatabase conn table)
    (hash : Text → Text) where
  created-IsHarmless :
      (req : CreateTokenRequest) (plaintext : Text) (now : ℕ) (m : Option (ℤ × TokenTable))
      (q : Option ℤ × D) (s : TokenStore D)
      → Outcome table (table s.db) m q
      → IsHarmless table s (created conn req plaintext now q s)
  created-IsHarmless req plaintext now m (none, d) s o e p = o.failed refl
  created-IsHarmless req plaintext now m (some i, d) s o e p = absurd (cc)

  create-IsHarmless :
      (req : CreateTokenRequest) (random : Option Text) (now : ℕ) (s : TokenStore D)
      → IsHarmless table s (create conn hash req random now s)
  unfolding create
  create-IsHarmless req none now s e p = refl
  create-IsHarmless req (some plaintext) now s e p =
      created-IsHarmless req plaintext now _ _ s (doc.inserts _ _ _ now s.db) e p

  rotated-IsHarmless :
      (t : Token) (plaintext : Text) (now : ℕ) (m : Option (ℕ × TokenTable)) (q : Option ℕ × D)
      (s u : TokenStore D)
      → Outcome table (table u.db) m q
      → table u.db ≡ table s.db
      → IsHarmless table s (rotated conn t plaintext now q u)
  rotated-IsHarmless t plaintext now m (none, d) s u o h e p = o.failed refl ∙ h
  rotated-IsHarmless t plaintext now m (some n, d) s u o h e p = absurd (cc)

  rotate_found-IsHarmless :
      (id : ℤ) (random : Option Text) (now : ℕ) (s : TokenStore D)
      (r : Result StoreError (Option Token) × TokenStore D)
      → table r.1.db ≡ table s.db
      → IsHarmless table s (rotate_found conn hash id random now r)
  rotate_found-IsHarmless id random now s (err x, u) h e p = h
  rotate_found-IsHarmless id random now s (ok none, u) h e p = h
  rotate_found-IsHarmless id none now s (ok (some t), u) h e p = h
  rotate_found-IsHarmless id (some plaintext) now s (ok (some t), u) h e p =
      rotated-IsHarmless t plaintext now _ _ s u (doc.rotates _ _ _ now u.db) h e p

  get_id-IsKept : (id : Option ℤ) (s : TokenStore D) → IsKept table s (get_id conn id s)
  unfolding get
  get_id-IsKept none s = (s, refl, λ e p. refl)
  get_id-IsKept (some id) s =
      token_reply-IsKept table _ s _ (λ e p. get-table conn table doc id s)
        (λ p. get-table conn table doc id s)

  update_id-IsKept :
      (id : Option ℤ) (bound : Option UpdateTokenRequest) (now : ℕ) (s : TokenStore D)
      → IsKept table s (update_id conn id bound now s)
  unfolding update
  update_id-IsKept none bound now s = (s, refl, λ e p. refl)
  update_id-IsKept (some id) none now s = (s, refl, λ e p. refl)
  update_id-IsKept (some id) (some req) now s = elim (Bool-cases (is_scope_refused req.scope)) [
    | inl p ↦ rw p (s, refl, λ e q. refl)
    | inr q ↦ rw q (
        let (h, n) =
          update_found-IsHarmless conn table doc id req now s (get conn id s)
            (get-table conn table doc id s) in
        token_reply-IsKept table _ s _ h n)
  ]

  delete_id-IsKept :
      (id : Option ℤ) (now : ℕ) (s : TokenStore D) → IsKept table s (delete_id conn id now s)
  unfolding delete
  delete_id-IsKept none now s = (s, refl, λ e p. refl)
  delete_id-IsKept (some id) now s =
      delete_reply-IsKept table s _
        (deleted-IsHarmless conn table doc id now _ s (doc.deletes id s.db))

  create_bound-IsKept :
      (bound : Option CreateTokenRequest) (random : Option Text) (now : ℕ) (s : TokenStore D)
      → IsKept table s (create_bound conn hash bound random now s)
  create_bound-IsKept none random now s = (s, refl, λ e p. refl)
  create_bound-IsKept (some req) random now s = elim (Bool-cases (length req.name == 0)) [
    | inl p ↦ rw p (s, refl, λ e q. refl)
    | inr q ↦
        elim (Bool-cases (not (length req.scope == 0) && not (listed valid_scopes req.scope))) [
          | inl p ↦ rw (q, p) (s, refl, λ e q. refl)
          | inr p ↦ rw (q, p) (create_reply-IsKept table s _ (create-IsHarmless req random now s))
        ]
  ]

  rotate_id-IsKept :
      (id : Option ℤ) (random : Option Text) (now : ℕ) (s : TokenStore D)
      → IsKept table s (rotate_id conn hash id random now s)
  unfolding rotate
  rotate_id-IsKept none random now s = (s, refl, λ e p. refl)
  rotate_id-IsKept (some id) random now s =
      rotate_reply-IsKept table s _
        (rotate_found-IsHarmless id random now s (get conn id s) (get-table conn table doc id s))

  pub serve_tokens-IsKept :
      (now : ℕ) (req : TokenRequest) (s : TokenStore D)
      → IsKept table s (serve_tokens conn hash now req (some s))
  unfolding serve_tokens handle_list_tokens handle_create_token handle_get_token handle_update_token
      handle_delete_token handle_rotate_token list
  serve_tokens-IsKept now listing s =
      let e = tokens_listed-table conn table doc (conn.select_newest s.db) s (doc.lists s.db) in
      list_reply-IsKept table s _ (λ x p. e)
  serve_tokens-IsKept now (creating bound random) s = create_bound-IsKept bound random now s
  serve_tokens-IsKept now (getting id) s = get_id-IsKept (parse_int id) s
  serve_tokens-IsKept now (updating id bound) s = update_id-IsKept (parse_int id) bound now s
  serve_tokens-IsKept now (deleting id) s = delete_id-IsKept (parse_int id) now s
  serve_tokens-IsKept now (rotating id random) s = rotate_id-IsKept (parse_int id) random now s

  -- A database keeps to its statements. A request for tokens that is answered with an error, for whatever
  -- reason, leaves the table of tokens as it was.
  pub serve_tokens-unchanged :
      (now : ℕ) (req : TokenRequest) (s s' : TokenStore D) (e : HttpError)
      → serve_tokens conn hash now req (some s) ≡ (err e, some s')
      → table s'.db ≡ table s.db
  serve_tokens-unchanged now req s s' e p =
      let (u, a, k) = serve_tokens-IsKept now req s in
      let q : (serve_tokens conn hash now req (some s)).1 ≡ some s' = ap (λ r. r.1) p in
      let r : u ≡ s' = cc in rw (sym r) (k e (ap (λ r. r.0) p))
