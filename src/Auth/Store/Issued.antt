-- ===== src/Auth/Store/Issued.antt =====
-- internal/auth/store.go: what a lookup answers for tokens that are created, rotated and deleted.
use da_proxy.Prelude.{
  ℕ, ◌+◌, ◌≡◌, ◌≢◌, refl, sym, true, List, [], ◌∷◌, Option, none, some, Result, ok, All, length,
  if◌then◌else◌, arith, ap, ◌==◌, ◌++◌, Option-cases, inl, inr, ◌∙◌,
}
use da_proxy.Prelude.Text.{Text, codes, Lacks}
use da_proxy.Prelude.Text.Split.{split, join, split-join}
use da_proxy.Prelude.Int.{ℤ, pos}
use da_proxy.Auth.Token.{TokenInfo}
use da_proxy.Auth.Table.{
  Row, Settings, Database, IsDatabase, Outcome, TokenTable, find_hash, insert_row,
}
use da_proxy.Auth.Table.Found.{find_hash-insert}
use da_proxy.Auth.Store.{
  CreateTokenRequest, IssuedToken, StoreError, methods_of, or_else, TokenStore, load_cache, created,
  new_token, settings_of, create, find,
}
use da_proxy.Auth.Store.View.{known, IsReadable, IsSynced, load_cache-table}
use da_proxy.Auth.Store.Synced.{create-IsSynced, find-known}

-- A list that the column keeps: no method has a comma, and the list is not the one empty method.
abbrev pub IsListable : List Text → Type 0
IsListable ms = All (Lacks b',') ms × (ms ≢ [] ∷ [])

methods_of-split : (t : Text) → t ≢ [] → methods_of t ≡ split b',' t
unfolding methods_of
methods_of-split [] n = absurd (n refl)
methods_of-split (a ∷ t) n = ground arith

append_ne : (t s : Text) (c : ℕ) → t ++ c ∷ s ≢ []
append_ne [] s c e = absurd (cc)
append_ne (a ∷ t) s c e = absurd (cc)

methods_of-join : (ms : List Text) → IsListable ms → methods_of (join b',' ms) ≡ ms
unfolding join methods_of
methods_of-join [] (l, n) = refl
methods_of-join ([] ∷ []) (l, n) = absurd (n refl)
methods_of-join ((a ∷ m) ∷ []) (l, n) =
    methods_of-split (a ∷ m) (λ e. absurd (cc))
    ∙ split-join b',' ((a ∷ m) ∷ []) (λ e. absurd (cc)) l
methods_of-join (m ∷ n ∷ ms) (l, k) =
    methods_of-split (join b',' (m ∷ n ∷ ms)) (append_ne m (join b',' (n ∷ ms)) b',')
    ∙ split-join b',' (m ∷ n ∷ ms) (λ e. absurd (cc)) l

-- What the request asks for, with the defaults.
abbrev pub requested : CreateTokenRequest → TokenInfo
requested req = record {
  name = req.name;
  enabled = or_else req.enabled true;
  rate_limit = req.rate_limit;
  scope = if length req.scope == 0 then codes "write" else req.scope;
  allowed_methods = req.allowed_methods;
  expires_at = req.expires_at;
}

-- The row that a statement leaves under the new hash.
insert_row-some :
    (h p : Text) (s : Settings) (now : ℕ) (t u : TokenTable) (id : ℤ)
    → insert_row h p s now t ≡ some (id, u)
    → (r : Row) × (find_hash h u.rows ≡ some r) × (r.settings ≡ s)
unfolding insert_row
insert_row-some h p s now t u id e = elim (Option-cases (find_hash h t.rows)) [
  | inl q ↦
      (let r : Row = record {
        id = t.next_id;
        token_hash = h;
        token_prefix = p;
        settings = s;
        created_at = now;
        updated_at = now;
      } in
        let w : insert_row h p s now t
            ≡ some (pos t.next_id, record { rows = t.rows ++ r ∷ []; next_id = t.next_id + 1 }) =
          rw (insert_row, q) refl in
        let x : u.rows ≡ t.rows ++ r ∷ [] = cc in
        (r, rw x (find_hash-insert h r t.rows q refl), refl))
  | inr (r, q) ↦ (let w : insert_row h p s now t ≡ none = rw (insert_row, q) refl in absurd (cc))
]

abbrev pub ok_with : {X : Type 0} → IssuedToken → X → Result StoreError IssuedToken × X
ok_with i x = (ok i, x)

pub issued_eq : {X : Type 0} (i j : IssuedToken) (x y : X) → ok_with i x ≡ (ok j, y) → i ≡ j
issued_eq i j x y e = cc

module _ {D : Type 0} (conn : Database D) (table : D → TokenTable) (doc : IsDatabase conn table)
    (answers : IsReadable conn) (hash : Text → Text) where
  created-find :
      (req : CreateTokenRequest) (plaintext p : Text) (now : ℕ) (q : Option ℤ × D)
      (s s' : TokenStore D) (issued : IssuedToken)
      → IsListable req.allowed_methods
      → Outcome table
          (table s.db)
          (insert_row
            (hash plaintext)
            p
            (settings_of (new_token req plaintext now (pos 0)))
            now
            (table s.db))
          q
      → created conn req plaintext now q s ≡ (ok issued, s')
      → (plaintext ≡ issued.plaintext_token)
        × (known (find_hash (hash plaintext) (table s'.db).rows) ≡ some (requested req))
  created-find req plaintext p now (none, d) s s' issued l o e = absurd (cc)
  created-find req plaintext p now (some id, d) s s' issued l o e =
      let (r, f, g) =
        insert_row-some (hash plaintext) p _ now (table s.db) (table d) id (o.answered id refl) in
      let x : (load_cache conn now (record s { db = d })).1 ≡ s' = cc in
      let y : table s'.db ≡ table d =
        rw (sym x) (load_cache-table conn table doc answers now (record s { db = d })) in
      (
        ap (λ i. i.plaintext_token) (issued_eq _ _ _ _ e),
        rw (y, f) (simp (g, methods_of-join req.allowed_methods l) refl),
      )

  -- In a database that keeps to its statements and answers each query of the tokens, and in a store whose cache is in step, a token is created. A lookup of the token that is handed out
  -- answers with what the request asks for, at any later time: enabled and with the scope "write" where the request
  -- leaves them open. No method of the request's list contains a comma, and the list is not one empty method.
  pub create-find :
      (req : CreateTokenRequest) (random : Option Text) (now later : ℕ) (s s' : TokenStore D)
      (issued : IssuedToken)
      → IsListable req.allowed_methods
      → IsSynced table s
      → create conn hash req random now s ≡ (ok issued, s')
      → (find conn hash issued.plaintext_token later s').0 ≡ some (requested req)
  unfolding create
  create-find req none now later s s' issued l i e = absurd (cc)
  create-find req (some plaintext) now later s s' issued l i e =
      let (q, f) =
        created-find req plaintext _ now _ s s' issued l (doc.inserts _ _ _ now s.db) e in
      let j : IsSynced table s' =
        (let w : (create conn hash req (some plaintext) now s).1 ≡ s' = ap (λ r. r.1) e in
          rw (sym w) (create-IsSynced conn table doc answers hash req (some plaintext) now s i)) in
      rw (sym q) (find-known conn table doc answers hash plaintext later s' j ∙ f)
