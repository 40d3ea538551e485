-- ===== src/Auth/Store/Synced.antt =====
-- internal/auth/store.go: every operation keeps the cache a view of the table.
use da_proxy.Prelude.{
  ℕ, ◌+◌, ◌≡◌, ◌∙◌, sym, refl, List, length, Option, none, some, ltb, ◌==◌, Result, ok, err,
  Bool-cases, inl, inr,
}
use da_proxy.Prelude.Text.{Text}
use da_proxy.Prelude.Int.{ℤ}
use da_proxy.Auth.Table.{
  Row, Database, IsDatabase, Outcome, reads, TokenTable, find_hash, find_id, delete_row,
  count_enabled,
}
use da_proxy.Auth.Table.Unique.{
  IsProper, Leaves, insert_row-IsProper, update_row-IsProper, rotate_row-IsProper,
  delete_row-IsProper,
}
use da_proxy.Auth.Store.{
  CreateTokenRequest, UpdateTokenRequest, Token, StoreError, apply_request, TokenStore, fetched,
  get, update, updated, update_found, delete, deleted, rotate, rotated, rotate_found, created,
  create, find, tokens_listed, list, token_count,
}
use da_proxy.Auth.Store.View.{
  known, IsReadable, IsSynced, IsSynced-same, IsProper-answered, delete_row-none, load_cache-table,
  load_cache-IsSynced,
}

-- A query leaves the table as it was, answered or not.
Outcome-same :
    {D R : Type 0} (table : D → TokenTable) (f : List Row → R) {t : TokenTable} (q : Option R × D)
    → Outcome table t (reads f t) q
    → table q.1 ≡ t
Outcome-same table f (none, d) o = o.failed refl
Outcome-same table f (some a, d) o = let e = o.answered a refl in cc

module _ {D : Type 0} (conn : Database D) (table : D → TokenTable) (doc : IsDatabase conn table)
    (answers : IsReadable conn) where
  pub created-IsSynced :
      (req : CreateTokenRequest) (plaintext : Text) (now : ℕ) (m : Option (ℤ × TokenTable))
      (q : Option ℤ × D) (s : TokenStore D)
      → Outcome table (table s.db) m q
      → Leaves IsProper m
      → IsSynced table s
      → IsSynced table (created conn req plaintext now q s).1
  created-IsSynced req plaintext now m (none, d) s o l i = IsSynced-same table d s (o.failed refl) i
  created-IsSynced req plaintext now m (some a, d) s o l i =
      load_cache-IsSynced conn table doc answers now (record s { db = d })
        (IsProper-answered table _ m (some a, d) a o l refl)

  pub updated-IsSynced :
      (t : Token) (now : ℕ) (m : Option (ℕ × TokenTable)) (q : Option ℕ × D) (s : TokenStore D)
      → Outcome table (table s.db) m q
      → Leaves IsProper m
      → IsSynced table s
      → IsSynced table (updated conn t now q s).1
  updated-IsSynced t now m (none, d) s o l i = IsSynced-same table d s (o.failed refl) i
  updated-IsSynced t now m (some a, d) s o l i =
      load_cache-IsSynced conn table doc answers now (record s { db = d })
        (IsProper-answered table _ m (some a, d) a o l refl)

  pub rotated-IsSynced :
      (t : Token) (plaintext : Text) (now : ℕ) (m : Option (ℕ × TokenTable)) (q : Option ℕ × D)
      (s : TokenStore D)
      → Outcome table (table s.db) m q
      → Leaves IsProper m
      → IsSynced table s
      → IsSynced table (rotated conn t plaintext now q s).1
  rotated-IsSynced t plaintext now m (none, d) s o l i = IsSynced-same table d s (o.failed refl) i
  rotated-IsSynced t plaintext now m (some a, d) s o l i =
      load_cache-IsSynced conn table doc answers now (record s { db = d })
        (IsProper-answered table _ m (some a, d) a o l refl)

  pub deleted-IsSynced :
      (id : ℤ) (now : ℕ) (q : Option ℕ × D) (s : TokenStore D)
      → Outcome table (table s.db) (delete_row id (table s.db)) q
      → IsSynced table s
      → IsSynced table (deleted conn now q s).1
  unfolding IsSynced
  deleted-IsSynced id now (none, d) s o i = IsSynced-same table d s (o.failed refl) i
  deleted-IsSynced id now (some n, d) s o i = elim (Bool-cases (n == 0)) [
    | inl z ↦ rw z (
        IsSynced-same table d s (delete_row-none id (table s.db) (table d) n (o.answered n refl) z)
          i)
    | inr z ↦ rw z (
        load_cache-IsSynced conn table doc answers now (record s { db = d })
          (IsProper-answered table _ _ (some n, d) n o (delete_row-IsProper id (table s.db) i.0)
            refl))
  ]

  pub delete-IsSynced :
      (id : ℤ) (now : ℕ) (s : TokenStore D)
      → IsSynced table s
      → IsSynced table (delete conn id now s).1
  unfolding delete
  delete-IsSynced id now s i = deleted-IsSynced id now _ s (doc.deletes id s.db) i

  -- A query leaves the table as it was, answered or not.
  pub fetched-IsSynced :
      (b : TokenTable) (id : ℤ) (q : Option (Option Row) × D) (s : TokenStore D)
      → Outcome table (table s.db) (reads (find_id id) (table s.db)) q
      → IsSynced table s
      → IsSynced table (fetched q s).1
  fetched-IsSynced b id (none, d) s o i = IsSynced-same table d s (o.failed refl) i
  fetched-IsSynced b id (some none, d) s o i =
      IsSynced-same table d s (let e = o.answered none refl in cc) i
  fetched-IsSynced b id (some (some r), d) s o i =
      IsSynced-same table d s (let e = o.answered (some r) refl in cc) i

  pub get-IsSynced :
      (id : ℤ) (s : TokenStore D) → IsSynced table s → IsSynced table (get conn id s).1
  unfolding get
  get-IsSynced id s i = fetched-IsSynced (table s.db) id _ s (doc.selects_id id s.db) i

  pub tokens_listed-IsSynced :
      (q : Option (List Row) × D) (s : TokenStore D)
      → table q.1 ≡ table s.db
      → IsSynced table s
      → IsSynced table (tokens_listed q s).1
  tokens_listed-IsSynced (none, d) s e i = IsSynced-same table d s e i
  tokens_listed-IsSynced (some rows, d) s e i = IsSynced-same table d s e i

  pub list-IsSynced : (s : TokenStore D) → IsSynced table s → IsSynced table (list conn s).1
  unfolding list
  list-IsSynced s i = tokens_listed-IsSynced (conn.select_newest s.db) s (doc.lists s.db) i

  pub token_count-IsSynced :
      (s : TokenStore D) → IsSynced table s → IsSynced table (token_count conn s).1
  unfolding token_count
  token_count-IsSynced s i =
      let e = Outcome-same table length _ (doc.counts_all s.db) in
      let f = Outcome-same table count_enabled _ (doc.counts_active (conn.count_all s.db).1) in
      IsSynced-same table _ s (f ∙ e) i

  pub update_found-IsSynced :
      (id : ℤ) (req : UpdateTokenRequest) (now : ℕ)
      (r : Result StoreError (Option Token) × TokenStore D)
      → IsSynced table r.1
      → IsSynced table (update_found conn id req now r).1
  unfolding IsSynced
  update_found-IsSynced id req now (err e, s) i = i
  update_found-IsSynced id req now (ok none, s) i = i
  update_found-IsSynced id req now (ok (some t), s) i =
      updated-IsSynced (apply_request req t) now _ _ s (doc.updates _ _ now s.db)
        (update_row-IsProper _ _ now (table s.db) i.0) i

  pub update-IsSynced :
      (id : ℤ) (req : UpdateTokenRequest) (now : ℕ) (s : TokenStore D)
      → IsSynced table s
      → IsSynced table (update conn id req now s).1
  unfolding update
  update-IsSynced id req now s i = update_found-IsSynced id req now _ (get-IsSynced id s i)

module _ {D : Type 0} (conn : Database D) (table : D → TokenTable) (doc : IsDatabase conn table)
    (answers : IsReadable conn) (hash : Text → Text) where
  -- What `create` does once the row is there.
  pub create-IsSynced :
      (req : CreateTokenRequest) (random : Option Text) (now : ℕ) (s : TokenStore D)
      → IsSynced table s
      → IsSynced table (create conn hash req random now s).1
  unfolding create IsSynced
  create-IsSynced req none now s i = i
  create-IsSynced req (some plaintext) now s i =
      created-IsSynced conn table doc answers req plaintext now _ _ s (doc.inserts _ _ _ now s.db)
        (insert_row-IsProper _ _ _ now (table s.db) i.0) i

  pub rotate_found-IsSynced :
      (id : ℤ) (random : Option Text) (now : ℕ)
      (r : Result StoreError (Option Token) × TokenStore D)
      → IsSynced table r.1
      → IsSynced table (rotate_found conn hash id random now r).1
  unfolding IsSynced
  rotate_found-IsSynced id random now (err e, s) i = i
  rotate_found-IsSynced id random now (ok none, s) i = i
  rotate_found-IsSynced id none now (ok (some t), s) i = i
  rotate_found-IsSynced id (some p) now (ok (some t), s) i =
      rotated-IsSynced conn table doc answers t p now _ _ s (doc.rotates _ _ _ now s.db)
        (rotate_row-IsProper _ _ _ now (table s.db) i.0) i

  pub rotate-IsSynced :
      (id : ℤ) (random : Option Text) (now : ℕ) (s : TokenStore D)
      → IsSynced table s
      → IsSynced table (rotate conn hash id random now s).1
  unfolding rotate
  rotate-IsSynced id random now s i =
      rotate_found-IsSynced id random now _ (get-IsSynced conn table doc answers id s i)

  pub find-IsSynced :
      (token : Text) (now : ℕ) (s : TokenStore D)
      → IsSynced table s
      → IsSynced table (find conn hash token now s).1
  unfolding find IsSynced
  find-IsSynced token now s i = elim (Bool-cases (ltb (s.last_load + s.cache_ttl) now)) [
    | inl z ↦ rw z (load_cache-IsSynced conn table doc answers now s i.0)
    | inr z ↦ rw z i
  ]

  -- A lookup answers what the table knows of the token, before and after a load.
  pub find-known :
      (token : Text) (now : ℕ) (s : TokenStore D)
      → IsSynced table s
      → (find conn hash token now s).0 ≡ known (find_hash (hash token) (table s.db).rows)
  unfolding find IsSynced
  find-known token now s i = elim (Bool-cases (ltb (s.last_load + s.cache_ttl) now)) [
    | inl z ↦ rw z (
        let (p, v) = load_cache-IsSynced conn table doc answers now s i.0 in
        rw (sym (load_cache-table conn table doc answers now s)) (v (hash token)))
    | inr z ↦ rw z (i.1 (hash token))
  ]
