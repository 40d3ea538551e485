-- ===== src/Auth/Store.antt =====
-- internal/auth/store.go: the tokens in a database, with the ones of the last load in memory.
mod Data
pub mod View
pub mod Synced
pub mod Calls
pub mod Issued
pub mod Revoked
unfoldable pub use Data.*
use da_proxy.Prelude.{
  ℕ, ◌+◌, Bool, true, false, not, List, [], ◌∷◌, map, Option, none, some, ltb, ◌==◌, if◌then◌else◌,
  length, take, Result, ok, err, Table, lookup, insert,
}
use da_proxy.Prelude.Text.{Text, codes}
use da_proxy.Prelude.Text.Split.{split, join}
use da_proxy.Prelude.Int.{ℤ, pos}
use da_proxy.Auth.Token.{TokenInfo, TokenConfig}
use da_proxy.Auth.Table.{Row, Settings, Database}

-- The number imported so far, whether there was no error, and the store.
abbrev pub Import : Type 0 → Type 0
Import D = ℕ × Bool × TokenStore D

module _ {D : Type 0} where
  -- What `loadCache` does with the answer of the query.
  abbrev pub with_rows : ℕ → Option (List Row) × D → TokenStore D → Bool × TokenStore D
  with_rows now (none, d) s = (false, record s { db = d })
  with_rows now (some rows, d) s =
      (true, record s { db = d; cache = cache_from [] rows; last_load = now })

  -- `Get`: nil for a row that is not there.
  abbrev pub fetched :
      Option (Option Row) × D → TokenStore D → Result StoreError (Option Token) × TokenStore D
  fetched (none, d) s = (err database, record s { db = d })
  fetched (some none, d) s = (ok none, record s { db = d })
  fetched (some (some r), d) s = (ok (some (scan_token r)), record s { db = d })

  abbrev pub tokens_listed :
      Option (List Row) × D → TokenStore D → Result StoreError (List Token) × TokenStore D
  tokens_listed (none, d) s = (err database, record s { db = d })
  tokens_listed (some rows, d) s = (ok (map scan_token rows), record s { db = d })

  abbrev pub inserted : Option ℤ × D → ℕ → TokenStore D → (ℕ → TokenStore D → Import D) → Import D
  inserted (none, d) n s rest = (n, false, record s { db = d })
  inserted (some id, d) n s rest = rest (n + 1) (record s { db = d })

-- Over a database.
module _ {D : Type 0} (conn : Database D) where
  -- Whether it succeeded, and the store. The query and its rows are one read, which is whole or an
  -- error, and the read and the swap of the cache are one step.
  unfoldable pub load_cache : ℕ → TokenStore D → Bool × TokenStore D
  load_cache now s = with_rows now (conn.select_tokens s.db) s

  unfoldable pub get : ℤ → TokenStore D → Result StoreError (Option Token) × TokenStore D
  get id s = fetched (conn.select_id id s.db) s

  unfoldable pub list : TokenStore D → Result StoreError (List Token) × TokenStore D
  list s = tokens_listed (conn.select_newest s.db) s

  abbrev pub updated :
      Token → ℕ → Option ℕ × D → TokenStore D → Result StoreError (Option Token) × TokenStore D
  updated t now (none, d) s = (err database, record s { db = d })
  updated t now (some n, d) s =
      (ok (some (record t { updated_at = now })), (load_cache now (record s { db = d })).1)

  abbrev pub update_found :
      ℤ
      → UpdateTokenRequest
      → ℕ
      → Result StoreError (Option Token) × TokenStore D
      → Result StoreError (Option Token) × TokenStore D
  update_found id req now (err e, s) = (err e, s)
  update_found id req now (ok none, s) = (ok none, s)
  update_found id req now (ok (some t), s) =
      updated (apply_request req t) now
        (conn.update id (settings_of (apply_request req t)) now s.db) s

  unfoldable pub update :
      ℤ → UpdateTokenRequest → ℕ → TokenStore D → Result StoreError (Option Token) × TokenStore D
  unfolding load_cache get
  update id req now s = update_found id req now (get id s)

  abbrev pub deleted : ℕ → Option ℕ × D → TokenStore D → Result StoreError ℕ × TokenStore D
  deleted now (none, d) s = (err database, record s { db = d })
  deleted now (some n, d) s =
      if n == 0
      then (err not_found, record s { db = d })
      else (ok n, (load_cache now (record s { db = d })).1)

  -- The number of rows affected, in place of nil.
  unfoldable pub delete : ℤ → ℕ → TokenStore D → Result StoreError ℕ × TokenStore D
  unfolding load_cache
  delete id now s = deleted now (conn.delete id s.db) s

  abbrev pub migrated : ℕ → Import D → Import D
  migrated now (n, false, s) = (n, false, s)
  migrated now (n, true, s) = if ltb 0 n then (n, true, (load_cache now s).1) else (n, true, s)

  -- The total and the enabled tokens, 0 for what the database does not answer.
  unfoldable pub token_count : TokenStore D → (ℕ × ℕ) × TokenStore D
  token_count s =
      let (total, d) = conn.count_all s.db in
      let (active, d') = conn.count_active d in
      ((or_else total 0, or_else active 0), record s { db = d' })

  -- `opened` is the answer of `sql.Open`; the table is created and the cache is loaded.
  abbrev pub ready : ℕ → ℕ → Bool × D → Option (TokenStore D)
  ready cache_ttl now (false, d) = none
  ready cache_ttl now (true, d) =
      let (loaded, s) =
        load_cache now (record { db = d; cache = []; cache_ttl = cache_ttl; last_load = 0 }) in
      if loaded then some s else none

  abbrev pub pinged : ℕ → ℕ → Bool × D → Option (TokenStore D)
  pinged cache_ttl now (false, d) = none
  pinged cache_ttl now (true, d) = ready cache_ttl now (conn.create_table d)

  unfoldable pub new_token_store : Option D → ℕ → ℕ → Option (TokenStore D)
  unfolding load_cache
  new_token_store none cache_ttl now = none
  new_token_store (some d) cache_ttl now = pinged cache_ttl now (conn.ping d)

  abbrev pub created :
      CreateTokenRequest
      → Text
      → ℕ
      → Option ℤ × D
      → TokenStore D
      → Result StoreError IssuedToken × TokenStore D
  created req plaintext now (none, d) s = (err database, record s { db = d })
  created req plaintext now (some id, d) s = (
    ok (record { token = new_token req plaintext now id; plaintext_token = plaintext }),
    (load_cache now (record s { db = d })).1,
  )

  abbrev pub rotated :
      Token → Text → ℕ → Option ℕ × D → TokenStore D → Result StoreError IssuedToken × TokenStore D
  rotated t plaintext now (none, d) s = (err database, record s { db = d })
  rotated t plaintext now (some n, d) s = (
    ok (record {
      token = record t { token_prefix = take 8 plaintext; updated_at = now };
      plaintext_token = plaintext;
    }),
    (load_cache now (record s { db = d })).1,
  )

-- Over SHA-256 in hexadecimal also; `random` is what `generateToken` gives, `now` the time of the call.
module _ {D : Type 0} (conn : Database D) (hash_token : Text → Text) where
  unfoldable pub find : Text → ℕ → TokenStore D → Option TokenInfo × TokenStore D
  unfolding load_cache
  find token now s =
      if ltb (s.last_load + s.cache_ttl) now
      then (let s' = (load_cache conn now s).1 in (lookup (hash_token token) s'.cache, s'))
      else (lookup (hash_token token) s.cache, s)

  unfoldable pub create :
      CreateTokenRequest
      → Option Text
      → ℕ
      → TokenStore D
      → Result StoreError IssuedToken × TokenStore D
  unfolding load_cache
  create req none now s = (err no_random, s)
  create req (some plaintext) now s =
      created conn req plaintext now
        (conn.insert (hash_token plaintext) (take 8 plaintext)
          (settings_of (new_token req plaintext now (pos 0))) now s.db)
        s

  abbrev pub rotate_found :
      ℤ
      → Option Text
      → ℕ
      → Result StoreError (Option Token) × TokenStore D
      → Result StoreError IssuedToken × TokenStore D
  rotate_found id random now (err e, s) = (err e, s)
  rotate_found id random now (ok none, s) = (err not_found, s)
  rotate_found id none now (ok (some t), s) = (err no_random, s)
  rotate_found id (some plaintext) now (ok (some t), s) =
      rotated conn t plaintext now
        (conn.rotate id (hash_token plaintext) (take 8 plaintext) now s.db) s

  unfoldable pub rotate :
      ℤ → Option Text → ℕ → TokenStore D → Result StoreError IssuedToken × TokenStore D
  unfolding load_cache get
  rotate id random now s = rotate_found id random now (get conn id s)

  abbrev pub counted :
      TokenConfig → ℕ → Option ℕ × D → ℕ → TokenStore D → (ℕ → TokenStore D → Import D) → Import D
  counted t now (none, d) n s rest = (n, false, record s { db = d })
  counted t now (some count, d) n s rest =
      if ltb 0 count
      then rest n (record s { db = d })
      else inserted (conn.insert (hash_token t.token) (take 8 t.token) (imported_settings t) now d)
          n s rest

  -- `now` stands for the times of all the insertions.
  unfoldable pub import_tokens : List TokenConfig → ℕ → ℕ → TokenStore D → Import D
  import_tokens [] now n s = (n, true, s)
  import_tokens (t ∷ ts) now n s =
      counted t now (conn.count_of_name t.name s.db) n s (λ m s'. import_tokens ts now m s')

  unfoldable pub migrate_config_tokens : List TokenConfig → ℕ → TokenStore D → Import D
  unfolding import_tokens load_cache
  migrate_config_tokens tokens now s = migrated conn now (import_tokens tokens now 0 s)
