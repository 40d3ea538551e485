-- ===== src/Auth/Store/Calls.antt =====
-- internal/auth/store.go: a store that is opened and used.
use da_proxy.Prelude.{
  ℕ, ◌≡◌, refl, Bool, true, false, List, [], ◌∷◌, Option, none, some, if◌then◌else◌,
}
use da_proxy.Prelude.Text.{Text}
use da_proxy.Prelude.Int.{ℤ}
use da_proxy.Auth.Table.{Database, IsDatabase, TokenTable, find_hash}
use da_proxy.Auth.Table.Unique.{IsProper}
use da_proxy.Auth.Store.{
  CreateTokenRequest, UpdateTokenRequest, TokenStore, load_cache, ready, pinged, new_token_store,
  create, get, update, delete, rotate, find, list, token_count,
}
use da_proxy.Auth.Store.View.{known, IsReadable, IsSynced, load_cache-IsSynced}
use da_proxy.Auth.Store.Synced.{
  create-IsSynced, get-IsSynced, update-IsSynced, delete-IsSynced, rotate-IsSynced, find-IsSynced,
  find-known, list-IsSynced, token_count-IsSynced,
}

-- A call of the store, with what is drawn for it.
pub data Call : Type 0 where
  creating : CreateTokenRequest → Option Text → Call
  getting : ℤ → Call
  updating : ℤ → UpdateTokenRequest → Call
  deleting : ℤ → Call
  rotating : ℤ → Option Text → Call
  finding : Text → Call
  listing : Call
  counting : Call

module _ {D : Type 0} (conn : Database D) (hash : Text → Text) where
  abbrev pub call : ℕ → Call → TokenStore D → TokenStore D
  call now (creating req random) s = (create conn hash req random now s).1
  call now (getting id) s = (get conn id s).1
  call now (updating id req) s = (update conn id req now s).1
  call now (deleting id) s = (delete conn id now s).1
  call now (rotating id random) s = (rotate conn hash id random now s).1
  call now (finding token) s = (find conn hash token now s).1
  call now listing s = (list conn s).1
  call now counting s = (token_count conn s).1

  -- Calls at their times, in their order.
  unfoldable pub calls : List (ℕ × Call) → TokenStore D → TokenStore D
  calls [] s = s
  calls ((now, c) ∷ cs) s = calls cs (call now c s)

loaded_some :
    {D : Type 0} (r : Bool × TokenStore D) (s : TokenStore D)
    → (if r.0 then some r.1 else none) ≡ some s
    → s ≡ r.1
loaded_some (false, x) s e = absurd (cc)
loaded_some (true, x) s e = cc

module _ {D : Type 0} (conn : Database D) (table : D → TokenTable) (doc : IsDatabase conn table)
    (answers : IsReadable conn) (hash : Text → Text) where
  call-IsSynced :
      (now : ℕ) (c : Call) (s : TokenStore D)
      → IsSynced table s
      → IsSynced table (call conn hash now c s)
  call-IsSynced now (creating req random) s i =
      create-IsSynced conn table doc answers hash req random now s i
  call-IsSynced now (getting id) s i = get-IsSynced conn table doc answers id s i
  call-IsSynced now (updating id req) s i = update-IsSynced conn table doc answers id req now s i
  call-IsSynced now (deleting id) s i = delete-IsSynced conn table doc answers id now s i
  call-IsSynced now (rotating id random) s i =
      rotate-IsSynced conn table doc answers hash id random now s i
  call-IsSynced now (finding token) s i = find-IsSynced conn table doc answers hash token now s i
  call-IsSynced now listing s i = list-IsSynced conn table doc answers s i
  call-IsSynced now counting s i = token_count-IsSynced conn table doc answers s i

  calls-IsSynced :
      (cs : List (ℕ × Call)) (s : TokenStore D)
      → IsSynced table s
      → IsSynced table (calls conn hash cs s)
  unfolding calls
  calls-IsSynced [] s i = i
  calls-IsSynced ((now, c) ∷ cs) s i = calls-IsSynced cs _ (call-IsSynced now c s i)

  ready-IsSynced :
      (ttl now : ℕ) (q : Bool × D) (s : TokenStore D)
      → IsProper (table q.1)
      → ready conn ttl now q ≡ some s
      → IsSynced table s
  ready-IsSynced ttl now (false, d) s p e = absurd (cc)
  ready-IsSynced ttl now (true, d) s p e =
      let q =
        loaded_some
          (load_cache conn now (record { db = d; cache = []; cache_ttl = ttl; last_load = 0 })) s
          e in
      rw q (
        load_cache-IsSynced conn table doc answers now
          (record { db = d; cache = []; cache_ttl = ttl; last_load = 0 }) p)

  pinged-IsSynced :
      (ttl now : ℕ) (q : Bool × D) (s : TokenStore D)
      → IsProper (table q.1)
      → pinged conn ttl now q ≡ some s
      → IsSynced table s
  pinged-IsSynced ttl now (false, d) s p e = absurd (cc)
  pinged-IsSynced ttl now (true, d) s p e =
      ready-IsSynced ttl now (conn.create_table d) s (rw (doc.creates d) p) e

  pub new_token_store-IsSynced :
      (opened : Option D) (ttl now : ℕ) (s : TokenStore D)
      → ((d : D) → opened ≡ some d → IsProper (table d))
      → new_token_store conn opened ttl now ≡ some s
      → IsSynced table s
  unfolding new_token_store
  new_token_store-IsSynced none ttl now s p e = absurd (cc)
  new_token_store-IsSynced (some d) ttl now s p e =
      pinged-IsSynced ttl now (conn.ping d) s (rw (doc.pings d) (p d refl)) e

  -- A store is opened on a table whose ids and hashes are distinct, in a database that keeps to its
  -- statements and answers each query of the tokens. After any calls of Create, Get, Update, Delete,
  -- Rotate, Lookup, List and TokenCount, whether they fail or not, a lookup answers what the table then has for the hash of the
  -- token, and nothing if it has none.
  calls-find :
      (opened : Option D) (ttl now : ℕ) (s : TokenStore D) (cs : List (ℕ × Call)) (token : Text)
      (later : ℕ)
      → ((d : D) → opened ≡ some d → IsProper (table d))
      → new_token_store conn opened ttl now ≡ some s
      → (find conn hash token later (calls conn hash cs s)).0
        ≡ known (find_hash (hash token) (table (calls conn hash cs s).db).rows)
  calls-find opened ttl now s cs token later p e =
      find-known conn table doc answers hash token later _
        (calls-IsSynced cs s (new_token_store-IsSynced opened ttl now s p e))
