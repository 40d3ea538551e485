-- ===== src/Tests/Store.antt =====
-- The token store over a table in memory.
use da_proxy.Prelude.{
  ℕ, ◌≡◌, ◌≢◌, refl, lookup, true, [], ◌∷◌, Option, none, some, ok, length, arith,
}
use da_proxy.Prelude.Text.{Text, codes}
use da_proxy.Prelude.Int.{pos}
use da_proxy.Auth.Table.{
  Row, Database, IsDatabase, Outcome, TokenTable, reads, find_hash, find_id, without_id, count_name,
  count_enabled, insert_row, update_row, rotate_row, delete_row,
}
use da_proxy.Auth.Table.Distinct.{IsDistinct}
use da_proxy.Auth.Table.Unique.{IsProper}
use da_proxy.Auth.Store.{
  get, scan_token, new_token, CreateTokenRequest, IssuedToken, TokenStore, new_token_store, rotate,
  find, info_of, load_cache, cache_from,
}
use da_proxy.Auth.Store.View.{IsReadable, IsSynced, load_cache-IsSynced}
use da_proxy.Auth.Store.Issued.{IsListable}
use da_proxy.Auth.Store.Revoked.{rotate-find}

abbrev given : {R : Type 0} → Option (R × TokenTable) → TokenTable → Option R × TokenTable
given none t = (none, t)
given (some (a, u)) t = (some a, u)

abbrev pub table : TokenTable → TokenTable
table t = t

given-Outcome :
    {R : Type 0} (o : Option (R × TokenTable)) (t : TokenTable) → Outcome table t o (given o t)
given-Outcome none t = record { failed = λ e. refl; answered = λ a e. absurd (cc) }
given-Outcome (some (a, u)) t = record { failed = λ e. absurd (cc); answered = λ b e. cc }

abbrev pub memory : Database TokenTable
memory = record {
  ping = λ t. (true, t);
  create_table = λ t. (true, t);
  select_tokens = λ t. given (reads (λ rows. rows) t) t;
  select_newest = λ t. given (reads (λ rows. rows) t) t;
  select_id = λ id t. given (reads (find_id id) t) t;
  count_of_name = λ name t. given (reads (count_name name) t) t;
  count_all = λ t. given (reads length t) t;
  count_active = λ t. given (reads count_enabled t) t;
  insert = λ hash prefix settings now t. given (insert_row hash prefix settings now t) t;
  update = λ id settings now t. given (update_row id settings now t) t;
  rotate = λ id hash prefix now t. given (rotate_row id hash prefix now t) t;
  delete = λ id t. given (delete_row id t) t;
}

pub memory-IsDatabase : IsDatabase memory table
memory-IsDatabase = record {
  pings = λ t. refl;
  creates = λ t. refl;
  selects = λ t. given-Outcome _ t;
  lists = λ t. refl;
  selects_id = λ id t. given-Outcome _ t;
  counts = λ name t. given-Outcome _ t;
  counts_all = λ t. given-Outcome _ t;
  counts_active = λ t. given-Outcome _ t;
  inserts = λ hash prefix settings now t. given-Outcome _ t;
  updates = λ id settings now t. given-Outcome _ t;
  rotates = λ id hash prefix now t. given-Outcome _ t;
  deletes = λ id t. given-Outcome _ t;
}

pub memory-IsReadable : IsReadable memory
memory-IsReadable t = (t.rows, refl)

abbrev pub hash : Text → Text
hash t = b'#' ∷ t

abbrev pub first : CreateTokenRequest
first = record {
  name = codes "first";
  enabled = none;
  rate_limit = pos 5;
  scope = [];
  allowed_methods = codes "p" ∷ codes "q" ∷ [];
  expires_at = none;
}

abbrev pub empty : TokenTable
empty = record { rows = []; next_id = 1 }

abbrev pub opened : TokenStore TokenTable
opened = record { db = empty; cache = []; cache_ttl = 60; last_load = 10 }

pub empty-IsProper : (t : TokenTable) → some empty ≡ some t → IsProper t
unfolding IsProper
empty-IsProper t e = let q : t ≡ empty = cc in rw q tt

pub new_token_store-empty : new_token_store memory (some empty) 60 10 ≡ some opened
unfolding new_token_store cache_from
new_token_store-empty = refl

pub opened-IsSynced : IsSynced table opened
unfolding IsSynced IsProper find_hash lookup
opened-IsSynced = (tt, λ h. refl)

abbrev row : Text → Row
row token = record {
  id = 1;
  token_hash = hash token;
  token_prefix = token;
  settings = record {
    name = codes "first";
    enabled = true;
    rate_limit = pos 5;
    scope = codes "write";
    allowed_methods = codes "p,q";
    expires_at = none;
  };
  created_at = 20;
  updated_at = 20;
}

abbrev pub used : TokenStore TokenTable
used = record {
  db = record { rows = row (codes "a") ∷ []; next_id = 2 };
  cache = cache_from [] (row (codes "a") ∷ []);
  cache_ttl = 60;
  last_load = 20;
}

abbrev pub issued : IssuedToken
issued = record { token = new_token first (codes "a") 20 (pos 1); plaintext_token = codes "a" }

pub first-IsListable : IsListable first.allowed_methods
first-IsListable = (((λ e. omega arith, tt), ((λ e. omega arith, tt), tt)), λ e. absurd (cc))

used-IsProper : IsProper used.db
unfolding IsProper IsDistinct find_hash find_id
used-IsProper = (refl, refl, omega arith, tt)

pub used-IsSynced : IsSynced table used
unfolding load_cache cache_from
used-IsSynced =
    load_cache-IsSynced memory table memory-IsDatabase memory-IsReadable 20 used used-IsProper

abbrev reissued : IssuedToken
reissued = record {
  token = record (scan_token (row (codes "a"))) { token_prefix = codes "b"; updated_at = 40 };
  plaintext_token = codes "b";
}

rotate-used :
    rotate memory hash (pos 1) (some (codes "b")) 40 used
    ≡ (ok reissued, (rotate memory hash (pos 1) (some (codes "b")) 40 used).1)
unfolding rotate rotate_row find_id find_hash without_id get
rotate-used = refl

rotate-find_example :
    (r : Row) × (find_id (pos 1) used.db.rows ≡ some r)
    × ((later : ℕ)
        → (find memory hash
            (codes "b")
            later
            (rotate memory hash (pos 1) (some (codes "b")) 40 used).1).0
          ≡ some (info_of r))
    × ((token : Text) (later : ℕ)
        → hash token ≡ r.token_hash
        → hash token ≢ hash (codes "b")
        → (find memory hash token later (rotate memory hash (pos 1) (some (codes "b")) 40 used).1).0
          ≡ none)
rotate-find_example =
    rotate-find memory table memory-IsDatabase memory-IsReadable hash (pos 1) (some (codes "b")) 40
      used (rotate memory hash (pos 1) (some (codes "b")) 40 used).1 reissued used-IsSynced
      rotate-used
