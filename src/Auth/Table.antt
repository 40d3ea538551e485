-- ===== src/Auth/Table.antt =====
-- internal/auth/store.go: the SQL table `tokens`, and what its statements mean.
-- The database is a parameter: it does what a statement says or answers with an error.
pub mod Distinct
pub mod Unique
pub mod Found
use da_proxy.Prelude.{
  ℕ, suc, ◌+◌, ◌≡◌, Bool, true, false, not, ◌&&◌, ◌||◌, List, [], ◌∷◌, ◌++◌, Option, none, some,
  ◌==◌, if◌then◌else◌, length,
}
use da_proxy.Prelude.Text.{Text, codes, same}
use da_proxy.Prelude.Int.{ℤ, pos, negsuc}

-- What a row holds of the administrator's settings; the methods are joined by commas.
pub record Settings : Type 0 where
  pub name : Text
  pub enabled : Bool
  pub rate_limit : ℤ
  pub scope : Text
  pub allowed_methods : Text
  -- `none` for NULL
  pub expires_at : Option ℕ

-- A time is a number of nanoseconds.
pub record Row : Type 0 where
  pub id : ℕ
  pub token_hash : Text
  pub token_prefix : Text
  pub settings : Settings
  pub created_at : ℕ
  pub updated_at : ℕ

-- The rows in the order of their insertion, and the counter of AUTOINCREMENT.
pub record TokenTable : Type 0 where
  pub rows : List Row
  pub next_id : ℕ

abbrev pub has_id : ℤ → Row → Bool
has_id (pos n) r = r.id == n
has_id (negsuc n) r = false

unfoldable pub find_id : ℤ → List Row → Option Row
find_id id [] = none
find_id id (r ∷ rs) = let rest = find_id id rs in if has_id id r then some r else rest

unfoldable pub find_hash : Text → List Row → Option Row
unfolding same
find_hash hash [] = none
find_hash hash (r ∷ rs) =
    let rest = find_hash hash rs in if same r.token_hash hash then some r else rest

-- Applies `f` to the rows of the id; `f` keeps the id.
unfoldable pub change_id : ℤ → (Row → Row) → List Row → List Row
change_id id f [] = []
change_id id f (r ∷ rs) = (if has_id id r then f r else r) ∷ change_id id f rs

unfoldable pub without_id : ℤ → List Row → List Row
without_id id [] = []
without_id id (r ∷ rs) = let rest = without_id id rs in if has_id id r then rest else r ∷ rest

unfoldable pub count_name : Text → List Row → ℕ
unfolding same
count_name name [] = 0
count_name name (r ∷ rs) = (if same r.settings.name name then 1 else 0) + count_name name rs

unfoldable pub count_enabled : List Row → ℕ
count_enabled [] = 0
count_enabled (r ∷ rs) = (if r.settings.enabled then 1 else 0) + count_enabled rs

abbrev pub is_found : Option Row → Bool
is_found none = false
is_found (some r) = true

-- A statement answers and changes the table, or violates the uniqueness of the hashes.
abbrev pub Meaning : Type 0 → Type 0
Meaning R = TokenTable → Option (R × TokenTable)

-- INSERT INTO tokens: the new id.
unfoldable pub insert_row : Text → Text → Settings → ℕ → Meaning ℤ
unfolding find_hash
insert_row hash prefix settings now t =
    let row : Row = record {
      id = t.next_id;
      token_hash = hash;
      token_prefix = prefix;
      settings = settings;
      created_at = now;
      updated_at = now;
    } in
    if is_found (find_hash hash t.rows)
    then none
    else some (pos t.next_id, record { rows = t.rows ++ row ∷ []; next_id = t.next_id + 1 })

-- UPDATE tokens SET name=?, … WHERE id=?: the number of rows affected, as the next two.
unfoldable pub update_row : ℤ → Settings → ℕ → Meaning ℕ
unfolding change_id find_id
update_row id settings now t = some (
  if is_found (find_id id t.rows) then 1 else 0,
  record t { rows = change_id id (λ r. record r { settings = settings; updated_at = now }) t.rows },
)

-- UPDATE tokens SET token_hash=?, token_prefix=?, updated_at=? WHERE id=?
unfoldable pub rotate_row : ℤ → Text → Text → ℕ → Meaning ℕ
unfolding change_id find_hash find_id without_id
rotate_row id hash prefix now t =
    if is_found (find_hash hash (without_id id t.rows)) && is_found (find_id id t.rows)
    then none
    else some (
      if is_found (find_id id t.rows) then 1 else 0,
      record t {
        rows =
            change_id id
              (λ r. record r { token_hash = hash; token_prefix = prefix; updated_at = now }) t.rows;
      },
    )

-- DELETE FROM tokens WHERE id = ?
unfoldable pub delete_row : ℤ → Meaning ℕ
unfolding without_id find_id
delete_row id t =
    some (if is_found (find_id id t.rows) then 1 else 0, record t { rows = without_id id t.rows })

-- The statements that read, in the order of insertion unless they say otherwise.
abbrev pub reads {ℓ} : {R : Type ℓ} → (List Row → R) → TokenTable → Option (R × TokenTable)
reads f t = some (f t.rows, t)

-- The connection: each statement answers, or with `none` for an error.
pub record Database (D : Type 0) : Type 0 where
  pub ping : D → Bool × D
  -- CREATE TABLE IF NOT EXISTS, and its index
  pub create_table : D → Bool × D
  pub select_tokens : D → Option (List Row) × D
  -- ORDER BY created_at DESC
  pub select_newest : D → Option (List Row) × D
  pub select_id : ℤ → D → Option (Option Row) × D
  pub count_of_name : Text → D → Option ℕ × D
  pub count_all : D → Option ℕ × D
  pub count_active : D → Option ℕ × D
  pub insert : Text → Text → Settings → ℕ → D → Option ℤ × D
  pub update : ℤ → Settings → ℕ → D → Option ℕ × D
  pub rotate : ℤ → Text → Text → ℕ → D → Option ℕ × D
  pub delete : ℤ → D → Option ℕ × D

-- What became of a statement, beside what it means on the table that was there before.
pub record Outcome {D R : Type 0} (table : D → TokenTable) (before : TokenTable)
    (m : Option (R × TokenTable)) (r : Option R × D) : Type 0 where
  pub failed : r.0 ≡ none → table r.1 ≡ before
  pub answered : (a : R) → r.0 ≡ some a → m ≡ some (a, table r.1)

-- The database as documented: a failed statement changes nothing.
pub record IsDatabase {D : Type 0} (db : Database D) (table : D → TokenTable) : Type 0 where
  pub pings : (d : D) → table (db.ping d).1 ≡ table d
  -- The table is there already, or it is made without rows.
  pub creates : (d : D) → table (db.create_table d).1 ≡ table d
  pub selects :
      (d : D) → Outcome table (table d) (reads (λ rows. rows) (table d)) (db.select_tokens d)
  -- A query, in the order of the times of creation.
  pub lists : (d : D) → table (db.select_newest d).1 ≡ table d
  pub selects_id :
      (id : ℤ) (d : D) → Outcome table (table d) (reads (find_id id) (table d)) (db.select_id id d)
  pub counts :
      (name : Text) (d : D)
      → Outcome table (table d) (reads (count_name name) (table d)) (db.count_of_name name d)
  pub counts_all : (d : D) → Outcome table (table d) (reads length (table d)) (db.count_all d)
  pub counts_active :
      (d : D) → Outcome table (table d) (reads count_enabled (table d)) (db.count_active d)
  pub inserts :
      (hash prefix : Text) (settings : Settings) (now : ℕ) (d : D)
      → Outcome table
          (table d)
          (insert_row hash prefix settings now (table d))
          (db.insert hash prefix settings now d)
  pub updates :
      (id : ℤ) (settings : Settings) (now : ℕ) (d : D)
      → Outcome table (table d) (update_row id settings now (table d)) (db.update id settings now d)
  pub rotates :
      (id : ℤ) (hash prefix : Text) (now : ℕ) (d : D)
      → Outcome table
          (table d)
          (rotate_row id hash prefix now (table d))
          (db.rotate id hash prefix now d)
  pub deletes :
      (id : ℤ) (d : D) → Outcome table (table d) (delete_row id (table d)) (db.delete id d)
