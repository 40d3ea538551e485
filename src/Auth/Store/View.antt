-- ===== src/Auth/Store/View.antt =====
-- internal/auth/store.go: the cache after a load is a view of the table.
use da_proxy.Prelude.{
  ℕ, ◌≡◌, sym, refl, true, List, [], ◌∷◌, Option, none, some, ◌==◌, Table, lookup, insert,
  lookup-insert, arith, Option-cases, inl, inr,
}
use da_proxy.Prelude.Text.{Text, same_iff}
use da_proxy.Prelude.Int.{ℤ}
use da_proxy.Auth.Token.{TokenInfo}
use da_proxy.Auth.Table.{
  Row, Database, IsDatabase, Outcome, reads, TokenTable, find_hash, find_id, delete_row, without_id,
}
use da_proxy.Auth.Table.Distinct.{IsDistinct, without_id-none}
use da_proxy.Auth.Table.Unique.{IsProper, Leaves}
use da_proxy.Auth.Store.{TokenStore, info_of, with_rows, cache_from, load_cache}

-- What the table knows of a hash, or else `d`.
abbrev known_or : Option Row → Option TokenInfo → Option TokenInfo
known_or none d = d
known_or (some r) d = some (info_of r)

abbrev pub known : Option Row → Option TokenInfo
known o = known_or o none

lookup-cache_from :
    (h : Text) (m : Table TokenInfo) (n : ℕ) (rs : List Row)
    → IsDistinct n rs
    → lookup h (cache_from m rs) ≡ known_or (find_hash h rs) (lookup h m)
unfolding IsDistinct cache_from find_hash lookup
lookup-cache_from h m n [] d = refl
lookup-cache_from h m n (r ∷ rs) (u, v, b, d) = ground (
  arith,
  same_iff r.token_hash h,
  lookup-insert r.token_hash h (info_of r) m,
  lookup-cache_from h (insert r.token_hash (info_of r) m) n rs d,
)

-- Every query of the tokens is answered.
abbrev pub IsReadable : {D : Type 0} → Database D → Type 0
IsReadable {D} conn = (d : D) → (rows : List Row) × ((conn.select_tokens d).0 ≡ some rows)

pub left :
    {R : Type 0} (P : TokenTable → Type 0) (a : R) (t : TokenTable) (m : Option (R × TokenTable))
    → m ≡ some (a, t)
    → Leaves P m
    → P t
left P a t none e l = absurd (cc)
left P a t (some (r, u)) e l = let q : u ≡ t = cc in rw (sym q) l

module _ {D : Type 0} (table : D → TokenTable) where
  -- The ids and hashes of the table are distinct, and the cache has its tokens and no others.
  unfoldable pub IsSynced : TokenStore D → Type 0
  IsSynced s =
      IsProper (table s.db)
      × ((h : Text) → lookup h s.cache ≡ known (find_hash h (table s.db).rows))

  pub IsSynced-same :
      (d : D) (s : TokenStore D)
      → table d ≡ table s.db
      → IsSynced s
      → IsSynced (record s { db = d })
  unfolding IsSynced
  IsSynced-same d s e (p, v) = rw e (p, v)

  pub IsProper-answered :
      {R : Type 0} (b : TokenTable) (m : Option (R × TokenTable)) (q : Option R × D) (a : R)
      → Outcome table b m q
      → Leaves IsProper m
      → q.0 ≡ some a
      → IsProper (table q.1)
  IsProper-answered b m q a o l e = left IsProper a (table q.1) m (o.answered a e) l

with_rows-loaded :
    {D : Type 0} (now : ℕ) (q : Option (List Row) × D) (s : TokenStore D) (rows : List Row)
    → q.0 ≡ some rows
    → with_rows now q s ≡ (true, record s { db = q.1; cache = cache_from [] rows; last_load = now })
with_rows-loaded now (none, d) s rows e = absurd (cc)
with_rows-loaded now (some r, d) s rows e = let q : r ≡ rows = cc in rw q

-- What a statement that reads tells, and what it leaves.
pub reads_same :
    (t u : TokenTable) (rows : List Row)
    → reads (λ rs. rs) t ≡ some (rows, u)
    → (u ≡ t) × (t.rows ≡ rows)
reads_same t u rows e = (cc, cc)

-- A removal that affects no row changes nothing.
pub delete_row-none :
    (i : ℤ) (t u : TokenTable) (n : ℕ) → delete_row i t ≡ some (n, u) → (n == 0) ≡ true → u ≡ t
unfolding delete_row
delete_row-none i t u n e z = elim (Option-cases (find_id i t.rows)) [
  | inl q ↦
      (let w : delete_row i t ≡ some (0, t) = rw (delete_row, q, without_id-none i t.rows q) refl in
        cc)
  | inr (r, q) ↦
      (let w : delete_row i t ≡ some (1, record t { rows = without_id i t.rows }) =
          rw (delete_row, q) refl in
        let m : n ≡ 1 = cc in absurd (ground arith))
]

lookup-cache_from-known :
    (h : Text) (t : TokenTable)
    → IsProper t
    → lookup h (cache_from [] t.rows) ≡ known (find_hash h t.rows)
unfolding IsProper lookup
lookup-cache_from-known h t p = lookup-cache_from h [] t.next_id t.rows p

module _ {D : Type 0} (conn : Database D) (table : D → TokenTable) (doc : IsDatabase conn table)
    (answers : IsReadable conn) where
  pub load_cache-table :
      (now : ℕ) (s : TokenStore D) → table (load_cache conn now s).1.db ≡ table s.db
  unfolding load_cache
  load_cache-table now s =
      let (rows, e) = answers s.db in
      let m = (doc.selects s.db).answered rows e in
      rw (with_rows-loaded now (conn.select_tokens s.db) s rows e) (reads_same _ _ rows m).0

  pub load_cache-IsSynced :
      (now : ℕ) (s : TokenStore D)
      → IsProper (table s.db)
      → IsSynced table (load_cache conn now s).1
  unfolding load_cache IsSynced
  load_cache-IsSynced now s p =
      let (rows, e) = answers s.db in
      let (f, g) = reads_same _ _ rows ((doc.selects s.db).answered rows e) in
      rw (with_rows-loaded now (conn.select_tokens s.db) s rows e, f, sym g)
        (p, λ h. lookup-cache_from-known h (table s.db) p)
