-- ===== src/Auth/Store/Revoked.antt =====
-- internal/auth/store.go: the tokens that Delete and Rotate revoke.
use da_proxy.Prelude.{
  ℕ, ◌≡◌, ◌≢◌, refl, sym, ap, Bool, true, false, Option, none, some, Result, ok, err, if◌then◌else◌,
  ◌==◌, arith, Bool-cases, Option-cases, inl, inr,
}
use da_proxy.Prelude.Text.{Text, same, same_iff, same_refl}
use da_proxy.Prelude.Int.{ℤ, pos, negsuc}
use da_proxy.Auth.Table.{
  Row, Database, IsDatabase, Outcome, TokenTable, reads, find_hash, find_id, change_id, without_id,
  rotate_row, delete_row,
}
use da_proxy.Auth.Table.Distinct.{find_id-negsuc}
use da_proxy.Auth.Table.Unique.{IsProper}
use da_proxy.Auth.Table.Found.{
  find_hash_rotated, find_hash_replaced, find_hash-without_id_self, find_hash-without_id_ne,
}
use da_proxy.Auth.Store.{
  Token, IssuedToken, StoreError, not_found, TokenStore, load_cache, fetched, get, rotated,
  rotate_found, deleted, info_of, rotate, delete, find,
}
use da_proxy.Auth.Store.View.{known, IsReadable, IsSynced, load_cache-table}
use da_proxy.Auth.Store.Issued.{issued_eq}
use da_proxy.Auth.Store.Synced.{delete-IsSynced, rotate-IsSynced, find-known}

delete_row-some :
    (i : ℤ) (t u : TokenTable) (n : ℕ)
    → IsProper t
    → delete_row i t ≡ some (n, u)
    → (n == 0) ≡ false
    → (r : Row) × (find_id i t.rows ≡ some r)
      × ((g : Text)
          → find_hash g u.rows ≡ (if same r.token_hash g then none else find_hash g t.rows))
unfolding delete_row IsProper
delete_row-some (negsuc i) t u n p e z =
    let w : delete_row (negsuc i) t ≡ some (0, record t { rows = without_id (negsuc i) t.rows }) =
      rw (delete_row, find_id-negsuc i t.rows) refl in
    let m : n ≡ 0 = cc in absurd (ground arith)
delete_row-some (pos i) t u n p e z = elim (Option-cases (find_id (pos i) t.rows)) [
  | inl q ↦
      (let w : delete_row (pos i) t ≡ some (0, record t { rows = without_id (pos i) t.rows }) =
          rw (delete_row, q) refl in
        let m : n ≡ 0 = cc in absurd (ground arith))
  | inr (r, q) ↦
      (let w : delete_row (pos i) t ≡ some (1, record t { rows = without_id (pos i) t.rows }) =
          rw (delete_row, q) refl in
        let x : u.rows ≡ without_id (pos i) t.rows = cc in
        (
          r,
          q,
          λ g. rw x (elim (Bool-cases (same r.token_hash g)) [
            | inl y ↦ rw y (find_hash-without_id_self t.next_id i g r t.rows p q y)
            | inr y ↦ rw y (find_hash-without_id_ne i g r t.next_id t.rows p q y)
          ]),
        ))
]

ne_false : (s t : Text) → s ≢ t → same s t ≡ false
ne_false s t n = ground (arith, same_iff s t)

known_if :
    (b : Bool) (o : Option Row) → known (if b then none else o) ≡ (if b then none else known o)
known_if true o = refl
known_if false o = refl

rotate_row-some :
    (i : ℤ) (h p : Text) (now : ℕ) (t u : TokenTable) (n : ℕ) (r : Row)
    → IsProper t
    → find_id i t.rows ≡ some r
    → rotate_row i h p now t ≡ some (n, u)
    → (known (find_hash h u.rows) ≡ some (info_of r))
      × ((g : Text) → g ≡ r.token_hash → g ≢ h → find_hash g u.rows ≡ none)
unfolding rotate_row IsProper
rotate_row-some (negsuc i) h p now t u n r d q e = absurd (let w = find_id-negsuc i t.rows in cc)
rotate_row-some (pos i) h p now t u n r d q e =
    elim (Option-cases (find_hash h (without_id (pos i) t.rows))) [
      | inl v ↦
          (let f : Row → Row =
              λ r. record r { token_hash = h; token_prefix = p; updated_at = now } in
            let w : rotate_row (pos i) h p now t
                ≡ some (1, record t { rows = change_id (pos i) f t.rows }) =
              rw (rotate_row, v, q) refl in
            let x : u.rows ≡ change_id (pos i) f t.rows = cc in
            (
              rw (x, find_hash_rotated h i f r t.rows (λ s. refl) v q) refl,
              λ g a b. rw x (
                  find_hash_replaced t.next_id i g f r t.rows (λ s. ne_false h g (λ c. b (sym c))) d
                    q (rw a (same_refl r.token_hash))),
            ))
      | inr (s, v) ↦
          (let w : rotate_row (pos i) h p now t ≡ none = rw (rotate_row, v, q) refl in absurd (cc))
    ]

fetched_pair : {X Y : Type 0} {p : X × Y} {x : X} → p.0 ≡ x → p ≡ (x, p.1)
fetched_pair e = rw e refl

module _ {D : Type 0} (conn : Database D) (table : D → TokenTable) (doc : IsDatabase conn table)
    (answers : IsReadable conn) (hash : Text → Text) where
  deleted-table :
      (id : ℤ) (now n : ℕ) (q : Option ℕ × D) (s s' : TokenStore D)
      → IsProper (table s.db)
      → Outcome table (table s.db) (delete_row id (table s.db)) q
      → deleted conn now q s ≡ (ok n, s')
      → (r : Row) × (find_id id (table s.db).rows ≡ some r)
        × ((g : Text)
            → find_hash g (table s'.db).rows
              ≡ (if same r.token_hash g then none else find_hash g (table s.db).rows))
  deleted-table id now n (none, d) s s' p o e = absurd (cc)
  deleted-table id now n (some m, d) s s' p o e = elim (Bool-cases (m == 0)) [
    | inl z ↦
        (let w : deleted conn now (some m, d) s ≡ (err not_found, record s { db = d }) =
            rw z refl in
          absurd (cc))
    | inr z ↦
        (let (r, f, g) = delete_row-some id (table s.db) (table d) m p (o.answered m refl) z in
          let x : (load_cache conn now (record s { db = d })).1 ≡ s' =
            (let w : deleted conn now (some m, d) s
                  ≡ (ok m, (load_cache conn now (record s { db = d })).1) =
                rw z refl in
              cc) in
          let y : table s'.db ≡ table d =
            rw (sym x) (load_cache-table conn table doc answers now (record s { db = d })) in
          (r, f, rw y g))
  ]

  -- In a database that keeps to its statements and answers each query of the tokens, and in a store whose cache is in step, a Delete that succeeds was given the id of a row. A lookup of the token of
  -- that row answers nothing from then on, and one of any other hash answers as before.
  pub delete-find :
      (id : ℤ) (now n : ℕ) (s s' : TokenStore D)
      → IsSynced table s
      → delete conn id now s ≡ (ok n, s')
      → (r : Row) × (find_id id (table s.db).rows ≡ some r)
        × ((token : Text) (later : ℕ)
            → (find conn hash token later s').0
              ≡ (if same r.token_hash (hash token) then none else (find conn hash token later s).0))
  unfolding delete IsSynced
  delete-find id now n s s' i e =
      let (r, f, g) = deleted-table id now n _ s s' i.0 (doc.deletes id s.db) e in
      let j : IsSynced table s' =
        (let w : (delete conn id now s).1 ≡ s' = ap (λ r. r.1) e in
          rw (sym w) (delete-IsSynced conn table doc answers id now s i)) in
      (
        r,
        f,
        λ token later.
            rw
              (
                find-known conn table doc answers hash token later s' j,
                find-known conn table doc answers hash token later s i,
                g (hash token),
              )
              (known_if (same r.token_hash (hash token))
                (find_hash (hash token) (table s.db).rows)),
      )

  fetched-some :
      (id : ℤ) (q : Option (Option Row) × D) (s s' : TokenStore D) (t : Token)
      → Outcome table (table s.db) (reads (find_id id) (table s.db)) q
      → fetched q s ≡ (ok (some t), s')
      → (r : Row) × (find_id id (table s.db).rows ≡ some r) × (table s'.db ≡ table s.db)
  fetched-some id (none, d) s s' t o e = absurd (cc)
  fetched-some id (some none, d) s s' t o e = absurd (cc)
  fetched-some id (some (some r), d) s s' t o e =
      let w = o.answered (some r) refl in
      let x : record s { db = d } ≡ s' = cc in (r, cc, rw (sym x) (cc))

  rotated-table :
      (t : Token) (plaintext p : Text) (id : ℤ) (now : ℕ) (q : Option ℕ × D) (s s' : TokenStore D)
      (issued : IssuedToken) (r : Row)
      → IsProper (table s.db)
      → find_id id (table s.db).rows ≡ some r
      → Outcome table (table s.db) (rotate_row id (hash plaintext) p now (table s.db)) q
      → rotated conn t plaintext now q s ≡ (ok issued, s')
      → (plaintext ≡ issued.plaintext_token)
        × (known (find_hash (hash plaintext) (table s'.db).rows) ≡ some (info_of r))
        × ((g : Text)
            → g ≡ r.token_hash
            → g ≢ hash plaintext
            → find_hash g (table s'.db).rows ≡ none)
  rotated-table t plaintext p id now (none, d) s s' issued r i f o e = absurd (cc)
  rotated-table t plaintext p id now (some n, d) s s' issued r i f o e =
      let (a, b) =
        rotate_row-some id (hash plaintext) p now (table s.db) (table d) n r i f
          (o.answered n refl) in
      let x : (load_cache conn now (record s { db = d })).1 ≡ s' = cc in
      let y : table s'.db ≡ table d =
        rw (sym x) (load_cache-table conn table doc answers now (record s { db = d })) in
      (ap (λ i. i.plaintext_token) (issued_eq _ _ _ _ e), rw y a, rw y b)

  rotate_found-table :
      (random : Option Text) (id : ℤ) (now : ℕ) (s s' : TokenStore D) (issued : IssuedToken)
      (g : Result StoreError (Option Token) × TokenStore D)
      → ((t : Token)
          → g.0 ≡ ok (some t)
          → (r : Row) × (find_id id (table s.db).rows ≡ some r) × (table g.1.db ≡ table s.db))
      → IsProper (table s.db)
      → rotate_found conn hash id random now g ≡ (ok issued, s')
      → (r : Row) × (find_id id (table s.db).rows ≡ some r)
        × (known (find_hash (hash issued.plaintext_token) (table s'.db).rows) ≡ some (info_of r))
        × ((g : Text)
            → g ≡ r.token_hash
            → g ≢ hash issued.plaintext_token
            → find_hash g (table s'.db).rows ≡ none)
  rotate_found-table random id now s s' issued (err x, u) k p e = absurd (cc)
  rotate_found-table random id now s s' issued (ok none, u) k p e = absurd (cc)
  rotate_found-table none id now s s' issued (ok (some t), u) k p e = absurd (cc)
  rotate_found-table (some plaintext) id now s s' issued (ok (some t), u) k p e =
      let (r, f, same_table) = k t refl in
      let (q, a, b) =
        rotated-table t plaintext _ id now _ u s' issued r (rw same_table p) (rw same_table f)
          (doc.rotates _ _ _ now u.db) e in
      (r, f, rw (sym q) a, rw (sym q) b)

  -- In a database that keeps to its statements and answers each query of the tokens, and in a store whose cache is in step, a Rotate that succeeds was given the id of a row. A lookup of the token that
  -- is handed out answers with the settings of that row, and one of the token that it had answers nothing, where the two
  -- have different hashes.
  pub rotate-find :
      (id : ℤ) (random : Option Text) (now : ℕ) (s s' : TokenStore D) (issued : IssuedToken)
      → IsSynced table s
      → rotate conn hash id random now s ≡ (ok issued, s')
      → (r : Row) × (find_id id (table s.db).rows ≡ some r)
        × ((later : ℕ) → (find conn hash issued.plaintext_token later s').0 ≡ some (info_of r))
        × ((token : Text) (later : ℕ)
            → hash token ≡ r.token_hash
            → hash token ≢ hash issued.plaintext_token
            → (find conn hash token later s').0 ≡ none)
  unfolding rotate IsSynced get
  rotate-find id random now s s' issued i e =
      let (r, f, a, b) =
        rotate_found-table random id now s s' issued (get conn id s)
          (λ t w. fetched-some id _ s _ t (doc.selects_id id s.db) (fetched_pair w)) i.0 e in
      let j : IsSynced table s' =
        (let w : (rotate conn hash id random now s).1 ≡ s' = ap (λ r. r.1) e in
          rw (sym w) (rotate-IsSynced conn table doc answers hash id random now s i)) in
      (
        r,
        f,
        λ later. rw (find-known conn table doc answers hash issued.plaintext_token later s' j) a,
        λ token later u v.
            rw (find-known conn table doc answers hash token later s' j, b (hash token) u v) refl,
      )
