-- ===== src/Auth/Table/Distinct.antt =====
-- internal/auth/store.go: ids and hashes that are distinct, under changes of the rows.
use da_proxy.Prelude.{
  ℕ, ◌+◌, ◌<◌, ◌≤◌, ◌≡◌, refl, true, false, List, [], ◌∷◌, ◌++◌, none, arith, ◌==◌, Bool-cases, inl,
  inr, sym,
}
use da_proxy.Prelude.Text.{Text, same, same_iff}
use da_proxy.Prelude.Int.{ℤ, pos, negsuc}
use da_proxy.Auth.Table.{Row, find_id, find_hash, change_id, without_id}

-- No id or hash twice, and the ids below `n`.
unfoldable pub IsDistinct : ℕ → List Row → Type 0
IsDistinct n [] = Unit
IsDistinct n (r ∷ rs) =
    (find_hash r.token_hash rs ≡ none)
    × (find_id (pos r.id) rs ≡ none)
    × (r.id < n)
    × IsDistinct n rs

find_id_above : (n k : ℕ) (rs : List Row) → IsDistinct n rs → n ≤ k → find_id (pos k) rs ≡ none
unfolding IsDistinct find_id
find_id_above n k [] d h = refl
find_id_above n k (r ∷ rs) (u, v, b, d) h = ground (arith, find_id_above n k rs d h)

find_id-append :
    (i : ℤ) (rs : List Row) (r : Row)
    → find_id i rs ≡ none
    → find_id i (r ∷ []) ≡ none
    → find_id i (rs ++ r ∷ []) ≡ none
unfolding find_id
find_id-append i [] r a b = b
find_id-append i (s ∷ rs) r a b = ground (arith, find_id-append i rs r)

find_hash-append :
    (h : Text) (rs : List Row) (r : Row)
    → find_hash h rs ≡ none
    → find_hash h (r ∷ []) ≡ none
    → find_hash h (rs ++ r ∷ []) ≡ none
unfolding find_hash
find_hash-append h [] r a b = b
find_hash-append h (s ∷ rs) r a b = ground (arith, find_hash-append h rs r)

pub append-IsDistinct :
    (n : ℕ) (rs : List Row) (r : Row)
    → IsDistinct n rs
    → r.id ≡ n
    → find_hash r.token_hash rs ≡ none
    → IsDistinct (n + 1) (rs ++ r ∷ [])
unfolding IsDistinct find_hash find_id
append-IsDistinct n [] r d e h = (refl, refl, omega arith, tt)
append-IsDistinct n (s ∷ rs) r (u, v, b, d) e h = (
  find_hash-append s.token_hash rs r u
      (ground (arith, same_iff s.token_hash r.token_hash, same_iff r.token_hash s.token_hash)),
  find_id-append (pos s.id) rs r v (ground arith),
  omega arith,
  append-IsDistinct n rs r d e (ground arith),
)

-- A change that keeps ids keeps what is not there, and so it is for the hashes.
find_id-change_id :
    (i j : ℤ) (f : Row → Row) (rs : List Row)
    → ((r : Row) → (f r).id ≡ r.id)
    → find_id i rs ≡ none
    → find_id i (change_id j f rs) ≡ none
unfolding find_id change_id
find_id-change_id (pos i) (pos j) f [] k h = refl
find_id-change_id (pos i) (pos j) f (r ∷ rs) k h =
    ground (arith, k r, find_id-change_id (pos i) (pos j) f rs k)
find_id-change_id (pos i) (negsuc j) f [] k h = refl
find_id-change_id (pos i) (negsuc j) f (r ∷ rs) k h =
    ground (arith, k r, find_id-change_id (pos i) (negsuc j) f rs k)
find_id-change_id (negsuc i) j f [] k h = refl
find_id-change_id (negsuc i) j f (r ∷ rs) k h =
    ground (arith, find_id-change_id (negsuc i) j f rs k)

find_hash-change_id :
    (h : Text) (j : ℤ) (f : Row → Row) (rs : List Row)
    → ((r : Row) → (same (f r).token_hash h ≡ true) → same r.token_hash h ≡ true)
    → find_hash h rs ≡ none
    → find_hash h (change_id j f rs) ≡ none
unfolding find_hash change_id
find_hash-change_id h j f [] k e = refl
find_hash-change_id h (pos j) f (r ∷ rs) k e =
    ground (arith, k r, find_hash-change_id h (pos j) f rs k)
find_hash-change_id h (negsuc j) f (r ∷ rs) k e =
    ground (arith, k r, find_hash-change_id h (negsuc j) f rs k)

-- Without the id that is not there, nothing changes.
pub without_id-none : (i : ℤ) (rs : List Row) → find_id i rs ≡ none → without_id i rs ≡ rs
unfolding find_id without_id
without_id-none i [] h = refl
without_id-none (pos i) (r ∷ rs) h = ground (arith, without_id-none (pos i) rs)
without_id-none (negsuc i) (r ∷ rs) h = ground (arith, without_id-none (negsuc i) rs)

find_id-without_id :
    (i j : ℤ) (rs : List Row) → find_id i rs ≡ none → find_id i (without_id j rs) ≡ none
unfolding find_id without_id
find_id-without_id i j [] h = refl
find_id-without_id (pos i) (pos j) (r ∷ rs) h =
    ground (arith, find_id-without_id (pos i) (pos j) rs)
find_id-without_id (pos i) (negsuc j) (r ∷ rs) h =
    ground (arith, find_id-without_id (pos i) (negsuc j) rs)
find_id-without_id (negsuc i) (pos j) (r ∷ rs) h =
    ground (arith, find_id-without_id (negsuc i) (pos j) rs)
find_id-without_id (negsuc i) (negsuc j) (r ∷ rs) h =
    ground (arith, find_id-without_id (negsuc i) (negsuc j) rs)

find_hash-without_id :
    (h : Text) (j : ℤ) (rs : List Row)
    → find_hash h rs ≡ none
    → find_hash h (without_id j rs) ≡ none
unfolding find_hash without_id
find_hash-without_id h j [] e = refl
find_hash-without_id h (pos j) (r ∷ rs) e = ground (arith, find_hash-without_id h (pos j) rs)
find_hash-without_id h (negsuc j) (r ∷ rs) e = ground (arith, find_hash-without_id h (negsuc j) rs)

pub without_id-IsDistinct :
    (n : ℕ) (i : ℤ) (rs : List Row) → IsDistinct n rs → IsDistinct n (without_id i rs)
unfolding IsDistinct without_id
without_id-IsDistinct n i [] d = tt
without_id-IsDistinct n (pos i) (r ∷ rs) (u, v, b, d) = elim (Bool-cases (r.id == i)) [
  | inl p ↦ rw p (without_id-IsDistinct n (pos i) rs d)
  | inr p ↦ rw p (
    find_hash-without_id r.token_hash (pos i) rs u,
    find_id-without_id (pos r.id) (pos i) rs v,
    b,
    without_id-IsDistinct n (pos i) rs d,
  )
]
without_id-IsDistinct n (negsuc i) (r ∷ rs) (u, v, b, d) = (
  find_hash-without_id r.token_hash (negsuc i) rs u,
  find_id-without_id (pos r.id) (negsuc i) rs v,
  b,
  without_id-IsDistinct n (negsuc i) rs d,
)

-- A change of rows that keeps ids and hashes.
pub change_id-IsDistinct :
    (n : ℕ) (j : ℤ) (f : Row → Row) (rs : List Row)
    → ((r : Row) → (f r).id ≡ r.id)
    → ((r : Row) → (f r).token_hash ≡ r.token_hash)
    → IsDistinct n rs
    → IsDistinct n (change_id j f rs)
unfolding IsDistinct change_id
change_id-IsDistinct n j f [] k l d = tt
change_id-IsDistinct n (negsuc j) f (r ∷ rs) k l (u, v, b, d) = (
  find_hash-change_id r.token_hash (negsuc j) f rs (λ s e. rw (sym (l s)) e) u,
  find_id-change_id (pos r.id) (negsuc j) f rs k v,
  b,
  change_id-IsDistinct n (negsuc j) f rs k l d,
)
change_id-IsDistinct n (pos j) f (r ∷ rs) k l (u, v, b, d) =
    let a = find_hash-change_id r.token_hash (pos j) f rs (λ s e. rw (sym (l s)) e) u in
    let c = find_id-change_id (pos r.id) (pos j) f rs k v in
    let t = change_id-IsDistinct n (pos j) f rs k l d in
    elim (Bool-cases (r.id == j)) [
      | inl p ↦ rw p (rw (l r) a, rw (k r) c, rw (k r) b, t)
      | inr p ↦ rw p (a, c, b, t)
    ]

-- A row gets a hash that no row of another id has.
find_hash-rehash :
    (h g : Text) (i : ℕ) (f : Row → Row) (rs : List Row)
    → ((r : Row) → (f r).token_hash ≡ h)
    → same h g ≡ false
    → find_hash g rs ≡ none
    → find_hash g (change_id (pos i) f rs) ≡ none
unfolding find_hash change_id
find_hash-rehash h g i f [] l n e = refl
find_hash-rehash h g i f (r ∷ rs) l n e = ground (arith, l r, find_hash-rehash h g i f rs l n)

pub change_id-none :
    (i : ℕ) (f : Row → Row) (rs : List Row)
    → find_id (pos i) rs ≡ none
    → change_id (pos i) f rs ≡ rs
unfolding find_id change_id
change_id-none i f [] e = refl
change_id-none i f (r ∷ rs) e = ground (arith, change_id-none i f rs)

pub rehash-IsDistinct :
    (n : ℕ) (h : Text) (i : ℕ) (f : Row → Row) (rs : List Row)
    → ((r : Row) → (f r).id ≡ r.id)
    → ((r : Row) → (f r).token_hash ≡ h)
    → find_hash h (without_id (pos i) rs) ≡ none
    → IsDistinct n rs
    → IsDistinct n (change_id (pos i) f rs)
unfolding IsDistinct change_id without_id find_hash
rehash-IsDistinct n h i f [] k l e d = tt
rehash-IsDistinct n h i f (r ∷ rs) k l e (u, v, b, d) = elim (Bool-cases (r.id == i)) [
  | inl p ↦
      (let q : r.id ≡ i = ground arith in
        let w : find_id (pos i) rs ≡ none = rw (sym q) v in
        let z : find_hash h rs ≡ none =
          (let y : find_hash h (without_id (pos i) rs) ≡ none = ground (arith) in
            rw (sym (without_id-none (pos i) rs w)) y) in
        rw (p, change_id-none i f rs w) (rw (l r) z, rw (k r) v, rw (k r) b, d))
  | inr p ↦ rw p (
    find_hash-rehash h r.token_hash i f rs l
        (ground (arith, same_iff h r.token_hash, same_iff r.token_hash h)) u,
    find_id-change_id (pos r.id) (pos i) f rs k v,
    b,
    rehash-IsDistinct n h i f rs k l (ground arith) d,
  )
]

-- No row has a negative id.
pub find_id-negsuc : (i : ℕ) (rs : List Row) → find_id (negsuc i) rs ≡ none
unfolding find_id
find_id-negsuc i [] = refl
find_id-negsuc i (r ∷ rs) = find_id-negsuc i rs
