-- ===== src/Auth/Table/Found.antt =====
-- internal/auth/store.go: the rows that are found in a changed table.
use da_proxy.Prelude.{
  ℕ, ◌≡◌, refl, true, false, List, [], ◌∷◌, ◌++◌, none, some, arith, ◌==◌, Bool-cases, inl, inr,
  sym, ◌∙◌, ◌≢◌,
}
use da_proxy.Prelude.Text.{Text, same, same_iff, same_refl}
use da_proxy.Prelude.Int.{pos}
use da_proxy.Auth.Table.{Row, find_id, find_hash, change_id, without_id}
use da_proxy.Auth.Table.Distinct.{IsDistinct, without_id-none}

-- What is found in the changed tables.
pub find_hash-insert :
    (h : Text) (r : Row) (rs : List Row)
    → find_hash h rs ≡ none
    → r.token_hash ≡ h
    → find_hash h (rs ++ r ∷ []) ≡ some r
unfolding find_hash
find_hash-insert h r [] n e = ground (arith, same_iff r.token_hash h)
find_hash-insert h r (s ∷ rs) n e = ground (arith, find_hash-insert h r rs)

pub find_hash_rotated :
    (h : Text) (i : ℕ) (f : Row → Row) (r : Row) (rs : List Row)
    → ((s : Row) → (f s).token_hash ≡ h)
    → find_hash h (without_id (pos i) rs) ≡ none
    → find_id (pos i) rs ≡ some r
    → find_hash h (change_id (pos i) f rs) ≡ some (f r)
unfolding find_hash change_id without_id find_id
find_hash_rotated h i f r [] l n e = absurd (cc)
find_hash_rotated h i f r (s ∷ rs) l n e =
    ground (arith, l s, same_iff (f s).token_hash h, find_hash_rotated h i f r rs l)

find_hash-found :
    (i : ℕ) (r : Row) (rs : List Row)
    → find_id (pos i) rs ≡ some r
    → find_hash r.token_hash rs ≢ none
unfolding find_hash find_id
find_hash-found i r [] e n = absurd (cc)
find_hash-found i r (s ∷ rs) e n = elim (Bool-cases (s.id == i)) [
  | inl p ↦
      (let q : s ≡ r = ground arith in
        let w : same s.token_hash r.token_hash ≡ true = rw q (same_refl r.token_hash) in
        ground arith)
  | inr p ↦ find_hash-found i r rs (ground arith) (ground arith)
]

-- The row that has the id is the only one of its hash.
pub find_hash-without_id_self :
    (n i : ℕ) (g : Text) (r : Row) (rs : List Row)
    → IsDistinct n rs
    → find_id (pos i) rs ≡ some r
    → same r.token_hash g ≡ true
    → find_hash g (without_id (pos i) rs) ≡ none
unfolding find_hash without_id find_id IsDistinct
find_hash-without_id_self n i g r [] d e q = absurd (cc)
find_hash-without_id_self n i g r (s ∷ rs) (u, v, b, d) e q =
    let h : r.token_hash ≡ g = (same_iff r.token_hash g).0 q in
    elim (Bool-cases (s.id == i)) [
      | inl p ↦
          (let w : s ≡ r = ground arith in
            let z : s.id ≡ i = ground arith in
            rw (p, without_id-none (pos i) rs (rw (sym z) v)) (rw (sym h) (rw (sym w) u)))
      | inr p ↦
          (let t = find_hash-without_id_self n i g r rs d (ground arith) q in
            let k : same s.token_hash g ≡ false = elim (Bool-cases (same s.token_hash g)) [
              | inl y ↦
                  (let x : s.token_hash ≡ r.token_hash = (same_iff s.token_hash g).0 y ∙ sym h in
                    absurd (find_hash-found i r rs (ground arith) (rw (sym x) u)))
              | inr y ↦ y
            ] in
            rw p (ground arith))
    ]

pub find_hash-without_id_ne :
    (i : ℕ) (g : Text) (r : Row) (n : ℕ) (rs : List Row)
    → IsDistinct n rs
    → find_id (pos i) rs ≡ some r
    → same r.token_hash g ≡ false
    → find_hash g (without_id (pos i) rs) ≡ find_hash g rs
unfolding find_hash without_id find_id IsDistinct
find_hash-without_id_ne i g r n [] d e q = refl
find_hash-without_id_ne i g r n (s ∷ rs) (u, v, b, d) e q = elim (Bool-cases (s.id == i)) [
  | inl p ↦
      (let w : s ≡ r = ground arith in
        let z : s.id ≡ i = ground arith in
        let k : same s.token_hash g ≡ false = rw w q in
        rw (p, without_id-none (pos i) rs (rw (sym z) v), k) refl)
  | inr p ↦ (let t = find_hash-without_id_ne i g r n rs d (ground arith) q in rw p (ground arith))
]

-- The hash that a rotation replaces is that of no row.
pub find_hash_replaced :
    (n i : ℕ) (g : Text) (f : Row → Row) (r : Row) (rs : List Row)
    → ((s : Row) → same (f s).token_hash g ≡ false)
    → IsDistinct n rs
    → find_id (pos i) rs ≡ some r
    → same r.token_hash g ≡ true
    → find_hash g (change_id (pos i) f rs) ≡ none
unfolding find_hash change_id without_id
find_hash_replaced n i g f r rs l d e q = changed rs (find_hash-without_id_self n i g r rs d e q)
  where
    changed :
        (rs : List Row)
        → find_hash g (without_id (pos i) rs) ≡ none
        → find_hash g (change_id (pos i) f rs) ≡ none
    changed [] e = refl
    changed (s ∷ rs) e = ground (arith, l s, changed rs)
