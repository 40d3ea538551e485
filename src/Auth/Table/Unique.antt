-- ===== src/Auth/Table/Unique.antt =====
-- internal/auth/store.go: the statements keep the ids and the hashes of the table distinct.
use da_proxy.Prelude.{ℕ, ◌≡◌, refl, List, [], ◌∷◌, Option, none, some, inl, inr, ap, Option-cases}
use da_proxy.Prelude.Text.{Text}
use da_proxy.Prelude.Int.{ℤ, pos, negsuc}
use da_proxy.Auth.Table.{
  Row, Settings, TokenTable, find_id, find_hash, change_id, without_id, insert_row, update_row,
  rotate_row, delete_row,
}
use da_proxy.Auth.Table.Distinct.{
  IsDistinct, append-IsDistinct, without_id-IsDistinct, change_id-IsDistinct, change_id-none,
  rehash-IsDistinct, find_id-negsuc,
}

-- The statements that write keep the table so.
unfoldable pub IsProper : TokenTable → Type 0
unfolding IsDistinct
IsProper t = IsDistinct t.next_id t.rows

-- What a statement leaves, where it is no violation.
abbrev pub Leaves : {R : Type 0} → (TokenTable → Type 0) → Option (R × TokenTable) → Type 0
Leaves P none = Unit
Leaves P (some (r, t)) = P t

pub insert_row-IsProper :
    (h p : Text) (s : Settings) (now : ℕ) (t : TokenTable)
    → IsProper t
    → Leaves IsProper (insert_row h p s now t)
unfolding IsProper insert_row
insert_row-IsProper h p s now t d = elim (Option-cases (find_hash h t.rows)) [
  | inl q ↦ rw q (append-IsDistinct t.next_id t.rows _ d refl q)
  | inr (r, q) ↦ rw q tt
]

pub update_row-IsProper :
    (i : ℤ) (s : Settings) (now : ℕ) (t : TokenTable)
    → IsProper t
    → Leaves IsProper (update_row i s now t)
unfolding IsProper update_row
update_row-IsProper i s now t d =
    change_id-IsDistinct t.next_id i _ t.rows (λ r. refl) (λ r. refl) d

change_id-negsuc : (i : ℕ) (f : Row → Row) (rs : List Row) → change_id (negsuc i) f rs ≡ rs
unfolding change_id
change_id-negsuc i f [] = refl
change_id-negsuc i f (r ∷ rs) = ap (◌∷◌ r) (change_id-negsuc i f rs)

pub rotate_row-IsProper :
    (i : ℤ) (h p : Text) (now : ℕ) (t : TokenTable)
    → IsProper t
    → Leaves IsProper (rotate_row i h p now t)
unfolding IsProper rotate_row
rotate_row-IsProper (negsuc i) h p now t d =
    elim (Option-cases (find_hash h (without_id (negsuc i) t.rows))) [
      | inl q ↦
          rw
            (
              q,
              change_id-negsuc i
                  (λ r. record r { token_hash = h; token_prefix = p; updated_at = now }) t.rows,
            )
            d
      | inr (r, q) ↦
          rw
            (
              q,
              find_id-negsuc i t.rows,
              change_id-negsuc i
                  (λ r. record r { token_hash = h; token_prefix = p; updated_at = now }) t.rows,
            )
            d
    ]
rotate_row-IsProper (pos i) h p now t d =
    elim (Option-cases (find_hash h (without_id (pos i) t.rows))) [
      | inl q ↦ rw q (rehash-IsDistinct t.next_id h i _ t.rows (λ r. refl) (λ r. refl) q d)
      | inr (r, q) ↦ elim (Option-cases (find_id (pos i) t.rows)) [
        | inl v ↦
            rw
              (
                q,
                v,
                change_id-none i
                    (λ r. record r { token_hash = h; token_prefix = p; updated_at = now }) t.rows v,
              )
              d
        | inr (r', v) ↦ rw (q, v) tt
      ]
    ]

pub delete_row-IsProper : (i : ℤ) (t : TokenTable) → IsProper t → Leaves IsProper (delete_row i t)
unfolding IsProper delete_row
delete_row-IsProper i t d = without_id-IsDistinct t.next_id i t.rows d
