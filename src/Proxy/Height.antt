-- ===== src/Proxy/Height.antt =====
-- internal/proxy/height.go: which requests name a block so old that only an archival node has it.
pub mod Archival
use da_proxy.Prelude.{
  ℕ, Bool, true, false, ◌&&◌, not, List, [], ◌∷◌, Option, none, some, ◌==◌, if◌then◌else◌,
  get_elem?, length, Table, lookup,
}
use da_proxy.Prelude.Text.{Text, codes, trim_space}
use da_proxy.Prelude.Int.{ℤ, pos, negsuc, pos_part, ltb_ℤ, sub_int64, parse_int}
use da_proxy.Proxy.Decode.{Json, Url}

-- Both fields are int64.
pub record HeightTracker : Type 0 where
  pub head_height : ℤ
  pub pruning_window : ℤ

abbrev pub new_height_tracker : ℤ → HeightTracker
new_height_tracker window = record { head_height = pos 0; pruning_window = window }

unfoldable pub set_head : ℤ → HeightTracker → HeightTracker
set_head height ht = record ht { head_height = height }

abbrev pub head : HeightTracker → ℤ
head ht = ht.head_height

-- `ht.pruningWindow > 0`
unfoldable pub enabled : HeightTracker → Bool
enabled ht = ltb_ℤ (pos 0) ht.pruning_window

abbrev pub is_zero : ℤ → Bool
is_zero (pos n) = n == 0
is_zero (negsuc n) = false

unfoldable pub is_archival : HeightTracker → ℤ → Bool
is_archival ht height =
    if not (ltb_ℤ (pos 0) ht.pruning_window)
    then false
    else if is_zero ht.head_height
    then false
    else if not (ltb_ℤ (pos 0) height)
    then false
    else ltb_ℤ height (sub_int64 ht.head_height ht.pruning_window)

abbrev pub height_bearing_methods : Table ℤ
height_bearing_methods =
    (codes "block", pos 0)
    ∷ (codes "block_results", pos 0)
    ∷ (codes "validators", pos 0)
    ∷ (codes "commit", pos 0)
    ∷ (codes "blockchain", pos 0)
    ∷ (codes "block_by_hash", negsuc 0)
    ∷ (codes "header", pos 0)
    ∷ (codes "header_by_hash", negsuc 0)
    ∷ (codes "header.GetByHeight", pos 0)
    ∷ (codes "blob.Get", pos 0)
    ∷ (codes "blob.GetAll", pos 0)
    ∷ (codes "blob.GetProof", pos 0)
    ∷ (codes "share.GetSharesByNamespace", pos 0)
    ∷ (codes "share.GetEDS", pos 0)
    ∷ (codes "share.GetNamespaceData", pos 0)
    ∷ []

-- `return 0` where `strconv.ParseInt` fails.
abbrev or_zero : Option ℤ → ℤ
or_zero none = pos 0
or_zero (some h) = h

abbrev pub begins_with : ℕ → Text → Bool
begins_with c [] = false
begins_with c (a ∷ s) = a == c

module _ (json : Json) where
  -- A number, or a string that holds one.
  unfoldable pub parse_height : Text → ℤ
  unfolding trim_space
  parse_height raw =
      if length (trim_space raw) == 0
      then pos 0
      else if begins_with b'"' (trim_space raw)
      then elim (json.string raw) [ none ↦ pos 0 | some str ↦ or_zero (parse_int str) ]
      else or_zero (parse_int (trim_space raw))

  height_of_array : ℕ → Option (List Text) → ℤ
  height_of_array idx none = pos 0
  height_of_array idx (some params) = elim (get_elem? params idx) [
    | none ↦ pos 0
    | some p ↦ parse_height p
  ]

  height_of_object : Option (Table Text) → ℤ
  height_of_object none = pos 0
  height_of_object (some fields) = elim (lookup (codes "height") fields) [
    | some v ↦ parse_height v
    | none ↦ elim (lookup (codes "Height") fields) [ some v ↦ parse_height v | none ↦ pos 0 ]
  ]

  height_of_params : ℕ → Option Text → ℤ
  unfolding height_of_array height_of_object
  height_of_params idx none = pos 0
  height_of_params idx (some raw) =
      if length raw == 0
      then pos 0
      else if begins_with b'[' (trim_space raw)
      then height_of_array idx (json.elements raw)
      else height_of_object (json.fields raw)

  unfoldable pub extract_height : Text → Text → ℤ
  unfolding height_of_params
  extract_height method body = elim (lookup method height_bearing_methods) [
    | none ↦ pos 0
    | some param_idx ↦
        if ltb_ℤ param_idx (pos 0)
        then pos 0
        else height_of_params (pos_part param_idx) (json.params body)
  ]

unfoldable pub extract_height_from_query : Url → Text → ℤ
extract_height_from_query url raw_query =
    if length raw_query == 0 then pos 0 else elim (url.query_height raw_query) [
      | none ↦ pos 0
      | some h ↦ if length h == 0 then pos 0 else or_zero (parse_int h)
    ]
