-- ===== src/Proxy/Height/Archival.antt =====
-- What counts as an archival height, and the range of the heights that requests name.
use da_proxy.Prelude.{
  ℕ, ◌^◌, ◌≡◌, ◌↔◌, Bool, true, false, Option, none, some, Option-cases, inl, inr, arith, lookup,
  List, get_elem?, length, ◌==◌, if◌then◌else◌, Table, ◌<◌, ◌+◌,
}
use da_proxy.Prelude.Text.{Text, codes, trim_space}
use da_proxy.Prelude.Int.{
  ℤ, pos, negsuc, pos_part, ◌<ℤ◌, ltb_ℤ, sub_int64-pos, IsInt64, parse_int, parse_int-IsInt64,
}
use da_proxy.Proxy.Decode.{Json, Url}
use da_proxy.Proxy.Height.{
  is_archival, or_zero, begins_with, parse_height, height_of_array, height_of_object,
  height_of_params, extract_height, extract_height_from_query, height_bearing_methods,
}

-- A height is archival exactly when a pruning window is configured, the head is known, the
-- height is positive, and it lies more than the window below the head, as integers: for a head
-- that is not negative the subtraction of int64 does not wrap.
pub is_archival_iff :
    (head : ℕ) (window height : ℤ)
    → head < 2 ^ 63
    → IsInt64 window
    → (is_archival (record { head_height = pos head; pruning_window = window }) height ≡ true) ↔ (
        (pos 0 <ℤ window)
        × (0 < head)
        × (pos 0 <ℤ height)
        × (pos_part height + pos_part window < head))
unfolding is_archival
is_archival_iff head (negsuc w) height small window = ground arith
is_archival_iff head (pos w) (negsuc h) small window = ground arith
is_archival_iff head (pos w) (pos h) small window =
    ground (arith, sub_int64-pos head w small window.below)

zero-IsInt64 : IsInt64 (pos 0)
zero-IsInt64 = omega arith

-- A branch keeps what both sides have.
if-IsInt64 : (b : Bool) {x y : ℤ} → IsInt64 x → IsInt64 y → IsInt64 (if b then x else y)
if-IsInt64 true hx hy = hx
if-IsInt64 false hx hy = hy

default-IsInt64 :
    {A : Type 0} (o : Option A) (f : A → ℤ)
    → ((a : A) → IsInt64 (f a))
    → IsInt64 (elim o [ none ↦ pos 0 | some a ↦ f a ])
default-IsInt64 none f h = zero-IsInt64
default-IsInt64 (some a) f h = h a

or_zero-IsInt64 : (s : Text) → IsInt64 (or_zero (parse_int s))
or_zero-IsInt64 s = elim (Option-cases (parse_int s)) [
  | inl e ↦ rw e zero-IsInt64
  | inr (z, e) ↦ rw e (parse_int-IsInt64 s e)
]

module _ (json : Json) where
  parse_height-IsInt64 : (raw : Text) → IsInt64 (parse_height json raw)
  unfolding parse_height
  parse_height-IsInt64 raw = if-IsInt64 (length (trim_space raw) == 0) zero-IsInt64 (
      if-IsInt64 (begins_with b'"' (trim_space raw))
        (default-IsInt64 (json.string raw) (λ str. or_zero (parse_int str)) or_zero-IsInt64)
        (or_zero-IsInt64 (trim_space raw)))

  height_of_array-IsInt64 :
      (idx : ℕ) (o : Option (List Text)) → IsInt64 (height_of_array json idx o)
  unfolding height_of_array
  height_of_array-IsInt64 idx none = zero-IsInt64
  height_of_array-IsInt64 idx (some ps) =
      default-IsInt64 (get_elem? ps idx) (λ p. parse_height json p) parse_height-IsInt64

  height_of_object-IsInt64 : (o : Option (Table Text)) → IsInt64 (height_of_object json o)
  unfolding height_of_object
  height_of_object-IsInt64 none = zero-IsInt64
  height_of_object-IsInt64 (some fields) = elim (Option-cases (lookup (codes "height") fields)) [
    | inl e ↦
        rw (e, height_of_object)
          (default-IsInt64 (lookup (codes "Height") fields) (λ v. parse_height json v)
            parse_height-IsInt64)
    | inr (v, e) ↦ rw (e, height_of_object) (parse_height-IsInt64 v)
  ]

  height_of_params-IsInt64 : (idx : ℕ) (o : Option Text) → IsInt64 (height_of_params json idx o)
  unfolding height_of_params
  height_of_params-IsInt64 idx none = zero-IsInt64
  height_of_params-IsInt64 idx (some raw) = if-IsInt64 (length raw == 0) zero-IsInt64 (
      if-IsInt64 (begins_with b'[' (trim_space raw))
        (height_of_array-IsInt64 idx (json.elements raw))
        (height_of_object-IsInt64 (json.fields raw)))

  -- The height that a request names in its body is an int64, whatever the body is.
  extract_height-IsInt64 : (method body : Text) → IsInt64 (extract_height json method body)
  unfolding extract_height
  extract_height-IsInt64 method body =
      default-IsInt64 (lookup method height_bearing_methods) _ (λ idx.
        if-IsInt64 (ltb_ℤ idx (pos 0)) zero-IsInt64
          (height_of_params-IsInt64 (pos_part idx) (json.params body)))

-- So is the one that it names in its query.
pub extract_height_from_query-IsInt64 :
    (url : Url) (raw_query : Text) → IsInt64 (extract_height_from_query url raw_query)
unfolding extract_height_from_query
extract_height_from_query-IsInt64 url raw_query = if-IsInt64 (length raw_query == 0) zero-IsInt64 (
    default-IsInt64 (url.query_height raw_query) _
      (λ h. if-IsInt64 (length h == 0) zero-IsInt64 (or_zero-IsInt64 h)))
