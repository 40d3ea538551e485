-- ===== src/Prelude/Text.antt =====
-- Go strings and byte slices: lists of bytes, and what `strings` does to them.
pub mod Affix
pub mod Split
pub mod Decimal
use Prim.Native.Nat.{ℕ, zero, suc, ◌+◌}
use Prim.Native.Char.{code}
use Prim.Native.String.{String}
use mathlib.Core.Path.{◌≡◌, refl, sym, ap}
use mathlib.Core.Logic.{◌↔◌, ◌≢◌, inl, inr}
use mathlib.Core.Bool.{Bool, true, false, ◌&&◌, ◌||◌}
use mathlib.Core.Option.{Option, none, some}
use mathlib.Core.List.{List, [], ◌∷◌, ◌++◌, reverse, Memᴰ}
use native.Mathlib.Omega.{arith}
use da_proxy.Prelude.Tests.{leb, ◌==◌, if◌then◌else◌, Bool-cases}
use da_proxy.Prelude.Lists.{length, drop}

abbrev pub Text : Type 0
Text = List ℕ

-- The bytes of a literal of the program (all are ASCII).
abbrev pub codes : String → Text
codes String.[] = []
codes (String.◌∷◌ c s) = code c ∷ codes s

-- Go's `==` on strings.
unfoldable pub same : Text → Text → Bool
same [] [] = true
same [] (_ ∷ _) = false
same (_ ∷ _) [] = false
same (a ∷ s) (b ∷ t) = a == b && same s t

pub same_iff : (s t : Text) → (same s t ≡ true) ↔ (s ≡ t)
unfolding same
same_iff [] [] = ground arith
same_iff [] (b ∷ t) = ground arith
same_iff (a ∷ s) [] = ground arith
same_iff (a ∷ s) (b ∷ t) = ground (arith, same_iff s t)

pub same_refl : (s : Text) → same s s ≡ true
same_refl s = (same_iff s s).1 refl

-- `m[s]` on a `map[string]bool`: whether the table lists the text.
unfoldable pub listed : List Text → Text → Bool
unfolding same
listed [] s = false
listed (t ∷ ts) s = same t s || listed ts s

-- `strings.HasPrefix`.
unfoldable pub has_prefix : Text → Text → Bool
has_prefix s [] = true
has_prefix [] (_ ∷ _) = false
has_prefix (a ∷ s) (b ∷ p) = a == b && has_prefix s p

-- `strings.HasSuffix`.
unfoldable pub has_suffix : Text → Text → Bool
unfolding has_prefix
has_suffix s p = has_prefix (reverse s) (reverse p)

-- `strings.TrimPrefix` and `strings.TrimSuffix`.
unfoldable pub trim_prefix : Text → Text → Text
unfolding has_prefix
trim_prefix s p = if has_prefix s p then drop (length p) s else s

unfoldable pub trim_suffix : Text → Text → Text
unfolding trim_prefix
trim_suffix s p = reverse (trim_prefix (reverse s) (reverse p))

-- `strings.Contains`.
unfoldable pub contains : Text → Text → Bool
unfolding has_prefix
contains [] p = has_prefix [] p
contains (a ∷ s) p = has_prefix (a ∷ s) p || contains s p

-- `strings.IndexByte` with the two slices at its answer: what stands before the first `c`, and
-- what stands from it on; `none` for the answer -1.
unfoldable pub cut_at : ℕ → Text → Option (Text × Text)
cut_at c [] = none
cut_at c (a ∷ s) =
    if a == c
    then some ([], a ∷ s)
    else elim (cut_at c s) [ none ↦ none | some (before, from) ↦ some (a ∷ before, from) ]

abbrev pub Lacks : ℕ → Text → Type 0
Lacks c [] = Unit
Lacks c (a ∷ s) = (a ≢ c) × Lacks c s

-- What `cut_at` answers: the first `c` and what stands on its two sides, or that there is none.
abbrev pub IsCut : ℕ → Text → Option (Text × Text) → Type 0
IsCut c s none = Lacks c s
IsCut c s (some (before, from)) =
    (s ≡ before ++ from) × Lacks c before × ((rest : Text) × (from ≡ c ∷ rest))

IsCut-cons :
    (c a : ℕ) (s : Text) (o : Option (Text × Text))
    → a ≢ c
    → IsCut c s o
    → IsCut c (a ∷ s) (elim o [ none ↦ none | some (before, from) ↦ some (a ∷ before, from) ])
IsCut-cons c a s none h k = (h, k)
IsCut-cons c a s (some (before, from)) h (e, l, r) = (ap (◌∷◌ a) e, (h, l), r)

pub cut_at-IsCut : (c : ℕ) (s : Text) → IsCut c s (cut_at c s)
unfolding cut_at
cut_at-IsCut c [] = tt
cut_at-IsCut c (a ∷ s) = elim (Bool-cases (a == c)) [
  | inl e ↦ rw e (refl, tt, (s, ground arith))
  | inr e ↦ rw e (IsCut-cons c a s (cut_at c s) (ground arith) (cut_at-IsCut c s))
]

-- The converses: a text up to its first `c`, and a text without it.
pub cut_at-append :
    (c : ℕ) (s rest : Text) → Lacks c s → cut_at c (s ++ c ∷ rest) ≡ some (s, c ∷ rest)
unfolding cut_at
cut_at-append c [] rest h = ground arith
cut_at-append c (a ∷ s) rest (n, h) = ground (arith, cut_at-append c s rest h)

pub cut_at_of_Lacks : (c : ℕ) (s : Text) → Lacks c s → cut_at c s ≡ none
unfolding cut_at
cut_at_of_Lacks c [] h = refl
cut_at_of_Lacks c (a ∷ s) (n, h) = ground (arith, cut_at_of_Lacks c s h)

-- A table lists exactly its members.
pub listed-Memᴰ : (ts : List Text) (s : Text) → listed ts s ≡ true → Memᴰ s ts
unfolding listed
listed-Memᴰ [] s e = absurd (ground arith)
listed-Memᴰ (t ∷ ts) s e = elim (Bool-cases (same t s)) [
  | inl p ↦ Memᴰ.head (sym ((same_iff t s).0 p))
  | inr q ↦ Memᴰ.tail (listed-Memᴰ ts s (rw (q, ◌||◌) at e))
]

pub listed_of_Memᴰ : (ts : List Text) (s : Text) → Memᴰ s ts → listed ts s ≡ true
unfolding listed
listed_of_Memᴰ [] s m = elim m [ ]
listed_of_Memᴰ (t ∷ ts) s (Memᴰ.head e) = ground (arith, same_iff t s)
listed_of_Memᴰ (t ∷ ts) s (Memᴰ.tail m) = ground (arith, listed_of_Memᴰ ts s m)

-- White space as `strings.TrimSpace` knows it: the six ASCII characters, and the UTF-8 bytes of
-- the other characters of `unicode.IsSpace`. The answer is the width of a space at the head, or 0.
space_width : Text → ℕ
space_width [] = 0
space_width (a ∷ []) = if leb 9 a && leb a 13 || a == 32 then 1 else 0
space_width (a ∷ b ∷ []) =
    if leb 9 a && leb a 13 || a == 32
    then 1
    else if a == 0xc2 && (b == 0x85 || b == 0xa0)
    then 2
    else 0
space_width (a ∷ b ∷ c ∷ s) =
    if leb 9 a && leb a 13 || a == 32
    then 1
    else if a == 0xc2 && (b == 0x85 || b == 0xa0)
    then 2
    else if a == 0xe1 && b == 0x9a && c == 0x80
        || a == 0xe2
          && b == 0x80
          && (leb 0x80 c && leb c 0x8a || c == 0xa8 || c == 0xa9 || c == 0xaf)
        || a == 0xe2 && b == 0x81 && c == 0x9f
        || a == 0xe3 && b == 0x80 && c == 0x80
    then 3
    else 0

-- The same at the end of a text that is given in reverse.
space_width_end : Text → ℕ
unfolding space_width
space_width_end [] = 0
space_width_end (a ∷ []) = space_width (a ∷ [])
space_width_end (b ∷ a ∷ []) =
    let one = space_width (b ∷ []) in
    let two = space_width (a ∷ b ∷ []) in if one == 1 then 1 else if two == 2 then 2 else 0
space_width_end (c ∷ b ∷ a ∷ s) =
    let one = space_width (c ∷ []) in
    let two = space_width (b ∷ c ∷ []) in
    let three = space_width (a ∷ b ∷ c ∷ []) in
    if one == 1 then 1 else if two == 2 then 2 else if three == 3 then 3 else 0

-- The length of the text is fuel enough: each round drops a byte or more.
strip : (Text → ℕ) → ℕ → Text → Text
strip width zero s = s
strip width (suc fuel) s = elim (width s) [ zero ↦ s | suc k ↦ strip width fuel (drop (suc k) s) ]

-- `strings.TrimSpace`.
unfoldable pub trim_space : Text → Text
unfolding strip space_width space_width_end
trim_space s =
    let left = strip space_width (length s) s in
    reverse (strip space_width_end (length left) (reverse left))

-- `strings.ToLower` as far as a search for ASCII text can see: the ASCII letters, and the two other
-- letters whose lower case is ASCII (the Kelvin sign and the dotted I). Other bytes are kept.
ascii_lower : ℕ → ℕ
ascii_lower a = if leb b'A' a && leb a b'Z' then a + 32 else a

unfoldable pub to_lower : Text → Text
unfolding ascii_lower
to_lower [] = []
to_lower (a ∷ []) = ascii_lower a ∷ []
to_lower (a ∷ b ∷ []) =
    if a == 0xc4 && b == 0xb0 then b'i' ∷ [] else ascii_lower a ∷ ascii_lower b ∷ []
to_lower (a ∷ b ∷ c ∷ s) =
    let plain = ascii_lower a ∷ to_lower (b ∷ c ∷ s) in
    let dotted_i = b'i' ∷ to_lower (c ∷ s) in
    let kelvin = b'k' ∷ to_lower s in
    if a == 0xc4 && b == 0xb0
    then dotted_i
    else if a == 0xe2 && b == 0x84 && c == 0xaa
    then kelvin
    else plain

pub trim_space-nil : trim_space [] ≡ []
unfolding trim_space
trim_space-nil = refl

trim_space_test : trim_space (codes "  a b\n") ≡ codes "a b"
unfolding trim_space
trim_space_test = refl
