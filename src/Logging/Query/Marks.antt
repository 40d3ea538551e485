-- ===== src/Logging/Query/Marks.antt =====
-- internal/logging: the question marks of a query, and the numbers that PostgreSQL has in their place.
use da_proxy.Prelude.{
  ℕ, suc, ◌+◌, ◌≡◌, ◌<◌, refl, ap, ◌∙◌, List, [], ◌∷◌, ◌++◌, ◌==◌, if◌then◌else◌, length, All,
  arith, Bool-cases, inl, inr,
}
use mathlib.Core.List.{append_assoc}
use da_proxy.Prelude.Text.{Text, codes}
use da_proxy.Prelude.Text.Split.{join_text}
use da_proxy.Prelude.Text.Decimal.{to_decimal, to_decimal-All}

-- The number of question marks of a text.
unfoldable pub marks : Text → ℕ
marks [] = 0
marks (a ∷ s) = (if a == b'?' then 1 else 0) + marks s

-- The question marks replaced by the placeholders of PostgreSQL, numbered from `n`.
unfoldable pub number_marks : ℕ → Text → Text
number_marks n [] = []
number_marks n (a ∷ s) =
    let numbered = b'$' ∷ to_decimal n ++ number_marks (suc n) s in
    let plain = a ∷ number_marks n s in if a == b'?' then numbered else plain

pub marks-append : (s t : Text) → marks (s ++ t) ≡ marks s + marks t
unfolding marks
marks-append [] t = omega arith
marks-append (a ∷ s) t = ground (arith, marks-append s t)

pub number_marks-append :
    (n : ℕ) (s t : Text)
    → number_marks n (s ++ t) ≡ number_marks n s ++ number_marks (n + marks s) t
unfolding number_marks marks
number_marks-append n [] t = let e : n + 0 ≡ n = omega arith in rw e refl
number_marks-append n (a ∷ s) t = elim (Bool-cases (a == b'?')) [
  | inl p ↦
      (let e : n + (1 + marks s) ≡ suc n + marks s = omega arith in
        rw
          (
            p,
            e,
            append_assoc (to_decimal n) (number_marks (suc n) s) (number_marks (suc n + marks s) t),
            number_marks-append (suc n) s t,
          )
          refl)
  | inr q ↦
      (let e : n + (0 + marks s) ≡ n + marks s = omega arith in
        rw (q, e, number_marks-append n s t) refl)
]

pub number_marks_plain : (n : ℕ) (s : Text) → marks s ≡ 0 → number_marks n s ≡ s
unfolding number_marks marks
number_marks_plain n [] e = refl
number_marks_plain n (a ∷ s) e = ground (arith, number_marks_plain n s)

marks-All : (s : Text) → All (λ d. d < b':') s → marks s ≡ 0
unfolding marks
marks-All [] a = refl
marks-All (d ∷ s) (h, a) = ground (arith, marks-All s a)

pub marks-to_decimal : (n : ℕ) → marks (to_decimal n) ≡ 0
marks-to_decimal n =
    marks-All (to_decimal n) (to_decimal-All (λ d. d < b':') (λ k l. omega arith) n)

-- Each condition with its own number.
abbrev pub number_each : ℕ → List Text → List Text
number_each n [] = []
number_each n (c ∷ cs) = number_marks n c ∷ number_each (suc n) cs

pub number_each-append :
    (n : ℕ) (cs : List Text) (c : Text)
    → number_each n (cs ++ c ∷ []) ≡ number_each n cs ++ number_marks (n + length cs) c ∷ []
number_each-append n [] c = let e : n + 0 ≡ n = omega arith in rw e refl
number_each-append n (d ∷ cs) c =
    let e : n + suc (length cs) ≡ suc n + length cs = omega arith in
    rw (e, number_each-append (suc n) cs c) refl

abbrev pub IsMarked : Text → Type 0
IsMarked c = marks c ≡ 1

number_marks_nil : (n : ℕ) → number_marks n [] ≡ []
unfolding number_marks
number_marks_nil n = refl

number_marks_and :
    (n : ℕ) (s : Text) → number_marks n (codes " AND " ++ s) ≡ codes " AND " ++ number_marks n s
unfolding number_marks
number_marks_and n s = refl

pub number_marks-join_text :
    (n : ℕ) (cs : List Text)
    → All IsMarked cs
    → number_marks n (join_text (codes " AND ") cs) ≡ join_text (codes " AND ") (number_each n cs)
unfolding join_text
number_marks-join_text n [] a = number_marks_nil n
number_marks-join_text n (c ∷ []) a = refl
number_marks-join_text n (c ∷ d ∷ cs) (m, a) =
    let e : n + 1 ≡ suc n = omega arith in
    number_marks-append n c (codes " AND " ++ join_text (codes " AND ") (d ∷ cs))
    ∙ (rw (m, e)
        (ap (λ x. number_marks n c ++ x)
          (number_marks_and (suc n) (join_text (codes " AND ") (d ∷ cs))
            ∙ ap (λ x. codes " AND " ++ x) (number_marks-join_text (suc n) (d ∷ cs) a))))
