-- ===== src/Logging/Query/Placeholders.antt =====
-- internal/logging: the placeholders of the two SQL dialects.
use da_proxy.Prelude.{
  ℕ, ◌+◌, ◌≡◌, refl, ap, sym, ◌∙◌, Bool, true, false, ◌||◌, List, [], ◌∷◌, ◌++◌, if◌then◌else◌,
  length, length-append, All, arith,
}
use mathlib.Core.List.{append-nil, append_assoc}
use da_proxy.Prelude.Text.{Text, codes, has_prefix, contains}
use da_proxy.Prelude.Text.Split.{join_text}
use da_proxy.Prelude.Text.Decimal.{to_decimal}
use da_proxy.Logging.Query.{
  LogFilter, Arg, text, number, time, float, is_given, is_not_zero, is_positive, is_time, or_zero,
  Built, PgBuilt, append_if, add_if, conditions, pg_conditions, with_where, with_order, build_query,
  pg_build_query, page_limit,
}
use da_proxy.Logging.Query.Marks.{
  marks, number_marks, marks-append, number_marks-append, number_marks_plain, marks-to_decimal,
  number_each, number_each-append, IsMarked, number_marks-join_text,
}

-- The two builders in step.
record Matches {F : Type 0} (b : Built F) (p : PgBuilt F) : Type 0 where
  args : p.1 ≡ b.1
  next : p.2 ≡ 1 + length b.0
  numbered : p.0 ≡ number_each 1 b.0
  marked : All IsMarked b.0

IsMarked-append :
    (cs : List Text) (c : Text) → All IsMarked cs → IsMarked c → All IsMarked (cs ++ c ∷ [])
IsMarked-append [] c a m = (m, tt)
IsMarked-append (d ∷ cs) c (h, a) m = (h, IsMarked-append cs c a m)

append_if-Matches :
    {F : Type 0} (t : Bool) (c d : Text) (v : Arg F) (b : Built F) (p : PgBuilt F)
    → IsMarked c
    → ((n : ℕ) → number_marks n c ≡ d ++ to_decimal n)
    → Matches b p
    → Matches (append_if t c v b) (add_if t d v p)
append_if-Matches false c d v b p m k h = h
append_if-Matches true c d v (cs, vs) (ds, ws, n) m k h = record {
  args = rw (h.args) refl;
  next = rw (h.next, length-append cs (c ∷ [])) (omega arith);
  numbered = rw (h.numbered, h.next, number_each-append 1 cs c, k (1 + length cs)) refl;
  marked = IsMarked-append cs c h.marked m;
}

number_marks-placeholder :
    (pre : Text)
    → marks pre ≡ 0
    → (n : ℕ) → number_marks n (pre ++ codes "?") ≡ (pre ++ codes "$") ++ to_decimal n
unfolding number_marks
number_marks-placeholder pre m n =
    let e : n + 0 ≡ n = omega arith in
    number_marks-append n pre (codes "?")
    ∙ rw
        (
          m,
          e,
          number_marks_plain n pre m,
          append-nil (to_decimal n),
          append_assoc pre (codes "$") (to_decimal n),
        )
        refl

-- The same condition in both dialects.
condition_step :
    {F : Type 0} (t : Bool) (pre : Text) (v : Arg F) {b : Built F} {p : PgBuilt F}
    → marks pre ≡ 0
    → Matches b p
    → Matches (append_if t (pre ++ codes "?") v b) (add_if t (pre ++ codes "$") v p)
unfolding marks
condition_step t pre v {b} {p} m h =
    append_if-Matches t (pre ++ codes "?") (pre ++ codes "$") v b p
      (rw (marks-append pre (codes "?"), m) refl) (number_marks-placeholder pre m) h

cursor_step :
    {F : Type 0} (t desc : Bool) (v : Arg F) {b : Built F} {p : PgBuilt F}
    → Matches b p
    → Matches
        (append_if t (if desc then codes "id < ?" else codes "id > ?") v b)
        (add_if t (if desc then codes "id < $" else codes "id > $") v p)
unfolding marks
cursor_step t true v h = condition_step t (codes "id < ") v refl h
cursor_step t false v h = condition_step t (codes "id > ") v refl h

nothing_yet : {F : Type 0} → Matches {F = F} ([], []) ([], [], 1)
nothing_yet = record { args = refl; next = refl; numbered = refl; marked = tt }

number_marks_prefix :
    (n : ℕ) (pre s : Text) → marks pre ≡ 0 → number_marks n (pre ++ s) ≡ pre ++ number_marks n s
number_marks_prefix n pre s m =
    let e : n + 0 ≡ n = omega arith in
    number_marks-append n pre s ∙ rw (m, e, number_marks_plain n pre m) refl

number_marks_suffix :
    (n : ℕ) (s post : Text) → marks post ≡ 0 → number_marks n (s ++ post) ≡ number_marks n s ++ post
number_marks_suffix n s post m =
    number_marks-append n s post
    ∙ ap (λ x. number_marks n s ++ x) (number_marks_plain (n + marks s) post m)

with_where-number_marks :
    (base : Text) (cs : List Text)
    → marks base ≡ 0
    → All IsMarked cs
    → number_marks 1 (with_where base cs) ≡ with_where base (number_each 1 cs)
unfolding marks
with_where-number_marks base [] m a = number_marks_plain 1 base m
with_where-number_marks base (c ∷ cs) m a =
    number_marks_prefix 1 (base ++ codes " WHERE ") (join_text (codes " AND ") (c ∷ cs))
      (rw (marks-append base (codes " WHERE "), m) refl)
    ∙ ap (λ x. base ++ codes " WHERE " ++ x) (number_marks-join_text 1 (c ∷ cs) a)

order_plain :
    (desc : Bool) → marks (if desc then codes " ORDER BY id DESC" else codes " ORDER BY id ASC") ≡ 0
unfolding marks
order_plain true = refl
order_plain false = refl

with_order-number_marks :
    {F : Type 0} (f : LogFilter F) (q : Text)
    → number_marks 1 (with_order f q) ≡ with_order f (number_marks 1 q)
unfolding marks
with_order-number_marks f q =
    let o = if f.sort_desc then codes " ORDER BY id DESC" else codes " ORDER BY id ASC" in
    let d = to_decimal (page_limit f.limit) in
    number_marks_suffix 1 (q ++ o ++ codes " LIMIT ") d (marks-to_decimal (page_limit f.limit))
    ∙ ap (λ x. x ++ d)
        (number_marks_suffix 1 (q ++ o) (codes " LIMIT ") refl
          ∙ ap (λ x. x ++ codes " LIMIT ") (number_marks_suffix 1 q o (order_plain f.sort_desc)))

-- The two tests for a query of entries agree.
same_tests : (a b c : Bool) → (b ≡ true → (a || c) ≡ true) → (a || b || c) ≡ (a || c)
same_tests true b c h = refl
same_tests false true c h = rw (h refl) refl
same_tests false false c h = refl

finish :
    {F : Type 0} (f : LogFilter F) (t u : Bool) (q p : Text)
    → u ≡ t
    → p ≡ number_marks 1 q
    → (if t then with_order f p else p) ≡ number_marks 1 (if u then with_order f q else q)
finish f true true q p a e = rw e (sym (with_order-number_marks f q))
finish f false false q p a e = e
finish f true false q p a e = absurd (cc)
finish f false true q p a e = absurd (cc)

pairs : {A B : Type 0} {a c : A} {b d : B} → a ≡ c → b ≡ d → ◌≡◌ {A = A × B} (a, b) (c, d)
pairs e f = cc

module _ {F : Type 0} (positive : F → Bool) where
  conditions-Matches :
      (f : LogFilter F) → Matches (conditions positive f) (pg_conditions positive f)
  unfolding marks
  conditions-Matches f = cursor_step (is_positive f.cursor) f.sort_desc (number f.cursor) (
      condition_step (positive f.latency_min) (codes "latency_ms >= ") (float f.latency_min) refl (
        condition_step (is_time f.to) (codes "timestamp <= ") (time (or_zero f.to)) refl (
          condition_step (is_time f.from) (codes "timestamp >= ") (time (or_zero f.from)) refl (
            condition_step (is_not_zero f.status_max) (codes "status_code <= ")
              (number f.status_max) refl
              (condition_step (is_not_zero f.status_min) (codes "status_code >= ")
                (number f.status_min) refl
                (condition_step (is_not_zero f.status_code) (codes "status_code = ")
                  (number f.status_code) refl
                  (condition_step (is_given f.backend) (codes "backend = ") (text f.backend) refl (
                    condition_step (is_given f.token_name) (codes "token_name = ")
                      (text f.token_name) refl
                      (condition_step (is_given f.method) (codes "method = ") (text f.method) refl
                        nothing_yet)))))))))

  -- Where the text that a query begins with has no question mark, and begins with SELECT timestamp only if
  -- it is also known to select entries otherwise, the query for PostgreSQL is the one for SQLite with its question marks replaced by
  -- $1, $2 and so on in their order, and its arguments are the same.
  pub pg_build_query-build_query :
      (base : Text) (f : LogFilter F)
      → marks base ≡ 0
      → (has_prefix base (codes "SELECT timestamp") ≡ true
          → (has_prefix base (codes "SELECT id") || contains base (codes "request_id")) ≡ true)
      → pg_build_query positive base f
        ≡ (number_marks 1 (build_query positive base f).0, (build_query positive base f).1)
  unfolding pg_build_query build_query
  pg_build_query-build_query base f m h =
      let r = conditions-Matches f in
      let e : with_where base (pg_conditions positive f).0
          ≡ number_marks 1 (with_where base (conditions positive f).0) =
        ap (with_where base) r.numbered
        ∙ sym (with_where-number_marks base (conditions positive f).0 m r.marked) in
      pairs
        (finish f _ _ _ _
          (same_tests (has_prefix base (codes "SELECT id"))
            (has_prefix base (codes "SELECT timestamp")) (contains base (codes "request_id")) h)
          e)
        r.args
