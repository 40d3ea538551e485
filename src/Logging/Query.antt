-- ===== src/Logging/Query.antt =====
-- internal/logging/store.go and store_postgres.go: the query of a filter.
pub mod Marks
pub mod Placeholders
use da_proxy.Prelude.{
  ℕ, suc, ◌+◌, Bool, true, false, not, ◌&&◌, ◌||◌, List, [], ◌∷◌, ◌++◌, Option, none, some, ◌==◌,
  ltb, if◌then◌else◌, length,
}
use da_proxy.Prelude.Text.{Text, codes, has_prefix, contains}
use da_proxy.Prelude.Text.Split.{join_text}
use da_proxy.Prelude.Text.Decimal.{to_decimal}
use da_proxy.Prelude.Int.{ℤ, pos, negsuc, pos_part, ltb_ℤ}

-- A time is `none` for the zero time; F is float64.
pub record LogFilter (F : Type 0) : Type 0 where
  pub method : Text
  pub token_name : Text
  pub backend : Text
  pub status_code : ℤ
  pub status_min : ℤ
  pub status_max : ℤ
  pub from : Option ℕ
  pub to : Option ℕ
  pub latency_min : F
  pub limit : ℤ
  pub cursor : ℤ
  pub sort_desc : Bool

-- An argument of a query.
pub data Arg (F : Type 0) : Type 0 where
  text : Text → Arg F
  number : ℤ → Arg F
  time : ℕ → Arg F
  float : F → Arg F

abbrev pub is_given {ℓ} : {A : Type ℓ} → List A → Bool
is_given [] = false
is_given (x ∷ xs) = true

abbrev pub is_not_zero : ℤ → Bool
is_not_zero (pos n) = ltb 0 n
is_not_zero (negsuc n) = true

abbrev pub is_positive : ℤ → Bool
is_positive (pos n) = ltb 0 n
is_positive (negsuc n) = false

abbrev pub is_time : Option ℕ → Bool
is_time none = false
is_time (some t) = true

abbrev pub or_zero : Option ℕ → ℕ
or_zero none = 0
or_zero (some t) = t

-- `conditions` and `args`, the latest last.
abbrev pub Built : Type 0 → Type 0
Built F = List Text × List (Arg F)

abbrev pub append_if : {F : Type 0} → Bool → Text → Arg F → Built F → Built F
append_if false c v b = b
append_if true c v (cs, args) = (cs ++ c ∷ [], args ++ v ∷ [])

-- With the number of the next placeholder, which `add` prints behind the dollar sign.
abbrev pub PgBuilt : Type 0 → Type 0
PgBuilt F = List Text × List (Arg F) × ℕ

abbrev pub add_if : {F : Type 0} → Bool → Text → Arg F → PgBuilt F → PgBuilt F
add_if false c v b = b
add_if true c v (cs, args, n) = (cs ++ (c ++ to_decimal n) ∷ [], args ++ v ∷ [], suc n)

-- The bounds of a page.
unfoldable pub page_limit : ℤ → ℕ
page_limit (negsuc n) = 100
page_limit (pos n) = if n == 0 then 100 else if ltb 1000 n then 1000 else n

abbrev pub with_where : Text → List Text → Text
with_where base [] = base
with_where base (c ∷ cs) = base ++ codes " WHERE " ++ join_text (codes " AND ") (c ∷ cs)

abbrev pub with_order : {F : Type 0} → LogFilter F → Text → Text
with_order filter query =
    query
    ++ (if filter.sort_desc then codes " ORDER BY id DESC" else codes " ORDER BY id ASC")
    ++ codes " LIMIT "
    ++ to_decimal (page_limit filter.limit)

-- `positive` compares a float64 to 0.
module _ {F : Type 0} (positive : F → Bool) where
  abbrev pub conditions : LogFilter F → Built F
  conditions f =
      append_if (is_positive f.cursor) (if f.sort_desc then codes "id < ?" else codes "id > ?")
        (number f.cursor)
        (append_if (positive f.latency_min) (codes "latency_ms >= ?") (float f.latency_min) (
          append_if (is_time f.to) (codes "timestamp <= ?") (time (or_zero f.to)) (
            append_if (is_time f.from) (codes "timestamp >= ?") (time (or_zero f.from)) (
              append_if (is_not_zero f.status_max) (codes "status_code <= ?") (number f.status_max)
                (append_if (is_not_zero f.status_min) (codes "status_code >= ?")
                  (number f.status_min)
                  (append_if (is_not_zero f.status_code) (codes "status_code = ?")
                    (number f.status_code)
                    (append_if (is_given f.backend) (codes "backend = ?") (text f.backend) (
                      append_if (is_given f.token_name) (codes "token_name = ?") (text f.token_name)
                        (append_if (is_given f.method) (codes "method = ?") (text f.method)
                          ([], []))))))))))

  abbrev pub pg_conditions : LogFilter F → PgBuilt F
  pg_conditions f =
      add_if (is_positive f.cursor) (if f.sort_desc then codes "id < $" else codes "id > $")
        (number f.cursor)
        (add_if (positive f.latency_min) (codes "latency_ms >= $") (float f.latency_min) (
          add_if (is_time f.to) (codes "timestamp <= $") (time (or_zero f.to)) (
            add_if (is_time f.from) (codes "timestamp >= $") (time (or_zero f.from)) (
              add_if (is_not_zero f.status_max) (codes "status_code <= $") (number f.status_max) (
                add_if (is_not_zero f.status_min) (codes "status_code >= $") (number f.status_min) (
                  add_if (is_not_zero f.status_code) (codes "status_code = $")
                    (number f.status_code)
                    (add_if (is_given f.backend) (codes "backend = $") (text f.backend) (
                      add_if (is_given f.token_name) (codes "token_name = $") (text f.token_name) (
                        add_if (is_given f.method) (codes "method = $") (text f.method)
                          ([], [], 1))))))))))

  -- The text of the query and its arguments.
  unfoldable pub build_query : Text → LogFilter F → Text × List (Arg F)
  unfolding has_prefix contains join_text page_limit to_decimal
  build_query base f =
      let built = conditions f in
      let query = with_where base built.0 in
      let is_select =
        has_prefix base (codes "SELECT id")
        || has_prefix base (codes "SELECT timestamp")
        || contains base (codes "request_id") in
      (if is_select then with_order f query else query, built.1)

  unfoldable pub pg_build_query : Text → LogFilter F → Text × List (Arg F)
  unfolding has_prefix contains join_text page_limit to_decimal
  pg_build_query base f =
      let built = pg_conditions f in
      let query = with_where base built.0 in
      let is_select = has_prefix base (codes "SELECT id") || contains base (codes "request_id") in
      (if is_select then with_order f query else query, built.1)

abbrev pub select_entries : Text
select_entries =
    codes
      "SELECT id, timestamp, request_id, token_name, method, backend, status_code, latency_ms, request_bytes, response_bytes, client_ip, error, path FROM request_logs"

abbrev pub select_count : Text
select_count = codes "SELECT COUNT(*) FROM request_logs"
