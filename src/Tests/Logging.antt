-- ===== src/Tests/Logging.antt =====
-- The queries of the persistent log, and the goroutine that writes it.
use da_proxy.Prelude.{ℕ, ◌≤◌, ◌≡◌, refl, Bool, true, false, List, [], ◌∷◌, none, some, length}
use da_proxy.Prelude.Text.{codes, has_prefix}
use da_proxy.Prelude.Int.{pos}
use da_proxy.Logging.Query.{LogFilter, select_count, build_query, pg_build_query}
use da_proxy.Logging.Query.Marks.{marks, number_marks}
use da_proxy.Logging.Query.Placeholders.{pg_build_query-build_query}
use da_proxy.Logging.Writer.{
  Event, pushing, receiving, ticking, stopping, Writer, step, run, new_writer,
}
use da_proxy.Logging.Writer.Kept.{concat, kept, pushes, IsSublist, run-IsSublist}
use da_proxy.Logging.Writer.Bounds.{IsBounded, run-IsBounded}

-- Latencies are not asked for.
abbrev no_latency : ℕ → Bool
no_latency n = false

abbrev failures : LogFilter ℕ
failures = record {
  method = codes "status";
  token_name = [];
  backend = [];
  status_code = pos 0;
  status_min = pos 500;
  status_max = pos 0;
  from = some 7;
  to = none;
  latency_min = 0;
  limit = pos 20;
  cursor = pos 0;
  sort_desc = true;
}

pg_build_query-build_query_example : pg_build_query no_latency select_count failures ≡ (
  number_marks 1 (build_query no_latency select_count failures).0,
  (build_query no_latency select_count failures).1,
)
unfolding marks has_prefix
pg_build_query-build_query_example =
    pg_build_query-build_query no_latency select_count failures refl (λ e. absurd (cc))

abbrev life : List (Event ℕ)
life = pushing 1 ∷ receiving ∷ pushing 2 ∷ pushing 3 ∷ ticking ∷ receiving ∷ stopping ∷ []

abbrev ended : Writer ℕ
ended = record {
  insert_ch = [];
  batch = [];
  written = (1 ∷ []) ∷ (2 ∷ 3 ∷ []) ∷ [];
  stopped = true;
}

run-life : run life new_writer ≡ some ended
unfolding run step
run-life = refl

run-IsSublist_example :
    IsSublist (kept ended) (pushes life)
    × (length (pushes life) ≤ 1000 → kept ended ≡ pushes life)
    × (ended.stopped ≡ true → concat ended.written ≡ kept ended)
run-IsSublist_example = run-IsSublist life ended run-life

run-IsBounded_example : IsBounded ended
run-IsBounded_example = run-IsBounded life ended run-life
