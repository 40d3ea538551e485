-- ===== src/Admin/Logs/Buffered.antt =====
-- internal/admin/handlers.go over internal/logging/ringbuffer.go: the log without a log store.
use Prim.Native.Nat.{min}
use da_proxy.Prelude.{
  ℕ, ◌^◌, ◌≡◌, ◌≤◌, ◌<◌, refl, sym, false, List, reverse, take, Option, none, some, ok, length,
  arith, if◌then◌else◌, ◌==◌,
}
use da_proxy.Prelude.Text.{Text, codes}
use da_proxy.Prelude.Text.Decimal.{to_decimal}
use da_proxy.Prelude.Int.{pos}
use da_proxy.Logging.Entry.{LogEntry}
use da_proxy.Logging.RingBuffer.{new_ring_buffer}
use da_proxy.Logging.RingBuffer.History.{push_all, entries-push_all}
use da_proxy.Admin.{json}
use da_proxy.Admin.Query.{parse_log_filter}
use da_proxy.Admin.Query.Limits.{parse_log_filter-page_limit}
use da_proxy.Admin.Logs.{Page, handle_logs}

positive : (n m : ℕ) → 1 ≤ n → (if n == 0 then m else min n m) ≡ min n m
positive n m h = ground arith

page_size_ge : (k : ℕ) → 1 ≤ (if k == 0 then 100 else min k 1000)
page_size_ge k = ground arith

module _ {F : Type 0} (zero_float : F) (parse_time : Text → Option ℕ) (parse_float : Text → F) where
  -- There is no log store, and the buffer was made with room for `capacity` entries, not none, and filled with the entries `xs`. A request whose parameter
  -- "limit" is the decimal text of a number below 2 ^ 63 is answered with the latest entries, the newest first: as many as the limit says (100 for 0, 1000 at most), if the
  -- buffer has as many. No other parameter counts, and the page says that there is no more, whatever the buffer holds.
  pub handle_logs-push_all :
      (store_entry : LogEntry) (capacity : ℕ) (xs : List LogEntry) (param : Text → Text) (k : ℕ)
      → 0 < capacity
      → param (codes "limit") ≡ to_decimal k
      → k < 2 ^ 63
      → let size = min (if k == 0 then 100 else min k 1000) (min (length xs) capacity) in
        let filter = parse_log_filter zero_float parse_time parse_float param in
        (p : Page) × (handle_logs none
            (some (push_all xs (new_ring_buffer store_entry capacity)))
            filter
          ≡ ok (json 200 p))
        × (p.logs ≡ take size (reverse xs))
        × (p.has_more ≡ false)
  unfolding handle_logs
  handle_logs-push_all e capacity xs param k h t b =
      let filter = parse_log_filter zero_float parse_time parse_float param in
      let (l, q) = parse_log_filter-page_limit zero_float parse_time parse_float param k t b in
      let n = if k == 0 then 100 else min k 1000 in
      let c = positive n (min (length xs) capacity) (page_size_ge k) in
      (_, refl, rw (l, sym c) (entries-push_all e capacity xs (pos n) h), ground arith)
