-- ===== src/Logging/Writer.antt =====
-- internal/logging/store.go: the channel of entries and the goroutine that writes them in batches.
-- store_postgres.go and loki.go have the same loop.
pub mod Bounds
pub mod Kept
use da_proxy.Prelude.{
  ℕ, Bool, true, false, not, List, [], ◌∷◌, ◌++◌, Option, none, some, ltb, leb, if◌then◌else◌,
  length,
}

-- What happens to a store: a call of Push, and what the `select` of `batchWriter` takes.
pub data Event {ℓ} (E : Type ℓ) : Type ℓ where
  pushing : E → Event E
  receiving : Event E
  ticking : Event E
  stopping : Event E

-- `written` has the batches that `writeBatch` was called with.
pub record Writer {ℓ} (E : Type ℓ) : Type ℓ where
  pub insert_ch : List E
  pub batch : List E
  pub written : List (List E)
  pub stopped : Bool

abbrev pub channel_size : ℕ
channel_size = 1000

abbrev pub batch_size : ℕ
batch_size = 100

module _ {ℓ} {E : Type ℓ} where
  abbrev pub new_writer : Writer E
  new_writer = record { insert_ch = []; batch = []; written = []; stopped = false }

  abbrev pub flush_batch : List E → Writer E → Writer E
  flush_batch [] s = record s { batch = [] }
  flush_batch (e ∷ es) s = record s { batch = []; written = s.written ++ (e ∷ es) ∷ [] }

  -- The first case of the `select`; an empty channel blocks.
  abbrev take_entry : List E → Writer E → Writer E
  take_entry [] s = s
  take_entry (e ∷ es) s =
      let batch = s.batch ++ e ∷ [] in
      if leb batch_size (length batch)
      then flush_batch batch (record s { insert_ch = es })
      else record s { insert_ch = es; batch = batch }

  -- The entries that are left in the channel are appended to the batch.
  abbrev drain : Writer E → Writer E
  drain s = flush_batch (s.batch ++ s.insert_ch) (record s { insert_ch = []; stopped = true })

  -- `none` for a panic: the channel is closed when the goroutine stops.
  unfoldable pub step : Event E → Writer E → Option (Writer E)
  step (pushing e) s =
      if s.stopped
      then none
      else some (
          if ltb (length s.insert_ch) channel_size
          then record s { insert_ch = s.insert_ch ++ e ∷ [] }
          else s)
  step receiving s = some (if s.stopped then s else take_entry s.insert_ch s)
  step ticking s = some (if s.stopped then s else flush_batch s.batch s)
  step stopping s = some (if s.stopped then s else drain s)

  abbrev then_run : Option (Writer E) → (Writer E → Option (Writer E)) → Option (Writer E)
  then_run none f = none
  then_run (some s) f = f s

  unfoldable pub run : List (Event E) → Writer E → Option (Writer E)
  unfolding step
  run [] s = some s
  run (e ∷ es) s = then_run (step e s) (λ s'. run es s')
