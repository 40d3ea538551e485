-- ===== src/Logging/Writer/Bounds.antt =====
-- internal/logging/store.go: the sizes of the channel, of the batch and of what is written at once.
use da_proxy.Prelude.{
  ◌<◌, ◌≤◌, ◌≡◌, refl, ap, true, false, List, [], ◌∷◌, ◌++◌, Option, none, some, ltb, leb, length,
  length-append, All, arith, Bool-cases, inl, inr,
}
use da_proxy.Logging.Writer.{
  Event, pushing, receiving, ticking, stopping, Writer, step, run, new_writer, flush_batch,
  take_entry, drain, then_run,
}

module _ {ℓ} {E : Type ℓ} where
  -- A batch that is written: not empty, and no more than the batch and the channel hold together.
  abbrev pub IsBatch : List E → Type 0
  IsBatch b = (0 < length b) × (length b < 1100)

  pub record IsBounded (s : Writer E) : Type ℓ where
    pub channel : length s.insert_ch ≤ 1000
    pub batch : length s.batch < 100
    pub written : All IsBatch s.written
    pub drained : s.stopped ≡ true → (s.insert_ch ≡ []) × (s.batch ≡ [])

  All-append :
      (bs : List (List E)) (b : List E) → All IsBatch bs → IsBatch b → All IsBatch (bs ++ b ∷ [])
  All-append [] b a h = (h, tt)
  All-append (c ∷ bs) b (i, a) h = (i, All-append bs b a h)

  flush_batch-IsBounded :
      (b : List E) (s : Writer E)
      → length b < 1100
      → length s.insert_ch ≤ 1000
      → All IsBatch s.written
      → (s.stopped ≡ true → s.insert_ch ≡ [])
      → IsBounded (flush_batch b s)
  flush_batch-IsBounded [] s h c w d = record {
    channel = c;
    batch = omega arith;
    written = w;
    drained = λ e. (d e, refl);
  }
  flush_batch-IsBounded (e ∷ b) s h c w d = record {
    channel = c;
    batch = omega arith;
    written = All-append s.written (e ∷ b) w (omega arith, h);
    drained = λ e. (d e, refl);
  }

  take_entry-IsBounded :
      (c : List E) (s : Writer E)
      → s.insert_ch ≡ c
      → s.stopped ≡ false
      → IsBounded s
      → IsBounded (take_entry c s)
  take_entry-IsBounded [] s e q i = i
  take_entry-IsBounded (x ∷ c) s e q i =
      let l = length-append s.batch (x ∷ []) in
      let b = i.batch in
      let k : length (x ∷ c) ≤ 1000 =
        (let m : length s.insert_ch ≡ length (x ∷ c) = ap length e in
          let ch = i.channel in omega arith) in
      elim (Bool-cases (leb 100 (length (s.batch ++ x ∷ [])))) [
        | inl p ↦ rw p (
            flush_batch-IsBounded (s.batch ++ x ∷ []) (record s { insert_ch = c }) (omega arith)
              (omega arith) i.written (λ z. absurd (cc)))
        | inr n ↦ rw n (record {
          channel = omega arith;
          batch = ground arith;
          written = i.written;
          drained = λ z. absurd (cc);
        })
      ]

  step-IsBounded : (v : Event E) (s s' : Writer E) → step v s ≡ some s' → IsBounded s → IsBounded s'
  unfolding step
  step-IsBounded (pushing e) s s' h i = elim (Bool-cases s.stopped) [
    | inl p ↦ absurd (let w : step (pushing e) s ≡ none = rw (step, p) refl in cc)
    | inr q ↦ elim (Bool-cases (ltb (length s.insert_ch) 1000)) [
      | inl r ↦
          (let w : step (pushing e) s ≡ some (record s { insert_ch = s.insert_ch ++ e ∷ [] }) =
              rw (step, q, r) refl in
            let x : s' ≡ record s { insert_ch = s.insert_ch ++ e ∷ [] } = cc in
            let l = length-append s.insert_ch (e ∷ []) in
            rw x (record {
              channel = ground arith;
              batch = i.batch;
              written = i.written;
              drained = λ z. absurd (cc);
            }))
      | inr r ↦
          (let w : step (pushing e) s ≡ some s = rw (step, q, r) refl in
            let x : s' ≡ s = cc in rw x i)
    ]
  ]
  step-IsBounded receiving s s' h i = elim (Bool-cases s.stopped) [
    | inl p ↦
        (let w : step receiving s ≡ some s = rw (step, p) refl in let x : s' ≡ s = cc in rw x i)
    | inr q ↦
        (let w : step receiving s ≡ some (take_entry s.insert_ch s) = rw (step, q) refl in
          let x : s' ≡ take_entry s.insert_ch s = cc in
          rw x (take_entry-IsBounded s.insert_ch s refl q i))
  ]
  step-IsBounded ticking s s' h i = elim (Bool-cases s.stopped) [
    | inl p ↦ (let w : step ticking s ≡ some s = rw (step, p) refl in let x : s' ≡ s = cc in rw x i)
    | inr q ↦
        (let w : step ticking s ≡ some (flush_batch s.batch s) = rw (step, q) refl in
          let x : s' ≡ flush_batch s.batch s = cc in
          let b = i.batch in
          rw x (
            flush_batch-IsBounded s.batch s (omega arith) i.channel i.written
              (λ z. (i.drained z).0)))
  ]
  step-IsBounded stopping s s' h i = elim (Bool-cases s.stopped) [
    | inl p ↦
        (let w : step stopping s ≡ some s = rw (step, p) refl in let x : s' ≡ s = cc in rw x i)
    | inr q ↦
        (let w : step stopping s ≡ some (drain s) = rw (step, q) refl in
          let x : s' ≡ drain s = cc in
          let b = i.batch in
          let c = i.channel in
          let l = length-append s.batch s.insert_ch in
          rw x (
            flush_batch-IsBounded (s.batch ++ s.insert_ch)
              (record s { insert_ch = []; stopped = true }) (omega arith) (omega arith) i.written
              (λ z. refl)))
  ]

  pub then_run-some :
      (o : Option (Writer E)) (f : Writer E → Option (Writer E)) (s' : Writer E)
      → then_run o f ≡ some s'
      → (s : Writer E) × (o ≡ some s) × (f s ≡ some s')
  then_run-some none f s' h = absurd (cc)
  then_run-some (some s) f s' h = (s, refl, h)

  run_from-IsBounded :
      (es : List (Event E)) (s s' : Writer E) → IsBounded s → run es s ≡ some s' → IsBounded s'
  unfolding run
  run_from-IsBounded [] s s' i h = let x : s' ≡ s = cc in rw x i
  run_from-IsBounded (v ∷ es) s s' i h =
      let (t, a, b) = then_run-some (step v s) _ s' h in
      run_from-IsBounded es t s' (step-IsBounded v s t a i) b

  -- Whatever happens, as long as nothing is pushed after the stop: the channel holds at most 1000 entries and the batch fewer than 100,
  -- each batch that is written has an entry and fewer than 1100, and after the stop none is left.
  pub run-IsBounded :
      (es : List (Event E)) (s : Writer E) → run es new_writer ≡ some s → IsBounded s
  run-IsBounded es s h =
      run_from-IsBounded es new_writer s
        (record {
          channel = omega arith;
          batch = omega arith;
          written = tt;
          drained = λ z. absurd (cc);
        })
        h
