-- ===== src/Logging/Writer/Kept.antt =====
-- internal/logging/store.go: no entry is lost before the channel is full, and none is written twice.
use da_proxy.Prelude.{
  ◌≤◌, ◌≡◌, inl, inr, refl, sym, ap, ◌∙◌, true, List, [], ◌∷◌, ◌++◌, none, some, ltb, leb, length,
  length-append, arith, Bool-cases,
}
use mathlib.Core.List.{append-nil, append_assoc}
use da_proxy.Logging.Writer.{
  Event, pushing, receiving, ticking, stopping, Writer, step, run, new_writer, flush_batch,
  take_entry, drain,
}
use da_proxy.Logging.Writer.Bounds.{run-IsBounded, then_run-some}

module _ {ℓ} {E : Type ℓ} where
  abbrev pub concat : List (List E) → List E
  concat [] = []
  concat (b ∷ bs) = b ++ concat bs

  -- What Push was called with.
  abbrev pub pushes : List (Event E) → List E
  pushes [] = []
  pushes (pushing e ∷ es) = e ∷ pushes es
  pushes (receiving ∷ es) = pushes es
  pushes (ticking ∷ es) = pushes es
  pushes (stopping ∷ es) = pushes es

  -- The entries that are written, in the batch or in the channel, in this order.
  abbrev pub kept : Writer E → List E
  kept s = concat s.written ++ (s.batch ++ s.insert_ch)

  -- The first list is the second without some of its entries.
  pub data IsSublist : List E → List E → Type ℓ where
    nil : IsSublist [] []
    keep : {e : E} {xs ys : List E} → IsSublist xs ys → IsSublist (e ∷ xs) (e ∷ ys)
    skip : {e : E} {xs ys : List E} → IsSublist xs ys → IsSublist xs (e ∷ ys)

  concat-append : (bs : List (List E)) (b : List E) → concat (bs ++ b ∷ []) ≡ concat bs ++ b
  concat-append [] b = append-nil b
  concat-append (c ∷ bs) b =
      ap (λ x. c ++ x) (concat-append bs b) ∙ sym (append_assoc c (concat bs) b)

  flush_batch-kept :
      (b : List E) (s : Writer E) → kept (flush_batch b s) ≡ concat s.written ++ (b ++ s.insert_ch)
  flush_batch-kept [] s = refl
  flush_batch-kept (e ∷ b) s =
      rw (concat-append s.written (e ∷ b)) (append_assoc (concat s.written) (e ∷ b) s.insert_ch)

  take_entry-kept : (c : List E) (s : Writer E) → s.insert_ch ≡ c → kept (take_entry c s) ≡ kept s
  take_entry-kept [] s h = refl
  take_entry-kept (e ∷ es) s h = elim (Bool-cases (leb 100 (length (s.batch ++ e ∷ [])))) [
    | inl p ↦ rw p (flush_batch-kept (s.batch ++ e ∷ []) (record s { insert_ch = es }) ∙ moved)
    | inr q ↦ rw q moved
  ]
    where
      moved : concat s.written ++ ((s.batch ++ e ∷ []) ++ es) ≡ kept s
      moved =
          ap (λ x. concat s.written ++ x)
            (append_assoc s.batch (e ∷ []) es ∙ ap (λ x. s.batch ++ x) (sym h))

  drain-kept : (s : Writer E) → kept (drain s) ≡ kept s
  drain-kept s =
      flush_batch-kept (s.batch ++ s.insert_ch) (record s { insert_ch = []; stopped = true })
      ∙ ap (λ x. concat s.written ++ x) (append-nil (s.batch ++ s.insert_ch))

  push-kept :
      (s : Writer E) (e : E)
      → kept (record s { insert_ch = s.insert_ch ++ e ∷ [] }) ≡ kept s ++ e ∷ []
  push-kept s e = sym (
      append_assoc (concat s.written) (s.batch ++ s.insert_ch) (e ∷ [])
      ∙ ap (λ x. concat s.written ++ x) (append_assoc s.batch s.insert_ch (e ∷ [])))

  -- One event: what is kept grows by the entry that is pushed, or the channel is full, or nothing is pushed.
  data Grows (s s' : Writer E) : Event E → Type ℓ where
    grown : (e : E) → kept s' ≡ kept s ++ e ∷ [] → Grows s s' (pushing e)
    dropped : (e : E) → kept s' ≡ kept s → 1000 ≤ length (kept s) → Grows s s' (pushing e)
    same : (v : Event E) → pushes (v ∷ []) ≡ [] → kept s' ≡ kept s → Grows s s' v

  step-Grows : (v : Event E) (s s' : Writer E) → step v s ≡ some s' → Grows s s' v
  unfolding step
  step-Grows (pushing e) s s' h = elim (Bool-cases s.stopped) [
    | inl p ↦ absurd (let w : step (pushing e) s ≡ none = rw (step, p) refl in cc)
    | inr q ↦ elim (Bool-cases (ltb (length s.insert_ch) 1000)) [
      | inl r ↦
          (let w : step (pushing e) s ≡ some (record s { insert_ch = s.insert_ch ++ e ∷ [] }) =
              rw (step, q, r) refl in
            let x : s' ≡ record s { insert_ch = s.insert_ch ++ e ∷ [] } = cc in
            grown e (rw x (push-kept s e)))
      | inr r ↦
          (let w : step (pushing e) s ≡ some s = rw (step, q, r) refl in
            let x : s' ≡ s = cc in
            let l = length-append (concat s.written) (s.batch ++ s.insert_ch) in
            let k = length-append s.batch s.insert_ch in
            let full : 1000 ≤ length s.insert_ch = ground arith in
            dropped e (rw x refl) (omega arith))
    ]
  ]
  step-Grows receiving s s' h = same receiving refl (elim (Bool-cases s.stopped) [
    | inl p ↦
        (let w : step receiving s ≡ some s = rw (step, p) refl in let x : s' ≡ s = cc in rw x refl)
    | inr q ↦
        (let w : step receiving s ≡ some (take_entry s.insert_ch s) = rw (step, q) refl in
          let x : s' ≡ take_entry s.insert_ch s = cc in rw x (take_entry-kept s.insert_ch s refl))
  ])
  step-Grows ticking s s' h = same ticking refl (elim (Bool-cases s.stopped) [
    | inl p ↦
        (let w : step ticking s ≡ some s = rw (step, p) refl in let x : s' ≡ s = cc in rw x refl)
    | inr q ↦
        (let w : step ticking s ≡ some (flush_batch s.batch s) = rw (step, q) refl in
          let x : s' ≡ flush_batch s.batch s = cc in rw x (flush_batch-kept s.batch s))
  ])
  step-Grows stopping s s' h = same stopping refl (elim (Bool-cases s.stopped) [
    | inl p ↦
        (let w : step stopping s ≡ some s = rw (step, p) refl in let x : s' ≡ s = cc in rw x refl)
    | inr q ↦
        (let w : step stopping s ≡ some (drain s) = rw (step, q) refl in
          let x : s' ≡ drain s = cc in rw x (drain-kept s))
  ])

  keep_last : {xs ys : List E} (e : E) → IsSublist xs ys → IsSublist (xs ++ e ∷ []) (ys ++ e ∷ [])
  keep_last e nil = keep nil
  keep_last e (keep h) = keep (keep_last e h)
  keep_last e (skip h) = skip (keep_last e h)

  skip_last : {xs ys : List E} (e : E) → IsSublist xs ys → IsSublist xs (ys ++ e ∷ [])
  skip_last e nil = skip nil
  skip_last e (keep h) = keep (skip_last e h)
  skip_last e (skip h) = skip (skip_last e h)

  -- What is known of the entries `ps` that were pushed so far.
  record IsKept (s : Writer E) (ps : List E) : Type ℓ where
    sub : IsSublist (kept s) ps
    all : length ps ≤ 1000 → kept s ≡ ps

  Grows-IsKept :
      (v : Event E) (s s' : Writer E) (ps : List E)
      → Grows s s' v
      → IsKept s ps
      → IsKept s' (ps ++ pushes (v ∷ []))
  Grows-IsKept _ s s' ps (grown e g) k = record {
    sub = rw g (keep_last e k.sub);
    all = λ l. let n = length-append ps (e ∷ []) in rw (g, k.all (omega arith)) refl;
  }
  Grows-IsKept _ s s' ps (dropped e g f) k = record {
    sub = rw g (skip_last e k.sub);
    all = λ l.
        (let n = length-append ps (e ∷ []) in
          let q : kept s ≡ ps = k.all (omega arith) in
          absurd (let z : 1000 ≤ length ps = rw (sym q) f in omega arith));
  }
  Grows-IsKept v s s' ps (same _ p g) k =
      rw (p, append-nil ps) (record { sub = rw g k.sub; all = λ l. rw g (k.all l) })

  pushes_cons : (v : Event E) (es : List (Event E)) → pushes (v ∷ es) ≡ pushes (v ∷ []) ++ pushes es
  pushes_cons (pushing e) es = refl
  pushes_cons receiving es = refl
  pushes_cons ticking es = refl
  pushes_cons stopping es = refl

  run-IsKept :
      (es : List (Event E)) (s s' : Writer E) (ps : List E)
      → IsKept s ps
      → run es s ≡ some s'
      → IsKept s' (ps ++ pushes es)
  unfolding run
  run-IsKept [] s s' ps k h = let x : s' ≡ s = cc in rw (x, append-nil ps) k
  run-IsKept (v ∷ es) s s' ps k h =
      let (t, a, b) = then_run-some (step v s) _ s' h in
      rw (pushes_cons v es, sym (append_assoc ps (pushes (v ∷ [])) (pushes es)))
        (run-IsKept es t s' (ps ++ pushes (v ∷ [])) (Grows-IsKept v s t ps (step-Grows v s t a) k)
          b)

  -- Whatever the order of pushes, receipts, ticks and the stop, as long as nothing is pushed after the stop: the entries that are written, in
  -- the batch and in the channel, in this order, are those that were pushed, in their order, without some of them; and they
  -- are all of them where no more than 1000 were pushed. Once the goroutine has stopped, all of these are written.
  pub run-IsSublist :
      (es : List (Event E)) (s : Writer E)
      → run es new_writer ≡ some s
      → IsSublist (kept s) (pushes es)
        × (length (pushes es) ≤ 1000 → kept s ≡ pushes es)
        × (s.stopped ≡ true → concat s.written ≡ kept s)
  run-IsSublist es s h =
      let k = run-IsKept es new_writer s [] (record { sub = nil; all = λ l. refl }) h in
      (
        k.sub,
        k.all,
        λ p.
            let (c, b) = (run-IsBounded es s h).drained p in
            rw (c, b) (sym (append-nil (concat s.written))),
      )
