-- ===== src/Proxy/Latency/Interleaving.antt =====
-- The lock-free update of internal/proxy/latency.go under every schedule of its goroutines.
use mathlib.Core.List.{
  Perm, foldl, perm_append_singleton, perm_append_comm, append_assoc, foldl-append,
}
use mathlib.Core.List.Perm
use da_proxy.Prelude.{
  ℕ, zero, suc, ◌+◌, ◌%◌, ◌^◌, ◌<◌, ◌≡◌, refl, ap, ◌∙◌, List, [], ◌∷◌, ◌++◌, some, ◌==◌, ==_iff,
  set-get_elem?, get_elem?-set_self, lt-length_of_get_elem?, get_elem?, set, arith, Bool-cases,
  Option-cases, inl, inr,
}
use da_proxy.Proxy.Float.{Float}
use da_proxy.Proxy.Latency.{
  Ewma, Phase, entered, looping, loaded, returned, Goroutine, System, blend, advance, step, run,
}

-- The samples of the goroutines that have returned, and the number of those that have counted.
abbrev pub kept : Goroutine → List ℕ
kept g = elim g.phase [ returned ↦ g.sample ∷ [] | _ ↦ [] ]

abbrev pub merged : List Goroutine → List ℕ
merged [] = []
merged (g ∷ gs) = kept g ++ merged gs

abbrev pub began : Phase → ℕ
began entered = 0
began _ = 1

abbrev pub counted : List Goroutine → ℕ
counted [] = 0
counted (g ∷ gs) = began g.phase + counted gs

counted-set :
    (gs : List Goroutine) (i : ℕ) (g : Goroutine) (p : Phase)
    → get_elem? gs i ≡ some g
    → counted (set gs i (record g { phase = p })) + began g.phase ≡ counted gs + began p
counted-set [] i g p e = absurd (cc)
counted-set (h ∷ gs) zero g p e = let q : h ≡ g = cc in rw q (omega arith)
counted-set (h ∷ gs) (suc i) g p e = omega (arith, counted-set gs i g p e)

perm_swap_front : (a b c : List ℕ) → Perm (a ++ (b ++ c)) (b ++ (a ++ c))
perm_swap_front a b c =
    rw (← append_assoc a b c, ← append_assoc b a c) (Perm.append_right c (perm_append_comm a b))

-- A goroutine that had not returned adds what it keeps now.
merged-set :
    (gs : List Goroutine) (i : ℕ) (g : Goroutine) (p : Phase)
    → get_elem? gs i ≡ some g
    → kept g ≡ []
    → Perm (merged (set gs i (record g { phase = p }))) (kept (record g { phase = p }) ++ merged gs)
merged-set [] i g p e k = absurd (cc)
merged-set (h ∷ gs) zero g p e k = let q : h ≡ g = cc in rw (q, k) (Perm.refl _)
merged-set (h ∷ gs) (suc i) g p e k =
    Perm.trans (Perm.append_left (kept h) (merged-set gs i g p e k))
      (perm_swap_front (kept h) (kept (record g { phase = p })) (merged gs))

module _ (fl : Float) where
  pub record IsMerged (bits count : ℕ) (sys : System) : Type 0 where
    pub order : List ℕ
    pub once : Perm order (merged sys.goroutines)
    pub folded : sys.shared.bits ≡ foldl (blend fl) bits order
    pub tally : sys.shared.count ≡ (count + counted sys.goroutines) % 2 ^ 64

  module _ (bits count : ℕ) (e : Ewma) (gs : List Goroutine) (i : ℕ) (s : ℕ) where
    -- A step of a goroutine in phase `p`.
    advance-IsMerged :
        (p : Phase)
        → get_elem? gs i ≡ some (record { sample = s; phase = p })
        → IsMerged bits count (record { shared = e; goroutines = gs })
        → let (e', p') = advance fl e s p in
          IsMerged bits count
            (record { shared = e'; goroutines = set gs i (record { sample = s; phase = p' }) })
    unfolding advance
    advance-IsMerged entered at m = record {
      order = m.order;
      once = Perm.trans m.once (Perm.symm (merged-set gs i _ looping at refl));
      folded = m.folded;
      tally = omega (arith, m.tally, counted-set gs i _ looping at);
    }
    advance-IsMerged looping at m = record {
      order = m.order;
      once = Perm.trans m.once (Perm.symm (merged-set gs i _ (loaded e.bits) at refl));
      folded = m.folded;
      tally = omega (arith, m.tally, counted-set gs i _ (loaded e.bits) at);
    }
    advance-IsMerged (loaded old) at m = elim (Bool-cases (e.bits == old)) [
      | inl kept_bits ↦ rw kept_bits (record {
        order = m.order ++ s ∷ [];
        once =
            Perm.trans (perm_append_singleton s m.order)
              (Perm.trans (Perm.cons s m.once) (Perm.symm (merged-set gs i _ returned at refl)));
        folded = rw (
          foldl-append (blend fl) bits m.order (s ∷ []),
          ← m.folded,
          (==_iff e.bits old).0 kept_bits,
        );
        tally = omega (arith, m.tally, counted-set gs i _ returned at);
      })
      | inr changed ↦ rw changed (record {
        order = m.order;
        once = Perm.trans m.once (Perm.symm (merged-set gs i _ looping at refl));
        folded = m.folded;
        tally = omega (arith, m.tally, counted-set gs i _ looping at);
      })
    ]
    advance-IsMerged returned at m = rw (set-get_elem? gs i at) m

  step-IsMerged :
      (bits count i : ℕ) (sys : System)
      → IsMerged bits count sys
      → IsMerged bits count (step fl i sys)
  unfolding step
  step-IsMerged bits count i sys m = elim (Option-cases (get_elem? sys.goroutines i)) [
    | inl absent ↦ rw (absent, step) m
    | inr (g, at) ↦
        rw (at, step)
          (advance-IsMerged bits count sys.shared sys.goroutines i g.sample g.phase at m)
  ]

  run-IsMerged :
      (bits count : ℕ) (schedule : List ℕ) (sys : System)
      → IsMerged bits count sys
      → IsMerged bits count (run fl schedule sys)
  unfolding run
  run-IsMerged bits count [] sys m = m
  run-IsMerged bits count (i ∷ schedule) sys m =
      run-IsMerged bits count schedule (step fl i sys) (step-IsMerged bits count i sys m)

-- Goroutines that all call `Update` now, with these samples.
abbrev pub callers : List ℕ → List Goroutine
callers [] = []
callers (s ∷ ss) = record { sample = s; phase = entered } ∷ callers ss

merged-callers : (ss : List ℕ) → merged (callers ss) ≡ []
merged-callers [] = refl
merged-callers (s ∷ ss) = merged-callers ss

counted-callers : (ss : List ℕ) → counted (callers ss) ≡ 0
counted-callers [] = refl
counted-callers (s ∷ ss) = omega (arith, counted-callers ss)

-- Whatever the schedule of the goroutines that call `Update`, the average is the one that the
-- samples of those that have returned give in some order, each exactly once, and the counter (a
-- uint64) has grown by the number of goroutines that have begun.
pub run-IsMerged-callers :
    (fl : Float) (e : Ewma) (samples schedule : List ℕ)
    → e.count < 2 ^ 64
    → IsMerged fl e.bits e.count
        (run fl schedule (record { shared = e; goroutines = callers samples }))
run-IsMerged-callers fl e samples schedule small =
    run-IsMerged fl e.bits e.count schedule _ (record {
      order = [];
      once = rw (merged-callers samples) (Perm.refl _);
      folded = refl;
      tally = omega (arith, counted-callers samples);
    })

module _ (fl : Float) where
  step-get_elem? :
      (sys : System) (i : ℕ) (g : Goroutine)
      → get_elem? sys.goroutines i ≡ some g
      → let (e, p) = advance fl sys.shared g.sample g.phase in
        ((step fl i sys).shared ≡ e)
        × (get_elem? (step fl i sys).goroutines i ≡ some (record g { phase = p }))
  unfolding step
  step-get_elem? sys i g at =
      rw (at, step)
        (refl, get_elem?-set_self sys.goroutines i _ (lt-length_of_get_elem? sys.goroutines i at))

  -- The third step at the latest swaps what the second has loaded.
  advance_thrice :
      (e : Ewma) (s : ℕ) (p : Phase)
      → let (e1, p1) = advance fl e s p in
        let (e2, p2) = advance fl e1 s p1 in (advance fl e2 s p2).1 ≡ returned
  unfolding advance
  advance_thrice e s entered = ground arith
  advance_thrice e s looping = ground arith
  advance_thrice e s (loaded old) = ground arith
  advance_thrice e s returned = refl

  -- The loop of `Update` ends for a goroutine that is left alone for three steps, whatever bits it
  -- had loaded before and wherever it stood.
  pub run-returned :
      (sys : System) (i : ℕ) (g : Goroutine)
      → get_elem? sys.goroutines i ≡ some g
      → get_elem? (run fl (i ∷ i ∷ i ∷ []) sys).goroutines i ≡ some (record g { phase = returned })
  unfolding run
  run-returned sys i g at =
      let one = step-get_elem? sys i g at in
      let two = step-get_elem? (step fl i sys) i _ one.1 in
      let three = step-get_elem? (step fl i (step fl i sys)) i _ two.1 in
      three.1
      ∙ ap (λ p. some (record g { phase = p }))
          (rw (two.0, one.0) (advance_thrice sys.shared g.sample g.phase))
