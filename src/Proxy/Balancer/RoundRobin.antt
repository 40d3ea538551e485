-- ===== src/Proxy/Balancer/RoundRobin.antt =====
-- Without a measurement `Next` goes round the endpoints.
use da_proxy.Proxy.Balancer.{has_data, Balancer, next, Draw}
use native.Mathlib.Nat.{mod-add-mod, mod-eq_of_lt, mod-lt}
use mathlib.Core.List.{map-append, append-nil}
use da_proxy.Prelude.{
  ℕ, suc, ◌+◌, ◌-◌, ◌%◌, ◌^◌, ◌<◌, ◌≤◌, ◌≡◌, refl, sym, ap, ◌∙◌, false, List, [], ◌∷◌, ◌++◌, Option,
  some, get_elem?, take, drop, length, map, arith, get_elem?_total, drop_of_get_elem?,
  take_of_length, length-drop, length-take, take-append-drop,
}
use da_proxy.Prelude.Text.{Text}
use da_proxy.Proxy.Float.{Float}

-- `counter.Add(1) - 1` is the old counter as long as the counter does not wrap round.
add_back : (c : ℕ) → c + 1 < 2 ^ 64 → ((c + 1) % 2 ^ 64 + 2 ^ 64 - 1) % 2 ^ 64 ≡ c
add_back c h = omega arith

mod_next : (c n r : ℕ) → c % n ≡ r → suc r < n → (c + 1) % n ≡ suc r
mod_next c n r e h = sym (mod-add-mod c n 1) ∙ rw e (mod-eq_of_lt (omega arith) ∙ omega arith)

wrap_index : (c n r : ℕ) → c % n ≡ r → r < n → (c + (n - r)) % n ≡ 0
wrap_index c n r e h =
    let whole : r + (n - r) ≡ n = omega arith in
    sym (mod-add-mod c n (n - r)) ∙ rw (e, whole) (grind arith)

module _ (fl : Float) where
  -- The answers of calls of `Next` one after another.
  pub nexts : List Draw → Balancer → List (Option Text)
  nexts [] b = []
  nexts (d ∷ ds) b = (next fl d b).0 ∷ nexts ds (next fl d b).1

  next_round :
      (d : Draw) (b : Balancer)
      → has_data b.latencies ≡ false
      → 1 < length b.endpoints
      → b.counter + 1 < 2 ^ 64
      → ((next fl d b).0 ≡ get_elem? b.endpoints (b.counter % length b.endpoints))
        × ((next fl d b).1 ≡ record b { counter = b.counter + 1 })
  unfolding next
  next_round d b h n c = (ground (arith, add_back b.counter c), ground arith)

  -- Calls that do not come round the end of the endpoints.
  nexts_run :
      (ds es : List Draw) (b : Balancer) (r : ℕ)
      → has_data b.latencies ≡ false
      → 1 < length b.endpoints
      → b.counter + length ds + length es < 2 ^ 64
      → (0 < length ds → b.counter % length b.endpoints ≡ r)
      → r + length ds ≤ length b.endpoints
      → nexts (ds ++ es) b
        ≡ map some (take (length ds) (drop r b.endpoints))
          ++ nexts es (record b { counter = b.counter + length ds })
  unfolding nexts
  nexts_run [] es b r h n c e k = ap (λ (m : ℕ). nexts es (record b { counter = m })) (omega arith)
  nexts_run (d ∷ ds) es b r h n c e k =
      let (url, at, _) = get_elem?_total b.endpoints r (omega arith) in
      let (answer, after) = next_round d b h n (omega arith) in
      rw (drop_of_get_elem? b.endpoints r at, answer, after, e (omega arith), at)
        (ap (◌∷◌ (some url)) (
          nexts_run ds es (record b { counter = b.counter + 1 }) (suc r) h n (omega arith)
            (λ more. mod_next b.counter (length b.endpoints) r (e (omega arith)) (omega arith))
            (omega arith)
          ∙ ap
              (λ (m : ℕ).
                map some (take (length ds) (drop (suc r) b.endpoints))
                ++ nexts es (record b { counter = m }))
              (omega arith)))

  -- As many calls as there are endpoints, on a balancer without measurements whose uint64 counter
  -- does not wrap round during them, answer with every endpoint once: those from the counter's
  -- place on, then those before it.
  pub nexts-rotation :
      (ds : List Draw) (b : Balancer)
      → has_data b.latencies ≡ false
      → 1 < length b.endpoints
      → length ds ≡ length b.endpoints
      → b.counter + length ds < 2 ^ 64
      → let r = b.counter % length b.endpoints in
        nexts ds b ≡ map some (drop r b.endpoints ++ take r b.endpoints)
  unfolding nexts
  nexts-rotation ds b h two same c =
      let n = length b.endpoints in
      let r : ℕ = b.counter % n in
      let inside : r < n = mod-lt b.counter (omega arith) in
      let first = take (n - r) ds in
      let second = drop (n - r) ds in
      let firsts : length first ≡ n - r = length-take (n - r) ds (omega arith) in
      let seconds : length second ≡ r = omega (arith, length-drop (n - r) ds) in
      let b' : Balancer = record b { counter = b.counter + length first } in
      ap (λ l. nexts l b) (sym (take-append-drop (n - r) ds))
      ∙ nexts_run first second b r h two (omega arith) (λ _. refl) (omega arith)
      ∙ ap (◌++◌ (map some (take (length first) (drop r b.endpoints)))) (
          ap (λ l. nexts l b') (sym (append-nil second))
          ∙ nexts_run second [] b' 0 h two (omega arith)
              (λ _. rw firsts (wrap_index b.counter n r refl inside)) (omega arith))
      ∙ rw (
        firsts,
        seconds,
        append-nil,
        ← map-append,
        take_of_length (drop r b.endpoints) (n - r) (omega (arith, length-drop r b.endpoints)),
      )
