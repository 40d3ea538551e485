-- ===== src/Proxy/Balancer/Fastest.antt =====
-- With a measurement, and no exploration, `Next` prefers unmeasured endpoints and then the fastest.
use native.Mathlib.Decide.{ℕ_discrete, dec_lt}
use da_proxy.Prelude.{
  ℕ, suc, ◌+◌, ◌-◌, ◌<◌, ◌≡◌, refl, sym, ap, ◌∙◌, ◌≢◌, inl, inr, true, false, List, [], ◌∷◌, none,
  some, ◌==◌, get_elem?, length, arith, Bool-cases,
}
use da_proxy.Proxy.Float.{Float, IsOrdered}
use da_proxy.Proxy.Latency.{Ewma}
use da_proxy.Proxy.Balancer.{Balancer, Draw, has_data, scan, next}
use da_proxy.Proxy.Balancer.Valid.{IsValid}

some_eq {ℓ} : {A : Type ℓ} {a b : A} → some a ≡ some b → a ≡ b
some_eq e = cc

==_of_eq : (a : ℕ) → a ≡ 0 → (a == 0) ≡ true
==_of_eq a h = ground arith

==_of_ne : (a : ℕ) → a ≢ 0 → (a == 0) ≡ false
==_of_ne a h = ground arith

seen_all :
    (ls : List Ewma) (i k : ℕ) (m : Ewma)
    → ((j : ℕ) → get_elem? ls (i + j) ≡ none)
    → get_elem? ls k ≡ some m
    → k < i
seen_all ls i k m tail at = elim (dec_lt k i) [
  | yes p ↦ p
  | no q ↦
      let same : i + (k - i) ≡ k = omega arith in absurd (ground (arith, rw same at (tail (k - i))))
]

module _ (fl : Float) (IsLatency : ℕ → Type 0) (order : IsOrdered fl IsLatency) where
  -- What the loop of `Next` finds among the averages `ls`, from index `i` on: the first endpoint
  -- without a measurement, or, where all have one, an endpoint than which none is faster.
  pub data IsFound (ls : List Ewma) (j : ℕ) : Type 0 where
    unmeasured :
        (l : Ewma)
        → get_elem? ls j ≡ some l
        → l.count ≡ 0
        → ((k : ℕ) (m : Ewma) → k < j → get_elem? ls k ≡ some m → m.count ≢ 0)
        → IsFound ls j
    fastest :
        (l : Ewma)
        → get_elem? ls j ≡ some l
        → ((k : ℕ) (m : Ewma)
            → get_elem? ls k ≡ some m
            → (m.count ≢ 0) × (fl.lt m.bits l.bits ≡ false))
        → IsFound ls j

  -- What the loop knows of the average `e` at its best index, when it has seen those before `i`.
  record Leads (ls : List Ewma) (i best : ℕ) (e : Ewma) : Type 0 where
    at : get_elem? ls best ≡ some e
    measured : e.count ≢ 0
    seen :
        (k : ℕ) (m : Ewma)
        → k < i
        → get_elem? ls k ≡ some m
        → (m.count ≢ 0) × (fl.lt m.bits e.bits ≡ false)

  lt_irrefl : (a : ℕ) → IsLatency a → fl.lt a a ≡ false
  lt_irrefl a h = elim (Bool-cases (fl.lt a a)) [ inl p ↦ order.lt_asymm a a h h p | inr q ↦ q ]

  -- What does not beat `e` does not beat `l`, which beats `e`.
  not_faster :
      (m l e : ℕ)
      → IsLatency m
      → IsLatency l
      → IsLatency e
      → fl.lt l e ≡ true
      → fl.lt m e ≡ false
      → fl.lt m l ≡ false
  not_faster m l e hm hl he p q = elim (order.lt_cotrans l m e hl hm he p) [
    | inl r ↦ order.lt_asymm l m hl hm r
    | inr r ↦ cc
  ]

  module _ (ls : List Ewma)
      (latency : (k : ℕ) (m : Ewma)
        → get_elem? ls k ≡ some m
        → m.count ≢ 0
        → IsLatency m.bits) where
    -- A faster endpoint takes the lead.
    overtake :
        (i best : ℕ) (e l : Ewma)
        → Leads ls i best e
        → get_elem? ls i ≡ some l
        → l.count ≢ 0
        → fl.lt l.bits e.bits ≡ true
        → Leads ls (suc i) i l
    overtake i best e l lead here counted faster = record {
      at = here;
      measured = counted;
      seen = λ k m below at. elim (dec_lt k i) [
        | yes before ↦
            let (c, q) = lead.seen k m before at in
            (
              c,
              not_faster m.bits l.bits e.bits (latency k m at c) (latency i l here counted)
                  (latency best e lead.at lead.measured) faster q,
            )
        | no after ↦
            let same : k ≡ i = omega arith in
            let it : l ≡ m = some_eq (sym here ∙ rw (← same) at) in
            rw (← it) (counted, lt_irrefl l.bits (latency i l here counted))
      ];
    }

    keep_lead :
        (i best : ℕ) (e l : Ewma)
        → Leads ls i best e
        → get_elem? ls i ≡ some l
        → l.count ≢ 0
        → fl.lt l.bits e.bits ≡ false
        → Leads ls (suc i) best e
    keep_lead i best e l lead here counted slower = record {
      at = lead.at;
      measured = lead.measured;
      seen = λ k m below at. elim (dec_lt k i) [
        | yes before ↦ lead.seen k m before at
        | no after ↦
            let same : k ≡ i = omega arith in
            let it : l ≡ m = some_eq (sym here ∙ rw (← same) at) in rw (← it) (counted, slower)
      ];
    }

    scan-IsFound :
        (i best : ℕ) (e : Ewma) (rest : List Ewma)
        → ((j : ℕ) → get_elem? ls (i + j) ≡ get_elem? rest j)
        → Leads ls i best e
        → IsFound ls (scan fl i best e.bits rest)
    unfolding scan
    scan-IsFound i best e [] tail lead =
        fastest e lead.at (λ k m at. lead.seen k m (seen_all ls i k m tail at) at)
    scan-IsFound i best e (l ∷ rest) tail lead =
        let here : get_elem? ls i ≡ some l = ap (get_elem? ls) (omega arith) ∙ tail 0 in
        let tail' : (j : ℕ) → get_elem? ls (suc i + j) ≡ get_elem? rest j =
          λ j. ap (get_elem? ls) (omega arith) ∙ tail (suc j) in
        elim (ℕ_discrete l.count 0) [
          | yes none_yet ↦
              rw (==_of_eq l.count none_yet)
                (unmeasured l here none_yet (λ k m below at. (lead.seen k m below at).0))
          | no counted ↦ elim (Bool-cases (fl.lt l.bits e.bits)) [
            | inl faster ↦
                rw (==_of_ne l.count counted, faster)
                  (scan-IsFound (suc i) i l rest tail'
                    (overtake i best e l lead here counted faster))
            | inr slower ↦
                rw (==_of_ne l.count counted, slower)
                  (scan-IsFound (suc i) best e rest tail'
                    (keep_lead i best e l lead here counted slower))
          ]
        ]

    -- The loop from its start, over one average or more.
    first-IsFound :
        (l : Ewma) (rest : List Ewma) → ls ≡ l ∷ rest → IsFound ls (scan fl 0 0 fl.max ls)
    unfolding scan
    first-IsFound l rest whole =
        let here : get_elem? ls 0 ≡ some l = ap (λ x. get_elem? x 0) whole in
        let tail : (j : ℕ) → get_elem? ls (1 + j) ≡ get_elem? rest j =
          λ j. ap (get_elem? ls) (omega arith) ∙ ap (λ x. get_elem? x (suc j)) whole in
        let start : scan fl 0 0 fl.max ls ≡ scan fl 0 0 fl.max (l ∷ rest) =
          ap (scan fl 0 0 fl.max) whole in
        elim (ℕ_discrete l.count 0) [
          | yes none_yet ↦
              rw (start, ==_of_eq l.count none_yet)
                (unmeasured l here none_yet (λ k m below at. absurd (omega arith)))
          | no counted ↦
              let finite = latency 0 l here counted in
              rw (start, ==_of_ne l.count counted, order.lt_max l.bits finite)
                (scan-IsFound 1 0 l rest tail (record {
                  at = here;
                  measured = counted;
                  seen = λ k m below at.
                      let zeroth : k ≡ 0 = omega arith in
                      let it : l ≡ m = some_eq (sym here ∙ rw (← zeroth) at) in
                      rw (← it) (counted, lt_irrefl l.bits finite);
                }))
        ]

  -- With two endpoints or more, a measurement, and a draw that does not explore, `Next` answers
  -- with the first endpoint that has no measurement, or, where all have one, with an endpoint than
  -- which no other has a lower average.
  pub next-IsFound :
      (d : Draw) (b : Balancer)
      → IsValid b
      → ((k : ℕ) (m : Ewma) → get_elem? b.latencies k ≡ some m → m.count ≢ 0 → IsLatency m.bits)
      → 1 < length b.endpoints
      → has_data b.latencies ≡ true
      → fl.lt d.roll fl.exploration_rate ≡ false
      → (j : ℕ) × IsFound b.latencies j × ((next fl d b).0 ≡ get_elem? b.endpoints j)
  unfolding next
  next-IsFound d b v latency two some_data stay =
      (scan fl 0 0 fl.max b.latencies, found, ground arith)
    where
      nonempty :
          (ls : List Ewma) → has_data ls ≡ true → (l : Ewma) × (rest : List Ewma) × (ls ≡ l ∷ rest)
      nonempty [] h = absurd (ground arith)
      nonempty (l ∷ ls) h = (l, ls, refl)

      found : IsFound b.latencies (scan fl 0 0 fl.max b.latencies)
      found =
          let (l, rest, whole) = nonempty b.latencies some_data in
          first-IsFound b.latencies latency l rest whole
