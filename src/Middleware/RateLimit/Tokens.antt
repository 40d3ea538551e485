-- ===== src/Middleware/RateLimit/Tokens.antt =====
-- internal/middleware/ratelimit.go: the limits of one token do not depend on tokens of other names.
use da_proxy.Prelude.{
  ℕ, zero, suc, ◌/◌, ◌==◌, ltb, if◌then◌else◌, Bool, true, ◌≡◌, refl, ap, ◌∙◌, ◌≢◌, false, not,
  Option, none, some, Bool-cases, Option-cases, Table, lookup, insert, lookup-insert, arith, inl,
  inr,
}
use da_proxy.Prelude.Text.{Text, same, same_iff, same_refl}
use da_proxy.Prelude.Int.{ℤ, pos, negsuc, pos_part, ltb_ℤ, ◌<ℤ◌}
use da_proxy.Middleware.RateLimit.{burst_of, Limiters, get_limiter, ask, passes}

lookup-insert_ne {ℓ} :
    {V : Type ℓ} (k j : Text) (v : V) (t : Table V) → k ≢ j → lookup j (insert k v t) ≡ lookup j t
lookup-insert_ne k j v t h = elim (Bool-cases (same k j)) [
  | inl p ↦ absurd (h ((same_iff k j).0 p))
  | inr q ↦ ground (arith, lookup-insert k j v t, q)
]

module _ {L : Type 0} (limiters : Limiters L) where
  get_limiter_ne :
      (name other : Text) (rate : ℤ) (store : Table L)
      → name ≢ other
      → lookup other (get_limiter limiters name rate store).1 ≡ lookup other store
  unfolding get_limiter
  get_limiter_ne name other rate store h = elim (Bool-cases (not (ltb_ℤ (pos 0) rate))) [
    | inl p ↦ rw (p, get_limiter) refl
    | inr q ↦ elim (Option-cases (lookup name store)) [
      | inl new ↦ rw (q, get_limiter, new) (lookup-insert_ne name other _ store h)
      | inr (l, old) ↦ rw (q, get_limiter, old) refl
    ]
  ]

  ask_ne :
      (now : ℕ) (name other : Text) (rate : ℤ) (limiter : Option L) (store : Table L)
      → name ≢ other
      → lookup other (ask limiters now name rate limiter store).1 ≡ lookup other store
  unfolding ask
  ask_ne now name other rate none store h = refl
  ask_ne now name other rate (some limiter) store h = lookup-insert_ne name other _ store h

  passes_ne :
      (now : ℕ) (name other : Text) (rate : Option ℤ) (store : Table L)
      → name ≢ other
      → lookup other (passes limiters now (some name) rate store).1 ≡ lookup other store
  unfolding passes
  passes_ne now name other none store h = refl
  passes_ne now name other (some rate) store h =
      let (limiter, store') = get_limiter limiters name rate store in
      ask_ne now name other rate limiter store' h ∙ get_limiter_ne name other rate store h

  get_limiter_same :
      (name : Text) (rate : ℤ) (s t : Table L)
      → lookup name s ≡ lookup name t
      → (get_limiter limiters name rate s).0 ≡ (get_limiter limiters name rate t).0
  unfolding get_limiter
  get_limiter_same name rate s t e = elim (Bool-cases (not (ltb_ℤ (pos 0) rate))) [
    | inl p ↦ rw (p, get_limiter) refl
    | inr q ↦ elim (Option-cases (lookup name t)) [
      | inl new ↦ rw (q, get_limiter, e, new) refl
      | inr (l, old) ↦ rw (q, get_limiter, e, old) refl
    ]
  ]

  ask_same :
      (now : ℕ) (name : Text) (rate : ℤ) (limiter : Option L) (s t : Table L)
      → (ask limiters now name rate limiter s).0 ≡ (ask limiters now name rate limiter t).0
  unfolding ask
  ask_same now name rate none s t = refl
  ask_same now name rate (some limiter) s t = refl

  passes_same :
      (now : ℕ) (name : Text) (rate : Option ℤ) (s t : Table L)
      → lookup name s ≡ lookup name t
      → (passes limiters now (some name) rate s).0 ≡ (passes limiters now (some name) rate t).0
  unfolding passes
  passes_same now name none s t e = refl
  passes_same now name (some rate) s t e =
      let (l, s') = get_limiter limiters name rate s in
      let (m, t') = get_limiter limiters name rate t in
      ask_same now name rate l s' t'
      ∙ ap (λ (o : Option L). (ask limiters now name rate o t').0)
          (get_limiter_same name rate s t e)

  -- What the limits say to a request: a positive rate is that of a limiter, the one that the token has or a new one, whose burst is a tenth of the rate and at least 1.
  abbrev pub allowed : ℕ → Text → Option ℤ → Table L → Bool
  allowed now name none store = true
  allowed now name (some (negsuc n)) store = true
  allowed now name (some (pos n)) store =
      if n == 0
      then true
      else (limiters.allow now (elim (lookup name store) [
        | none ↦ limiters.new n (if ltb (n / 10) 1 then 1 else n / 10)
        | some limiter ↦ limiter
      ])).0

  pub passes-allowed :
      (now : ℕ) (name : Text) (rate : Option ℤ) (store : Table L)
      → (passes limiters now (some name) rate store).0 ≡ allowed now name rate store
  unfolding passes get_limiter ask
  passes-allowed now name none store = refl
  passes-allowed now name (some (negsuc n)) store =
      let limitless : not (ltb_ℤ (pos 0) (negsuc n)) ≡ true = ground arith in rw limitless refl
  passes-allowed now name (some (pos zero)) store = refl
  passes-allowed now name (some (pos (suc n))) store =
      let positive : not (ltb_ℤ (pos 0) (pos (suc n))) ≡ false = ground arith in
      let given : (suc n == 0) ≡ false = ground arith in
      elim (Option-cases (lookup name store)) [
        | inl new ↦ rw (positive, given, new) refl
        | inr (l, old) ↦ rw (positive, given, old) refl
      ]

  -- Of two tokens with different names, whether a request of one is let through does not depend on a
  -- request of the other before it: it is let through if its rate is not positive, or else if its limiter allows it, the one that it has or a new one with a tenth of the rate, at least 1, as its burst.
  pub passes-passes :
      (now later : ℕ) (name other : Text) (rate other_rate : Option ℤ) (store : Table L)
      → name ≢ other
      → let after =
          passes limiters later
            (some other)
            other_rate
            (passes limiters now (some name) rate store).1 in
        (after.0 ≡ (passes limiters later (some other) other_rate store).0)
        × (after.0 ≡ allowed later other other_rate store)
  passes-passes now later name other rate other_rate store h =
      let same =
        passes_same later other other_rate (passes limiters now (some name) rate store).1 store
          (passes_ne now name other rate store h) in
      (same, same ∙ passes-allowed later other other_rate store)

  get_limiter_old :
      (name : Text) (rate : ℤ) (store : Table L) (l : L)
      → pos 0 <ℤ rate
      → lookup name store ≡ some l
      → get_limiter limiters name rate store ≡ (some l, store)
  unfolding get_limiter
  get_limiter_old name rate store l p old =
      let positive : not (ltb_ℤ (pos 0) rate) ≡ false = ground arith in
      rw (positive, get_limiter, old) refl

  get_limiter_new :
      (name : Text) (rate : ℤ) (store : Table L)
      → pos 0 <ℤ rate
      → lookup name store ≡ none
      → let made = limiters.new (pos_part rate) (burst_of (pos_part rate)) in
        get_limiter limiters name rate store ≡ (some made, insert name made store)
  unfolding get_limiter
  get_limiter_new name rate store p new =
      let positive : not (ltb_ℤ (pos 0) rate) ≡ false = ground arith in
      rw (positive, get_limiter, new) refl

  -- The limiter that a token was given first is the one that it is given at all later calls, even
  -- where its rate has been changed since.
  get_limiter-get_limiter :
      (name : Text) (rate later_rate : ℤ) (store : Table L)
      → pos 0 <ℤ rate
      → pos 0 <ℤ later_rate
      → let (limiter, store') = get_limiter limiters name rate store in
        get_limiter limiters name later_rate store' ≡ (limiter, store')
  get_limiter-get_limiter name rate later_rate store p q = elim (Option-cases (lookup name store)) [
    | inl new ↦
        let made = limiters.new (pos_part rate) (burst_of (pos_part rate)) in
        let here : lookup name (insert name made store) ≡ some made =
          ground (arith, lookup-insert name name made store, same_refl name) in
        rw (get_limiter_new name rate store p new)
          (get_limiter_old name later_rate (insert name made store) made q here)
    | inr (l, old) ↦
        rw (get_limiter_old name rate store l p old) (get_limiter_old name later_rate store l q old)
  ]
