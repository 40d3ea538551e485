-- ===== src/Middleware/Logger/Recorded.antt =====
-- internal/middleware: which requests are recorded, in the order in which cmd/da-proxy/main.go puts the middleware: `Auth`
-- around the rate limit in memory around `AccessLogger` around `MetricsMiddleware`.
use da_proxy.Prelude.{
  ℕ, ◌≡◌, ◌⊎◌, inl, inr, refl, sym, ◌∙◌, Bool, true, false, not, List, [], ◌∷◌, ◌++◌, Option, none,
  some, length, ◌==◌, Bool-cases, Table, arith,
}
use da_proxy.Prelude.Int.{pos}
use da_proxy.Prelude.Text.{Text, codes}
use da_proxy.Prelude.Text.Decimal.{to_decimal}
use da_proxy.Auth.Token.{TokenInfo, is_expired}
use da_proxy.Logging.Entry.{LogEntry}
use da_proxy.Middleware.Context.{Context, HttpError, Handler}
use da_proxy.Middleware.Auth.{extract_token, admit, check_token, auth}
use da_proxy.Middleware.RateLimit.{Limiters, passes, rate_limit}
use da_proxy.Middleware.RateLimit.Tokens.{allowed, passes-allowed}
use da_proxy.Middleware.Logger.{
  Request, Sample, string_from_ctx, entry_of, sample_of, access_logger, metrics_middleware,
}

abbrev refusal : ℕ → Text → HttpError
refusal code message = record { code = code; message = message }

-- The token that was found lets a request in.
pub record IsGood (now : ℕ) (found : Option TokenInfo) (info : TokenInfo) : Type 0 where
  pub is_found : found ≡ some info
  pub enabled : info.enabled ≡ true
  pub lasting : is_expired now info ≡ false

module _ {W : Type 0} (now : ℕ) (next : Handler W) where
  -- A refusal changes neither the context nor the state.
  check_token_cases :
      (found : Option TokenInfo) (remaining : Text) (c : Context) (w : W)
      → ((info : TokenInfo) × IsGood now found info
          × (check_token now next found remaining c w ≡ next (admit info remaining c) w))
        ⊎ ((e : HttpError) × ((e.code ≡ 401) ⊎ (e.code ≡ 403))
            × (check_token now next found remaining c w ≡ (some e, c, w)))
  unfolding check_token
  check_token_cases none remaining c w =
      inr (refusal 401 (codes "invalid authentication token"), inl refl, refl)
  check_token_cases (some info) remaining c w = elim (Bool-cases (not info.enabled)) [
    | inl p ↦ inr (refusal 403 (codes "token is disabled"), inr refl, simp p refl)
    | inr p ↦ elim (Bool-cases (is_expired now info)) [
      | inl q ↦ inr (refusal 401 (codes "token has expired"), inl refl, simp (p, q) refl)
      | inr q ↦
          inl (
            info,
            record { is_found = refl; enabled = ground arith; lasting = q },
            simp (p, q) refl,
          )
    ]
  ]

-- An entry that tells of a request, of the error that its handler returned, and of its context then.
pub record IsEntry (req : Request) (failure : Option HttpError) (c : Context) (entry : LogEntry)
    : Type 0 where
  pub status_code : entry.status_code ≡ (elim failure [ none ↦ c.status | some e ↦ e.code ])
  pub error : entry.error ≡ (elim failure [ none ↦ [] | some e ↦ e.message ])
  pub token_name : entry.token_name ≡ (elim c.token_name [ none ↦ [] | some name ↦ name ])
  pub method : entry.method ≡ (elim c.rpc_method [ none ↦ [] | some name ↦ name ])
  pub backend : entry.backend ≡ (elim c.backend [ none ↦ [] | some name ↦ name ])
  pub response_bytes : entry.response_bytes ≡ pos (length c.written)
  pub path : entry.path ≡ c.path
  pub client_ip : entry.client_ip ≡ req.real_ip

-- A sample that tells of the context of a request, whose status is that of the response even if its handler returned an error.
pub record IsSample (c : Context) (sample : Sample) : Type 0 where
  pub status_code : sample.status_code ≡ to_decimal c.status
  pub token_name : sample.token_name ≡ (elim c.token_name [ none ↦ [] | some name ↦ name ])
  pub method : sample.method ≡ (elim c.rpc_method [ none ↦ [] | some name ↦ name ])
  pub backend : sample.backend ≡ (elim c.backend [ none ↦ [] | some name ↦ name ])

or_nothing : (o : Option Text) → string_from_ctx o ≡ (elim o [ none ↦ [] | some name ↦ name ])
or_nothing none = refl
or_nothing (some name) = refl

entry_of-IsEntry :
    (req : Request) (error : Option HttpError) (c : Context)
    → IsEntry req error c (entry_of req error c)
entry_of-IsEntry req error c = record {
  status_code = code error;
  error = message error;
  token_name = or_nothing c.token_name;
  method = or_nothing c.rpc_method;
  backend = or_nothing c.backend;
  response_bytes = refl;
  path = refl;
  client_ip = refl;
}
  where
    code :
        (o : Option HttpError)
        → (entry_of req o c).status_code ≡ (elim o [ none ↦ c.status | some e ↦ e.code ])
    code none = refl
    code (some e) = refl

    message :
        (o : Option HttpError)
        → (entry_of req o c).error ≡ (elim o [ none ↦ [] | some e ↦ e.message ])
    message none = refl
    message (some e) = refl

sample_of-IsSample : (req : Request) (c : Context) → IsSample c (sample_of req c)
sample_of-IsSample req c = record {
  status_code = refl;
  token_name = or_nothing c.token_name;
  method = or_nothing c.rpc_method;
  backend = or_nothing c.backend;
}

-- The state of a whole chain: the limiters, the entries, the samples, and the rest.
abbrev pub Recorded : Type 0 → Type 0 → Type 0
Recorded L W = Table L × (List LogEntry × (List Sample × W))

module _ {L W : Type 0} (limiters : Limiters L) (lookup : Text → W → Option TokenInfo × W)
    (next : Handler W) where
  abbrev pub recorded_lookup : Text → Recorded L W → Option TokenInfo × Recorded L W
  recorded_lookup token (limits, (log, (samples, w))) =
      let (found, w') = lookup token w in (found, (limits, (log, (samples, w'))))

  abbrev pub plain : Handler (List Sample × W)
  plain c (samples, w) = let (error, c', w') = next c w in (error, c', (samples, w'))

  abbrev pub measured : Request → Handler (List LogEntry × (List Sample × W))
  measured req c (log, s) =
      let (error, c', s') = metrics_middleware req plain c s in (error, c', (log, s'))

  abbrev pub logged : Request → Handler (Recorded L W)
  logged req c (limits, s) =
      let (error, c', s') = access_logger req (measured req) c s in (error, c', (limits, s'))

  -- `now` is the time in the unit of the expiry, `at` the time of the limiters.
  abbrev pub chain : Request → ℕ → ℕ → Handler (Recorded L W)
  chain req now at = auth recorded_lookup now (rate_limit limiters at (logged req))

  module _ (req : Request) (now at : ℕ) (c : Context) (limits : Table L) (log : List LogEntry)
      (samples : List Sample) (w : W) where
    abbrev pub token : Text
    token = (extract_token c.path).0

    abbrev pub admitted : TokenInfo → Context
    admitted info = admit info (extract_token c.path).1 c

    abbrev pub asked : TokenInfo → Bool × Table L
    asked info = passes limiters at (some info.name) (some info.rate_limit) limits

    -- What the limits say to a request with that token.
    abbrev pub lets : TokenInfo → Bool
    lets info = allowed limiters at info.name (some info.rate_limit) limits

    -- The ways in which the chain ends, with its result.
    pub data IsRecorded (result : Option HttpError × Context × Recorded L W) : Type 0 where
      let_through :
          (info : TokenInfo) (entry : LogEntry) (sample : Sample)
          → IsGood now (lookup token w).0 info
          → lets info ≡ true
          → (let (error, c', w') = next (admitted info) (lookup token w).1 in
              IsEntry req error c' entry
              × IsSample c' sample
              × (result ≡ (
                error,
                c',
                ((asked info).1, (log ++ entry ∷ [], (samples ++ sample ∷ [], w'))),
              )))
          → IsRecorded result
      limited :
          (info : TokenInfo) (e : HttpError) (c' : Context)
          → IsGood now (lookup token w).0 info
          → lets info ≡ false
          → e.code ≡ 429
          → result ≡ (some e, c', ((asked info).1, (log, (samples, (lookup token w).1))))
          → IsRecorded result
      refused :
          (e : HttpError) (w' : W)
          → (e.code ≡ 401) ⊎ (e.code ≡ 403)
          → result ≡ (some e, c, (limits, (log, (samples, w'))))
          → IsRecorded result

    limited-IsRecorded :
        (info : TokenInfo)
        → IsGood now (lookup token w).0 info
        → IsRecorded (
            rate_limit limiters at
              (logged req)
              (admitted info)
              (limits, (log, (samples, (lookup token w).1))))
    unfolding rate_limit access_logger metrics_middleware
    limited-IsRecorded info good =
        let e = passes-allowed limiters at info.name (some info.rate_limit) limits in
        elim (Bool-cases (asked info).0) [
          | inl p ↦ rw p (
              IsRecorded.let_through info _ _ good (sym e ∙ p)
                (entry_of-IsEntry req _ _, sample_of-IsSample req _, refl))
          | inr p ↦ rw p (
              IsRecorded.limited info (refusal 429 (codes "rate limit exceeded")) _ good (sym e ∙ p)
                refl refl)
        ]

    -- Either a token is found for the request, enabled and not expired, and the limits in memory let it pass, since its rate is not positive or its limiter, which is a new one if there is none of its name, allows it: then the result is that of the next handler, and one entry and one sample are
    -- recorded of it. The entry has the code and the message of the error, where there is one, and the sample has the status of the response even then. Or such a token is found and the limits do not let it pass: the answer is 429, and nothing is recorded.
    -- Or the request is refused with 401 or 403, its context and the limits are left as they were, and nothing is recorded.
    pub auth-recorded : IsRecorded (chain req now at c (limits, (log, (samples, w))))
    unfolding auth
    auth-recorded = elim (Bool-cases (length token == 0)) [
      | inl p ↦ rw p (
          IsRecorded.refused (refusal 401 (codes "missing authentication token")) w (inl refl) refl)
      | inr p ↦
          elim (check_token_cases now (rate_limit limiters at (logged req)) (lookup token w).0
            (extract_token c.path).1 c (limits, (log, (samples, (lookup token w).1)))) [
              | inl (info, good, e) ↦ rw (p, e) (limited-IsRecorded info good)
              | inr (x, k, e) ↦ IsRecorded.refused x (lookup token w).1 k (rw p e)
            ]
    ]
