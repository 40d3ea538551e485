-- ===== src/Middleware/Auth/Guards.antt =====
-- What a request must bring to pass `Auth`, and what the next handler sees of it.
use da_proxy.Middleware.Context.{HttpError, Handler, Context}
use da_proxy.Prelude.{
  ℕ, ◌<◌, ◌≡◌, refl, ◌≢◌, ◌⊎◌, inl, inr, true, false, [], ◌∷◌, ◌++◌, Option, none, some, ◌==◌,
  length, arith, Bool-cases,
}
use da_proxy.Prelude.Text.{
  Text, codes, Lacks, IsCut, cut_at, cut_at-IsCut, cut_at-append, cut_at_of_Lacks, trim_prefix,
}
use da_proxy.Prelude.Text.Affix.{trim_prefix-append}
use da_proxy.Auth.Token.{TokenInfo, is_expired}
use da_proxy.Middleware.Auth.{split_token, extract_token, auth}

-- A path of a slash, a token without slashes, and a rest that is empty or begins with a slash is
-- split into the token and the rest, where an empty rest is read as "/".
extract_token-append :
    (token rest : Text)
    → token ≢ []
    → Lacks b'/' token
    → (extract_token (b'/' ∷ token) ≡ (token, codes "/"))
      × (extract_token (b'/' ∷ token ++ b'/' ∷ rest) ≡ (token, b'/' ∷ rest))
unfolding extract_token
extract_token-append [] rest ne l = absurd (ne refl)
extract_token-append (a ∷ token) rest ne l =
    let alone : trim_prefix (b'/' ∷ a ∷ token) (codes "/") ≡ a ∷ token =
      trim_prefix-append (codes "/") (a ∷ token) in
    let followed : trim_prefix (b'/' ∷ a ∷ token ++ b'/' ∷ rest) (codes "/")
        ≡ a ∷ token ++ b'/' ∷ rest =
      trim_prefix-append (codes "/") (a ∷ token ++ b'/' ∷ rest) in
    (
      rw (alone, cut_at_of_Lacks b'/' (a ∷ token) l) (ground arith),
      rw (followed, cut_at-append b'/' (a ∷ token) rest l) (ground arith),
    )

-- The token holds no slash, and the rest begins with one.
extract_token-Lacks :
    (path : Text)
    → let (token, remaining) = extract_token path in
      Lacks b'/' token × ((rest : Text) × (remaining ≡ b'/' ∷ rest))
unfolding extract_token
extract_token-Lacks path = elim (Bool-cases (length (trim_prefix path (codes "/")) == 0)) [
  | inl p ↦ rw p (tt, ([], refl))
  | inr q ↦ rw q (
      split (trim_prefix path (codes "/")) (cut_at b'/' (trim_prefix path (codes "/")))
        (cut_at-IsCut b'/' (trim_prefix path (codes "/"))))
]
  where
    split :
        (trimmed : Text) (o : Option (Text × Text))
        → IsCut b'/' trimmed o
        → Lacks b'/' (split_token trimmed o).0
          × ((rest : Text) × ((split_token trimmed o).1 ≡ b'/' ∷ rest))
    split trimmed none h = (h, ([], refl))
    split trimmed (some (token, from)) (e, l, rest) = (l, rest)

module _ {W : Type 0} (lookup : Text → W → Option TokenInfo × W) (now : ℕ) where
  -- The request brings a token that the store knows, and that is enabled and not expired.
  pub record IsAdmitted (c : Context) (w : W) : Type 0 where
    pub token : Text
    pub remaining : Text
    pub info : TokenInfo
    pub split : extract_token c.path ≡ (token, remaining)
    pub present : 0 < length token
    pub found : (lookup token w).0 ≡ some info
    pub enabled : info.enabled ≡ true
    pub current : is_expired now info ≡ false

  abbrev pub IsDenied : Context → W → Type 0
  IsDenied c w =
      (e : HttpError) × (w' : W) × ((e.code ≡ 401) ⊎ (e.code ≡ 403))
      × ((next : Handler W) → auth lookup now next c w ≡ (some e, c, w'))
