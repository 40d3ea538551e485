-- ===== src/Proxy/Forward/Invariant.antt =====
-- What a contact with a node keeps, a loop over nodes keeps.
use da_proxy.Prelude.{ℕ, Bool, List, [], ◌∷◌, Bool-cases, Option-cases, inl, inr}
use da_proxy.Prelude.Text.{Text}
use da_proxy.Proxy.Decode.{ParsedUrl}
use da_proxy.Proxy.Router.{Backend, record_backend_latency}
use da_proxy.Proxy.Exchange.{Response}
use da_proxy.Proxy.Forward.{State, Handler, Job, pruned, try_endpoint, try_endpoints}

-- A predicate on the state that neither a recorded latency nor the nodes can break.
abbrev pub IsKept : {C N : Type 0} → Handler C N → (State C N → Type 0) → Type 0
IsKept {C} {N} h P =
    (st : State C N) (k : Backend) (ep : Text) (d : ℕ) (nodes : N)
    → P st
    → P (record st { router = record_backend_latency h.float k ep d st.router; nodes = nodes })

module _ {C N : Type 0} (h : Handler C N) (P : State C N → Type 0) (kept : IsKept h P) where
  pub try_endpoint-keeps :
      (url : ParsedUrl) (job : Job) (k : Backend) (ep : Text) {st : State C N}
      → P st
      → P (try_endpoint h url job k ep st).1
  unfolding try_endpoint
  try_endpoint-keeps url job k ep {st} p = kept st k ep _ _ p

  pub try_endpoints-keeps :
      (skips : Text → Bool) (job : Job) (k : Backend) (eps : List Text) (buf : Response)
      {st : State C N}
      → P st
      → P (try_endpoints h skips job k eps buf st).1
  unfolding try_endpoints
  try_endpoints-keeps skips job k [] buf p = p
  try_endpoints-keeps skips job k (ep ∷ eps) buf {st} p = elim (Bool-cases (skips ep)) [
    | inl skipped ↦ rw skipped (try_endpoints-keeps skips job k eps buf p)
    | inr q ↦ elim (Option-cases (h.url.parse ep)) [
      | inl bad ↦ rw (q, try_endpoints, bad) (try_endpoints-keeps skips job k eps buf p)
      | inr (url, good) ↦
          let (buf', st') = try_endpoint h url job k ep st in
          let here = try_endpoint-keeps url job k ep p in
          elim (Bool-cases (pruned h buf')) [
            | inl gone ↦
                rw (q, try_endpoints, good, gone) (try_endpoints-keeps skips job k eps buf' here)
            | inr whole ↦ rw (q, try_endpoints, good, whole) here
          ]
    ]
  ]
