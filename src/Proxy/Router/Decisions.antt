-- ===== src/Proxy/Router/Decisions.antt =====
-- When a request is routed, by which method, and when to an archival node.
use da_proxy.Prelude.Int.{pos_part, ◌<ℤ◌, IsInt64, pos, ℤ}
use da_proxy.Prelude.{
  ℕ, ◌+◌, ◌^◌, ◌<◌, ◌≡◌, refl, ◌↔◌, ◌⊎◌, inl, inr, Bool, true, false, List, [], ◌∷◌, Option, none,
  some, arith, Bool-cases, length, Result, ok, err, ◌==◌,
}
use da_proxy.Prelude.Text.{Text, trim_space, trim_space-nil}
use da_proxy.Proxy.Float.{Float}
use da_proxy.Proxy.Decode.{Json}
use da_proxy.Proxy.Balancer.{Draw}
use da_proxy.Proxy.Height.{HeightTracker, begins_with, enabled, is_archival, extract_height}
use da_proxy.Proxy.Height.Archival.{is_archival_iff}
use da_proxy.Proxy.Router.{
  Backend, node_archival_rpc, app_archival_rpc, Router, RouteDecision, RouteError, route_method,
  choose_backend, route, parse_json_rpc_method, resolve_backend, archival_backend, wants_archival,
  first_method, only_method,
}

-- A batch names the method of its first entry, any other request its own; the name is not empty.
abbrev pub Names : Json → Text → Text → Type 0
Names json body method =
    (0 < length (trim_space body))
    × (0 < length method)
    × (((begins_with b'[' (trim_space body) ≡ true)
          × ((rest : List Text) × (json.batch body ≡ some (method ∷ rest))))
        ⊎ ((begins_with b'[' (trim_space body) ≡ false) × (json.request body ≡ some method)))

first_method_iff :
    (o : Option (List Text)) (method : Text)
    → (first_method o ≡ ok method)
      ↔ ((0 < length method) × ((rest : List Text) × (o ≡ some (method ∷ rest))))
unfolding first_method
first_method_iff none method = (λ e. absurd (ground arith), λ h. absurd (absent method h))
  where
    absent : (m : Text) → (0 < length m) × ((rest : List Text) × (none ≡ some (m ∷ rest))) → ⊥
    absent m (p, (rest, q)) = ground arith
first_method_iff (some []) method = (λ e. absurd (ground arith), λ h. absurd (absent method h))
  where
    absent : (m : Text) → (0 < length m) × ((rest : List Text) × (some [] ≡ some (m ∷ rest))) → ⊥
    absent m (p, (rest, q)) = ground arith
first_method_iff (some (m ∷ ms)) method = (λ e. (ground arith, (ms, ground arith)), λ h. back h)
  where
    back :
        (0 < length method) × ((rest : List Text) × (some (m ∷ ms) ≡ some (method ∷ rest)))
        → first_method (some (m ∷ ms)) ≡ ok method
    back (p, (rest, q)) = ground arith

only_method_iff :
    (o : Option Text) (method : Text)
    → (only_method o ≡ ok method) ↔ ((0 < length method) × (o ≡ some method))
unfolding only_method
only_method_iff none method = ground arith
only_method_iff (some m) method = ground arith

-- A method is found exactly where the body names it.
pub parse_json_rpc_method_iff :
    (json : Json) (body method : Text)
    → ((parse_json_rpc_method json body).1 ≡ ok method) ↔ Names json body method
unfolding parse_json_rpc_method
parse_json_rpc_method_iff json [] method =
    (λ e. absurd (ground arith), λ h. absurd (let z = trim_space-nil in ground (arith, h.0)))
parse_json_rpc_method_iff json (c ∷ s) method =
    elim (Bool-cases (length (trim_space (c ∷ s)) == 0)) [
      | inl blank ↦ (λ e. absurd (ground arith), λ h. absurd (ground arith))
      | inr full ↦ elim (Bool-cases (begins_with b'[' (trim_space (c ∷ s)))) [
        | inl batch ↦
            let (to, from) = first_method_iff (json.batch (c ∷ s)) method in
            rw (not_empty, full, batch)
              (
                λ e. let (p, q) = to e in (ground arith, p, inl (refl, q)),
                λ h. from (h.1, of_batch h.2),
              )
        | inr single ↦
            let (to, from) = only_method_iff (json.request (c ∷ s)) method in
            rw (not_empty, full, single)
              (
                λ e. let (p, q) = to e in (ground arith, p, inr (refl, q)),
                λ h. from (h.1, of_single h.2),
              )
      ]
    ]
  where
    not_empty : (length (c ∷ s) == 0) ≡ false
    not_empty = ground arith

    of_batch : {P Q : Type 0} → (((true ≡ true) × P) ⊎ ((true ≡ false) × Q)) → P
    of_batch (inl (_, p)) = p
    of_batch (inr (e, _)) = absurd (ground arith)

    of_single : {P Q : Type 0} → (((false ≡ true) × P) ⊎ ((false ≡ false) × Q)) → Q
    of_single (inl (e, _)) = absurd (ground arith)
    of_single (inr (_, q)) = q

-- The backends of archival nodes.
abbrev pub is_archival_backend : Backend → Bool
is_archival_backend node_archival_rpc = true
is_archival_backend app_archival_rpc = true
is_archival_backend _ = false

-- The namespace never gives an archival backend by itself.
resolve_backend-pruned :
    (method : Text)
    → (is_archival_backend (resolve_backend method) ≡ false)
      × (is_archival_backend (archival_backend (resolve_backend method)) ≡ true)
unfolding resolve_backend archival_backend
resolve_backend-pruned method = ground arith

choose_backend-archival :
    (json : Json) (r : Router) (method body : Text)
    → (is_archival_backend (choose_backend json r method body)
        ≡ wants_archival json r.height_tracker method body)
      × ((is_archival_backend (choose_backend json r method body) ≡ false)
          → choose_backend json r method body ≡ resolve_backend method)
unfolding choose_backend
choose_backend-archival json r method body =
    let (pruned, archival) = resolve_backend-pruned method in
    elim (Bool-cases (wants_archival json r.height_tracker method body)) [
      | inl p ↦ rw p (archival, λ h. absurd (ground arith))
      | inr q ↦ rw q (pruned, λ _. refl)
    ]

-- `Enabled` adds nothing to `IsArchival`.
wants_archival-some :
    (json : Json) (head window : ℤ) (method body : Text)
    → let ht : HeightTracker = record { head_height = head; pruning_window = window } in
      wants_archival json (some ht) method body ≡ is_archival ht (extract_height json method body)
unfolding wants_archival enabled is_archival
wants_archival-some json head window method body = ground arith

module _ (fl : Float) (json : Json) (d : Draw) (r : Router) where
  -- A request with a body that is routed has the method that its body names, and the backend that
  -- belongs to this method.
  route-Names :
      (body : Text) {decision : RouteDecision}
      → 0 < length body
      → (route fl json d body r).0 ≡ ok decision
      → Names json body decision.method
        × (decision.backend ≡ choose_backend json r decision.method body)
  unfolding route route_method
  route-Names body {decision} h e = elim (Bool-cases (length body == 0)) [
    | inl p ↦ absurd (ground arith)
    | inr q ↦ named (parse_json_rpc_method json body).1 refl (rw q at e)
  ]
    where
      named :
          (o : Result RouteError Text)
          → (parse_json_rpc_method json body).1 ≡ o
          → (route_method fl json d body o r).0 ≡ ok decision
          → Names json body decision.method
            × (decision.backend ≡ choose_backend json r decision.method body)
      named (err x) p h = absurd (ground arith)
      named (ok m) p h =
          let same : m ≡ decision.method = cc in
          (rw (← same) ((parse_json_rpc_method_iff json body m).0 p), cc)

  -- A request is refused exactly when it has a body that names no method.
  pub route-err_iff :
      (body : Text)
      → ((e : RouteError) × ((route fl json d body r).0 ≡ err e))
        ↔ ((0 < length body) × ((method : Text) → ¬ Names json body method))
  unfolding route route_method
  route-err_iff body = elim (Bool-cases (length body == 0)) [
    | inl p ↦ (λ h. absurd (let q = h.1 in ground arith), λ h. absurd (ground arith))
    | inr q ↦
        rw (q, route)
          (
            λ h. (
              ground arith,
              λ m n.
                  refused m (parse_json_rpc_method json body).1 h
                    ((parse_json_rpc_method_iff json body m).1 n),
            ),
            λ h.
                nameless (parse_json_rpc_method json body).1
                  (λ m e. h.1 m ((parse_json_rpc_method_iff json body m).0 e)),
          )
  ]
    where
      refused :
          (m : Text) (o : Result RouteError Text)
          → ((e : RouteError) × ((route_method fl json d body o r).0 ≡ err e))
          → o ≡ ok m
          → ⊥
      refused m (err x) h p = ground arith
      refused m (ok n) (e, h) p = ground arith

      nameless :
          (o : Result RouteError Text)
          → ((m : Text) → o ≡ ok m → ⊥)
          → (e : RouteError) × ((route_method fl json d body o r).0 ≡ err e)
      nameless (err x) h = (x, refl)
      nameless (ok m) h = absurd (h m refl)

  -- The backend is one of an archival node exactly when the tracker knows the head and the height
  -- that the request names is positive and lies more than the pruning window below the head; else
  -- it is the backend that the method's namespace gives.
  pub route-archival_iff :
      (body : Text) (decision : RouteDecision) (head : ℕ) (window : ℤ)
      → 0 < length body
      → (route fl json d body r).0 ≡ ok decision
      → r.height_tracker ≡ some (record { head_height = pos head; pruning_window = window })
      → head < 2 ^ 63
      → IsInt64 window
      → let height = extract_height json decision.method body in
        Names json body decision.method
        × ((is_archival_backend decision.backend ≡ true) ↔ (
            (pos 0 <ℤ window)
            × (0 < head)
            × (pos 0 <ℤ height)
            × (pos_part height + pos_part window < head)))
        × ((is_archival_backend decision.backend ≡ false)
            → decision.backend ≡ resolve_backend decision.method)
  route-archival_iff body decision head window nonempty e tracker small range =
      let (named, backend) = route-Names body nonempty e in
      let (same, pruned) = choose_backend-archival json r decision.method body in
      (
        named,
        rw (backend, same, tracker, wants_archival-some)
            (is_archival_iff head window _ small range),
        rw backend pruned,
      )
