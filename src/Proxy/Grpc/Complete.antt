-- ===== src/Proxy/Grpc/Complete.antt =====
-- internal/proxy/grpc_proxy.go: a call that succeeds has been answered whole.
use da_proxy.Prelude.{
  ◌≡◌, ◌≢◌, refl, sym, ap, ◌∙◌, List, [], ◌∷◌, ◌++◌, map, Option, none, some, length, ◌==◌,
  Bool-cases, inl, inr,
}
use da_proxy.Prelude.Text.{Text}
use da_proxy.Logging.Entry.{LogEntry}
use da_proxy.Proxy.Float.{Float}
use da_proxy.Proxy.Balancer.{Draw}
use da_proxy.Proxy.Router.{app_grpc, Router, target_url}
use da_proxy.Proxy.Router.Valid.{IsValid, target_url-IsValid, record_backend_latency-IsValid}
use da_proxy.Proxy.Grpc.{
  GrpcError, Round, frame, eof, broken, forward_backend_to_client, forward_client_to_backend, Call,
  Handled, return_error, awaited, grpc_code, entry_of, message_of, failed, concluded, ended, opened,
  dialed, chosen, named, stream_handler,
}

-- The frames of an answer that has come to its end: each was taken by the client, and then `io.EOF` came.
abbrev pub taken : Text → Round
taken payload = frame payload none

abbrev pub IsWhole : List Round → List Text → Type 0
IsWhole rounds sent = (rest : List Round) × (rounds ≡ map taken sent ++ eof ∷ rest)

forward-IsWhole :
    (rounds : List Round)
    → (forward_backend_to_client rounds).result ≡ some none
    → IsWhole rounds (forward_backend_to_client rounds).sent
unfolding forward_backend_to_client
forward-IsWhole [] e = absurd (cc)
forward-IsWhole (eof ∷ rounds) e = (rounds, refl)
forward-IsWhole (broken x ∷ rounds) e = absurd (cc)
forward-IsWhole (frame payload (some x) ∷ rounds) e = absurd (cc)
forward-IsWhole (frame payload none ∷ rounds) e =
    let (rest, p) = forward-IsWhole rounds e in (rest, ap (◌∷◌ (taken payload)) p)

return_error-none : (e c : Option GrpcError) → return_error e c ≡ none → e ≡ none
return_error-none none c p = refl
return_error-none (some x) c p = absurd (cc)

failed_ne : (x : GrpcError) (r : Router) (h : Handled) → some (failed x r) ≡ some h → h.error ≢ none
failed_ne x r h e n =
    let f : failed x r ≡ h = cc in let g : some x ≡ none = ap (λ h. h.error) f ∙ n in absurd (cc)

module _ (fl : Float) (call : Call) where
  -- What is known of a call that has succeeded: the answer is whole, there is an entry of it, of status 0, and the
  -- router is valid.
  abbrev pub IsSuccess : Handled → Type 0
  IsSuccess h =
      IsWhole call.backend h.to_client
      × ((e : LogEntry) × (h.pushed ≡ some e) × (e.status_code ≡ 0) × (e.error ≡ []))
      × IsValid h.router

  ended-IsSuccess :
      (method endpoint : Text) (result : Option (Option GrpcError)) (r : Router) (h : Handled)
      → (forward_backend_to_client call.backend).result ≡ result
      → IsValid r
      → ended fl call method endpoint
          (forward_client_to_backend call.client)
          (forward_backend_to_client call.backend)
          result
          r
        ≡ some h
      → h.error ≡ none
      → IsSuccess h
  unfolding entry_of
  ended-IsSuccess method endpoint none r h q v e n = absurd (cc)
  ended-IsSuccess method endpoint (some x) r h q v e n =
      let c2b = forward_client_to_backend call.client in
      let b2c = forward_backend_to_client call.backend in
      let error = return_error x (awaited call.timed_out c2b.result) in
      let f : concluded fl call method endpoint c2b b2c error r ≡ h = cc in
      let z : error ≡ none = ap (λ h. h.error) f ∙ n in
      let y : x ≡ none = return_error-none x (awaited call.timed_out c2b.result) z in
      let whole = forward-IsWhole call.backend (q ∙ ap some y) in
      rw (sym f) (
        whole,
        (entry_of fl call method error, refl, ap grpc_code z, ap message_of z),
        record_backend_latency-IsValid fl app_grpc endpoint call.elapsed v,
      )

  opened-IsSuccess :
      (method endpoint : Text) (error : Option GrpcError) (r : Router) (h : Handled)
      → IsValid r
      → opened fl call method endpoint error r ≡ some h
      → h.error ≡ none
      → IsSuccess h
  opened-IsSuccess method endpoint (some x) r h v e n = absurd (failed_ne x r h e n)
  opened-IsSuccess method endpoint none r h v e n =
      ended-IsSuccess method endpoint (forward_backend_to_client call.backend).result r h refl v e n

  dialed-IsSuccess :
      (method endpoint : Text) (error : Option GrpcError) (r : Router) (h : Handled)
      → IsValid r
      → dialed fl call method endpoint error r ≡ some h
      → h.error ≡ none
      → IsSuccess h
  dialed-IsSuccess method endpoint (some x) r h v e n = absurd (failed_ne _ r h e n)
  dialed-IsSuccess method endpoint none r h v e n =
      opened-IsSuccess method endpoint call.stream_error r h v e n

  chosen-IsSuccess :
      (method : Text) (q : Text × Router) (h : Handled)
      → IsValid q.1
      → chosen fl call method q ≡ some h
      → h.error ≡ none
      → IsSuccess h
  chosen-IsSuccess method (endpoint, r) h v e n = elim (Bool-cases (length endpoint == 0)) [
    | inl p ↦ absurd (failed_ne _ r h (rw p at e) n)
    | inr p ↦ dialed-IsSuccess method endpoint call.dial_error r h v (rw p at e) n
  ]

  named-IsSuccess :
      (d : Draw) (method : Option Text) (r : Router) (h : Handled)
      → IsValid r
      → named fl d call method r ≡ some h
      → h.error ≡ none
      → IsSuccess h
  named-IsSuccess d none r h v e n = absurd (failed_ne _ r h e n)
  named-IsSuccess d (some method) r h v e n =
      chosen-IsSuccess method (target_url fl d app_grpc r) h (target_url-IsValid fl d app_grpc v) e
        n

  -- The handler of a gRPC call returns without an error, on a valid router. Then the answer of the backend came to its end, and the client was
  -- given every frame of it, in their order and no other; the sinks were given an entry of status 0 without an error; and the router is
  -- valid still.
  pub stream_handler-IsSuccess :
      (d : Draw) (r : Router) (h : Handled)
      → IsValid r
      → stream_handler fl d call r ≡ some h
      → h.error ≡ none
      → IsSuccess h
  unfolding stream_handler
  stream_handler-IsSuccess d r h v e n = named-IsSuccess d call.full_method r h v e n
