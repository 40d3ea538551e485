-- ===== src/Proxy/Router/Namespaces.antt =====
-- Which methods go to celestia-node.
use da_proxy.Proxy.Router.{app_rpc, da_namespaces, node_rpc, resolve_backend, extract_namespace}
use da_proxy.Prelude.{
  ◌≡◌, refl, ◌↔◌, ◌⊎◌, inl, inr, List, [], ◌∷◌, ◌++◌, Option, none, some, Memᴰ, All, arith,
}
use da_proxy.Prelude.Text.{
  Text, Lacks, cut_at, cut_at-IsCut, IsCut, cut_at-append, cut_at_of_Lacks, listed-Memᴰ,
  listed_of_Memᴰ,
}

-- The method is the namespace, or begins with the namespace and a dot.
abbrev pub IsIn : Text → Text → Type 0
IsIn method ns = (method ≡ ns) ⊎ ((rest : Text) × (method ≡ ns ++ b'.' ∷ rest))

IsIn-extract_namespace : (method : Text) → IsIn method (extract_namespace method)
unfolding extract_namespace
IsIn-extract_namespace method = go (cut_at b'.' method) (cut_at-IsCut b'.' method)
  where
    go :
        (o : Option (Text × Text))
        → IsCut b'.' method o
        → IsIn method (elim o [ none ↦ method | some (before, _) ↦ before ])
    go none h = inl refl
    go (some (before, from)) (e, l, (rest, f)) = inr (rest, rw (← f) e)

extract_namespace_of_IsIn :
    (method ns : Text) → Lacks b'.' ns → IsIn method ns → extract_namespace method ≡ ns
unfolding extract_namespace
extract_namespace_of_IsIn method ns l (inl e) =
    rw (e, extract_namespace, cut_at_of_Lacks b'.' ns l) e
extract_namespace_of_IsIn method ns l (inr (rest, e)) =
    rw (e, extract_namespace, cut_at-append b'.' ns rest l)

All-Memᴰ : (P : Text → Type 0) (ts : List Text) {t : Text} → All P ts → Memᴰ t ts → P t
All-Memᴰ P [] h m = elim m [ ]
All-Memᴰ P (t ∷ ts) (p, h) (Memᴰ.head e) = rw e p
All-Memᴰ P (t ∷ ts) (p, h) (Memᴰ.tail m) = All-Memᴰ P ts h m

-- A method is routed to celestia-node exactly when it is one of the seven DA namespaces, or one of
-- them followed by a dot and a name; every other method is routed to celestia-app.
pub resolve_backend_iff :
    (method : Text)
    → ((resolve_backend method ≡ node_rpc) ↔ ((ns : Text) × Memᴰ ns da_namespaces × IsIn method ns))
      × ((resolve_backend method ≡ node_rpc) ⊎ (resolve_backend method ≡ app_rpc))
unfolding resolve_backend
resolve_backend_iff method = ((to, from), either)
  where
    to : resolve_backend method ≡ node_rpc → (ns : Text) × Memᴰ ns da_namespaces × IsIn method ns
    to e = (
      extract_namespace method,
      listed-Memᴰ da_namespaces (extract_namespace method) (ground arith),
      IsIn-extract_namespace method,
    )

    from :
        ((ns : Text) × Memᴰ ns da_namespaces × IsIn method ns) → resolve_backend method ≡ node_rpc
    from (ns, m, i) = rw (
      resolve_backend,
      extract_namespace_of_IsIn method ns (All-Memᴰ (Lacks b'.') da_namespaces (omega arith) m) i,
      listed_of_Memᴰ da_namespaces ns m,
    )

    either : (resolve_backend method ≡ node_rpc) ⊎ (resolve_backend method ≡ app_rpc)
    either = ground arith
