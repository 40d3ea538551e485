-- ===== src/Cache.antt =====
-- internal/cache/cache.go: which answers are cached, and the operations of a cache.
pub mod Cacheable
pub mod Redis
pub mod Keys
pub mod Served
use da_proxy.Prelude.{ℕ, Bool, true, false, not, List, [], ◌∷◌, Option, none, some, if◌then◌else◌}
use da_proxy.Prelude.Text.{Text, codes, listed}
use da_proxy.Prelude.Int.{ℤ, pos, ltb_ℤ}

abbrev pub cacheable_methods : List Text
cacheable_methods =
    codes "header.GetByHeight"
    ∷ codes "blob.Get"
    ∷ codes "blob.GetAll"
    ∷ codes "blob.GetProof"
    ∷ codes "share.GetEDS"
    ∷ codes "share.GetSharesByNamespace"
    ∷ codes "share.GetNamespaceData"
    ∷ codes "block"
    ∷ codes "block_results"
    ∷ codes "validators"
    ∷ codes "commit"
    ∷ codes "header"
    ∷ []

abbrev pub non_cacheable_methods : List Text
non_cacheable_methods =
    codes "header.NetworkHead"
    ∷ codes "header.SyncState"
    ∷ codes "state.Balance"
    ∷ codes "status"
    ∷ codes "health"
    ∷ codes "net_info"
    ∷ codes "node.Info"
    ∷ codes "broadcast_tx_sync"
    ∷ codes "broadcast_tx_async"
    ∷ codes "broadcast_tx_commit"
    ∷ codes "blob.Submit"
    ∷ codes "state.SubmitTx"
    ∷ codes "state.Transfer"
    ∷ codes "state.SubmitPayForBlob"
    ∷ codes "state.CancelUnbondingDelegation"
    ∷ codes "state.BeginRedelegate"
    ∷ codes "state.Undelegate"
    ∷ codes "state.Delegate"
    ∷ []

unfoldable pub is_cacheable : Text → ℤ → Bool
is_cacheable method height =
    if not (ltb_ℤ (pos 0) height)
    then false
    else if listed non_cacheable_methods method
    then false
    else listed cacheable_methods method

-- The interface `Cache`, over a state `C`: `Get` with the method, the height and the parameters, and
-- `Set` with the response as well.
pub record Cache (C : Type 0) : Type 0 where
  pub get : Text → ℤ → Text → C → Option Text × C
  pub put : Text → ℤ → Text → Text → C → C

-- `NoopCache`
abbrev pub noop_cache : Cache Unit
noop_cache = record {
  get = λ method height params c. (none, c);
  put = λ method height params response c. c;
}
