-- ===== src/Tests/Health.antt =====
-- A round of health checks.
use da_proxy.Prelude.{
  ℕ, ◌+◌, ◌<◌, ◌≡◌, ◌↔◌, refl, true, false, List, [], ◌∷◌, Memᴰ, none, some, ok, arith,
}
use da_proxy.Prelude.Text.{codes}
use da_proxy.Prelude.Int.{ℤ, pos, pos_part, ◌<ℤ◌, IsInt64}
use da_proxy.Proxy.Height.{HeightTracker, new_height_tracker, is_archival}
use da_proxy.Proxy.Router.{node_rpc}
use da_proxy.Proxy.Health.{Net, answered, HealthChecker, new_health_checker, check_all, rounds}
use da_proxy.Proxy.Health.Heads.{IsScanner, rounds-is_archival_iff}
use da_proxy.Admin.{json}
use da_proxy.Admin.Backends.{BackendInfo, handle_backends}
use da_proxy.Admin.Backends.Names.{check_of}
use da_proxy.Admin.Backends.Shown.{IsShown, handle_backends-check_all}
use da_proxy.Tests.Data.{backends, numbers}

-- Every node answers with the head 1000.
abbrev steady : Net ℕ
steady = record {
  get = λ url. answered 200 [];
  post = λ url body. answered 200 (codes "1000");
  dial = λ addr. none;
  latency = λ url. 5;
  has_error = λ body. some false;
  latest_block_height = λ body. some body;
  scan_int = λ text. some (pos 1000);
}

steady-IsScanner : IsScanner steady
steady-IsScanner t z e =
    let q : z ≡ pos 1000 = cc in rw q (record { below = omega arith; above = omega arith })

window-IsInt64 : IsInt64 (pos 100)
window-IsInt64 = record { below = omega arith; above = omega arith }

rounds-is_archival_iff_example :
    (ht : HeightTracker) × ((rounds
        ((5, steady) ∷ [])
        (new_health_checker backends (some (new_height_tracker (pos 100))))).height_tracker
      ≡ some ht)
    × (head : ℕ) × (ht.head_height ≡ pos head)
    × ((height : ℤ)
        → (is_archival ht height ≡ true) ↔ (
            (pos 0 <ℤ pos 100)
            × (0 < head)
            × (pos 0 <ℤ height)
            × (pos_part height + pos_part (pos 100) < head)))
rounds-is_archival_iff_example =
    rounds-is_archival_iff backends (pos 100) ((5, steady) ∷ []) window-IsInt64
      (steady-IsScanner, tt)

abbrev checker : HealthChecker ℕ
checker = new_health_checker backends none

handle_backends-check_all_example :
    (infos : List BackendInfo) × (info : BackendInfo) × (handle_backends numbers
        (some backends)
        (some (check_all steady 5 checker).statuses)
        none
        none
        (codes "1h")
        9
      ≡ ok (json 200 infos))
    × Memᴰ info infos
    × IsShown node_rpc 1
        (codes "http://node2")
        (check_of steady node_rpc (codes "http://node2")).healthy
        info
unfolding new_health_checker
handle_backends-check_all_example =
    handle_backends-check_all numbers steady 5 9 checker none none (codes "1h") node_rpc 1
      (codes "http://node2") refl
