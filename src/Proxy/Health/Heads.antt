-- ===== src/Proxy/Health/Heads.antt =====
-- internal/proxy/health.go: the head that the tracker knows, and the status of an endpoint.
use da_proxy.Prelude.{
  ℕ, ◌+◌, ◌<◌, ◌^◌, ◌≡◌, ◌↔◌, refl, sym, true, List, [], ◌∷◌, Option, none, some, ◌==◌, length,
  arith, Bool-cases, inl, inr,
}
use da_proxy.Prelude.Text.{Text}
use da_proxy.Prelude.Int.{ℤ, pos, negsuc, pos_part, ltb_ℤ, ◌<ℤ◌, IsInt64}
use da_proxy.Proxy.Height.{HeightTracker, new_height_tracker, set_head, enabled, is_archival}
use da_proxy.Proxy.Height.Archival.{is_archival_iff}
use da_proxy.Proxy.Router.{BackendsConfig}
use da_proxy.Proxy.Health.{
  Net, Reply, refused, answered, HealthChecker, new_health_checker, polled, decoded, head_reply,
  poll_head_height, poll_if_enabled, check_all, rounds,
}

-- `Sscanf` into an int64.
abbrev pub IsScanner : {F : Type 0} → Net F → Type 0
IsScanner net = (t : Text) (z : ℤ) → net.scan_int t ≡ some z → IsInt64 z

abbrev pub AllScan : {F : Type 0} → List (ℕ × Net F) → Type 0
AllScan [] = Unit
AllScan ((now, net) ∷ ns) = IsScanner net × AllScan ns

-- A head is 0 as long as it is unknown, and an int64 that is not negative; the window stays.
pub record IsTracked (window : ℤ) (ht : HeightTracker) : Type 0 where
  pub head : ℕ
  pub head_eq : ht.head_height ≡ pos head
  pub small : head < 2 ^ 63
  pub window_eq : ht.pruning_window ≡ window

tracker_eq :
    (ht : HeightTracker) (a b : ℤ)
    → ht.head_height ≡ a
    → ht.pruning_window ≡ b
    → ht ≡ record { head_height = a; pruning_window = b }
tracker_eq ht a b e f = rw (sym e, sym f) refl

-- A checker whose tracker is there and in order.
abbrev IsOrdered : ℤ → Option HeightTracker → Type 0
IsOrdered window o = (ht : HeightTracker) × (o ≡ some ht) × IsTracked window ht

module _ {F : Type 0} (net : Net F) (window : ℤ) where
  polled-IsTracked :
      (o : Option ℤ) (ht : HeightTracker)
      → ((z : ℤ) → o ≡ some z → IsInt64 z)
      → IsTracked window ht
      → IsTracked window (polled net o ht)
  unfolding set_head
  polled-IsTracked none ht s t = t
  polled-IsTracked (some (negsuc n)) ht s t = elim (Bool-cases (ltb_ℤ (pos 0) (negsuc n))) [
    | inl p ↦ absurd (ground arith)
    | inr q ↦ rw q t
  ]
  polled-IsTracked (some (pos n)) ht s t = elim (Bool-cases (ltb_ℤ (pos 0) (pos n))) [
    | inl p ↦ rw p (record {
      head = n;
      head_eq = refl;
      small = (s (pos n) refl).below;
      window_eq = t.window_eq;
    })
    | inr q ↦ rw q t
  ]

  decoded-IsTracked :
      (o : Option Text) (ht : HeightTracker)
      → IsScanner net
      → IsTracked window ht
      → IsTracked window (decoded net o ht)
  decoded-IsTracked none ht s t = t
  decoded-IsTracked (some text) ht s t = elim (Bool-cases (length text == 0)) [
    | inl p ↦ rw p t
    | inr q ↦ rw q (polled-IsTracked (net.scan_int text) ht (s text) t)
  ]

  head_reply-IsTracked :
      (r : Reply) (ht : HeightTracker)
      → IsScanner net
      → IsTracked window ht
      → IsTracked window (head_reply net r ht)
  head_reply-IsTracked (refused e) ht s t = t
  head_reply-IsTracked (answered code body) ht s t =
      decoded-IsTracked (net.latest_block_height body) ht s t

  poll-IsOrdered :
      (b : BackendsConfig) (o : Option HeightTracker)
      → IsScanner net
      → IsOrdered window o
      → IsOrdered window (poll_if_enabled net b o)
  unfolding poll_head_height
  poll-IsOrdered b none s (ht, e, t) = absurd (cc)
  poll-IsOrdered b (some ht) s (hu, e, t) =
      let q : ht ≡ hu = cc in
      let u : IsTracked window ht = rw q t in
      elim (Bool-cases (enabled ht)) [
        | inl p ↦ (poll_head_height net b ht, rw p refl, head_reply-IsTracked _ ht s u)
        | inr n ↦ (ht, rw n refl, u)
      ]

rounds-IsOrdered :
    {F : Type 0} (window : ℤ) (ns : List (ℕ × Net F)) (h : HealthChecker F)
    → AllScan ns
    → IsOrdered window h.height_tracker
    → IsOrdered window (rounds ns h).height_tracker
unfolding rounds check_all
rounds-IsOrdered window [] h a o = o
rounds-IsOrdered window ((now, net) ∷ ns) h (s, a) o =
    rounds-IsOrdered window ns (check_all net now h) a
      (poll-IsOrdered net window h.backends h.height_tracker s o)

-- After any rounds of checks of a new checker with a new tracker of an int64 window, where Sscanf answers with an int64:
-- the tracker is there, its head is not negative, and a height is archival exactly when the window, the head and the height are
-- positive and the height is more than the window below the head.
pub rounds-is_archival_iff :
    {F : Type 0} (b : BackendsConfig) (window : ℤ) (ns : List (ℕ × Net F))
    → IsInt64 window
    → AllScan ns
    → (ht : HeightTracker) × ((rounds ns
          (new_health_checker b (some (new_height_tracker window)))).height_tracker
        ≡ some ht)
      × (head : ℕ) × (ht.head_height ≡ pos head)
      × ((height : ℤ)
          → (is_archival ht height ≡ true) ↔ (
              (pos 0 <ℤ window)
              × (0 < head)
              × (pos 0 <ℤ height)
              × (pos_part height + pos_part window < head)))
unfolding new_health_checker
rounds-is_archival_iff b window ns w a =
    let new : IsTracked window (new_height_tracker window) = record {
      head = 0;
      head_eq = refl;
      small = omega arith;
      window_eq = refl;
    } in
    let (ht, e, t) = rounds-IsOrdered window ns _ a (new_height_tracker window, refl, new) in
    (
      ht,
      e,
      t.head,
      t.head_eq,
      λ height. archival ht window t.head height t.small w t.head_eq t.window_eq,
    )
  where
    archival :
        (ht : HeightTracker) (window : ℤ) (head : ℕ) (height : ℤ)
        → head < 2 ^ 63
        → IsInt64 window
        → ht.head_height ≡ pos head
        → ht.pruning_window ≡ window
        → (is_archival ht height ≡ true) ↔ (
            (pos 0 <ℤ window)
            × (0 < head)
            × (pos 0 <ℤ height)
            × (pos_part height + pos_part window < head))
    archival ht window head height s w e f =
        let q : ht ≡ record { head_height = pos head; pruning_window = window } =
          tracker_eq ht (pos head) window e f in
        rw q (is_archival_iff head window height s w)
