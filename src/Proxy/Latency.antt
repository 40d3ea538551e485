-- ===== src/Proxy/Latency.antt =====
-- internal/proxy/latency.go: the moving average of one endpoint's latency, and its lock-free
-- update by several goroutines.
pub mod Interleaving
use da_proxy.Prelude.{
  ℕ, zero, suc, ◌+◌, ◌%◌, ◌^◌, Bool, ◌&&◌, List, [], ◌∷◌, Option, none, some, ◌==◌, if◌then◌else◌,
  get_elem?, set,
}
use da_proxy.Proxy.Float.{Float}

-- `ewma`: the bits of a float64, and a uint64.
pub record Ewma : Type 0 where
  pub bits : ℕ
  pub count : ℕ

-- `&ewma{}`
abbrev pub fresh : Ewma
fresh = record { bits = 0; count = 0 }

module _ (fl : Float) where
  -- `float64(d.Nanoseconds()) / 1e6`, of a duration that is not negative.
  unfoldable pub sample : ℕ → ℕ
  sample nanoseconds = fl.div (fl.of_int nanoseconds) fl.million

  -- The new value that a round of the loop of `Update` computes from the loaded bits.
  unfoldable pub blend : ℕ → ℕ → ℕ
  blend old s =
      if old == 0 && fl.is_zero old
      then s
      else fl.add (fl.mul fl.ewma_alpha s) (fl.mul fl.ewma_rest old)

  -- `Update` where no other goroutine comes between the load and the swap.
  unfoldable pub update : Ewma → ℕ → Ewma
  update e nanoseconds = record {
    bits = blend e.bits (sample nanoseconds);
    count = (e.count + 1) % 2 ^ 64;
  }

-- Where a goroutine stands in `Update`: before `count.Add`, before `bits.Load`, before the swap
-- with the bits that it loaded, or behind the loop.
pub data Phase : Type 0 where
  entered : Phase
  looping : Phase
  loaded : ℕ → Phase
  returned : Phase

pub record Goroutine : Type 0 where
  pub sample : ℕ
  pub phase : Phase

-- The goroutines that share one `ewma`.
pub record System : Type 0 where
  pub shared : Ewma
  pub goroutines : List Goroutine

module _ (fl : Float) where
  -- One atomic operation of `Update`. The swap succeeds if the bits are still the loaded ones.
  unfoldable pub advance : Ewma → ℕ → Phase → Ewma × Phase
  unfolding blend
  advance e s entered = (record e { count = (e.count + 1) % 2 ^ 64 }, looping)
  advance e s looping = (e, loaded e.bits)
  advance e s (loaded old) =
      if e.bits == old then (record e { bits = blend fl old s }, returned) else (e, looping)
  advance e s returned = (e, returned)

  -- The scheduler lets goroutine `i` make one step.
  unfoldable pub step : ℕ → System → System
  unfolding advance
  step i sys = elim (get_elem? sys.goroutines i) [
    | none ↦ sys
    | some g ↦
        let (e, p) = advance sys.shared g.sample g.phase in
        record { shared = e; goroutines = set sys.goroutines i (record g { phase = p }) }
  ]

  unfoldable pub run : List ℕ → System → System
  unfolding step
  run [] sys = sys
  run (i ∷ schedule) sys = run schedule (step i sys)
