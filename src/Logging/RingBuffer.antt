-- ===== src/Logging/RingBuffer.antt =====
-- internal/logging/ringbuffer.go: a circular buffer of the last entries, and its subscribers.
-- `A` is `LogEntry`; nothing here looks into an entry.
pub mod History
pub mod Subscribers
use da_proxy.Prelude.{
  ℕ, zero, suc, ◌+◌, ◌-◌, ◌%◌, Bool, true, false, ◌||◌, not, List, [], ◌∷◌, ◌++◌, Option, none,
  some, ◌==◌, ltb, if◌then◌else◌, get_elem?, set, length, replicate, map,
}
use da_proxy.Prelude.Int.{ℤ, pos, pos_part, ltb_ℤ}

-- A channel of capacity 100 with what waits in it; its number stands for its address.
pub record Subscriber (A : Type 0) : Type 0 where
  pub channel : ℕ
  pub waiting : List A

pub record RingBuffer (A : Type 0) : Type 0 where
  pub entries : List A
  pub head : ℕ
  pub size : ℕ
  pub cap : ℕ
  pub subscribers : List (Subscriber A)
  -- the number of the next channel that is made
  pub next_channel : ℕ
  -- the channels that are closed
  pub closed : List ℕ

abbrev pub channel_capacity : ℕ
channel_capacity = 100

-- The guard on the argument of `Entries`.
unfoldable pub clamp_limit : ℤ → ℕ → ℕ
clamp_limit limit size =
    if not (ltb_ℤ (pos 0) limit) || ltb_ℤ (pos size) limit then size else pos_part limit

unfoldable pub is_in : ℕ → List ℕ → Bool
is_in n [] = false
is_in n (m ∷ ms) = m == n || is_in n ms

module _ {A : Type 0} where
  unfoldable pub new_ring_buffer : A → ℕ → RingBuffer A
  new_ring_buffer zero_entry capacity = record {
    entries = replicate capacity zero_entry;
    head = 0;
    size = 0;
    cap = capacity;
    subscribers = [];
    next_channel = 0;
    closed = [];
  }

  -- A send that does not block: a full channel drops the entry.
  unfoldable pub notify : A → Subscriber A → Subscriber A
  notify entry s =
      if ltb (length s.waiting) channel_capacity
      then record s { waiting = s.waiting ++ entry ∷ [] }
      else s

  -- A write out of range, which is a panic where the capacity is 0, changes nothing here; the theorems
  -- are about a positive capacity.
  unfoldable pub push : A → RingBuffer A → RingBuffer A
  push entry rb = record rb {
    entries = set rb.entries rb.head entry;
    head = (rb.head + 1) % rb.cap;
    size = if ltb rb.size rb.cap then rb.size + 1 else rb.size;
    subscribers = map (notify entry) rb.subscribers;
  }

  -- The loop of `Entries`, which walks backwards from `idx`.
  unfoldable pub walk : List A → ℕ → ℕ → ℕ → List A
  walk entries cap zero idx = []
  walk entries cap (suc n) idx = elim (get_elem? entries idx) [
    | none ↦ []
    | some entry ↦ entry ∷ walk entries cap n ((idx + cap - 1) % cap)
  ]

  -- `Entries`, newest first.
  unfoldable pub entries : ℤ → RingBuffer A → List A
  entries limit rb =
      if rb.size == 0
      then []
      else walk rb.entries rb.cap (clamp_limit limit rb.size) ((rb.head + rb.cap - 1) % rb.cap)

  unfoldable pub subscribe : RingBuffer A → ℕ × RingBuffer A
  subscribe rb = (
    rb.next_channel,
    record rb {
      subscribers = record { channel = rb.next_channel; waiting = [] } ∷ rb.subscribers;
      next_channel = rb.next_channel + 1;
    },
  )

  -- `delete(rb.subscribers, ch)`
  unfoldable pub unsubscribe : ℕ → List (Subscriber A) → List (Subscriber A)
  unsubscribe channel [] = []
  unsubscribe channel (s ∷ ss) =
      let rest = unsubscribe channel ss in if s.channel == channel then rest else s ∷ rest

  -- What `Subscribe` returns to end a subscription. Closing a channel again is a panic, `none`.
  unfoldable pub cancel : ℕ → RingBuffer A → Option (RingBuffer A)
  cancel channel rb =
      if is_in channel rb.closed
      then none
      else some (record rb {
        subscribers = unsubscribe channel rb.subscribers;
        closed = channel ∷ rb.closed;
      })
