-- ===== src/Logging/RingBuffer/Subscribers.antt =====
-- Subscribers: nothing is sent on a closed channel, and what a subscriber receives.
use mathlib.Core.List.{append_assoc, append-nil}
use da_proxy.Prelude.{
  ℕ, ◌+◌, ◌<◌, ◌≤◌, ◌≡◌, refl, sym, ap, ◌∙◌, ◌≢◌, true, false, List, [], ◌∷◌, ◌++◌, some, Memᴰ,
  ◌==◌, ltb, map, Bool-cases, length, length-append, take, take_of_le, arith, inl, inr, ==_iff,
}
use da_proxy.Logging.RingBuffer.{
  Subscriber, RingBuffer, channel_capacity, new_ring_buffer, notify, push, subscribe, unsubscribe,
  is_in, cancel,
}
use da_proxy.Logging.RingBuffer.History.{push_all}

take_exact {ℓ} : {A : Type ℓ} (xs ys : List A) → take (length xs) (xs ++ ys) ≡ xs
take_exact [] ys = refl
take_exact (x ∷ xs) ys = ap (◌∷◌ x) (take_exact xs ys)

is_in-Memᴰ : (n : ℕ) (ms : List ℕ) → is_in n ms ≡ true → Memᴰ n ms
unfolding is_in
is_in-Memᴰ n [] e = absurd (ground arith)
is_in-Memᴰ n (m ∷ ms) e = elim (Bool-cases (m == n)) [
  | inl p ↦ Memᴰ.head (sym ((==_iff m n).0 p))
  | inr q ↦ Memᴰ.tail (is_in-Memᴰ n ms (ground (arith, q, e)))
]

module _ {A : Type 0} where
  -- Subscribers have channels that were made and are not closed, and that hold no more than fits.
  pub record IsOpen (rb : RingBuffer A) : Type 0 where
    pub live :
        (s : Subscriber A)
        → Memᴰ s rb.subscribers
        → (s.channel < rb.next_channel)
          × (length s.waiting ≤ channel_capacity)
          × ((n : ℕ) → Memᴰ n rb.closed → s.channel ≢ n)
    pub past : (n : ℕ) → Memᴰ n rb.closed → n < rb.next_channel

  notify-live :
      (entry : A) (s : Subscriber A)
      → length s.waiting ≤ channel_capacity
      → ((notify entry s).channel ≡ s.channel)
        × (length (notify entry s).waiting ≤ channel_capacity)
  unfolding notify
  notify-live entry s h = ground (arith, length-append s.waiting (entry ∷ []))

  map-Memᴰ :
      (f : Subscriber A → Subscriber A) (ss : List (Subscriber A)) {t : Subscriber A}
      → Memᴰ t (map f ss)
      → (s : Subscriber A) × Memᴰ s ss × (t ≡ f s)
  map-Memᴰ f [] m = elim m [ ]
  map-Memᴰ f (s ∷ ss) (Memᴰ.head e) = (s, Memᴰ.head refl, e)
  map-Memᴰ f (s ∷ ss) (Memᴰ.tail m) = let (r, n, e) = map-Memᴰ f ss m in (r, Memᴰ.tail n, e)

  -- A push sends on open channels only, and none of them holds more than its capacity.
  push-IsOpen : (entry : A) (rb : RingBuffer A) → IsOpen rb → IsOpen (push entry rb)
  unfolding push
  push-IsOpen entry rb v = record {
    live = λ t m.
        (let (s, n, e) = map-Memᴰ (notify entry) rb.subscribers m in
          let (made, fits, apart) = v.live s n in
          let (same, fits') = notify-live entry s fits in rw e (rw same (made, fits', apart)));
    past = v.past;
  }

  unsubscribe-Memᴰ :
      (channel : ℕ) (ss : List (Subscriber A)) {s : Subscriber A}
      → Memᴰ s (unsubscribe channel ss)
      → Memᴰ s ss × (s.channel ≢ channel)
  unfolding unsubscribe
  unsubscribe-Memᴰ channel [] m = elim m [ ]
  unsubscribe-Memᴰ channel (t ∷ ss) {s} m = elim (Bool-cases (t.channel == channel)) [
    | inl p ↦
        let (n, q) = unsubscribe-Memᴰ channel ss (rw (p, unsubscribe) at m) in (Memᴰ.tail n, q)
    | inr q ↦ kept q (unsubscribe-Memᴰ channel ss) (rw (q, unsubscribe) at m)
  ]
    where
      kept :
          (t.channel == channel) ≡ false
          → (Memᴰ s (unsubscribe channel ss) → Memᴰ s ss × (s.channel ≢ channel))
          → Memᴰ s (t ∷ unsubscribe channel ss)
          → Memᴰ s (t ∷ ss) × (s.channel ≢ channel)
      kept q rest (Memᴰ.head e) = (Memᴰ.head e, rw e (λ r. ground (arith, q, r)))
      kept q rest (Memᴰ.tail n) = let (o, r) = rest n in (Memᴰ.tail o, r)

  subscribe-IsOpen : (rb : RingBuffer A) → IsOpen rb → IsOpen (subscribe rb).1
  unfolding subscribe
  subscribe-IsOpen rb v = record {
    live = λ s m. fresh_or_old s m;
    past = λ n m. omega (arith, v.past n m);
  }
    where
      fresh_or_old :
          (s : Subscriber A)
          → Memᴰ s (record { channel = rb.next_channel; waiting = [] } ∷ rb.subscribers)
          → (s.channel < rb.next_channel + 1)
            × (length s.waiting ≤ channel_capacity)
            × ((n : ℕ) → Memᴰ n rb.closed → s.channel ≢ n)
      fresh_or_old s (Memᴰ.head e) =
          rw e (omega arith, omega arith, λ n m q. omega (arith, v.past n m, q))
      fresh_or_old s (Memᴰ.tail m) =
          let (made, fits, apart) = v.live s m in (omega arith, fits, apart)

  cancel-IsOpen :
      (channel : ℕ) (rb rb' : RingBuffer A)
      → IsOpen rb
      → channel < rb.next_channel
      → cancel channel rb ≡ some rb'
      → IsOpen rb'
  unfolding cancel
  cancel-IsOpen channel rb rb' v made e = elim (Bool-cases (is_in channel rb.closed)) [
    | inl p ↦ absurd (let q = rw p at e in ground arith)
    | inr q ↦ rw (← some_eq (rw q at e)) (record {
      live = λ s m.
          (let (n, apart) = unsubscribe-Memᴰ channel rb.subscribers m in
            let (old, fits, others) = v.live s n in (old, fits, λ k c. closing s apart others k c));
      past = λ n c. past_or_now n c;
    })
  ]
    where
      some_eq : {x y : RingBuffer A} → some x ≡ some y → x ≡ y
      some_eq q = cc

      closing :
          (s : Subscriber A)
          → s.channel ≢ channel
          → ((n : ℕ) → Memᴰ n rb.closed → s.channel ≢ n)
          → (k : ℕ) → Memᴰ k (channel ∷ rb.closed)
          → s.channel ≢ k
      closing s apart others k (Memᴰ.head e) = rw e apart
      closing s apart others k (Memᴰ.tail m) = others k m

      past_or_now : (n : ℕ) → Memᴰ n (channel ∷ rb.closed) → n < rb.next_channel
      past_or_now n (Memᴰ.head e) = omega (arith, e)
      past_or_now n (Memᴰ.tail m) = v.past n m

  -- What the calls on a buffer can make of it. A subscription is cancelled only while it lasts.
  pub data Reaches (rb : RingBuffer A) : RingBuffer A → Type 0 where
    start : Reaches rb rb
    pushed : (entry : A) {r : RingBuffer A} → Reaches rb r → Reaches rb (push entry r)
    subscribed : {r : RingBuffer A} → Reaches rb r → Reaches rb (subscribe r).1
    cancelled :
        {r r' : RingBuffer A} (s : Subscriber A)
        → Reaches rb r
        → Memᴰ s r.subscribers
        → cancel s.channel r ≡ some r'
        → Reaches rb r'

  Reaches-IsOpen : {rb r : RingBuffer A} → IsOpen rb → Reaches rb r → IsOpen r
  Reaches-IsOpen v Reaches.start = v
  Reaches-IsOpen v (Reaches.pushed entry {r} t) = push-IsOpen entry r (Reaches-IsOpen v t)
  Reaches-IsOpen v (Reaches.subscribed {r} t) = subscribe-IsOpen r (Reaches-IsOpen v t)
  Reaches-IsOpen v (Reaches.cancelled {r} {r'} s t m e) =
      let w = Reaches-IsOpen v t in cancel-IsOpen s.channel r r' w (w.live s m).0 e

  cancel-live :
      (r : RingBuffer A) (s : Subscriber A)
      → IsOpen r
      → Memᴰ s r.subscribers
      → (r' : RingBuffer A) × (cancel s.channel r ≡ some r')
  unfolding cancel
  cancel-live r s v m = elim (Bool-cases (is_in s.channel r.closed)) [
    | inl p ↦ absurd ((v.live s m).2 s.channel (is_in-Memᴰ s.channel r.closed p) refl)
    | inr q ↦ rw q (_, refl)
  ]

  -- However a new buffer is pushed to, subscribed to and unsubscribed from: no channel of a
  -- subscriber is closed or holds more than 100 entries, and no cancellation of a subscription that
  -- lasts closes a channel for the second time.
  pub Reaches-new_ring_buffer :
      (zero_entry : A) (capacity : ℕ) {r : RingBuffer A} (s : Subscriber A)
      → Reaches (new_ring_buffer zero_entry capacity) r
      → Memᴰ s r.subscribers
      → (¬ Memᴰ s.channel r.closed)
        × (length s.waiting ≤ channel_capacity)
        × ((r' : RingBuffer A) × (cancel s.channel r ≡ some r'))
  unfolding new_ring_buffer
  Reaches-new_ring_buffer zero_entry capacity {r} s t m =
      let v = Reaches-IsOpen (record { live = λ s m. elim m [ ]; past = λ n m. elim m [ ] }) t in
      let (made, fits, apart) = v.live s m in
      (λ closed. apart s.channel closed refl, fits, cancel-live r s v m)

  notify_all : List A → Subscriber A → Subscriber A
  notify_all [] s = s
  notify_all (x ∷ xs) s = notify_all xs (notify x s)

  subscribers-push_all :
      (xs : List A) (s : Subscriber A) (ss : List (Subscriber A)) (rb : RingBuffer A)
      → rb.subscribers ≡ s ∷ ss
      → (rest : List (Subscriber A)) × ((push_all xs rb).subscribers ≡ notify_all xs s ∷ rest)
  unfolding push notify_all
  subscribers-push_all [] s ss rb e = (ss, e)
  subscribers-push_all (x ∷ xs) s ss rb e =
      subscribers-push_all xs (notify x s) (map (notify x) ss) (push x rb) (ap (map (notify x)) e)

  take-full : (n : ℕ) (ws ys zs : List A) → length ws ≡ n → take n (ws ++ ys) ≡ take n (ws ++ zs)
  take-full n ws ys zs e = rw (← e) (take_exact ws ys ∙ sym (take_exact ws zs))

  take-notify :
      (x : A) (s : Subscriber A) (xs : List A)
      → length s.waiting ≤ channel_capacity
      → take channel_capacity ((notify x s).waiting ++ xs)
        ≡ take channel_capacity (s.waiting ++ x ∷ xs)
  unfolding notify
  take-notify x s xs h = elim (Bool-cases (ltb (length s.waiting) channel_capacity)) [
    | inl p ↦ rw (p, notify) (ap (take channel_capacity) (append_assoc s.waiting (x ∷ []) xs))
    | inr q ↦ rw (q, notify) (take-full channel_capacity s.waiting xs (x ∷ xs) (ground (arith, q)))
  ]

  waiting-notify_all :
      (xs : List A) (s : Subscriber A)
      → length s.waiting ≤ channel_capacity
      → (notify_all xs s).waiting ≡ take channel_capacity (s.waiting ++ xs)
  unfolding notify_all
  waiting-notify_all [] s h = rw append-nil (sym (take_of_le s.waiting channel_capacity h))
  waiting-notify_all (x ∷ xs) s h =
      waiting-notify_all xs (notify x s) (notify-live x s h).1 ∙ take-notify x s xs h

  -- A new subscriber that has not yet read has the first hundred of the entries that were pushed
  -- since, in their order; the later ones are dropped.
  push_all-subscribe :
      (rb : RingBuffer A) (xs : List A)
      → (s : Subscriber A) × (rest : List (Subscriber A)) × ((push_all xs
            (subscribe rb).1).subscribers
          ≡ s ∷ rest)
        × (s.waiting ≡ take channel_capacity xs)
  unfolding subscribe
  push_all-subscribe rb xs =
      let s : Subscriber A = record { channel = rb.next_channel; waiting = [] } in
      let (rest, e) = subscribers-push_all xs s rb.subscribers (subscribe rb).1 refl in
      (notify_all xs s, rest, e, waiting-notify_all xs s (omega arith))
