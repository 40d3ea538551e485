-- ===== src/Logging/RingBuffer/History.antt =====
-- The buffer holds the last entries that were pushed, newest first.
use da_proxy.Prelude.Int.{negsuc, pos, ℤ}
use Prim.Native.Nat.{min}
use native.Mathlib.Nat.{mod-eq_of_lt, mod-eq-sub-mod, mod-lt}
use native.Mathlib.Decide.{dec_lt}
use mathlib.Core.List.{reverse-cons, append_assoc, append-nil}
use da_proxy.Prelude.{
  ℕ, zero, suc, ◌+◌, ◌-◌, ◌%◌, ◌<◌, ◌≤◌, ◌≡◌, refl, sym, ap, ◌∙◌, ◌≢◌, ◌⊎◌, inl, inr, false, List,
  [], ◌∷◌, ◌++◌, ◌==◌, leb, if◌then◌else◌, get_elem?, set, length, take, drop, reverse, arith,
  get_elem?-set_self, get_elem?-set_ne, length-reverse, length-set, length-replicate,
  drop_of_get_elem?, get_elem?_total,
}
use da_proxy.Logging.RingBuffer.{RingBuffer, new_ring_buffer, push, walk, clamp_limit, entries}

-- The index `k` places behind `head`, for `k` up to `cap`.
abbrev behind : ℕ → ℕ → ℕ → ℕ
behind cap head k = if leb k head then head - k else head + cap - k

mod_cases :
    (n cap : ℕ) → n < cap + cap → ((n < cap) × (n % cap ≡ n)) ⊎ ((cap ≤ n) × (n % cap ≡ n - cap))
mod_cases n cap h = elim (dec_lt n cap) [
  | yes p ↦ inl (p, mod-eq_of_lt p)
  | no q ↦ inr (
    omega arith,
    mod-eq-sub-mod {n = n} {m = cap} (omega arith)
        ∙ mod-eq_of_lt {n = n - cap} {m = cap} (omega arith),
  )
]

-- `(idx - 1 + cap) % cap` is one place further behind.
back_step :
    (cap head k : ℕ)
    → head < cap
    → k < cap
    → (behind cap head k + cap - 1) % cap ≡ behind cap head (suc k)
back_step cap head k h j =
    ground (arith, mod_cases (head - k + cap - 1) cap, mod_cases (head + cap - k + cap - 1) cap)

-- After a push the new place of the head is one behind the old.
behind-next :
    (cap head k : ℕ)
    → head < cap
    → k < cap
    → behind cap ((head + 1) % cap) (suc k) ≡ behind cap head k
behind-next cap head k h j = ground (arith, mod_cases (head + 1) cap)

behind_bounds :
    (cap head k : ℕ)
    → head < cap
    → k < cap
    → (behind cap head k < cap) × (0 < k → behind cap head k ≢ head)
behind_bounds cap head k h j = ground arith

-- The walk starts one place behind the head.
first : (cap head : ℕ) → 0 < cap → head < cap → (head + cap - 1) % cap ≡ behind cap head 1
first cap head p h = ground (arith, mod_cases (head + cap - 1) cap)

-- The number of entries that a limit asks for, of `kept` ones.
abbrev asked_of : ℤ → ℕ → ℕ
asked_of (negsuc n) kept = kept
asked_of (pos n) kept = if n == 0 then kept else min n kept

clamp_limit-asked_of : (limit : ℤ) (size : ℕ) → clamp_limit limit size ≡ asked_of limit size
unfolding clamp_limit
clamp_limit-asked_of (pos n) size = ground arith
clamp_limit-asked_of (negsuc n) size = ground arith

clamp_limit-le : (limit : ℤ) (size : ℕ) → clamp_limit limit size ≤ size
unfolding clamp_limit
clamp_limit-le (pos n) size = ground arith
clamp_limit-le (negsuc n) size = ground arith

clamp_zero : (limit : ℤ) → clamp_limit limit 0 ≡ 0
clamp_zero limit = omega (arith, clamp_limit-le limit 0)

ne_zero : {n : ℕ} → 0 < n → (n == 0) ≡ false
ne_zero {n} h = ground arith

module _ {A : Type 0} where
  -- `hist` lists all entries that were pushed, newest first.
  pub record Keeps (hist : List A) (rb : RingBuffer A) : Type 0 where
    pub cap_pos : 0 < rb.cap
    pub storage : length rb.entries ≡ rb.cap
    pub head_in : rb.head < rb.cap
    pub sized : rb.size ≡ min (length hist) rb.cap
    pub recent :
        (k : ℕ)
        → k < rb.size
        → get_elem? rb.entries (behind rb.cap rb.head (suc k)) ≡ get_elem? hist k

  pub new_ring_buffer-Keeps :
      (zero_entry : A) (capacity : ℕ)
      → 0 < capacity
      → Keeps [] (new_ring_buffer zero_entry capacity)
  unfolding new_ring_buffer
  new_ring_buffer-Keeps zero_entry capacity h = record {
    cap_pos = h;
    storage = length-replicate capacity zero_entry;
    head_in = h;
    sized = omega arith;
    recent = λ k p. absurd (omega arith);
  }

  -- A push keeps the history up to date and stays within the storage.
  pub push-Keeps :
      (entry : A) {hist : List A} {rb : RingBuffer A}
      → Keeps hist rb
      → Keeps (entry ∷ hist) (push entry rb)
  unfolding push
  push-Keeps entry {hist} {rb} v = record {
    cap_pos = v.cap_pos;
    storage = length-set rb.entries rb.head entry ∙ v.storage;
    head_in = mod-lt (rb.head + 1) v.cap_pos;
    sized = ground arith;
    recent = λ k p.
        rw (behind-next rb.cap rb.head k v.head_in (ground arith))
          (pushed k (ground arith) (ground arith));
  }
    where
      pushed :
          (k : ℕ)
          → k < rb.cap
          → k < rb.size + 1
          → get_elem? (set rb.entries rb.head entry) (behind rb.cap rb.head k)
            ≡ get_elem? (entry ∷ hist) k
      pushed zero c p =
          let here : behind rb.cap rb.head 0 ≡ rb.head = ground arith in
          rw here (get_elem?-set_self rb.entries rb.head entry (omega arith))
      pushed (suc k) c p =
          let apart = (behind_bounds rb.cap rb.head (suc k) v.head_in c).1 (omega arith) in
          get_elem?-set_ne rb.entries rb.head (behind rb.cap rb.head (suc k)) entry
            (λ e. apart (sym e))
          ∙ v.recent k (omega arith)

  walk-take :
      (hist : List A) (rb : RingBuffer A) (n i : ℕ)
      → Keeps hist rb
      → i + n ≤ rb.size
      → walk rb.entries rb.cap n (behind rb.cap rb.head (suc i)) ≡ take n (drop i hist)
  unfolding walk
  walk-take hist rb zero i v h = refl
  walk-take hist rb (suc zero) i v h =
      let (entry, at, _) = get_elem?_total hist i (omega arith) in
      rw (v.recent i (omega arith) ∙ at, walk, drop_of_get_elem? hist i at)
  walk-take hist rb (suc (suc n)) i v h =
      let (entry, at, _) = get_elem?_total hist i (omega arith) in
      let step = back_step rb.cap rb.head (suc i) v.head_in (omega arith) in
      rw (v.recent i (omega arith) ∙ at, walk, drop_of_get_elem? hist i at)
        (ap (◌∷◌ entry) (
          ap (λ (j : ℕ). walk rb.entries rb.cap (suc n) j) step
          ∙ walk-take hist rb (suc n) (suc i) v (omega arith)))

  entries-Keeps :
      (hist : List A) (rb : RingBuffer A) (limit : ℤ)
      → Keeps hist rb
      → entries limit rb ≡ take (clamp_limit limit rb.size) hist
  unfolding entries
  entries-Keeps hist rb limit v = elim (dec_lt 0 rb.size) [
    | no q ↦ let e : rb.size ≡ 0 = omega arith in simp (e, clamp_zero limit)
    | yes q ↦
        rw (ne_zero q, first rb.cap rb.head v.cap_pos v.head_in)
          (walk-take hist rb (clamp_limit limit rb.size) 0 v
            (omega (arith, clamp_limit-le limit rb.size)))
  ]

  -- Pushes one after another, the oldest first.
  abbrev pub push_all : List A → RingBuffer A → RingBuffer A
  push_all [] rb = rb
  push_all (x ∷ xs) rb = push_all xs (push x rb)

  push_all-Keeps :
      (xs hist : List A) (rb : RingBuffer A)
      → Keeps hist rb
      → Keeps (reverse xs ++ hist) (push_all xs rb)
  push_all-Keeps [] hist rb v = v
  push_all-Keeps (x ∷ xs) hist rb v =
      rw (reverse-cons, append_assoc) (push_all-Keeps xs (x ∷ hist) (push x rb) (push-Keeps x v))

  cap-push_all : (xs : List A) (rb : RingBuffer A) → (push_all xs rb).cap ≡ rb.cap
  unfolding push
  cap-push_all [] rb = refl
  cap-push_all (x ∷ xs) rb = cap-push_all xs (push x rb)

  -- A buffer of a positive capacity answers with the entries that were pushed last, newest first: where the limit is positive, as many as it says,
  -- if as many are kept, and else all that are kept; these are the last `capacity`.
  pub entries-push_all :
      (zero_entry : A) (capacity : ℕ) (xs : List A) (limit : ℤ)
      → 0 < capacity
      → let kept = min (length xs) capacity in
        entries limit (push_all xs (new_ring_buffer zero_entry capacity))
        ≡ take
            (elim limit [ negsuc n ↦ kept | pos n ↦ if n == 0 then kept else min n kept ])
            (reverse xs)
  unfolding new_ring_buffer
  entries-push_all zero_entry capacity xs limit h =
      let rb = push_all xs (new_ring_buffer zero_entry capacity) in
      let v : Keeps (reverse xs) rb =
        rw append-nil at (push_all-Keeps xs [] _ (new_ring_buffer-Keeps zero_entry capacity h)) in
      let sized : rb.size ≡ min (length xs) capacity = omega (
        arith,
        v.sized,
        length-reverse xs,
        cap-push_all xs (new_ring_buffer zero_entry capacity),
      ) in
      entries-Keeps (reverse xs) rb limit v
      ∙ (ap (λ n. take (clamp_limit limit n) (reverse xs)) sized
          ∙ (ap (λ n. take n (reverse xs)) (clamp_limit-asked_of limit (min (length xs) capacity))
              ∙ asked_cases limit (min (length xs) capacity)))
    where
      asked_cases :
          (l : ℤ) (kept : ℕ)
          → take (asked_of l kept) (reverse xs)
            ≡ take
                (elim l [ negsuc n ↦ kept | pos n ↦ if n == 0 then kept else min n kept ])
                (reverse xs)
      asked_cases (pos n) kept = refl
      asked_cases (negsuc n) kept = refl
