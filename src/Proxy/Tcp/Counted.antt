-- ===== src/Proxy/Tcp/Counted.antt =====
-- internal/proxy/tcp_proxy.go: every connection is counted once.
use da_proxy.Prelude.{
  ℕ, zero, suc, ◌+◌, ◌-◌, ◌||◌, ◌≡◌, ◌⊎◌, refl, Bool, true, false, List, [], ◌∷◌, Option, none,
  some, length, ◌==◌, get_elem?, Memᴰ, Bool-cases, inl, inr, arith, length-append,
}
use da_proxy.Prelude.Text.{Text}
use da_proxy.Proxy.Float.{Float}
use da_proxy.Proxy.Router.{app_p2p, Router, target_url}
use da_proxy.Proxy.Router.Valid.{IsValid, target_url-IsValid, record_backend_latency-IsValid}
use da_proxy.Proxy.Tcp.{
  TcpConn, TcpState, TcpEvent, accepted, asked, dialed, copied, accept_error, closing, remove_at,
  selected, selected_at, select_conn, connected_tcp, connected_at, dial_conn, begin_conn, ended_at,
  end_conn, serve_tcp, tcp_entry,
}

-- The connections that are accepted from here on, before the server returns.
unfoldable pub taken_of : List TcpEvent → Bool → Bool → ℕ
taken_of [] closed returned = 0
taken_of (accepted conn ∷ events) closed false = suc (taken_of events closed false)
taken_of (accepted conn ∷ events) closed true = taken_of events closed true
taken_of (asked i ∷ events) closed returned = taken_of events closed returned
taken_of (dialed i ∷ events) closed returned = taken_of events closed returned
taken_of (copied i ∷ events) closed returned = taken_of events closed returned
taken_of (accept_error ∷ events) closed returned = taken_of events closed (returned || closed)
taken_of (closing ∷ events) closed returned = taken_of events true returned

length-remove_at :
    {A : Type 0} (i : ℕ) (xs : List A) (x : A)
    → get_elem? xs i ≡ some x
    → length (remove_at i xs) + 1 ≡ length xs
length-remove_at i [] x e = absurd (cc)
length-remove_at zero (y ∷ xs) x e = omega arith
length-remove_at (suc i) (y ∷ xs) x e = let h = length-remove_at i xs x e in omega arith

-- Of `n` connections each has a goroutine that has been started, is dialing or is copying, or it was counted as a success or as an error; the successes have their entries; and
-- the router is valid.
pub record IsCounted (n : ℕ) (s : TcpState) : Type 0 where
  pub total :
      s.counters.success
        + s.counters.error
        + (length s.started + length s.dialing + length s.active)
      ≡ n
  pub entries : length s.pushed ≡ s.counters.success
  pub valid : IsValid s.router

later :
    {returned closed : Bool} {e : TcpEvent} {events : List TcpEvent}
    → (returned ≡ true) ⊎ ((closed ≡ true) ⊎ Memᴰ closing events)
    → (returned ≡ true) ⊎ ((closed ≡ true) ⊎ Memᴰ closing (e ∷ events))
later (inl r) = inl r
later (inr (inl p)) = inr (inl p)
later (inr (inr m)) = inr (inr (Memᴰ.tail m))

begin_conn-IsCounted :
    (n : ℕ) (conn : TcpConn) (s : TcpState) → IsCounted n s → IsCounted (n + 1) (begin_conn conn s)
begin_conn-IsCounted n conn s i =
    let t = i.total in record { total = omega arith; entries = i.entries; valid = i.valid }

module _ (fl : Float) where
  -- `s` is the state without the goroutine.
  selected-IsCounted :
      (n : ℕ) (conn : TcpConn) (q : Text × Router) (s : TcpState)
      → IsValid q.1
      → IsCounted n s
      → IsCounted (n + 1) (selected fl conn q s)
  selected-IsCounted n conn (endpoint, r) s v i =
      let t = i.total in
      elim (Bool-cases (length endpoint == 0)) [
        | inl p ↦ rw p (record { total = omega arith; entries = i.entries; valid = v })
        | inr p ↦ rw p (record { total = omega arith; entries = i.entries; valid = v })
      ]

  connected_tcp-IsCounted :
      (n : ℕ) (conn : TcpConn) (endpoint : Text) (s : TcpState)
      → IsCounted n s
      → IsCounted (n + 1) (connected_tcp fl conn endpoint s)
  connected_tcp-IsCounted n conn endpoint s i =
      let t = i.total in
      elim (Bool-cases (conn.dials endpoint)) [
        | inl p ↦ rw p (record { total = omega arith; entries = i.entries; valid = i.valid })
        | inr p ↦ rw p (record { total = omega arith; entries = i.entries; valid = i.valid })
      ]

  selected_at-IsCounted :
      (n k : ℕ) (o : Option TcpConn) (s : TcpState)
      → get_elem? s.started k ≡ o
      → IsCounted n s
      → IsCounted n (selected_at fl k o s)
  selected_at-IsCounted n k none s p i = i
  selected_at-IsCounted n k (some conn) s p i =
      let t = i.total in
      let l = length-remove_at k s.started conn p in
      let less : n - 1 + 1 ≡ n = omega arith in
      rw (← less) (
        selected-IsCounted (n - 1) conn (target_url fl conn.draw app_p2p s.router)
          (record s { started = remove_at k s.started })
          (target_url-IsValid fl conn.draw app_p2p i.valid)
          (record { total = omega arith; entries = i.entries; valid = i.valid }))

  connected_at-IsCounted :
      (n k : ℕ) (o : Option (TcpConn × Text)) (s : TcpState)
      → get_elem? s.dialing k ≡ o
      → IsCounted n s
      → IsCounted n (connected_at fl k o s)
  connected_at-IsCounted n k none s p i = i
  connected_at-IsCounted n k (some (conn, endpoint)) s p i =
      let t = i.total in
      let l = length-remove_at k s.dialing (conn, endpoint) p in
      let less : n - 1 + 1 ≡ n = omega arith in
      rw (← less) (
        connected_tcp-IsCounted (n - 1) conn endpoint (record s { dialing = remove_at k s.dialing })
          (record { total = omega arith; entries = i.entries; valid = i.valid }))

  ended_at-IsCounted :
      (n k : ℕ) (o : Option (TcpConn × Text)) (s : TcpState)
      → get_elem? s.active k ≡ o
      → IsCounted n s
      → IsCounted n (ended_at fl k o s)
  ended_at-IsCounted n k none s p i = i
  ended_at-IsCounted n k (some (conn, endpoint)) s p i =
      let t = i.total in
      let e = i.entries in
      let l = length-remove_at k s.active (conn, endpoint) p in
      let a = length-append s.pushed (tcp_entry fl conn ∷ []) in
      record {
        total = omega arith;
        entries = omega arith;
        valid = record_backend_latency-IsValid fl app_p2p endpoint conn.duration i.valid;
      }

  select_conn-IsCounted :
      (n k : ℕ) (s : TcpState) → IsCounted n s → IsCounted n (select_conn fl k s)
  unfolding select_conn
  select_conn-IsCounted n k s i = selected_at-IsCounted n k (get_elem? s.started k) s refl i

  dial_conn-IsCounted : (n k : ℕ) (s : TcpState) → IsCounted n s → IsCounted n (dial_conn fl k s)
  unfolding dial_conn
  dial_conn-IsCounted n k s i = connected_at-IsCounted n k (get_elem? s.dialing k) s refl i

  end_conn-IsCounted : (n k : ℕ) (s : TcpState) → IsCounted n s → IsCounted n (end_conn fl k s)
  unfolding end_conn
  end_conn-IsCounted n k s i = ended_at-IsCounted n k (get_elem? s.active k) s refl i

  serving-IsCounted :
      (events : List TcpEvent) (closed returned : Bool) (n : ℕ) (s : TcpState)
      → IsCounted n s
      → IsCounted (n + taken_of events closed returned) (serve_tcp fl events closed returned s).1
  unfolding serve_tcp taken_of
  serving-IsCounted [] closed returned n s i = let z : n + 0 ≡ n = omega arith in rw z i
  serving-IsCounted (accepted conn ∷ events) closed false n s i =
      let z : n + suc (taken_of events closed false) ≡ n + 1 + taken_of events closed false =
        omega arith in
      rw z (
        serving-IsCounted events closed false (n + 1) (begin_conn conn s)
          (begin_conn-IsCounted n conn s i))
  serving-IsCounted (accepted conn ∷ events) closed true n s i =
      serving-IsCounted events closed true n s i
  serving-IsCounted (asked k ∷ events) closed returned n s i =
      serving-IsCounted events closed returned n (select_conn fl k s)
        (select_conn-IsCounted n k s i)
  serving-IsCounted (dialed k ∷ events) closed returned n s i =
      serving-IsCounted events closed returned n (dial_conn fl k s) (dial_conn-IsCounted n k s i)
  serving-IsCounted (copied k ∷ events) closed returned n s i =
      serving-IsCounted events closed returned n (end_conn fl k s) (end_conn-IsCounted n k s i)
  serving-IsCounted (accept_error ∷ events) closed returned n s i =
      serving-IsCounted events closed (returned || closed) n s i
  serving-IsCounted (closing ∷ events) closed returned n s i =
      serving-IsCounted events true returned n s i

  -- The server has returned only where it had before, or is closed.
  serving-returned :
      (events : List TcpEvent) (closed returned : Bool) (s : TcpState)
      → (serve_tcp fl events closed returned s).0 ≡ true
      → (returned ≡ true) ⊎ ((closed ≡ true) ⊎ Memᴰ closing events)
  unfolding serve_tcp
  serving-returned [] closed returned s e = inl e
  serving-returned (accepted conn ∷ events) closed false s e =
      later (serving-returned events closed false (begin_conn conn s) e)
  serving-returned (accepted conn ∷ events) closed true s e = inl refl
  serving-returned (asked k ∷ events) closed returned s e =
      later (serving-returned events closed returned (select_conn fl k s) e)
  serving-returned (dialed k ∷ events) closed returned s e =
      later (serving-returned events closed returned (dial_conn fl k s) e)
  serving-returned (copied k ∷ events) closed returned s e =
      later (serving-returned events closed returned (end_conn fl k s) e)
  serving-returned (accept_error ∷ events) closed false s e =
      elim (serving-returned events closed closed s e) [
        | inl p ↦ inr (inl p)
        | inr q ↦ later (inr q)
      ]
  serving-returned (accept_error ∷ events) closed true s e = inl refl
  serving-returned (closing ∷ events) closed returned s e = inr (inr (Memᴰ.head refl))

  -- From a state in which every connection so far is accounted for and the server has not returned, whatever is accepted, asked for, dialed, copied and fails, in whatever order, also after the server has returned: every
  -- connection that was accepted before the server returned has a goroutine that has been started, is dialing or is copying, or was counted once, as a success or as an error; each success, and nothing else,
  -- has left an entry; and the router is valid. If the server has returned, it was closed.
  pub serve_tcp-IsCounted :
      (events : List TcpEvent) (closed : Bool) (n : ℕ) (s : TcpState)
      → IsCounted n s
      → (let (returned, s') = serve_tcp fl events closed false s in
          IsCounted (n + taken_of events closed false) s'
          × ((returned ≡ false) ⊎ ((closed ≡ true) ⊎ Memᴰ closing events)))
  serve_tcp-IsCounted events closed n s i = (
    serving-IsCounted events closed false n s i,
    elim (Bool-cases (serve_tcp fl events closed false s).0) [
      | inr p ↦ inl p
      | inl p ↦ elim (serving-returned events closed false s p) [
        | inl p ↦ absurd (cc)
        | inr q ↦ inr q
      ]
    ],
  )
