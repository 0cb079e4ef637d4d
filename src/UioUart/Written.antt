-- ===== src/UioUart/Written.antt =====
-- miner/uio_uart.c, `uart_write`: what the transmitter takes.
use osprey_blake2b.Base.{
  true≢false, ℕ, zero, suc, ◌+◌, ◌<◌, ◌≡◌, refl, sym, ap, ◌∙◌, arith, Bool, true, false, List, [],
  ◌∷◌, ◌++◌, append-nil, append_assoc, some, inl, inr, if◌then◌else◌, ltb, length, take, u64,
  Bool-cases,
}
use osprey_blake2b.UioUart.{
  Device, UioUart, uartlite_stat, uartlite_tx, stat_tx_full, is_set, since, uart_stat, put_loop,
  uart_put, uart_write,
}

-- The core takes a byte that is stored while its queue has room, as the status before says; what it
-- took is not lost. Reading the status or the time takes nothing.
pub record IsFifo (D : Device) : Type 0 where
  pub accepted : D.State → List ℕ
  pub stat_keeps : (d : D.State) → accepted (D.load d uartlite_stat).1 ≡ accepted d
  pub time_keeps : (d : D.State) → accepted (D.now_us d).1 ≡ accepted d
  pub takes :
      (d : D.State) (b : ℕ)
      → is_set D (D.load d uartlite_stat).0 stat_tx_full ≡ false
      → accepted (D.store (D.load d uartlite_stat).1 uartlite_tx b) ≡ accepted d ++ (b ∷ [])

module _ (D : Device) where
  -- The time behind some more rounds of a waiting loop.
  abbrev pub time_after : ℕ → D.State → ℕ
  time_after zero d = (D.now_us (D.load d uartlite_stat).1).0
  time_after (suc k) d = time_after k (D.now_us (D.load d uartlite_stat).1).1

  -- Some more rounds of a waiting loop take longer than a timeout.
  abbrev pub IsPaced : ℕ → ℕ → Type 0
  IsPaced k timeout_us =
      (d : D.State) → timeout_us < since (time_after k (D.now_us d).1) (D.now_us d).0

module _ (D : Device) (fifo : IsFifo D) where
  -- A byte was taken and counted, or was not and there is a failure.
  record IsPut (u : UioUart) (d : D.State) (b : ℕ) (r : UioUart × D.State × Bool) : Type 0 where
    pub accepted :
        fifo.accepted r.1 ≡ (if r.2 then fifo.accepted d ++ (b ∷ []) else fifo.accepted d)
    pub counted : r.0.tx_bytes ≡ (if r.2 then u64 (u.tx_bytes + 1) else u.tx_bytes)

  -- The three rounds of the loop.
  module _ (k start : ℕ) (u : UioUart) (d : D.State) (spun b timeout_us : ℕ) where
    now_behind : ℕ × D.State
    now_behind = D.now_us (D.load d uartlite_stat).1

    put_room :
        is_set D (D.load d uartlite_stat).0 stat_tx_full ≡ false
        → put_loop D (suc k) start u d spun b timeout_us
          ≡ some (
            record u { tx_stall_us = u64 (u.tx_stall_us + spun); tx_bytes = u64 (u.tx_bytes + 1) },
            D.store (D.load d uartlite_stat).1 uartlite_tx b,
            true,
          )
    unfolding put_loop uart_stat
    put_room f = simp (f, put_loop, uart_stat)

    put_late :
        is_set D (D.load d uartlite_stat).0 stat_tx_full ≡ true
        → ltb timeout_us (since now_behind.0 start) ≡ true
        → put_loop D (suc k) start u d spun b timeout_us
          ≡ some (
            record u { tx_stall_us = u64 (u.tx_stall_us + since now_behind.0 start) },
            now_behind.1,
            false,
          )
    unfolding put_loop uart_stat now_behind
    put_late f t = simp (f, t, put_loop, uart_stat)

    put_again :
        is_set D (D.load d uartlite_stat).0 stat_tx_full ≡ true
        → ltb timeout_us (since now_behind.0 start) ≡ false
        → put_loop D (suc k) start u d spun b timeout_us
          ≡ put_loop D k start u now_behind.1 (since now_behind.0 start) b timeout_us
    unfolding put_loop uart_stat now_behind
    put_again f t = simp (f, t, put_loop, uart_stat)

  waited : (d : D.State) → fifo.accepted (D.now_us (D.load d uartlite_stat).1).1 ≡ fifo.accepted d
  waited d = fifo.time_keeps (D.load d uartlite_stat).1 ∙ fifo.stat_keeps d

  moved :
      (u : UioUart) (d e : D.State) (b : ℕ) (r : UioUart × D.State × Bool)
      → fifo.accepted e ≡ fifo.accepted d
      → IsPut u e b r
      → IsPut u d b r
  moved u d e b r q h = record {
    accepted = h.accepted ∙ ap (λ x. if r.2 then x ++ (b ∷ []) else x) q;
    counted = h.counted;
  }

  put_loop-IsPut :
      (k start : ℕ) (u : UioUart) (d : D.State) (spun b timeout_us : ℕ)
      → timeout_us < since (time_after D k d) start
      → (r : UioUart × D.State × Bool) × (put_loop D (suc k) start u d spun b timeout_us ≡ some r)
        × IsPut u d b r
  unfolding now_behind
  put_loop-IsPut zero start u d spun b timeout_us h =
      elim (Bool-cases (is_set D (D.load d uartlite_stat).0 stat_tx_full)) [
        | inr f ↦ (
          _,
          put_room 0 start u d spun b timeout_us f,
          record { accepted = fifo.takes d b f; counted = refl },
        )
        | inl f ↦ (
          _,
          put_late 0 start u d spun b timeout_us f (ground arith),
          record { accepted = waited d; counted = refl },
        )
      ]
  put_loop-IsPut (suc k) start u d spun b timeout_us h =
      let t = D.now_us (D.load d uartlite_stat).1 in
      elim (Bool-cases (is_set D (D.load d uartlite_stat).0 stat_tx_full)) [
        | inr f ↦ (
          _,
          put_room (suc k) start u d spun b timeout_us f,
          record { accepted = fifo.takes d b f; counted = refl },
        )
        | inl f ↦ elim (Bool-cases (ltb timeout_us (since t.0 start))) [
          | inl l ↦ (
            _,
            put_late (suc k) start u d spun b timeout_us f l,
            record { accepted = waited d; counted = refl },
          )
          | inr l ↦
              let r = put_loop-IsPut k start u t.1 (since t.0 start) b timeout_us h in
              (
                r.0,
                put_again (suc k) start u d spun b timeout_us f l ∙ r.1,
                moved u d t.1 b r.0 (waited d) r.2,
              )
        ]
      ]

  uart_put-IsPut :
      (k : ℕ) (u : UioUart) (d : D.State) (b timeout_us : ℕ)
      → IsPaced D k timeout_us
      → (r : UioUart × D.State × Bool) × (uart_put D (suc k) u d b timeout_us ≡ some r)
        × IsPut u d b r
  unfolding uart_put
  uart_put-IsPut k u d b timeout_us h =
      let t = D.now_us d in
      let r = put_loop-IsPut k t.0 u t.1 0 b timeout_us (h d) in
      (r.0, r.1, moved u d t.1 b r.0 (fifo.time_keeps d) r.2)

  -- How many bytes were taken, in their order, and counted: all of them, or fewer and a failure.
  pub record IsWritten (u : UioUart) (d : D.State) (buf : List ℕ) (r : UioUart × D.State × Bool)
      : Type 0 where
    pub taken : ℕ
    pub accepted : fifo.accepted r.1 ≡ fifo.accepted d ++ take taken buf
    pub counted : u64 r.0.tx_bytes ≡ u64 (u.tx_bytes + taken)
    pub whole : r.2 ≡ true → taken ≡ length buf
    pub part : r.2 ≡ false → taken < length buf

  nothing_taken :
      (u : UioUart) (d : D.State) (b : ℕ) (buf : List ℕ) (r : UioUart × D.State × Bool)
      → r.2 ≡ false
      → IsPut u d b r
      → IsWritten u d (b ∷ buf) r
  nothing_taken u d b buf r e h = record {
    taken = 0;
    accepted =
        h.accepted
        ∙ (ap (λ x. if x then fifo.accepted d ++ (b ∷ []) else fifo.accepted d) e
            ∙ sym (append-nil (fifo.accepted d)));
    counted = ap u64 (
        h.counted
        ∙ (ap (λ x. if x then u64 (u.tx_bytes + 1) else u.tx_bytes) e ∙ plus_zero u.tx_bytes));
    whole = λ t. absurd (true≢false (sym t ∙ e));
    part = λ f. omega arith;
  }
    where
      plus_zero : (n : ℕ) → n ≡ n + 0
      plus_zero n = omega arith

  one_more :
      (u : UioUart) (d : D.State) (b : ℕ) (buf : List ℕ) (p r : UioUart × D.State × Bool)
      → p.2 ≡ true
      → IsPut u d b p
      → IsWritten p.0 p.1 buf r
      → IsWritten u d (b ∷ buf) r
  one_more u d b buf p r e h w = record {
    taken = suc w.taken;
    accepted =
        w.accepted
        ∙ (ap (λ x. x ++ take w.taken buf)
              (h.accepted ∙ ap (λ x. if x then fifo.accepted d ++ (b ∷ []) else fifo.accepted d) e)
            ∙ append_assoc (fifo.accepted d) (b ∷ []) (take w.taken buf));
    counted =
        w.counted
        ∙ counted_on (p.0.tx_bytes) u.tx_bytes w.taken
            (h.counted ∙ ap (λ x. if x then u64 (u.tx_bytes + 1) else u.tx_bytes) e);
    whole = λ t. ap suc (w.whole t);
    part = λ f. omega (arith, w.part f);
  }
    where
      counted_on : (n m k : ℕ) → n ≡ u64 (m + 1) → u64 (n + k) ≡ u64 (m + suc k)
      counted_on n m k e = omega arith

  -- `uart_write` returns where the rounds that a loop gets take longer than the timeout. With a queue
  -- that drops what is stored into it when it is full, no byte is dropped: the transmitter has taken
  -- the first bytes of the buffer, in order, as many as are counted; all of them where it succeeds,
  -- and not all of them where it fails.
  pub uart_write-IsWritten :
      (k : ℕ) (u : UioUart) (d : D.State) (buf : List ℕ) (timeout_us : ℕ)
      → IsPaced D k timeout_us
      → (r : UioUart × D.State × Bool) × (uart_write D (suc k) u d buf timeout_us ≡ some r)
        × IsWritten u d buf r
  unfolding uart_write
  uart_write-IsWritten k u d [] timeout_us h = (
    (u, d, true),
    refl,
    record {
      taken = 0;
      accepted = sym (append-nil (fifo.accepted d));
      counted = ap u64 {x = u.tx_bytes} {y = u.tx_bytes + 0} (omega arith);
      whole = λ e. refl;
      part = λ e. absurd (true≢false e);
    },
  )
  uart_write-IsWritten k u d (b ∷ buf) timeout_us h =
      let p = uart_put-IsPut k u d b timeout_us h in
      elim (Bool-cases p.0.2) [
        | inr e ↦ (p.0, simp (p.1, e, uart_write), nothing_taken u d b buf p.0 e p.2)
        | inl e ↦
            let w = uart_write-IsWritten k p.0.0 p.0.1 buf timeout_us h in
            (w.0, simp (p.1, e, uart_write) w.1, one_more u d b buf p.0 w.0 e p.2 w.2)
      ]
