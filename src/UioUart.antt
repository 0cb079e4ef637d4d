-- ===== src/UioUart.antt =====
-- miner/uio_uart.c and uio_uart.h: the AXI UART Lite, seen from the host. The registers of the core
-- and the monotonic clock are a device, an argument of the operations.
pub mod Written
use osprey_blake2b.Base.{
  ℕ, zero, suc, ◌+◌, ◌-◌, ◌%◌, ◌^◌, Bool, true, false, not, List, [], ◌∷◌, Option, none, some,
  if◌then◌else◌, ltb, leb, ◌==◌, length, get_or, u8, u64, bit_and, bit_or,
}

abbrev pub uartlite_rx : ℕ
uartlite_rx = 0

abbrev pub uartlite_tx : ℕ
uartlite_tx = 4

abbrev pub uartlite_stat : ℕ
uartlite_stat = 8

abbrev pub uartlite_ctrl : ℕ
uartlite_ctrl = 12

abbrev pub stat_rx_valid : ℕ
stat_rx_valid = 1

abbrev pub stat_tx_empty : ℕ
stat_tx_empty = 4

abbrev pub stat_tx_full : ℕ
stat_tx_full = 8

abbrev pub stat_overrun : ℕ
stat_overrun = 32

abbrev pub ctrl_rst_tx : ℕ
ctrl_rst_tx = 1

abbrev pub ctrl_rst_rx : ℕ
ctrl_rst_rx = 2

-- The mapped registers by their offset, which a read can change as well, and `now_us`.
pub record Device : Type 1 where
  pub State : Type 0
  pub load : State → ℕ → ℕ × State
  pub store : State → ℕ → ℕ → State
  pub now_us : State → ℕ × State

-- The counters of `uio_uart_t`; `fd` and `base` are the device.
pub record UioUart : Type 0 where
  pub tx_stall_us : ℕ
  pub overruns : ℕ
  pub rx_bytes : ℕ
  pub tx_bytes : ℕ

-- `uart_open` of a device that can be mapped.
abbrev pub opened : UioUart
opened = record { tx_stall_us = 0; overruns = 0; rx_bytes = 0; tx_bytes = 0 }

-- `a - b` of two times.
abbrev pub since : ℕ → ℕ → ℕ
since a b = u64 (a + 2 ^ 64 - b)

module _ (D : Device) where
  unfoldable pub uart_stat : D.State → ℕ × D.State
  uart_stat d = D.load d uartlite_stat

  unfoldable pub uart_reset_fifos : D.State → D.State
  uart_reset_fifos d = D.store d uartlite_ctrl (bit_or ctrl_rst_tx ctrl_rst_rx)

  -- The bits of the status that are set.
  abbrev pub is_set : ℕ → ℕ → Bool
  is_set s bit = not (bit_and s bit == 0)

  -- The loop of `uart_put`; none where it takes more rounds than are given. `false` is -1.
  unfoldable pub put_loop :
      ℕ → ℕ → UioUart → D.State → ℕ → ℕ → ℕ → Option (UioUart × D.State × Bool)
  put_loop zero start u d spun b timeout_us = none
  put_loop (suc rounds) start u d spun b timeout_us =
      let s = uart_stat d in
      let t = D.now_us s.1 in
      let spun' = since t.0 start in
      let again = put_loop rounds start u t.1 spun' b timeout_us in
      if is_set s.0 stat_tx_full
      then (if ltb timeout_us spun'
          then some (record u { tx_stall_us = u64 (u.tx_stall_us + spun') }, t.1, false)
          else again)
      else some (
        record u { tx_stall_us = u64 (u.tx_stall_us + spun); tx_bytes = u64 (u.tx_bytes + 1) },
        D.store s.1 uartlite_tx b,
        true,
      )

  unfoldable pub uart_put : ℕ → UioUart → D.State → ℕ → ℕ → Option (UioUart × D.State × Bool)
  uart_put rounds u d b timeout_us = let t = D.now_us d in put_loop rounds t.0 u t.1 0 b timeout_us

  -- `uart_get_nb` of a real device; none is 0.
  unfoldable pub uart_get_nb : UioUart → D.State → UioUart × D.State × Option ℕ
  uart_get_nb u d =
      let s = uart_stat d in
      let v = if is_set s.0 stat_overrun then record u { overruns = u64 (u.overruns + 1) } else u in
      let r = D.load s.1 uartlite_rx in
      if is_set s.0 stat_rx_valid
      then (record v { rx_bytes = u64 (v.rx_bytes + 1) }, r.1, some (bit_and r.0 255))
      else (v, s.1, none)

  unfoldable pub uart_write : ℕ → UioUart → D.State → List ℕ → ℕ → Option (UioUart × D.State × Bool)
  uart_write rounds u d [] timeout_us = some (u, d, true)
  uart_write rounds u d (b ∷ buf) timeout_us = elim (uart_put rounds u d b timeout_us) [
    | none ↦ none
    | some r ↦ elim r.2 [ false ↦ some r | true ↦ uart_write rounds r.0 r.1 buf timeout_us ]
  ]

  unfoldable pub drain_loop : ℕ → ℕ → D.State → ℕ → Option (D.State × Bool)
  drain_loop zero start d timeout_us = none
  drain_loop (suc rounds) start d timeout_us =
      let s = uart_stat d in
      let t = D.now_us s.1 in
      let again = drain_loop rounds start t.1 timeout_us in
      if is_set s.0 stat_tx_empty
      then some (s.1, true)
      else if ltb timeout_us (since t.0 start)
      then some (t.1, false)
      else again

  unfoldable pub uart_drain_tx : ℕ → D.State → ℕ → Option (D.State × Bool)
  uart_drain_tx rounds d timeout_us = let t = D.now_us d in drain_loop rounds t.0 t.1 timeout_us

  unfoldable pub uart_purge_rx : ℕ → UioUart → D.State → Option (UioUart × D.State)
  uart_purge_rx zero u d = none
  uart_purge_rx (suc rounds) u d =
      let r = uart_get_nb u d in
      let again = uart_purge_rx rounds r.0 r.1 in
      elim r.2 [ none ↦ some (r.0, r.1) | some b ↦ again ]

  -- The loop of `uart_wait_quiet`.
  unfoldable pub quiet_loop :
      ℕ → ℕ → ℕ → UioUart → D.State → ℕ → ℕ → Option (UioUart × D.State × Bool)
  quiet_loop zero start last_activity u d idle_us timeout_us = none
  quiet_loop (suc rounds) start last_activity u d idle_us timeout_us =
      let r = uart_get_nb u d in
      let t = D.now_us r.1 in
      let e = D.now_us t.1 in
      let last : ℕ = elim r.2 [ some b ↦ t.0 | none ↦ last_activity ] in
      let again = quiet_loop rounds start last r.0 e.1 idle_us timeout_us in
      let late = if ltb timeout_us (since e.0 start) then some (r.0, e.1, false) else again in
      elim r.2 [
        | some b ↦ late
        | none ↦ if leb idle_us (since t.0 last_activity) then some (r.0, t.1, true) else late
      ]

  unfoldable pub uart_wait_quiet : ℕ → UioUart → D.State → ℕ → ℕ → Option (UioUart × D.State × Bool)
  uart_wait_quiet rounds u d idle_us timeout_us =
      let t = D.now_us d in quiet_loop rounds t.0 t.0 u t.1 idle_us timeout_us
