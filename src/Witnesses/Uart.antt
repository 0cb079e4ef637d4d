-- ===== src/Witnesses/Uart.antt =====
-- The theorems about the UART at concrete inputs.
use osprey_blake2b.Base.{
  true≢false, ℕ, ◌+◌, ◌-◌, ◌≡◌, refl, arith, Bool, false, List, [], ◌∷◌, ◌++◌, some, inl, inr,
  if◌then◌else◌, leb, u64, Bool-cases,
}
use osprey_blake2b.UioUart.{Device, UioUart, opened, is_set, stat_tx_full, uart_write}
use osprey_blake2b.UioUart.Written
use osprey_blake2b.UioUart.Written.{IsFifo, IsPaced, time_after, IsWritten}

record Core : Type 0 where
  time : ℕ
  waiting : ℕ
  taken : List ℕ

abbrev core_status : Core → ℕ
core_status c = if leb 16 c.waiting then 8 else 0

-- A core that sends a byte whenever the time is read, and drops what does not fit.
abbrev core : Device
core = record {
  State = Core;
  load = λ c off. (core_status c, c);
  store = λ c off b.
      if leb 16 c.waiting
      then c
      else record c { waiting = c.waiting + 1; taken = c.taken ++ (b ∷ []) };
  now_us = λ c. (u64 c.time, record c { time = c.time + 1; waiting = c.waiting - 1 });
}

core-takes :
    (c : Core) (b : ℕ)
    → is_set core (core_status c) stat_tx_full ≡ false
    → (if leb 16 c.waiting
        then c
        else record c { waiting = c.waiting + 1; taken = c.taken ++ (b ∷ []) }).taken
      ≡ c.taken ++ (b ∷ [])
core-takes c b e = elim (Bool-cases (leb 16 c.waiting)) [
  | inl f ↦ absurd (true≢false (simp f at e))
  | inr f ↦ simp f
]

core-IsFifo : IsFifo core
core-IsFifo = record {
  accepted = λ c. c.taken;
  stat_keeps = λ d. refl;
  time_keeps = λ d. refl;
  takes = core-takes;
}

core-IsPaced : IsPaced core 4 3
core-IsPaced c = omega arith

abbrev idle_core : Core
idle_core = record { time = 7; waiting = 15; taken = [] }

uart_write-IsWritten_example :
    (r : UioUart × Core × Bool) × (uart_write core 5 opened idle_core (1 ∷ 2 ∷ 3 ∷ []) 3 ≡ some r)
    × IsWritten core core-IsFifo opened idle_core (1 ∷ 2 ∷ 3 ∷ []) r
uart_write-IsWritten_example =
    Written.uart_write-IsWritten core core-IsFifo 4 opened idle_core (1 ∷ 2 ∷ 3 ∷ []) 3 core-IsPaced
