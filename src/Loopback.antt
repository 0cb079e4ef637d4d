-- ===== src/Loopback.antt =====
-- miner/miner.c, `selftest_loopback` and `loopback_verify`: the search over the receive phases of the
-- FPGA for bytes with a frame whose hash can be reproduced, which gives the offset of the nonces.
pub mod Calibrated
pub mod Phases
use osprey_blake2b.Base.{
  ℕ, zero, suc, ◌+◌, ◌-◌, ◌^◌, Bool, true, false, ◌&&◌, ◌||◌, not, List, [], ◌∷◌, Option, none,
  some, if◌then◌else◌, ltb, ◌==◌, length, take, ◌*◌, u64,
}
use osprey_blake2b.WorkItem.{
  KnotsHeader, FpgaResult, parse_result, knots_header_init, build_work_item, ok, err, work_item_len,
}
use osprey_blake2b.FrameSync.{result_len, SyncCounts, frame_sync}
use osprey_blake2b.Gbt.{expected_hash_top64, with_nonce}

abbrev pub nonce_guard : ℕ
nonce_guard = 256

-- The header with the candidate of an offset gives the hash of the reply.
unfoldable pub reproduced : KnotsHeader → FpgaResult → ℕ → Bool
reproduced h r off = expected_hash_top64 (with_nonce h (u64 (r.nonce + off))) == r.hash_top64

-- The loop over the offsets from `off` on, with `n` left.
unfoldable pub find_offset : KnotsHeader → FpgaResult → ℕ → ℕ → Option ℕ
find_offset h r off zero = none
find_offset h r off (suc n) = elim (reproduced h r off) [
  | true ↦ some off
  | false ↦ find_offset h r (off + 1) n
]

-- A window is tried where its flag is set, its reply is one, and its nonce is far enough from the
-- seed.
unfoldable pub try_window : KnotsHeader → ℕ → List ℕ → Option (ℕ × ℕ)
try_window h flag window =
    let r = parse_result window in
    if not (flag == 1)
    then none
    else if not r.success
    then none
    else if ltb (u64 (2 ^ 64 - r.nonce)) nonce_guard
    then none
    else elim (find_offset h r 0 512) [ none ↦ none | some off ↦ some (off, r.nonce) ]

-- The offset and the nonce of the first window that is reproduced; none is -1. A window is what
-- follows the bytes before it.
unfoldable pub loopback_verify : KnotsHeader → List ℕ → Option (ℕ × ℕ)
loopback_verify h [] = none
loopback_verify h (b ∷ buf) =
    let rest = loopback_verify h buf in
    if ltb (length (b ∷ buf)) result_len
    then none
    else elim (try_window h b (b ∷ buf)) [ none ↦ rest | some v ↦ some v ]

-- What the UART does in a phase: whether `uart_write` returns 0, and the polls of the three loops of
-- `frame_sync`.
pub record Phase : Type 0 where
  pub written : Bool
  pub polls : List (Option ℕ)
  pub skip_polls : List (Option ℕ)
  pub read_polls : List (Option ℕ)

-- How the selftest ends: at a phase, with the offset and the nonce; at a phase whose item is not
-- taken; with no phase; or with no item.
pub data LoopbackEnd : Type 0 where
  passed : ℕ → ℕ × ℕ → LoopbackEnd
  tx_stalled : ℕ → LoopbackEnd
  no_phase : LoopbackEnd
  no_item : LoopbackEnd

-- The search of a phase; a silent line is no result here.
unfoldable pub loopback_phase : KnotsHeader → SyncCounts → Phase → SyncCounts × Option (ℕ × ℕ)
loopback_phase h st p =
    let r = frame_sync st false true p.polls p.skip_polls p.read_polls in
    (
      r.0,
      elim r.1 [
        | none ↦ none
        | some rxbuf ↦ if ltb (length rxbuf) result_len then none else loopback_verify h rxbuf
      ],
    )

-- The loop over the phases from `phase` on. After each one a pad byte moves the FPGA by one byte.
unfoldable pub loopback_phases :
    KnotsHeader → SyncCounts → ℕ → List Phase → SyncCounts × LoopbackEnd
loopback_phases h st phase [] = (st, no_phase)
loopback_phases h st phase (p ∷ phases) = elim p.written [
  | false ↦ (st, tx_stalled phase)
  | true ↦ elim (loopback_phase h st p).1 [
    | some v ↦ ((loopback_phase h st p).0, passed phase v)
    | none ↦ loopback_phases h (loopback_phase h st p).0 (phase + 1) phases
  ]
]

unfoldable pub loopback_header : KnotsHeader
unfolding knots_header_init
loopback_header = record knots_header_init { n_bits = 0x1903c2d4; m_height = 969859 }

unfoldable pub selftest_loopback : SyncCounts → List Phase → SyncCounts × LoopbackEnd
selftest_loopback st phases = elim (build_work_item loopback_header 0x00ffffffffffffff) [
  | err e ↦ (st, no_item)
  | ok item ↦ loopback_phases loopback_header st 0 (take work_item_len phases)
]

-- The bytes that are sent before a phase: an item and a pad byte for each phase before it.
unfoldable pub sent_before : ℕ → ℕ
sent_before phase = phase * (work_item_len + 1)
