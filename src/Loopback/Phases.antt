-- ===== src/Loopback/Phases.antt =====
-- miner/miner.c, `selftest_loopback`: where the search over the phases ends.
use osprey_blake2b.Base.{
  ℕ, suc, ◌+◌, ◌-◌, ◌%◌, ◌≤◌, ◌<◌, ◌≡◌, inl, inr, refl, sym, ◌∙◌, arith, true, false, List, [], ◌∷◌,
  some, ltb, length, take, Bool-cases, Option-cases, none≢some, length-take,
}
use mathlib.Core.Path.{subst}
use osprey_blake2b.WorkItem.{KnotsHeader, build_work_item}
use osprey_blake2b.FrameSync.{SyncCounts, frame_sync}
use osprey_blake2b.Gbt.Verdict.{Result-cases}
use osprey_blake2b.Loopback.{
  Phase, LoopbackEnd, passed, tx_stalled, no_phase, no_item, loopback_phase, loopback_phases,
  loopback_header, selftest_loopback, sent_before,
}
use osprey_blake2b.Loopback.Calibrated.{IsWindow, loopback_verify-IsWindow}

-- Whatever the FPGA's byte counter is at the start, in exactly one of the 168 phases the item starts
-- at its zero.
pub sent_before-aligned :
    (counter phase other : ℕ)
    → counter < 168
    → phase < 168
    → other < 168
    → (((168 - counter) % 168 ≡ phase → (counter + sent_before phase) % 168 ≡ 0)
        × ((counter + sent_before other) % 168 ≡ 0 → (168 - counter) % 168 ≡ other))
unfolding sent_before
sent_before-aligned counter phase other c p o = (λ e. omega (arith, e), λ e. omega (arith, e))

-- A success is at a phase of the list, and what a window of received bytes proves.
abbrev pub IsSuccess : KnotsHeader → ℕ → ℕ → LoopbackEnd → Type 0
IsSuccess h phase n (passed i v) =
    (phase ≤ i) × (i < phase + n) × ((rx : List ℕ) × (w : ℕ) × IsWindow h rx v.0 v.1 w)
IsSuccess h phase n (tx_stalled i) = (phase ≤ i) × (i < phase + n)
IsSuccess h phase n no_phase = Unit {0}
IsSuccess h phase n no_item = Unit {0}

loopback_phase-IsWindow :
    (h : KnotsHeader) (st : SyncCounts) (p : Phase) (v : ℕ × ℕ)
    → (loopback_phase h st p).1 ≡ some v
    → (rx : List ℕ) × (w : ℕ) × IsWindow h rx v.0 v.1 w
unfolding loopback_phase
loopback_phase-IsWindow h st p v e =
    elim (Option-cases (frame_sync st false true p.polls p.skip_polls p.read_polls).1) [
      | inl n ↦ absurd (none≢some (sym (simp (n, loopback_phase) refl) ∙ e))
      | inr (rx, n) ↦ elim (Bool-cases (ltb (length rx) 17)) [
        | inl l ↦ absurd (none≢some (sym (simp (n, l, loopback_phase) refl) ∙ e))
        | inr l ↦
            let k =
              (loopback_verify-IsWindow h rx v.0 v.1).0
                (sym (simp (n, l, loopback_phase) refl) ∙ e) in
            (rx, k.0, k.1)
      ]
    ]

later :
    (h : KnotsHeader) (phase n : ℕ) (r : LoopbackEnd)
    → IsSuccess h (phase + 1) n r
    → IsSuccess h phase (suc n) r
later h phase n (passed i v) s = (omega (arith, s.0), omega (arith, s.1), s.2)
later h phase n (tx_stalled i) s = (omega (arith, s.0), omega (arith, s.1))
later h phase n no_phase s = tt
later h phase n no_item s = tt

loopback_phases-IsSuccess :
    (h : KnotsHeader) (st : SyncCounts) (phase : ℕ) (phases : List Phase)
    → IsSuccess h phase (length phases) (loopback_phases h st phase phases).1
unfolding loopback_phases
loopback_phases-IsSuccess h st phase [] = tt
loopback_phases-IsSuccess h st phase (p ∷ phases) = elim (Bool-cases p.written) [
  | inr w ↦ simp (w, loopback_phases) (omega arith, omega arith)
  | inl w ↦ elim (Option-cases (loopback_phase h st p).1) [
    | inr (v, e) ↦
        simp (w, e, loopback_phases) (omega arith, omega arith, loopback_phase-IsWindow h st p v e)
    | inl e ↦
        simp (w, e, loopback_phases)
          (later h phase (length phases) _
            (loopback_phases-IsSuccess h (loopback_phase h st p).0 (phase + 1) phases))
  ]
]

-- Where the selftest ends at a phase, it is one of the 168; and where it passes, its offset and its
-- nonce are those of a window of received bytes.
pub selftest_loopback-IsSuccess :
    (st : SyncCounts) (phases : List Phase)
    → 168 ≤ length phases
    → IsSuccess loopback_header 0 168 (selftest_loopback st phases).1
unfolding selftest_loopback
selftest_loopback-IsSuccess st phases h =
    elim (Result-cases (build_work_item loopback_header 0x00ffffffffffffff)) [
      | inr (x, e) ↦ simp (e, selftest_loopback) tt
      | inl (item, e) ↦
          let n : length (take 168 phases) ≡ 168 = omega (arith, length-take 168 phases) in
          simp (e, selftest_loopback)
            (subst
              (λ k.
                IsSuccess loopback_header 0 k
                  (loopback_phases loopback_header st 0 (take 168 phases)).1)
              n (loopback_phases-IsSuccess loopback_header st 0 (take 168 phases)))
    ]
