-- ===== src/Gbt.antt =====
-- miner/miner.c, the solo work sources: the synthetic template, `gbt_build` and the verification
-- of a candidate. The template is an argument; Solo has `get_template`.
pub mod Verdict
use osprey_blake2b.Base.{
  ℕ, ◌+◌, ◌*◌, ◌^◌, bit_and, bit_xor, Bool, true, false, List, map, Option, none, some,
  if◌then◌else◌, ◌==◌, not, u8, u32, shr, set, take,
}
use osprey_blake2b.Base.Bytes.{range, store_le, load_word, blit}
use osprey_blake2b.Blake2b.{blake2b_nokey}
use osprey_blake2b.WorkItem.{
  KnotsHeader, knots_header_init, ok, err, stage_inputs, stage4_len, get_pow_hash,
}
use osprey_blake2b.WorkItem.Target.{
  compact_to_target_shifted, target_top64_from_bits, hash_meets_target,
}
use osprey_blake2b.Worksrc.{WorkCtx}

abbrev pub blake2b_target_shift_mainnet : ℕ
blake2b_target_shift_mainnet = 22

-- The bytes `0xA5 ^ (i * 7) ^ counter` of the synthetic previous block.
unfoldable pub synthetic_prev : ℕ → List ℕ
synthetic_prev counter = map (λ i. u8 (bit_xor (bit_xor 0xa5 (i * 7)) (u8 counter))) (range 0 32)

-- `now` is the clock that `synthetic_template` reads.
unfoldable pub synthetic_template : ℕ → ℕ → KnotsHeader
unfolding knots_header_init
synthetic_template now counter = record knots_header_init {
  n_version = 0x20000000;
  n_bits = 0x1903c2d4;
  n_time = u32 now;
  m_height = 969912;
  m_extranonce = blit knots_header_init.m_extranonce 0 (store_le 0 8 counter);
  hash_prev_block = synthetic_prev counter;
}

-- The template `none` is a failure of `get_template`. The result keeps the header, which
-- `g_gbt_hdr` remembers, beside the context.
unfoldable pub gbt_build : Option KnotsHeader → ℕ → ℕ → Option (KnotsHeader × WorkCtx)
gbt_build template t target_shift = elim template [
  | none ↦ none
  | some h0 ↦
      let h = record h0 {
        m_extranonce =
            set (set h0.m_extranonce 0 (u8 (bit_and t 0xff))) 1 (u8 (bit_and (shr t 8) 0xff));
      } in
      elim (stage_inputs h) [
        | err e ↦ none
        | ok st ↦ some (
          h,
          record {
            ss3 = st.ss3;
            ss4 = st.ss4;
            target_top64 = target_top64_from_bits h.n_bits target_shift;
            valid = true;
          },
        )
      ]
]

unfoldable pub expected_hash_top64 : KnotsHeader → ℕ
expected_hash_top64 h = elim (stage_inputs h) [
  | err e ↦ 0
  | ok st ↦ load_word (blake2b_nokey (take stage4_len st.ss4) 32) 0 (range 24 8)
]

-- The 64-bit nonce goes into the two header fields.
unfoldable pub with_nonce : KnotsHeader → ℕ → KnotsHeader
with_nonce h nonce = record h {
  n_nonce = u32 (bit_and nonce 0xffffffff);
  m_nonce2 = u32 (shr nonce 32);
}

-- WORKSRC_CAND_BAD, WORKSRC_CAND_OK and WORKSRC_CAND_SOLUTION; a solution says whether
-- `submit_block` is called.
pub data Candidate : Type 0 where
  bad : Candidate
  reproduces : Candidate
  solution : Bool → Candidate

unfoldable pub gbt_on_candidate : KnotsHeader → Bool → ℕ → ℕ → ℕ → Candidate
gbt_on_candidate gbt_hdr dry_run target_shift nonce hash_top64 =
    let c = with_nonce gbt_hdr nonce in
    if not (expected_hash_top64 c == hash_top64) then bad else elim (get_pow_hash c) [
      | err e ↦ reproduces
      | ok pow ↦
          if not (
            hash_meets_target pow (compact_to_target_shifted c.n_bits blake2b_target_shift_mainnet))
          then reproduces
          else solution (if dry_run then false else target_shift == blake2b_target_shift_mainnet)
    ]
