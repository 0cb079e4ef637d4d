-- ===== src/Witnesses.antt =====
-- The theorems at concrete inputs; those about addresses and pools are in Pool, about the
-- connection of a session in Link, about the resolver in Resolver, about the UART in Uart, about
-- frames in Frames, about the mining loop in Mining, about the solo source
-- in Solo, about runs in Options.
mod Pool
mod Link
mod Resolver
mod Uart
mod Frames
mod Mining
mod Solo
mod Options
use osprey_blake2b.Base.{
  ◌-◌, ◌⊎◌, if◌then◌else◌, ℕ, ◌+◌, ◌/◌, ◌%◌, ◌^◌, ◌≤◌, ◌<◌, ◌≡◌, ◌≢◌, ◌↔◌, refl, arith, true, false,
  ◌&&◌, not, List, [], ◌∷◌, ◌++◌, none, some, ◌==◌, length, take, drop, replicate, u64,
}
use osprey_blake2b.Base.Bytes.{store_le, be_value}
use osprey_blake2b.Sha256.{sha256_init, sha256_update, sha256_final, sha256, sha256d, tagged_hash}
use osprey_blake2b.Sha256.Padding.{sha256_reference}
use osprey_blake2b.Sha256.Reference
use osprey_blake2b.WorkItem.{
  KnotsHeader, Stages, ok, err, bad_mode, key_zero, stage_inputs, build_work_item, get_pow_hash,
  parse_result, stage4_message, work_item_len, put_le64,
}
use osprey_blake2b.WorkItem.Target.{compact_to_target_shifted, place_bits, set_bit}
use osprey_blake2b.WorkItem.TargetValue.{target_number}
use osprey_blake2b.WorkItem.TargetLaws
use osprey_blake2b.WorkItem.Layout
use osprey_blake2b.WorkItem.Layout.{IsHeader, IsMode0, stages_of, stage_inputs_mode0}
use osprey_blake2b.WorkItem.Item
use osprey_blake2b.WorkItem.Item.{framing_make}
use osprey_blake2b.Worksrc.{WorkCtx, worksrc_pack_item}
use osprey_blake2b.Worksrc.Packing
use osprey_blake2b.Worksrc.Packing.{IsCtx, ctx_of}
use osprey_blake2b.Block.{put_compact, header_bytes, block_serialize}
use osprey_blake2b.Block.Layout as BlockLayout
use osprey_blake2b.Block.Layout.{read_compact}
use osprey_blake2b.Devfee.{devfee_address, devfee_reset, devfee_next_payout}
use osprey_blake2b.Devfee.Accounts as Fee
use osprey_blake2b.Devfee.Accounts.{Call, Accounts, run, tally}
use osprey_blake2b.Merkle.{merkle_root}
use osprey_blake2b.Merkle.Tree
use osprey_blake2b.Merkle.Tree.{IsRoot}
use osprey_blake2b.SiaStratum.{put_nonce, sia_expected_top64, sia_pow_compare}
use osprey_blake2b.SiaStratum.NonceSlot
use osprey_blake2b.Gbt.{
  gbt_on_candidate, expected_hash_top64, with_nonce, synthetic_template, synthetic_prev, bad,
  reproduces, solution,
}
use osprey_blake2b.Gbt.Verdict
use osprey_blake2b.Gbt.Verdict.{network_target}
use osprey_blake2b.PoolSource.{
  PoolState, sia, make_en2, st_get_work, st_on_candidate, session_of, chain_expected, wants_push,
}
use osprey_blake2b.PoolSource.Verdict as PoolVerdict
use osprey_blake2b.PoolSource.Verdict.{IsShare}
use osprey_blake2b.PoolSource.Fee as PoolFee
use osprey_blake2b.Base.Text.{codes}
use osprey_blake2b.Base.Bytes.{le_value, byte_at}
use osprey_blake2b.Coinbase.{push_height}
use osprey_blake2b.Coinbase.Height
use osprey_blake2b.Bech32.{
  Bech32Addr, bech32_decode_addr, bech32_scriptpubkey, any, is_unprintable, is_lower, is_upper,
  to_lower, last_index, decode_parts, decode_chars, charset_index, index_from, expand_hrp, polymod,
  polymod_from, polymod_step, fold_generator, checksum_for, decode_program, convert5to8,
  convert_loop, drain_bits,
}
use osprey_blake2b.Bech32.Decoded
use osprey_blake2b.Bech32.Decoded.{IsAddr}
use osprey_blake2b.PoolSource.Built
use osprey_blake2b.PoolSource.{build_from, chain_messages, roll_en2, worksrc_stratum_backend}
use osprey_blake2b.SiaStratum.{
  header_of, sia_merkle_root, sia_arbtx_leaf, sia_arbtx, sia_build_header,
}
use osprey_blake2b.Stratum.Target.{stratum_target_top64}
use osprey_blake2b.Stratum.Session.{Session, stratum_ready}
use osprey_blake2b.Stratum.Json.{quote, js_hex, bin2hex}

-- The synthetic header of a fixed time.
abbrev header : KnotsHeader
unfolding synthetic_template
header = synthetic_template 1700000000 7

header-IsHeader : IsHeader header
unfolding synthetic_template synthetic_prev store_le
header-IsHeader = record {
  prev_size = refl;
  root_size = refl;
  extranonce_size = refl;
  key_size = refl;
  rhs_size = refl;
}

abbrev pub zero_hash : List ℕ
zero_hash = replicate 32 0

sha256-sha256_reference_example : sha256 (0x61 ∷ []) ≡ sha256_reference (0x61 ∷ [])
sha256-sha256_reference_example = Reference.sha256-sha256_reference (0x61 ∷ [])

-- The cast to a 32-bit `long` makes a shift of -1 a shift to the right.
negative_shift : be_value (compact_to_target_shifted 0x03000006 0xffffffff) ≡ 3
unfolding compact_to_target_shifted place_bits set_bit
negative_shift = refl

compact_to_target_shifted-be_value_example :
    be_value (compact_to_target_shifted 0x1903c2d4 22) ≡ target_number 0x1903c2d4 22 % 2 ^ 256
compact_to_target_shifted-be_value_example =
    TargetLaws.compact_to_target_shifted-be_value 0x1903c2d4 22 (omega arith)

stage_inputs_outcome_example :
    (IsMode0 header
      → (st : Stages) × (stage_inputs header ≡ ok st)
        × (length st.ss3 ≡ 52)
        × (length st.ss4 ≡ 80)
        × (length st.hash_a ≡ 32)
        × (take 6 st.ss4 ≡ replicate 6 0))
    × (¬ (IsMode0 header) → stage_inputs header ≡ err bad_mode)
stage_inputs_outcome_example = Layout.stage_inputs_outcome header header-IsHeader

header-IsMode0 : IsMode0 header
unfolding synthetic_template
header-IsMode0 = refl

build_work_item_lem_example :
    build_work_item header 5
    ≡ ok ((stages_of header).ss3 ++ (replicate 28 0 ++ ((stages_of header).ss4 ++ put_le64 5)))
build_work_item_lem_example = Item.build_work_item_lem header 5 header-IsHeader header-IsMode0

header-key_zero : key_zero (take 16 header.m_xor_key) ≡ true
unfolding synthetic_template key_zero
header-key_zero = refl

get_pow_hash-sia_pow_compare_example :
    get_pow_hash (with_nonce header 77) ≡ ok (sia_pow_compare (stages_of header).ss4 77)
get_pow_hash-sia_pow_compare_example =
    NonceSlot.get_pow_hash-sia_pow_compare header 77 header-IsHeader header-IsMode0 header-key_zero

abbrev pub sample_ctx : WorkCtx
sample_ctx = record { ss3 = replicate 52 1; ss4 = replicate 80 2; target_top64 = 3; valid = true }

worksrc_pack_item-build_work_item_example :
    build_work_item header 5 ≡ ok (worksrc_pack_item (ctx_of (stages_of header) 5) work_item_len).1
worksrc_pack_item-build_work_item_example =
    Packing.worksrc_pack_item-build_work_item header (stages_of header) 5
      (stage_inputs_mode0 header header-IsHeader header-IsMode0)

abbrev pub two_bytes : List ℕ
two_bytes = 1 ∷ 2 ∷ []

abbrev pub one_byte : List ℕ
one_byte = 3 ∷ []

block_serialize_outcome_example :
    (164 + 9 + length two_bytes + length one_byte ≤ 400
      → (b : List ℕ) × (block_serialize header two_bytes one_byte 1 400 ≡ some b)
        × (take 164 b ≡ header_bytes header)
        × (read_compact (drop 164 b) ≡ some (u64 (1 + 1), two_bytes ++ one_byte))
        × (length b ≤ 400))
    × (400 < 164 + 9 + length two_bytes + length one_byte
        → block_serialize header two_bytes one_byte 1 400 ≡ none)
block_serialize_outcome_example =
    BlockLayout.block_serialize_outcome header two_bytes one_byte 1 400 header-IsHeader

abbrev sample_calls : List Call
sample_calls = Call.next_payout none ∷ Call.pool_epoch ∷ Call.pool_credit ∷ []

devfee-Accounts_example : Accounts (tally sample_calls) (run devfee_reset sample_calls)
devfee-Accounts_example = Fee.devfee-Accounts sample_calls (omega arith)

devfee_next_payout_every_twentieth_example :
    (((tally sample_calls).payouts + 1) % 20 ≡ 0
      → ((devfee_next_payout (run devfee_reset sample_calls) (some (9 ∷ []))).1 ≡ devfee_address)
        × ((devfee_next_payout (run devfee_reset sample_calls) (some (9 ∷ []))).0.current_is_dev
            ≡ true))
    × (((tally sample_calls).payouts + 1) % 20 ≢ 0
        → ((devfee_next_payout (run devfee_reset sample_calls) (some (9 ∷ []))).1 ≡ 9 ∷ [])
          × ((devfee_next_payout (run devfee_reset sample_calls) (some (9 ∷ []))).0.current_is_dev
              ≡ false))
devfee_next_payout_every_twentieth_example =
    Fee.devfee_next_payout_every_twentieth sample_calls (9 ∷ []) (omega arith)

abbrev three_rows : List (List ℕ)
three_rows = zero_hash ∷ replicate 32 1 ∷ replicate 32 2 ∷ []

abbrev row_count : ℕ
row_count = 3

merkle_root-IsRoot_example :
    (row_count ≡ 0 → merkle_root three_rows row_count ≡ none)
    × (1 ≤ row_count
        → (r : List ℕ) × (merkle_root three_rows row_count ≡ some r)
          × IsRoot (take row_count three_rows) r)
merkle_root-IsRoot_example =
    Tree.merkle_root-IsRoot three_rows row_count (refl, (refl, (refl, tt))) (omega arith)

gbt_on_candidate_cases_example :
    (0 ≢ expected_hash_top64 (with_nonce header 77) → gbt_on_candidate header false 22 77 0 ≡ bad)
    × (0 ≡ expected_hash_top64 (with_nonce header 77)
        → network_target header < be_value (sia_pow_compare (stages_of header).ss4 77)
        → gbt_on_candidate header false 22 77 0 ≡ reproduces)
    × (0 ≡ expected_hash_top64 (with_nonce header 77)
        → be_value (sia_pow_compare (stages_of header).ss4 77) ≤ network_target header
        → gbt_on_candidate header false 22 77 0 ≡ solution (not false && 22 == 22))
gbt_on_candidate_cases_example =
    Verdict.gbt_on_candidate_cases header false 22 77 0 (sia_pow_compare (stages_of header).ss4 77)
      (NonceSlot.get_pow_hash-sia_pow_compare header 77 header-IsHeader header-IsMode0
        header-key_zero)
