-- ===== src/WorkItem.antt =====
-- miner/work_item.c and work_item.h: a Knots v2 header becomes the 168-byte work item.
-- A fixed array is a list; `memcpy` of n bytes is `take n`, and a buffer that is written from the
-- front to the end is the pieces joined. `m_height` is the bit pattern of the int32_t.
pub mod Target
pub mod TargetValue
pub mod TargetLaws
pub mod Layout
pub mod Item
use osprey_blake2b.Base.{
  ℕ, ◌+◌, ◌-◌, ◌*◌, ◌/◌, ◌%◌, ◌^◌, min, bit_and, bit_or, bit_xor, Bool, true, false, ◌&&◌, not,
  List, [], ◌∷◌, ◌++◌, map, zero, suc, if◌then◌else◌, ltb, ◌==◌, u8, u16, u32, u64, shr, set, take,
  replicate, length,
}
use osprey_blake2b.Base.Bytes.{byte_at, blit, range, store_le, load_word}
use osprey_blake2b.Base.Text.{codes}
use osprey_blake2b.Sha256.{tagged_hash}
use osprey_blake2b.Blake2b.{blake2b_nokey}

abbrev pub stage3_len : ℕ
stage3_len = 52

abbrev pub stage4_len : ℕ
stage4_len = 80

abbrev pub slots : ℕ
slots = 10

abbrev pub work_item_len : ℕ
work_item_len = 168

pub record KnotsHeader : Type 0 where
  pub n_version : ℕ
  pub hash_prev_block : List ℕ
  pub hash_merkle_root : List ℕ
  pub n_time : ℕ
  pub n_bits : ℕ
  pub n_nonce : ℕ
  pub m_nonce2 : ℕ
  pub m_nonce3 : ℕ
  pub m_extranonce : List ℕ
  pub m_time_offset : ℕ
  pub m_txcount : ℕ
  pub m_flags : ℕ
  pub m_xor_key_mask_clear_bits : ℕ
  pub m_xor_key : List ℕ
  pub m_height : ℕ
  pub m_mm_rhs : List ℕ

unfoldable pub knots_header_init : KnotsHeader
knots_header_init = record {
  n_version = 0x20000000;
  hash_prev_block = replicate 32 0;
  hash_merkle_root = replicate 32 0;
  n_time = 0;
  n_bits = 0x1d00ffff;
  n_nonce = 0;
  m_nonce2 = 0;
  m_nonce3 = 0;
  m_extranonce = replicate 16 0;
  m_time_offset = 0;
  m_txcount = 0;
  m_flags = 0;
  m_xor_key_mask_clear_bits = 0;
  m_xor_key = replicate 16 0;
  m_height = 0;
  m_mm_rhs = replicate 32 0;
}

-- `put_le32`: four bytes, least significant first.
unfoldable pub put_le32 : ℕ → List ℕ
put_le32 v = u8 v ∷ u8 (shr v 8) ∷ u8 (shr v 16) ∷ u8 (shr v 24) ∷ []

unfoldable pub put_le64 : ℕ → List ℕ
put_le64 v = store_le 0 8 v

-- `get_le64(buf + off)`: the last byte is read first.
unfoldable pub get_le64 : List ℕ → ℕ → ℕ
get_le64 p off =
    load_word p 0
      ((off + 7) ∷ (off + 6) ∷ (off + 5) ∷ (off + 4) ∷ (off + 3) ∷ (off + 2) ∷ (off + 1) ∷ off ∷ [])

abbrev pub header_v2_flag : ℕ
header_v2_flag = 0x80000000

abbrev pub use_time_offset : ℕ
use_time_offset = 4

unfoldable pub knots_complete_version : KnotsHeader → ℕ
knots_complete_version h = bit_or header_v2_flag (bit_and h.n_version (2 ^ 32 - 1 - header_v2_flag))

-- The subtraction wraps as on a uint32_t.
unfoldable pub knots_time_on_wire : KnotsHeader → ℕ
knots_time_on_wire h =
    if bit_and h.m_flags use_time_offset == 0
    then h.n_time
    else u32 (h.n_time + 2 ^ 32 - h.m_time_offset)

-- The return codes -1, -2 and -3 of `stage_inputs`.
pub data StageError : Type 0 where
  bad_mode bad_payload bad_message : StageError

pub data Result {ℓ} (A : Type ℓ) : Type ℓ where
  ok : A → Result A
  err : StageError → Result A

pub record Stages : Type 0 where
  pub ss3 : List ℕ
  pub ss4 : List ℕ
  pub hash_a : List ℕ

-- `for (i = 0; i < 32; ++i) out[i] = p[31 - i]`.
unfoldable pub reversed32 : List ℕ → List ℕ
reversed32 p = map (λ i. byte_at p (31 - i)) (range 0 32)

-- `for (; i < i + n; ++i) buf[i] = 0`.
unfoldable pub clear_from : ℕ → ℕ → List ℕ → List ℕ
clear_from i zero buf = buf
clear_from i (suc n) buf = clear_from (i + 1) n (set buf i 0)

unfoldable pub h1_payload : KnotsHeader → List ℕ
h1_payload h =
    put_le32 (knots_complete_version h)
    ++ (take 32 (reversed32 h.hash_prev_block)
        ++ (put_le32 h.m_height
            ++ (take 32 h.hash_merkle_root
                ++ (put_le32 (knots_time_on_wire h)
                    ++ (0x00
                        ∷ (put_le32 h.n_bits
                            ++ (put_le32 h.m_txcount
                                ++ (h.m_flags
                                    ∷ (h.m_xor_key_mask_clear_bits
                                        ∷ take 32 (
                                            tagged_hash (codes "Bitcoin block hash PoW XOR key")
                                              (take 16 h.m_xor_key)))))))))))

unfoldable pub h2_hash : KnotsHeader → List ℕ
h2_hash h = tagged_hash (codes "Merge-mining hook") (
    take 32 (tagged_hash (codes "Bitcoin block header 1") (h1_payload h))
    ++ (replicate 32 0 ++ take 32 h.m_mm_rhs))

unfoldable pub stage3_message : KnotsHeader → List ℕ
stage3_message h = put_le32 0 ++ (take 32 (h2_hash h) ++ take 16 h.m_extranonce)

unfoldable pub prev_hidden : KnotsHeader → List ℕ
prev_hidden h =
    clear_from 0 6
      (tagged_hash (codes "Bitcoin prevblock header, hashed") (reversed32 h.hash_prev_block))

unfoldable pub stage4_message : KnotsHeader → List ℕ → List ℕ
stage4_message h hash_a =
    take 32 (prev_hidden h)
    ++ (put_le32 h.n_nonce
        ++ (put_le32 h.m_nonce2
            ++ (put_le32 h.m_time_offset ++ (put_le32 h.m_nonce3 ++ take 32 hash_a))))

unfoldable pub stage_inputs : KnotsHeader → Result Stages
stage_inputs h =
    if not (bit_and h.m_flags 3 == 0)
    then err bad_mode
    else if not (length (h1_payload h) == 119)
    then err bad_payload
    else let ss3 = stage3_message h in
      let hash_a = blake2b_nokey (take stage3_len ss3) 32 in
      let ss4 = stage4_message h hash_a in
      if not (length ss4 == stage4_len)
      then err bad_message
      else ok (record { ss3 = ss3; ss4 = ss4; hash_a = hash_a })

unfoldable pub build_work_item : KnotsHeader → ℕ → Result (List ℕ)
build_work_item h target_top64 = elim (stage_inputs h) [
  | err e ↦ err e
  | ok st ↦ ok (
      blit
        (blit (blit (replicate work_item_len 0) 0 (take stage3_len st.ss3)) (slots * 8)
          (take stage4_len st.ss4))
        (2 * slots * 8) (put_le64 target_top64))
]

-- Whether the sixteen key bytes are all zero.
unfoldable pub key_zero : List ℕ → Bool
key_zero [] = true
key_zero (b ∷ bs) = if b == 0 then key_zero bs else false

unfoldable pub xor_mask : KnotsHeader → List ℕ
xor_mask h =
    if key_zero (take 16 h.m_xor_key)
    then replicate 32 0
    else let mask = tagged_hash (codes "Bitcoin block hash PoW XOR mask") (take 16 h.m_xor_key) in
      let clear_bytes = h.m_xor_key_mask_clear_bits / 8 in
      let cleared = clear_from 0 (min clear_bytes 32) mask in
      let rem = h.m_xor_key_mask_clear_bits % 8 in
      if not (rem == 0) && ltb clear_bytes 32
      then set cleared clear_bytes (bit_and (byte_at cleared clear_bytes) (u8 (shr 0xff rem)))
      else cleared

-- `out[31 - i] = hash_b[i] ^ mask[i]`, so `out[j]` is taken from index `31 - j`.
unfoldable pub pow_bytes : List ℕ → List ℕ → List ℕ
pow_bytes hash_b mask =
    map (λ i. u8 (bit_xor (byte_at hash_b (31 - i)) (byte_at mask (31 - i)))) (range 0 32)

unfoldable pub get_pow_hash : KnotsHeader → Result (List ℕ)
get_pow_hash h = elim (stage_inputs h) [
  | err e ↦ err e
  | ok st ↦ ok (pow_bytes (blake2b_nokey (take stage4_len st.ss4) 32) (xor_mask h))
]

pub record FpgaResult : Type 0 where
  pub success : Bool
  pub nonce : ℕ
  pub hash_top64 : ℕ

-- The record is filled on both returns; the return value is 0 exactly when `success` is set.
unfoldable pub parse_result : List ℕ → FpgaResult
parse_result buf = record {
  success = byte_at buf 0 == 0x01;
  nonce = get_le64 buf 1;
  hash_top64 = get_le64 buf 9;
}
