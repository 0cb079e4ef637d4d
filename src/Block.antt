-- ===== src/Block.antt =====
-- miner/block.c: the 164-byte v2 header and the whole block for submitblock.
pub mod Layout
use osprey_blake2b.Base.{
  ℕ, ◌+◌, ◌^◌, List, [], ◌∷◌, ◌++◌, Option, none, some, if◌then◌else◌, ltb, leb, ◌==◌, u8, u64, shr,
  take, length,
}
use osprey_blake2b.Base.Bytes.{store_le}
use osprey_blake2b.WorkItem.{KnotsHeader, put_le32, knots_complete_version, knots_time_on_wire}

abbrev pub block_header_v2_len : ℕ
block_header_v2_len = 164

unfoldable pub put_u16le : ℕ → List ℕ
put_u16le v = u8 v ∷ u8 (shr v 8) ∷ []

-- CompactSize; `put_u32le` is `put_le32` under another name. coinbase.c has its own copy.
unfoldable pub put_compact : ℕ → List ℕ
put_compact v =
    if ltb v 0xfd
    then u8 v ∷ []
    else if leb v 0xffff
    then 0xfd ∷ put_u16le v
    else if leb v 0xffffffff
    then 0xfe ∷ put_le32 v
    else 0xff ∷ store_le 0 8 v

-- The bytes that the body writes, in its order.
unfoldable pub header_bytes : KnotsHeader → List ℕ
header_bytes h =
    put_le32 (knots_complete_version h)
    ++ (take 32 h.hash_prev_block
        ++ (take 32 h.hash_merkle_root
            ++ (put_le32 (knots_time_on_wire h)
                ++ (put_le32 h.n_bits
                    ++ (put_le32 h.n_nonce
                        ++ (put_le32 h.m_nonce2
                            ++ (put_le32 h.m_nonce3
                                ++ (take 16 h.m_extranonce
                                    ++ (put_le32 h.m_time_offset
                                        ++ (put_u16le h.m_txcount
                                            ++ (h.m_flags
                                                ∷ (h.m_xor_key_mask_clear_bits
                                                    ∷ (take 16 h.m_xor_key
                                                        ++ (put_le32 h.m_height
                                                            ++ take 32 h.m_mm_rhs))))))))))))))

-- `none` is -1; the length returned is that of the bytes.
unfoldable pub block_serialize_header : KnotsHeader → ℕ → Option (List ℕ)
block_serialize_header h outsz =
    if ltb outsz block_header_v2_len then none else some (header_bytes h)

unfoldable pub block_serialize : KnotsHeader → List ℕ → List ℕ → ℕ → ℕ → Option (List ℕ)
block_serialize h coinbase_raw tx_data tx_count outsz =
    if ltb outsz (block_header_v2_len + 9 + length coinbase_raw + length tx_data)
    then none
    else elim (block_serialize_header h outsz) [
      | none ↦ none
      | some head ↦ some (head ++ (put_compact (u64 (tx_count + 1)) ++ (coinbase_raw ++ tx_data)))
    ]
