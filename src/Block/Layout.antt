-- ===== src/Block/Layout.antt =====
-- The sizes of a serialized block and the reading of its transaction count.
use osprey_blake2b.Base.{
  ℕ, ◌+◌, ◌^◌, ◌≤◌, ◌<◌, ◌≡◌, refl, ap, ◌∙◌, arith, List, [], ◌∷◌, ◌++◌, length, take, drop,
  length-append, take-append, drop-append, Option, none, some, if◌then◌else◌, ltb, leb, ◌==◌, u64,
  lt→ltb, le→ltb-false,
}
use osprey_blake2b.Base.Bytes.{le_value, store_le}
use osprey_blake2b.WorkItem.{KnotsHeader, put_le32}
use osprey_blake2b.WorkItem.Layout.{IsHeader, lengths}
use osprey_blake2b.Block.{
  put_u16le, put_compact, header_bytes, block_serialize_header, block_serialize,
}

length-put_u16le : (v : ℕ) → length (put_u16le v) ≡ 2
unfolding put_u16le
length-put_u16le v = refl

pub length-header_bytes : (h : KnotsHeader) → IsHeader h → length (header_bytes h) ≡ 164
unfolding header_bytes
length-header_bytes h v =
    simp (
      lengths, length-put_u16le, v.prev_size, v.root_size, v.extranonce_size, v.key_size,
      v.rhs_size,
    )

-- The length of CompactSize.
pub compact_size : ℕ → ℕ
compact_size v =
    if ltb v 0xfd then 1 else if leb v 0xffff then 3 else if leb v 0xffffffff then 5 else 9

length-put_compact : (v : ℕ) → length (put_compact v) ≡ compact_size v
unfolding put_compact compact_size put_u16le put_le32 store_le
length-put_compact v = ground arith

compact_size-le : (v : ℕ) → compact_size v ≤ 9
unfolding compact_size
compact_size-le v = ground arith

-- A reader of CompactSize, as other nodes read it: the number and the bytes that follow.
unfoldable pub read_compact : List ℕ → Option (ℕ × List ℕ)
read_compact [] = none
read_compact (b ∷ bytes) =
    if ltb b 0xfd
    then some (b, bytes)
    else if b == 0xfd
    then some (le_value (take 2 bytes), drop 2 bytes)
    else if b == 0xfe
    then some (le_value (take 4 bytes), drop 4 bytes)
    else some (le_value (take 8 bytes), drop 8 bytes)

-- What `put_compact` writes is read back, whatever bytes follow, for all 64-bit numbers.
pub read_compact-put_compact :
    (v : ℕ) (rest : List ℕ) → v < 2 ^ 64 → read_compact (put_compact v ++ rest) ≡ some (v, rest)
unfolding read_compact put_compact put_u16le put_le32 store_le
read_compact-put_compact v rest h = ground arith

-- A block is serialized exactly where the buffer has 164 + 9 bytes and those of the coinbase and of
-- the transactions. It then begins with the 164 bytes of the header, behind them the CompactSize
-- reads as one more than the count, with the coinbase and the transactions following it, and it is
-- no longer than the buffer. Otherwise there is none.
pub block_serialize_outcome :
    (h : KnotsHeader) (cb txs : List ℕ) (count outsz : ℕ)
    → IsHeader h
    → (164 + 9 + length cb + length txs ≤ outsz
        → (b : List ℕ) × (block_serialize h cb txs count outsz ≡ some b)
          × (take 164 b ≡ header_bytes h)
          × (read_compact (drop 164 b) ≡ some (u64 (count + 1), cb ++ txs))
          × (length b ≤ outsz))
      × (outsz < 164 + 9 + length cb + length txs → block_serialize h cb txs count outsz ≡ none)
unfolding block_serialize block_serialize_header
block_serialize_outcome h cb txs count outsz v =
    let n = put_compact (u64 (count + 1)) in
    let s = length-header_bytes h v in
    (
      λ fits. (
        header_bytes h ++ (n ++ (cb ++ txs)),
        rw
            (
              le→ltb-false outsz (173 + length cb + length txs) fits,
              le→ltb-false outsz 164 (omega (arith, fits)),
            )
            refl,
        take-append 164 (header_bytes h) (n ++ (cb ++ txs)) s,
        ap read_compact (drop-append 164 (header_bytes h) (n ++ (cb ++ txs)) s)
            ∙ read_compact-put_compact (u64 (count + 1)) (cb ++ txs) (omega arith),
        omega (
          arith,
          fits,
          s,
          length-append (header_bytes h) (n ++ (cb ++ txs)),
          length-append n (cb ++ txs),
          length-append cb txs,
          length-put_compact (u64 (count + 1)),
          compact_size-le (u64 (count + 1)),
        ),
      ),
      λ over. rw (lt→ltb outsz (173 + length cb + length txs) over) refl,
    )
