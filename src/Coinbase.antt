-- ===== src/Coinbase.antt =====
-- miner/coinbase.c: the coinbase transaction with and without its witness.
pub mod Height
use osprey_blake2b.Base.{
  ℕ, zero, suc, ◌+◌, ◌-◌, ◌*◌, ◌/◌, ◌%◌, ◌^◌, bit_and, bit_or, ◌&&◌, List, [], ◌∷◌, ◌++◌, Option,
  none, some, if◌then◌else◌, ltb, leb, ◌==◌, u8, shr, take, drop, replicate, length,
}
use osprey_blake2b.Base.Bytes.{byte_at, store_le}
use osprey_blake2b.Sha256.{sha256d}
use osprey_blake2b.WorkItem.{put_le32}
use osprey_blake2b.Block.{put_compact}
use osprey_blake2b.Bech32.{bech32_decode_addr, bech32_scriptpubkey}

unfoldable pub hexval : ℕ → Option ℕ
hexval c =
    if leb b'0' c && leb c b'9'
    then some (c - b'0')
    else if leb b'a' c && leb c b'f'
    then some (c - b'a' + 10)
    else if leb b'A' c && leb c b'F'
    then some (c - b'A' + 10)
    else none

-- `(uint8_t)((hi << 4) | lo)`.
unfoldable pub hex_byte : ℕ → ℕ → ℕ
hex_byte hi lo = u8 (bit_or (hi * 2 ^ 4) lo)

-- The loop over the pairs of digits; an odd rest is excluded before.
unfoldable pub hex_pairs : List ℕ → Option (List ℕ)
hex_pairs [] = some []
hex_pairs (c ∷ []) = some []
hex_pairs (c ∷ (d ∷ cs)) = elim (hexval c) [
  | none ↦ none
  | some hi ↦ elim (hexval d) [
    | none ↦ none
    | some lo ↦ elim (hex_pairs cs) [ none ↦ none | some bs ↦ some (hex_byte hi lo ∷ bs) ]
  ]
]

unfoldable pub hex2bin : List ℕ → ℕ → Option (List ℕ)
hex2bin hex outsz =
    if (length hex % 2) == 0
    then (if ltb outsz (length hex / 2) then none else hex_pairs hex)
    else none

-- `while (h) { tmp[n++] = h & 0xff; h >>= 8; }`, with fuel: 32 bits are four rounds.
unfoldable pub height_bytes : ℕ → ℕ → List ℕ
height_bytes zero h = []
height_bytes (suc fuel) h =
    let rest = height_bytes fuel (shr h 8) in if h == 0 then [] else u8 (bit_and h 0xff) ∷ rest

-- The zero byte that keeps the number from reading as negative, and the one of height 0.
unfoldable pub height_push : List ℕ → List ℕ
height_push tmp =
    if length tmp == 0
    then 0 ∷ []
    else if bit_and (byte_at tmp (length tmp - 1)) 0x80 == 0
    then tmp
    else tmp ++ (0 ∷ [])

-- The height is the bit pattern of the int32_t.
unfoldable pub push_height : ℕ → List ℕ
push_height height = let tmp = height_push (height_bytes 5 height) in u8 (length tmp) ∷ tmp

pub record CoinbaseTx : Type 0 where
  pub raw : List ℕ
  pub stripped : List ℕ
  pub txid : List ℕ

-- The return codes -2, -3 and -4.
pub data CoinbaseResult : Type 0 where
  built : CoinbaseTx → CoinbaseResult
  bad_address bad_script bad_commitment : CoinbaseResult

unfoldable pub coinbase_script : ℕ → ℕ → List ℕ
coinbase_script height extranonce = push_height height ++ (8 ∷ store_le 0 8 extranonce)

-- From the input count to the output list, that is what both forms share.
unfoldable pub coinbase_body : List ℕ → ℕ → List ℕ → List ℕ → List ℕ
coinbase_body script value spk wc =
    put_compact 1
    ++ (replicate 32 0
        ++ (put_le32 0xffffffff
            ++ (put_compact (length script)
                ++ (script
                    ++ (put_le32 0xffffffff
                        ++ (put_compact (if length wc == 0 then 1 else 2)
                            ++ (store_le 0 8 value
                                ++ (put_compact (length spk)
                                    ++ (spk
                                        ++ (if length wc == 0
                                            then []
                                            else (store_le 0 8 0
                                                ++ (put_compact (length wc) ++ wc))))))))))))

unfoldable pub coinbase_stripped : List ℕ → ℕ → List ℕ → List ℕ → List ℕ
coinbase_stripped script value spk wc =
    put_le32 2 ++ (coinbase_body script value spk wc ++ put_le32 0)

-- `mid` bytes are copied from behind the version of the stripped form.
unfoldable pub coinbase_raw : List ℕ → List ℕ
coinbase_raw stripped =
    let mid = length stripped - 4 - 4 in
    put_le32 2
    ++ (0x00
        ∷ (0x01
            ∷ (take mid (drop 4 stripped)
                ++ (put_compact 1 ++ (put_compact 32 ++ (replicate 32 0 ++ put_le32 0))))))

-- The commitment's bytes; a missing or empty text gives none.
unfoldable pub commitment_bytes : Option (List ℕ) → Option (List ℕ)
commitment_bytes none = some []
commitment_bytes (some hex) = if length hex == 0 then some [] else hex2bin hex 64

unfoldable pub coinbase_build : List ℕ → ℕ → ℕ → ℕ → Option (List ℕ) → CoinbaseResult
coinbase_build address value height extranonce witness_commitment_hex =
    elim (bech32_decode_addr address) [
      | none ↦ bad_address
      | some a ↦ elim (bech32_scriptpubkey a 64) [
        | none ↦ bad_script
        | some spk ↦ elim (commitment_bytes witness_commitment_hex) [
          | none ↦ bad_commitment
          | some wc ↦
              let stripped = coinbase_stripped (coinbase_script height extranonce) value spk wc in
              built (record {
                raw = coinbase_raw stripped;
                stripped = stripped;
                txid = sha256d stripped;
              })
        ]
      ]
    ]
