-- ===== src/SiaStratum.antt =====
-- miner/sia_stratum.c: a Sia-dialect job becomes the stage messages, and the words to compare.
pub mod NonceSlot
use osprey_blake2b.Base.{
  ℕ, ◌+◌, ◌-◌, ◌*◌, min, List, [], ◌∷◌, ◌++◌, Option, none, some, if◌then◌else◌, ltb, ◌==◌, not,
  replicate, length, take,
}
use osprey_blake2b.Base.Bytes.{byte_at, blit, range, store_le, load_word}
use osprey_blake2b.Blake2b.{blake2b_nokey}
use osprey_blake2b.WorkItem.{stage3_len, stage4_len, reversed32}
use osprey_blake2b.Stratum.Job.{StratumJob, stratum_max_cb}

-- `none` is -1: the blob does not fit the buffer.
unfoldable pub sia_arbtx : StratumJob → List ℕ → List ℕ → ℕ → Option (List ℕ)
sia_arbtx j en1 en2 maxlen =
    if ltb maxlen (length j.coinb1 + length en1 + length en2 + length j.coinb2)
    then none
    else some (j.coinb1 ++ (en1 ++ (en2 ++ j.coinb2)))

-- The buffer takes 4 * 512 bytes behind the tag byte; a longer blob would be cut.
unfoldable pub sia_arbtx_leaf : List ℕ → List ℕ
sia_arbtx_leaf arbtx = blake2b_nokey (0x00 ∷ take (4 * stratum_max_cb) arbtx) 32

unfoldable pub fold_branches : List (List ℕ) → List ℕ → List ℕ
fold_branches [] acc = acc
fold_branches (b ∷ bs) acc = fold_branches bs (blake2b_nokey (0x01 ∷ (take 32 b ++ take 32 acc)) 32)

unfoldable pub sia_merkle_root : StratumJob → List ℕ → List ℕ
sia_merkle_root j leaf = fold_branches j.branches (take 32 leaf)

-- The 80-byte message with a zero nonce slot; it is also the Siacoin header.
unfoldable pub header_of : StratumJob → List ℕ → List ℕ
header_of j merkleroot =
    blit (blit (blit (replicate stage4_len 0) 0 (take 32 j.prevhash)) 40 (take 8 j.ntime)) 48
      (take 32 merkleroot)

-- `ss3`, `ss4` and the merkle root.
unfoldable pub sia_build_stages : StratumJob → List ℕ → List ℕ → Option (List ℕ × List ℕ × List ℕ)
sia_build_stages j en1 en2 = elim (sia_arbtx j en1 en2 (4 * stratum_max_cb)) [
  | none ↦ none
  | some arbtx ↦
      if not (length arbtx + 1 == stage3_len)
      then none
      else let merkleroot = sia_merkle_root j (sia_arbtx_leaf arbtx) in
        some (0x00 ∷ arbtx, header_of j merkleroot, merkleroot)
]

unfoldable pub sia_build_header : StratumJob → List ℕ → List ℕ → Option (List ℕ × List ℕ)
sia_build_header j en1 en2 = elim (sia_arbtx j en1 en2 (4 * stratum_max_cb)) [
  | none ↦ none
  | some arbtx ↦
      let merkleroot = sia_merkle_root j (sia_arbtx_leaf arbtx) in
      some (header_of j merkleroot, merkleroot)
]

unfoldable pub put_nonce : List ℕ → ℕ → List ℕ
put_nonce ss4 nonce = blit ss4 32 (store_le 0 8 nonce)

-- `for (i = 24; i < 32; ++i) v = (v << 8) | hb[i]`.
unfoldable pub sia_expected_top64 : List ℕ → ℕ → ℕ
sia_expected_top64 ss4 nonce =
    load_word (blake2b_nokey (put_nonce (take stage4_len ss4) nonce) 32) 0 (range 24 8)

unfoldable pub sia_pow_compare : List ℕ → ℕ → List ℕ
sia_pow_compare ss4 nonce = reversed32 (blake2b_nokey (put_nonce (take stage4_len ss4) nonce) 32)

unfoldable pub sia_chain_expected_top64 : List ℕ → ℕ → ℕ
sia_chain_expected_top64 header nonce =
    load_word (blake2b_nokey (put_nonce (take stage4_len header) nonce) 32) 0 (range 0 8)

unfoldable pub sia_chain_pow_compare : List ℕ → ℕ → List ℕ
sia_chain_pow_compare header nonce = blake2b_nokey (put_nonce (take stage4_len header) nonce) 32
