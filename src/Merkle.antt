-- ===== src/Merkle.antt =====
-- miner/merkle.c: the Bitcoin merkle root, computed in place over the rows of 32 bytes.
-- The buffer `ids` is the list of its rows: every access of the code is to a whole row.
pub mod Level
pub mod Tree
use osprey_blake2b.Base.{
  ℕ, zero, suc, ◌+◌, ◌*◌, ◌/◌, List, [], ◌∷◌, ◌++◌, Option, none, some, if◌then◌else◌, ltb, ◌==◌,
  get_or, set, take,
}
use osprey_blake2b.Sha256.{sha256d}

-- Row `i` of the next level: the pair's rows joined, the last row twice in an odd level.
unfoldable pub pair_hash : List (List ℕ) → ℕ → ℕ → List ℕ
pair_hash ids count i = sha256d (
    take 32 (get_or ids (2 * i) [])
    ++ take 32 (if ltb (2 * i + 1) count then get_or ids (2 * i + 1) [] else get_or ids (2 * i) []))

-- The inner loop, from pair `i` on with `n` pairs left; each result overwrites row `i`.
unfoldable pub merkle_level : ℕ → ℕ → ℕ → List (List ℕ) → List (List ℕ)
merkle_level count i zero ids = ids
merkle_level count i (suc n) ids = merkle_level count (i + 1) n (set ids i (pair_hash ids count i))

-- `while (count > 1)`, with fuel.
unfoldable pub merkle_loop : ℕ → ℕ → List (List ℕ) → List (List ℕ)
merkle_loop zero count ids = ids
merkle_loop (suc fuel) count ids =
    let pairs = (count + 1) / 2 in
    let next = merkle_loop fuel pairs (merkle_level count 0 pairs ids) in
    if ltb 1 count then next else ids

-- `none` is the return value -1. The count at least halves, rounded up, so it is fuel enough.
unfoldable pub merkle_root : List (List ℕ) → ℕ → Option (List ℕ)
merkle_root ids count =
    if count == 0 then none else some (take 32 (get_or (merkle_loop count count ids) 0 []))
