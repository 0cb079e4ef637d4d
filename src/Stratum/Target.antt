-- ===== src/Stratum/Target.antt =====
-- miner/stratum.c, the share target. The conversion of the difficulty, a double, to the 64-bit
-- number `dscaled` is floating point and is not modelled: the number is an argument.
use osprey_blake2b.Base.{
  ℕ, zero, suc, ◌+◌, ◌-◌, ◌*◌, ◌/◌, ◌%◌, ◌^◌, bit_and, bit_or, List, ◌++◌, if◌then◌else◌, leb, ◌==◌,
  u8, shr, shl64, set, take, drop, replicate,
}
use osprey_blake2b.Base.Bytes.{byte_at, range, load_word}

unfoldable pub diff1_target : List ℕ
diff1_target = set (set (replicate 32 0) 4 0xff) 5 0xff

-- The loop of `bn_div_u64`, from bit `i` of the number on with `n` bits left.
unfoldable pub div_bits : List ℕ → ℕ → ℕ → ℕ → ℕ → List ℕ → List ℕ
div_bits inp divisor i zero rem out = out
div_bits inp divisor i (suc n) rem out =
    let byte = i / 8 in
    let bit = 7 - i % 8 in
    let r = bit_or (shl64 rem 1) (bit_and (shr (byte_at inp byte) bit) 1) in
    let fits = leb divisor r in
    div_bits inp divisor (i + 1) n (if fits then r - divisor else r)
      (if fits then set out byte (bit_or (byte_at out byte) (u8 (1 * 2 ^ bit))) else out)

unfoldable pub bn_div_u64 : List ℕ → ℕ → List ℕ
bn_div_u64 inp divisor =
    if divisor == 0 then replicate 32 0 else div_bits inp divisor 0 256 0 (replicate 32 0)

unfoldable pub bn_shl32 : List ℕ → List ℕ
bn_shl32 inp = take 28 (drop 4 inp) ++ replicate 4 0

unfoldable pub stratum_target_full : ℕ → List ℕ
stratum_target_full dscaled =
    bn_shl32 (bn_div_u64 diff1_target (if dscaled == 0 then 1 else dscaled))

unfoldable pub stratum_target_top64 : ℕ → ℕ
stratum_target_top64 dscaled = load_word (stratum_target_full dscaled) 0 (range 0 8)
