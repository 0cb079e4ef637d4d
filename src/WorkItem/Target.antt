-- ===== src/WorkItem/Target.antt =====
-- The end of miner/work_item.c: the 256-bit target from compact bits, and the comparison with it.
use osprey_blake2b.Base.{
  ℕ, zero, suc, ◌+◌, ◌-◌, ◌*◌, ◌/◌, ◌%◌, ◌^◌, bit_and, bit_or, Bool, true, false, List, [], ◌∷◌, u8,
  shr, if◌then◌else◌, ltb, leb, ◌==◌, set, replicate, u32,
}
use osprey_blake2b.Base.Bytes.{byte_at, range, load_word}

-- `out[31 - pos / 8] |= 1 << (pos % 8)`.
unfoldable pub set_bit : ℕ → List ℕ → List ℕ
set_bit pos out =
    let i = 31 - pos / 8 in set out i (bit_or (byte_at out i) (u8 (1 * 2 ^ (pos % 8))))

-- The loop over the mantissa's bits, from bit `b` on. `bitpos` and `pos` are `long`, 32 bits on the
-- device, kept as their bit patterns: the first test is `pos < 0`. A sum above 2 ^ 31 - 1,
-- which C leaves undefined, wraps.
unfoldable pub place_bits : ℕ → ℕ → ℕ → ℕ → List ℕ → List ℕ
place_bits mant bitpos b zero out = out
place_bits mant bitpos b (suc n) out =
    let pos = u32 (bitpos + b) in
    place_bits mant bitpos (b + 1) n (
      if bit_and (shr mant b) 1 == 0
      then out
      else if leb (2 ^ 31) pos
      then out
      else if leb 256 pos
      then out
      else set_bit pos out)

unfoldable pub compact_to_target_shifted : ℕ → ℕ → List ℕ
compact_to_target_shifted n_bits shift =
    let exp = bit_and (shr n_bits 24) 0xff in
    let mant = bit_and n_bits 0x007fffff in
    if bit_and n_bits 0x00800000 == 0
    then (if leb exp 3
        then place_bits (shr mant (8 * (3 - exp))) (u32 shift) 0 24 (replicate 32 0)
        else place_bits mant (u32 (8 * (exp - 3) + shift)) 0 24 (replicate 32 0))
    else replicate 32 0

unfoldable pub target_top64_from_bits : ℕ → ℕ → ℕ
target_top64_from_bits n_bits shift =
    load_word (compact_to_target_shifted n_bits shift) 0 (range 0 8)

-- `memcmp(a, b, n) <= 0`: the first byte that differs decides.
unfoldable pub memcmp_le : ℕ → List ℕ → List ℕ → Bool
memcmp_le zero a b = true
memcmp_le (suc n) [] b = true
memcmp_le (suc n) (x ∷ a) [] = false
memcmp_le (suc n) (x ∷ a) (y ∷ b) = if x == y then memcmp_le n a b else ltb x y

unfoldable pub hash_meets_target : List ℕ → List ℕ → Bool
hash_meets_target hash_be target_be = memcmp_le 32 hash_be target_be
