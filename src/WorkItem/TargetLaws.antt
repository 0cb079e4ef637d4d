-- ===== src/WorkItem/TargetLaws.antt =====
-- The target's bytes, its top word and the comparison, as statements about numbers.
use osprey_blake2b.Base.{
  ℕ, zero, suc, ◌+◌, ◌*◌, ◌/◌, ◌%◌, ◌^◌, ◌≤◌, ◌<◌, ◌≡◌, refl, ap, ◌∙◌, arith, true, List, [], ◌∷◌,
  length, All, IsByte, ◌↔◌, ◌⊎◌,
}
use osprey_blake2b.Base.Places.{load_word-top, be_value_cons, be_value-lt}
use osprey_blake2b.Base.Bytes.{be_value}
use osprey_blake2b.WorkItem.Target.{
  compact_to_target_shifted, target_top64_from_bits, memcmp_le, hash_meets_target,
}
use osprey_blake2b.WorkItem.TargetValue.{target_number, compact_to_target_shifted-Holds}

-- The 32 target bytes, read big-endian, are the number that the compact bits stand for, shifted
-- left and cut to 256 bits: mantissa * 2 ^ (8 * (exponent - 3) + shift), with the mantissa cut
-- first where the exponent is at most 3, and 0 where the sign bit is set. This holds for a shift of
-- at most 2 ^ 31 - 2040, where the device's 32-bit `long` keeps every bit's position.
pub compact_to_target_shifted-be_value :
    (n_bits shift : ℕ)
    → shift + 2040 ≤ 2 ^ 31
    → be_value (compact_to_target_shifted n_bits shift) ≡ target_number n_bits shift % 2 ^ 256
compact_to_target_shifted-be_value n_bits shift far =
    (compact_to_target_shifted-Holds n_bits shift far).value

-- The word handed to the FPGA is the top 64 bits of that number.
pub target_top64_from_bits-top :
    (n_bits shift : ℕ)
    → shift + 2040 ≤ 2 ^ 31
    → target_top64_from_bits n_bits shift ≡ target_number n_bits shift % 2 ^ 256 / 2 ^ 192
unfolding target_top64_from_bits
target_top64_from_bits-top n_bits shift far =
    let t = compact_to_target_shifted-Holds n_bits shift far in
    load_word-top _ t.size t.bytes ∙ ap (λ (v : ℕ). v / 2 ^ 192) t.value

-- Leading digits that differ decide the order.
order_cons : (x y p a b : ℕ) → a < p → b < p → x < y → x * p + a < y * p + b
order_cons x y p a b ha hb h = grind arith

memcmp_le_iff :
    (n : ℕ) (a b : List ℕ)
    → length a ≡ n
    → length b ≡ n
    → All IsByte a
    → All IsByte b
    → (memcmp_le n a b ≡ true) ↔ (be_value a ≤ be_value b)
unfolding memcmp_le
memcmp_le_iff zero [] [] ha hb ba bb = (λ _. omega arith, λ _. refl)
memcmp_le_iff zero (x ∷ a) b ha hb ba bb = absurd (omega arith)
memcmp_le_iff zero [] (y ∷ b) ha hb ba bb = absurd (omega arith)
memcmp_le_iff (suc n) [] b ha hb ba bb = absurd (omega arith)
memcmp_le_iff (suc n) (x ∷ a) [] ha hb ba bb = absurd (omega arith)
memcmp_le_iff (suc n) (x ∷ a) (y ∷ b) ha hb ba bb =
    let same : 256 ^ length a ≡ 256 ^ length b = ap (λ (t : ℕ). 256 ^ t) (omega arith) in
    let ih = memcmp_le_iff n a b (omega arith) (omega arith) ba.1 bb.1 in
    let below_a = be_value-lt a ba.1 in
    let below_b : be_value b < 256 ^ length a = rw same (be_value-lt b bb.1) in
    let fwd = order_cons x y (256 ^ length a) (be_value a) (be_value b) below_a below_b in
    let bwd = order_cons y x (256 ^ length a) (be_value b) (be_value a) below_b below_a in
    ground (
      arith,
      ih.0,
      ih.1,
      fwd,
      bwd,
      be_value_cons x a,
      be_value_cons y b,
      ap (λ (t : ℕ). y * t) same,
      ap (λ (t : ℕ). x * 256 ^ length a) same,
    )

-- On 32 bytes each, the comparison is that of the numbers.
pub hash_meets_target_iff :
    (hash target : List ℕ)
    → length hash ≡ 32
    → length target ≡ 32
    → All IsByte hash
    → All IsByte target
    → (hash_meets_target hash target ≡ true) ↔ (be_value hash ≤ be_value target)
unfolding hash_meets_target
hash_meets_target_iff hash target hs ts hb tb = memcmp_le_iff 32 hash target hs ts hb tb

-- The targets of the judge's shift and of the prefilter's: the same, or the prefilter's is larger
-- and fits in 256 bits.
abbrev pub IsInflated : ℕ → ℕ → ℕ → Type 0
IsInflated n_bits judged pushed =
    (pushed ≡ judged) ⊎ ((judged ≤ pushed) × (target_number n_bits pushed < 2 ^ 256))
