-- ===== src/PoolSource/Rolled.antt =====
-- The extranonce2 of a work item is the counter, so no two items share a search space.
use osprey_blake2b.Base.{
  ℕ, zero, suc, ◌+◌, ◌-◌, ◌*◌, ◌/◌, ◌%◌, ◌^◌, ◌≤◌, ◌<◌, ◌≡◌, refl, sym, ap, ◌∙◌, arith, List,
  length, set, u8, shr, bit_and, replicate, length-set, length-replicate, lt→ltb,
}
use native.Mathlib.Nat.{
  mod-lt, mod-eq_of_lt, mod-add-div', add-mul-mod_self_right, one-le-pow, pow-suc,
}
use native.Mathlib.Numerals.{add-one}
use osprey_blake2b.Base.Bytes.{be_value, byte_at}
use osprey_blake2b.Base.Bits.{bit_and-mod}
use osprey_blake2b.Base.Powers.{pow_bytes}
use osprey_blake2b.Base.Places.{be_value-set, byte_at-le, be_value-replicate}
use osprey_blake2b.PoolSource.{roll_en2, make_en2}

-- A byte written above the value counts with its place.
above :
    (en2 : List ℕ) (i v : ℕ)
    → i < length en2
    → be_value en2 < 256 ^ i
    → be_value (set en2 (length en2 - 1 - i) v) ≡ be_value en2 + v * 256 ^ i
above en2 i v h low =
    let at = length en2 - 1 - i in
    let e : length en2 ≡ at + suc i = omega (arith, h) in
    let z = zero_byte (byte_at en2 at) (256 ^ i) (be_value en2) (byte_at-le en2 at i e) low in
    omega (arith, be_value-set en2 at i v e, ap (λ (t : ℕ). t * 256 ^ i) z)
  where
    zero_byte : (b p v : ℕ) → b * p ≤ v → v < p → b ≡ 0
    zero_byte zero p v h k = refl
    zero_byte (suc b) p v h k = absurd (grind arith)

pow_256_pos : (i : ℕ) → 0 < 256 ^ i
pow_256_pos i = omega (arith, one-le-pow i 256)

digit_lt : (r d p : ℕ) → r < p → d < 256 → r + d * p < 256 * p
digit_lt r d p h k = grind arith

-- A remainder modulo the next power is the remainder and the next digit.
mod-mul : (c p : ℕ) → zero < p → c % (256 * p) ≡ c % p + c / p % 256 * p
mod-mul c p h =
    let low = c % p + c / p % 256 * p in
    let small = digit_lt (c % p) (c / p % 256) p (mod-lt c h) (mod-lt (c / p) (omega arith)) in
    let e : c ≡ low + c / p / 256 * (256 * p) =
      sym (mod-add-div' c p)
      ∙ omega (arith, ap (λ (t : ℕ). t * p) (sym (mod-add-div' (c / p) 256))) in
    ap (λ (t : ℕ). t % (256 * p)) e
    ∙ add-mul-mod_self_right low (c / p / 256) (256 * p)
    ∙ mod-eq_of_lt small

next_byte :
    (c i : ℕ) → c % 256 ^ i + u8 (bit_and (shr c (8 * i)) 0xff) * 256 ^ i ≡ c % 256 ^ (i + 1)
next_byte c i =
    let p : 2 ^ (8 * i) ≡ 256 ^ i =
      ap (λ (t : ℕ). 2 ^ t) (omega arith) ∙ pow_bytes i 0 ∙ omega arith in
    let d : u8 (bit_and (shr c (8 * i)) 0xff) ≡ c / 256 ^ i % 256 =
      omega (arith, bit_and-mod 8 (c / 2 ^ (8 * i)), ap (λ (t : ℕ). c / t) p) in
    ap (λ (t : ℕ). c % 256 ^ i + t * 256 ^ i) d
    ∙ sym (mod-mul c (256 ^ i) (pow_256_pos i))
    ∙ ap (λ (t : ℕ). c % t) (omega (arith, pow-suc 256 i, ap (λ (t : ℕ). 256 ^ t) (add-one i)))

rolled :
    (c len n i : ℕ) (en2 : List ℕ)
    → length en2 ≡ len
    → i + n ≤ len
    → be_value en2 ≡ c % 256 ^ i
    → be_value (roll_en2 c len i n en2) ≡ c % 256 ^ (i + n)
unfolding roll_en2
rolled c len zero i en2 size room e = e ∙ ap (λ (t : ℕ). c % 256 ^ t) (omega arith)
rolled c len (suc n) i en2 size room e =
    let v = u8 (bit_and (shr c (8 * i)) 0xff) in
    let next = set en2 (len - 1 - i) v in
    let low : be_value en2 < 256 ^ i = omega (arith, e, mod-lt c (pow_256_pos i)) in
    let q : be_value next ≡ be_value en2 + v * 256 ^ i =
      ap (λ t. be_value (set en2 (t - 1 - i) v)) (sym size)
      ∙ above en2 i v (omega (arith, size, room)) low in
    rw (lt→ltb i len (omega (arith, room))) (
      rolled c len n (i + 1) next (length-set en2 (len - 1 - i) v ∙ size) (omega (arith, room))
        (q ∙ ap (λ (t : ℕ). t + v * 256 ^ i) e ∙ next_byte c i)
      ∙ ap (λ (t : ℕ). c % 256 ^ t) (omega arith))

-- An extranonce2 of at least 8 bytes is the 64-bit counter in big-endian order, so different
-- counters give different search spaces.
pub make_en2-be_value : (c len : ℕ) → 8 ≤ len → c < 2 ^ 64 → be_value (make_en2 c len) ≡ c
unfolding make_en2
make_en2-be_value c len h k =
    rolled c len 8 0 (replicate len 0) (length-replicate len 0) h
      (be_value-replicate len ∙ omega arith)
    ∙ omega (arith, k)
