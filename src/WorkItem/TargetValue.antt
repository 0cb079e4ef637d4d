-- ===== src/WorkItem/TargetValue.antt =====
-- The target as a number: the compact bits stand for mantissa * 256 ^ (exponent - 3), shifted.
use osprey_blake2b.Base.{
  ℕ, zero, suc, ◌+◌, ◌-◌, ◌*◌, ◌/◌, ◌%◌, ◌^◌, ◌≤◌, ◌<◌, ◌≡◌, refl, sym, ap, ◌∙◌, arith, bit_and,
  bit_or, List, u8, shr, false, if◌then◌else◌, leb, ◌==◌, replicate, length, length-set, Bool-cases,
  inl, inr, u32, eq→==, ne→==-false, All, All-get_or, All-set, All-replicate, IsByte,
}
use native.Mathlib.Nat.{div-add-mod, mod-eq_of_lt, mod-lt, add-mul-mod_self_right, div-le_self}
use native.Mathlib.Decide.{dec_lt}
use osprey_blake2b.Base.Bits.{bit_or-add_right, bit_or-lt, bit_and-mod, bit_and-bit}
use osprey_blake2b.Base.Powers.{pow-add, pow_pos, pow_mono, pow_bytes, mod_add_pow}
use osprey_blake2b.Base.Places.{be_value-set, byte_at-le}
use osprey_blake2b.Base.Bytes.{byte_at, be_value}
use osprey_blake2b.WorkItem.Target.{set_bit, place_bits, compact_to_target_shifted}

lt_of_mul : (x r p : ℕ) → x * p < p * r → x < r
lt_of_mul x r p h = elim (dec_lt x r) [ yes k ↦ k | no k ↦ absurd (more x r p (omega arith) h) ]
  where
    more : (x r p : ℕ) → r ≤ x → ¬ (x * p < p * r)
    more x r p k = grind arith

-- Setting a bit above the value adds its power of two.
set_bit-value :
    (pos : ℕ) (out : List ℕ)
    → length out ≡ 32
    → pos < 256
    → be_value out < 2 ^ pos
    → be_value (set_bit pos out) ≡ be_value out + 2 ^ pos
unfolding set_bit
set_bit-value pos out size h low =
    let k = pos / 8 in
    let r = pos % 8 in
    let i = 31 - k in
    let x = byte_at out i in
    let place : 2 ^ pos ≡ 256 ^ k * 2 ^ r = ap (λ (t : ℕ). 2 ^ t) (omega arith) ∙ pow_bytes k r in
    let small : 2 ^ r ≤ 2 ^ 7 = pow_mono r 7 (omega arith) in
    let xs : x < 2 ^ r =
      lt_of_mul x (2 ^ r) (256 ^ k) (omega (arith, place, byte_at-le out i k (omega arith))) in
    let joined : bit_or x (u8 (1 * 2 ^ r)) ≡ 1 * 2 ^ r + x =
      ap (bit_or x) (omega arith) ∙ bit_or-add_right r 1 x xs in
    omega (
      arith,
      place,
      be_value-set out i k (bit_or x (u8 (1 * 2 ^ r))) (omega arith),
      ap (λ (t : ℕ). t * 256 ^ k) joined,
    )

length-set_bit : (pos : ℕ) (out : List ℕ) → length (set_bit pos out) ≡ length out
unfolding set_bit
length-set_bit pos out = length-set out _ _

set_bit-IsByte : (pos : ℕ) (out : List ℕ) → All IsByte out → All IsByte (set_bit pos out)
unfolding set_bit
set_bit-IsByte pos out h =
    All-set IsByte out (31 - pos / 8) _ h
      (bit_or-lt 8 _ _ (All-get_or IsByte out (31 - pos / 8) 0 h (omega arith)) (omega arith))

zero_bytes : All IsByte (replicate 32 0)
zero_bytes = All-replicate IsByte 32 0 (omega arith)

-- One more binary digit of a number.
mod_pow_suc : (m b : ℕ) → m % 2 ^ (b + 1) ≡ m % 2 ^ b + m / 2 ^ b % 2 * 2 ^ b
mod_pow_suc m b =
    let p = 2 ^ b in
    let q = m / p in
    let e : m ≡ m % p + q % 2 * p + q / 2 * (p * 2) =
      omega (arith, div-add-mod m p, ap (λ (t : ℕ). t * p) (div-add-mod q 2)) in
    let twice : 2 ^ (b + 1) ≡ p * 2 = pow-add b 1 in
    let low : m % p < p = mod-lt m (omega (arith, pow_pos b)) in
    ap (λ (t : ℕ). m % t) twice
    ∙ ap (λ (t : ℕ). t % (p * 2)) e
    ∙ add-mul-mod_self_right (m % p + q % 2 * p) (q / 2) (p * 2)
    ∙ mod-eq_of_lt (below (q % 2) p (omega arith) low)
  where
    below : (d p : ℕ) {r : ℕ} → d < 2 → r < p → r + d * p < p * 2
    below zero p h k = omega arith
    below (suc zero) p h k = omega arith
    below (suc (suc d)) p h k = absurd (omega arith)

-- What the loop has placed after the bits below `b`.
record Placed (mant bitpos b : ℕ) (out : List ℕ) : Type 0 where
  size : length out ≡ 32
  bytes : All IsByte out
  value : be_value out ≡ mant % 2 ^ b * 2 ^ bitpos % 2 ^ 256

-- A step where the position is not negative as a `long`.
abbrev step_out : ℕ → ℕ → ℕ → List ℕ → List ℕ
step_out mant bitpos b out =
    if bit_and (shr mant b) 1 == 0
    then out
    else if leb 256 (bitpos + b)
    then out
    else set_bit (bitpos + b) out

module _ (mant bitpos b : ℕ) (out : List ℕ) (h : Placed mant bitpos b out) where
  abbrev digit : ℕ
  digit = mant / 2 ^ b % 2

  -- The next value before it is cut to 256 bits.
  next_value :
      mant % 2 ^ (b + 1) * 2 ^ bitpos ≡ mant % 2 ^ b * 2 ^ bitpos + digit * 2 ^ (bitpos + b)
  next_value = omega (
    arith,
    ap (λ (t : ℕ). t * 2 ^ bitpos) (mod_pow_suc mant b),
    ap (λ (t : ℕ). digit * t) (pow-add bitpos b),
  )

  -- What was placed lies below the next bit.
  low : mant % 2 ^ b * 2 ^ bitpos < 2 ^ (bitpos + b)
  low = omega (
    arith,
    pow-add bitpos b,
    below (mant % 2 ^ b) (2 ^ b) (2 ^ bitpos) (pow_pos bitpos)
        (mod-lt mant (omega (arith, pow_pos b))),
  )
    where
      below : (x p q : ℕ) → 1 ≤ q → x < p → x * q < q * p
      below x p q k l = grind arith

  Placed-zero : digit ≡ 0 → Placed mant bitpos (b + 1) out
  Placed-zero z = record {
    size = h.size;
    bytes = h.bytes;
    value =
        h.value
        ∙ ap (λ (t : ℕ). t % 2 ^ 256)
            (sym (next_value ∙ omega (arith, ap (λ (t : ℕ). t * 2 ^ (bitpos + b)) z)));
  }

  one_value :
      digit ≡ 1 → mant % 2 ^ (b + 1) * 2 ^ bitpos ≡ mant % 2 ^ b * 2 ^ bitpos + 2 ^ (bitpos + b)
  one_value o = next_value ∙ omega (arith, ap (λ (t : ℕ). t * 2 ^ (bitpos + b)) o)

  Placed-out : digit ≡ 1 → 256 ≤ bitpos + b → Placed mant bitpos (b + 1) out
  Placed-out o far = record {
    size = h.size;
    bytes = h.bytes;
    value =
        h.value
        ∙ sym (
            ap (λ (t : ℕ). t % 2 ^ 256) (one_value o)
            ∙ mod_add_pow (mant % 2 ^ b * 2 ^ bitpos) (bitpos + b) 256 far);
  }

  Placed-in : digit ≡ 1 → bitpos + b < 256 → Placed mant bitpos (b + 1) (set_bit (bitpos + b) out)
  Placed-in o near =
      let x = mant % 2 ^ b * 2 ^ bitpos in
      let p = 2 ^ (bitpos + b) in
      let top : p ≤ 2 ^ 255 = pow_mono (bitpos + b) 255 (omega arith) in
      let whole : be_value out ≡ x = h.value ∙ mod-eq_of_lt (omega (arith, low)) in
      record {
        size = length-set_bit (bitpos + b) out ∙ h.size;
        bytes = set_bit-IsByte (bitpos + b) out h.bytes;
        value =
            set_bit-value (bitpos + b) out h.size near (omega (arith, low))
            ∙ ap (λ (t : ℕ). t + p) whole
            ∙ sym (mod-eq_of_lt (omega (arith, low)))
            ∙ ap (λ (t : ℕ). t % 2 ^ 256) (sym (one_value o));
      }

  Placed-step : Placed mant bitpos (b + 1) (step_out mant bitpos b out)
  Placed-step = elim (Bool-cases (bit_and (shr mant b) 1 == 0)) [
    | inl off ↦ rw off (Placed-zero (ground (arith, bit_and-mod 1 (mant / 2 ^ b))))
    | inr on ↦ rw on (elim (Bool-cases (leb 256 (bitpos + b))) [
      | inl far ↦ rw far (Placed-out (ground (arith, bit_and-mod 1 (mant / 2 ^ b))) (ground arith))
      | inr near ↦ rw near (Placed-in (ground (arith, bit_and-mod 1 (mant / 2 ^ b))) (ground arith))
    ])
  ]

-- Below 2 ^ 31 the position neither wraps nor is negative.
step_wrapped :
    (mant bitpos b : ℕ) (out : List ℕ)
    → bitpos + b < 2 ^ 31
    → (if bit_and (shr mant b) 1 == 0
        then out
        else if leb (2 ^ 31) (u32 (bitpos + b))
        then out
        else if leb 256 (u32 (bitpos + b))
        then out
        else set_bit (u32 (bitpos + b)) out)
      ≡ step_out mant bitpos b out
step_wrapped mant bitpos b out h =
    let same : u32 (bitpos + b) ≡ bitpos + b = omega arith in
    let plus : leb (2 ^ 31) (bitpos + b) ≡ false = ground arith in rw same (rw plus refl)

place_bits-Placed :
    (mant bitpos b n e : ℕ) (out : List ℕ)
    → b + n ≡ e
    → bitpos + e ≤ 2 ^ 31
    → Placed mant bitpos b out
    → Placed mant bitpos e (place_bits mant bitpos b n out)
unfolding place_bits
place_bits-Placed mant bitpos b zero e out h far p = let q : b ≡ e = omega arith in rw (← q) p
place_bits-Placed mant bitpos b (suc n) e out h far p =
    rw (step_wrapped mant bitpos b out (omega arith)) (
      place_bits-Placed mant bitpos (b + 1) n e (step_out mant bitpos b out) (omega arith) far
        (Placed-step mant bitpos b out p))

-- What the loop leaves in 32 zeroed bytes.
placed :
    (mant bitpos : ℕ)
    → bitpos + 24 ≤ 2 ^ 31
    → Placed mant bitpos 24 (place_bits mant bitpos 0 24 (replicate 32 0))
placed mant bitpos far = place_bits-Placed mant bitpos 0 24 24 (replicate 32 0) refl far start
  where
    start : Placed mant bitpos 0 (replicate 32 0)
    start = record {
      size = refl;
      bytes = zero_bytes;
      value =
          let none_yet : mant % 2 ^ 0 ≡ 0 = omega arith in
          omega (arith, ap (λ (t : ℕ). t * 2 ^ bitpos % 2 ^ 256) none_yet);
    }

-- A target in 32 bytes, and its number.
pub record Holds (n : ℕ) (out : List ℕ) : Type 0 where
  pub size : length out ≡ 32
  pub bytes : All IsByte out
  pub value : be_value out ≡ n

placed_value :
    (mant bitpos : ℕ)
    → mant < 2 ^ 24
    → bitpos + 24 ≤ 2 ^ 31
    → Holds (mant * 2 ^ bitpos % 2 ^ 256) (place_bits mant bitpos 0 24 (replicate 32 0))
placed_value mant bitpos h far =
    let p = placed mant bitpos far in
    record {
      size = p.size;
      bytes = p.bytes;
      value = p.value ∙ ap (λ (t : ℕ). t * 2 ^ bitpos % 2 ^ 256) (mod-eq_of_lt h);
    }

-- Compact bits: eight bits of exponent, a sign, 23 bits of mantissa.
abbrev pub exponent : ℕ → ℕ
exponent n_bits = n_bits / 2 ^ 24 % 256

abbrev pub mantissa : ℕ → ℕ
mantissa n_bits = n_bits % 2 ^ 23

abbrev pub sign_bit : ℕ → ℕ
sign_bit n_bits = n_bits / 2 ^ 23 % 2

-- The target as a number, not yet cut to 256 bits.
abbrev pub target_number : ℕ → ℕ → ℕ
target_number n_bits shift =
    if sign_bit n_bits == 1
    then 0
    else if leb (exponent n_bits) 3
    then mantissa n_bits / 2 ^ (8 * (3 - exponent n_bits)) * 2 ^ shift
    else mantissa n_bits * 2 ^ (8 * (exponent n_bits - 3) + shift)

-- The 32 bytes are the target's number modulo 2 ^ 256, for a shift that leaves every bit's position
-- below 2 ^ 31; a negative target is 0.
pub compact_to_target_shifted-Holds :
    (n_bits shift : ℕ)
    → shift + 2040 ≤ 2 ^ 31
    → Holds (target_number n_bits shift % 2 ^ 256) (compact_to_target_shifted n_bits shift)
unfolding compact_to_target_shifted
compact_to_target_shifted-Holds n_bits shift far =
    let exp = exponent n_bits in
    let short : u32 shift ≡ shift = omega arith in
    let long : u32 (8 * (exp - 3) + shift) ≡ 8 * (exp - 3) + shift = omega arith in
    rw (bit_and-mod 8 (n_bits / 2 ^ 24), bit_and-mod 23 n_bits, bit_and-bit 23 n_bits)
      (elim (Bool-cases (sign_bit n_bits * 2 ^ 23 == 0)) [
        | inr neg ↦
            rw (neg, eq→== (sign_bit n_bits) 1 (ground arith))
              (record { size = refl; bytes = zero_bytes; value = refl })
        | inl plus ↦
            rw (plus, ne→==-false (sign_bit n_bits) 1 (ground arith))
              (elim (Bool-cases (leb (exponent n_bits) 3)) [
                | inl small ↦
                    rw (small, short)
                      (placed_value (mantissa n_bits / 2 ^ (8 * (3 - exp))) shift
                        (omega (arith, div-le_self (mantissa n_bits) (2 ^ (8 * (3 - exp)))))
                        (omega arith))
                | inr large ↦
                    rw (large, long)
                      (placed_value (mantissa n_bits) (8 * (exp - 3) + shift) (omega arith)
                        (omega arith))
              ])
      ])
