-- ===== src/Base/Powers.antt =====
-- Powers of two: sums in the exponent, order, and remainders.
use Prim.Native.Nat.{ℕ, zero, suc, ◌+◌, ◌-◌, ◌*◌, ◌%◌, ◌^◌, ◌≤◌}
use mathlib.Core.Path.{◌≡◌, ap, ◌∙◌}
use native.Mathlib.Nat.{pow-suc, one-le-pow, pow-le-pow_right, zero-add}
use native.Mathlib.Nat.{add-mul-mod_self_right}
use native.Mathlib.Omega.{arith}

pub pow-add : (a b : ℕ) → 2 ^ (a + b) ≡ 2 ^ a * 2 ^ b
pow-add zero b = ap (λ (t : ℕ). 2 ^ t) (zero-add b) ∙ omega arith
pow-add (suc a) b =
    let e : suc a + b ≡ suc (a + b) = omega arith in
    ap (λ (t : ℕ). 2 ^ t) e
    ∙ omega (arith, pow-suc 2 (a + b), ap (λ (t : ℕ). t * 2 ^ b) (pow-suc 2 a), pow-add a b)

pub pow_pos : (k : ℕ) → 1 ≤ 2 ^ k
pow_pos k = omega (arith, one-le-pow k 2)

pub pow_mono : (a b : ℕ) → a ≤ b → 2 ^ a ≤ 2 ^ b
pow_mono a b h = pow-le-pow_right (omega arith) h

-- What a place is worth: eight bits to a byte.
pub pow_bytes : (k r : ℕ) → 2 ^ (8 * k + r) ≡ 256 ^ k * 2 ^ r
pow_bytes zero r = ap (λ (t : ℕ). 2 ^ t) (zero-add r) ∙ omega arith
pow_bytes (suc k) r =
    let e : 8 * suc k + r ≡ 8 + (8 * k + r) = omega arith in
    ap (λ (t : ℕ). 2 ^ t) e
    ∙ pow-add 8 (8 * k + r)
    ∙ omega (arith, pow_bytes k r, ap (λ (t : ℕ). t * 2 ^ r) (pow-suc 256 k))

-- A power at or above the modulus leaves no remainder.
pub mod_add_pow : (x a m : ℕ) → m ≤ a → (x + 2 ^ a) % 2 ^ m ≡ x % 2 ^ m
mod_add_pow x a m h =
    let e : a ≡ a - m + m = omega arith in
    ap (λ (t : ℕ). (x + t) % 2 ^ m) (ap (λ (t : ℕ). 2 ^ t) e ∙ pow-add (a - m) m)
    ∙ add-mul-mod_self_right x (2 ^ (a - m)) (2 ^ m)
