-- ===== src/Stratum/Json/Hex.antt =====
-- Hexadecimal text: what `bin2hex` writes, `js_hex` reads.
use osprey_blake2b.Base.{
  ℕ, zero, suc, ◌+◌, ◌*◌, ◌/◌, ◌%◌, ◌≤◌, ◌<◌, ◌≡◌, refl, arith, false, List, [], ◌∷◌, ◌++◌, some,
  length, ◌==◌, All, IsByte, get_or, le→ltb-false, eq→==, lt→leb-false, shr, bit_and,
}
use mathlib.Core.Path.{subst}
use osprey_blake2b.Base.Bits.{bit_or-add, bit_and-mod}
use osprey_blake2b.Coinbase.{hexval, hex_byte, hex_pairs}
use osprey_blake2b.Stratum.Json.{
  quote, js_ws, copy_string, js_str, js_hex, bin2hex, hex_digits, is_space, hex_buf_size,
}

-- A character that is the digit of a number, and no quote.
record IsDigit (c n : ℕ) : Type 0 where
  value : hexval c ≡ some n
  no_quote : (c == quote) ≡ false

-- The characters of a table are the digits of `k`, `k + 1` and so on.
abbrev IsTable : ℕ → List ℕ → Type 0
IsTable k [] = Unit {0}
IsTable k (c ∷ cs) = IsDigit c k × IsTable (k + 1) cs

IsTable-get_or :
    (k : ℕ) (cs : List ℕ) (n : ℕ) → IsTable k cs → n < length cs → IsDigit (get_or cs n 0) (k + n)
IsTable-get_or k [] n t h = absurd (omega arith)
IsTable-get_or k (c ∷ cs) zero t h = subst (λ t. IsDigit c t) (omega arith) t.0
IsTable-get_or k (c ∷ cs) (suc n) t h =
    subst (λ t. IsDigit (get_or cs n 0) t) (omega arith)
      (IsTable-get_or (k + 1) cs n t.1 (omega arith))

hex_digits-IsTable : IsTable 0 hex_digits
unfolding hexval
hex_digits-IsTable = (
  record { value = refl; no_quote = refl },
  (
    record { value = refl; no_quote = refl },
    (
      record { value = refl; no_quote = refl },
      (
        record { value = refl; no_quote = refl },
        (
          record { value = refl; no_quote = refl },
          (
            record { value = refl; no_quote = refl },
            (
              record { value = refl; no_quote = refl },
              (
                record { value = refl; no_quote = refl },
                (
                  record { value = refl; no_quote = refl },
                  (
                    record { value = refl; no_quote = refl },
                    (
                      record { value = refl; no_quote = refl },
                      (
                        record { value = refl; no_quote = refl },
                        (
                          record { value = refl; no_quote = refl },
                          (
                            record { value = refl; no_quote = refl },
                            (
                              record { value = refl; no_quote = refl },
                              (record { value = refl; no_quote = refl }, tt),
                            ),
                          ),
                        ),
                      ),
                    ),
                  ),
                ),
              ),
            ),
          ),
        ),
      ),
    ),
  ),
)

digit : (n : ℕ) → n < 16 → IsDigit (get_or hex_digits n 0) n
digit n h =
    subst (λ t. IsDigit (get_or hex_digits n 0) t) (omega arith)
      (IsTable-get_or 0 hex_digits n hex_digits-IsTable h)

low_digit : (b : ℕ) → bit_and b 15 < 16
low_digit b = omega (arith, bit_and-mod 4 b)

byte_digits : (b : ℕ) → b < 256 → hex_byte (shr b 4) (bit_and b 15) ≡ b
unfolding hex_byte
byte_digits b h = omega (arith, bit_or-add 4 (b / 16) (bit_and b 15) (low_digit b), bit_and-mod 4 b)

pub hex_pairs-bin2hex : (bs : List ℕ) → All IsByte bs → hex_pairs (bin2hex bs) ≡ some bs
unfolding hex_pairs bin2hex
hex_pairs-bin2hex [] h = refl
hex_pairs-bin2hex (b ∷ bs) h =
    rw
      (
        (digit (shr b 4) (omega arith)).value,
        (digit (bit_and b 15) (low_digit b)).value,
        hex_pairs-bin2hex bs h.1,
        byte_digits b h.0,
        hex_pairs,
      )
      refl

pub length-bin2hex : (bs : List ℕ) → length (bin2hex bs) ≡ 2 * length bs
unfolding bin2hex
length-bin2hex [] = refl
length-bin2hex (b ∷ bs) = omega (arith, length-bin2hex bs)

copy_string-bin2hex :
    (o size : ℕ) (bs rest : List ℕ)
    → All IsByte bs
    → o + 2 * length bs < size
    → copy_string o size (bin2hex bs ++ (quote ∷ rest)) ≡ some (bin2hex bs)
unfolding copy_string bin2hex
copy_string-bin2hex o size [] rest h room = refl
copy_string-bin2hex o size (b ∷ bs) rest h room =
    rw
      (
        (digit (shr b 4) (omega arith)).no_quote,
        (digit (bit_and b 15) (low_digit b)).no_quote,
        lt→leb-false size (o + 1) (omega arith),
        lt→leb-false size (o + 1 + 1) (omega arith),
        copy_string-bin2hex (o + 1 + 1) size bs rest h.1 (omega arith),
      )
      refl

js_str-bin2hex :
    (bs rest : List ℕ)
    → All IsByte bs
    → length bs ≤ 513
    → js_str (32 ∷ quote ∷ (bin2hex bs ++ (quote ∷ rest))) hex_buf_size ≡ some (bin2hex bs)
unfolding js_str js_ws is_space
js_str-bin2hex bs rest h small = copy_string-bin2hex 0 hex_buf_size bs rest h (omega arith)

-- The bytes that `bin2hex` writes between quotes, behind a space, are read back by `js_hex`,
-- whatever follows the string, when they fit the caller's bound and are at most 513.
pub js_hex-bin2hex :
    (bs rest : List ℕ) (maxlen : ℕ)
    → All IsByte bs
    → length bs ≤ maxlen
    → length bs ≤ 513
    → js_hex (32 ∷ quote ∷ (bin2hex bs ++ (quote ∷ rest))) maxlen ≡ some bs
unfolding js_hex
js_hex-bin2hex bs rest maxlen h fits small =
    let n = length-bin2hex bs in
    rw
      (
        js_str-bin2hex bs rest h small,
        js_hex,
        eq→== (length (bin2hex bs) % 2) 0 (omega (arith, n)),
        le→ltb-false maxlen (length (bin2hex bs) / 2) (omega (arith, n)),
        hex_pairs-bin2hex bs h,
      )
      refl
