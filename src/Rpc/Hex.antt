-- ===== src/Rpc/Hex.antt =====
-- miner/miner.c: hexadecimal texts read by `sscanf`, and searched for a quoted key.
use osprey_blake2b.Base.{
  ℕ, suc, ◌+◌, ◌-◌, ◌*◌, ◌/◌, ◌≤◌, ◌<◌, ◌≡◌, ◌⊎◌, inl, inr, refl, ap, ◌∙◌, arith, Bool, false, ◌||◌,
  List, [], ◌∷◌, ◌++◌, some, if◌then◌else◌, ltb, ◌==◌, length, drop, All, IsByte, Bool-cases, u8,
}
use osprey_blake2b.Coinbase.{hexval}
use osprey_blake2b.Rpc.{starts, strstr, isspace, skip_space, scan_2x, hex2bin_n, up_to}

abbrev pub hex_digit : ℕ → ℕ
hex_digit d = if ltb d 10 then b'0' + d else b'a' + (d - 10)

-- `%02x` for each byte.
unfoldable pub hex_text : List ℕ → List ℕ
hex_text [] = []
hex_text (b ∷ bytes) = hex_digit (b / 16) ∷ (hex_digit (b - b / 16 * 16) ∷ hex_text bytes)

hexval-hex_digit : (d : ℕ) → d < 16 → hexval (hex_digit d) ≡ some d
unfolding hexval
hexval-hex_digit d h = elim (Bool-cases (ltb d 10)) [ inl e ↦ ground arith | inr e ↦ ground arith ]

pub length-hex_text : (bytes : List ℕ) → length (hex_text bytes) ≡ 2 * length bytes
unfolding hex_text
length-hex_text [] = refl
length-hex_text (b ∷ bytes) = omega (arith, length-hex_text bytes)

IsHexDigit : ℕ → Type 0
IsHexDigit c = ((48 ≤ c) × (c ≤ 57)) ⊎ ((97 ≤ c) × (c ≤ 102))

hex_digit-IsHexDigit : (d : ℕ) → d < 16 → IsHexDigit (hex_digit d)
unfolding IsHexDigit
hex_digit-IsHexDigit d h = elim (Bool-cases (ltb d 10)) [
  | inl e ↦ inl (ground arith)
  | inr e ↦ inr (ground arith)
]

-- A digit is no space, no sign, no `x`, no quote and no `t`.
record IsPlain (c : ℕ) : Type 0 where
  space : isspace c ≡ false
  sign : ((c == b'+') || (c == b'-')) ≡ false
  letter : ((c == b'x') || (c == b'X')) ≡ false
  quote : (c == b'"') ≡ false
  initial : (c == b't') ≡ false

IsHexDigit-IsPlain : (c : ℕ) → IsHexDigit c → IsPlain c
unfolding IsHexDigit isspace
IsHexDigit-IsPlain c (inl h) = record {
  space = ground arith;
  sign = ground arith;
  letter = ground arith;
  quote = ground arith;
  initial = ground arith;
}
IsHexDigit-IsPlain c (inr h) = record {
  space = ground arith;
  sign = ground arith;
  letter = ground arith;
  quote = ground arith;
  initial = ground arith;
}

digit-IsPlain : (d : ℕ) → d < 16 → IsPlain (hex_digit d)
digit-IsPlain d h = IsHexDigit-IsPlain (hex_digit d) (hex_digit-IsHexDigit d h)

skip_space-digit : (c : ℕ) (s : List ℕ) → isspace c ≡ false → skip_space (c ∷ s) ≡ c ∷ s
unfolding skip_space
skip_space-digit c s e = simp (e, skip_space) refl

-- Two digits.
scan_2x-digits :
    (c d hi lo : ℕ) (s : List ℕ)
    → IsPlain c
    → IsPlain d
    → hexval c ≡ some hi
    → hexval d ≡ some lo
    → scan_2x (c ∷ d ∷ s) ≡ some (hi * 16 + lo)
unfolding scan_2x
scan_2x-digits c d hi lo s p q h l = elim (Bool-cases (c == b'0')) [
  | inl z ↦ simp (skip_space-digit c (d ∷ s) p.space, p.sign, q.letter, z, h, l, scan_2x) refl
  | inr z ↦ simp (skip_space-digit c (d ∷ s) p.space, p.sign, q.letter, z, h, l, scan_2x) refl
]

hex2bin_n-step :
    (hex : List ℕ) (n v : ℕ) (out : List ℕ)
    → scan_2x hex ≡ some v
    → hex2bin_n (drop 2 hex) n ≡ some out
    → hex2bin_n hex (suc n) ≡ some (u8 v ∷ out)
unfolding hex2bin_n
hex2bin_n-step hex n v out e f = simp (e, f, hex2bin_n) refl

-- The text of bytes is read back, whatever follows.
pub hex2bin_n-hex_text :
    (bytes s : List ℕ)
    → All IsByte bytes
    → hex2bin_n (hex_text bytes ++ s) (length bytes) ≡ some bytes
unfolding hex_text hex2bin_n
hex2bin_n-hex_text [] s w = refl
hex2bin_n-hex_text (b ∷ bytes) s w =
    let i = b / 16 in
    let j = b - b / 16 * 16 in
    let e : scan_2x (hex_digit i ∷ hex_digit j ∷ (hex_text bytes ++ s)) ≡ some (i * 16 + j) =
      scan_2x-digits (hex_digit i) (hex_digit j) i j (hex_text bytes ++ s)
        (digit-IsPlain i (omega (arith, w.0))) (digit-IsPlain j (omega arith))
        (hexval-hex_digit i (omega (arith, w.0))) (hexval-hex_digit j (omega arith)) in
    hex2bin_n-step (hex_text (b ∷ bytes) ++ s) (length bytes) (i * 16 + j) bytes e
      (hex2bin_n-hex_text bytes s w.1)
    ∙ ap (λ x. some (x ∷ bytes)) {x = u8 (i * 16 + j)} {y = b} (omega (arith, w.0))

-- A text with no quote in it.
abbrev HasNoQuote : ℕ → Type 0
HasNoQuote c = (c == b'"') ≡ false

hex_text-HasNoQuote : (bytes : List ℕ) → All IsByte bytes → All HasNoQuote (hex_text bytes)
unfolding hex_text
hex_text-HasNoQuote [] w = tt
hex_text-HasNoQuote (b ∷ bytes) w = (
  (digit-IsPlain (b / 16) (omega (arith, w.0))).quote,
  ((digit-IsPlain (b - b / 16 * 16) (omega arith)).quote, hex_text-HasNoQuote bytes w.1),
)

strstr-plain :
    (xs s pat : List ℕ) → All HasNoQuote xs → strstr (xs ++ s) (b'"' ∷ pat) ≡ strstr s (b'"' ∷ pat)
unfolding strstr starts
strstr-plain [] s pat w = refl
strstr-plain (x ∷ xs) s pat w = simp (w.0, strstr, starts) (strstr-plain xs s pat w.1)

up_to-plain : (xs s : List ℕ) → All HasNoQuote xs → up_to b'"' (xs ++ (b'"' ∷ s)) ≡ some xs
unfolding up_to
up_to-plain [] s w = refl
up_to-plain (x ∷ xs) s w = simp (w.0, up_to-plain xs s w.1, up_to) refl

pub strstr-hex_text :
    (bytes s pat : List ℕ)
    → All IsByte bytes
    → strstr (hex_text bytes ++ s) (b'"' ∷ pat) ≡ strstr s (b'"' ∷ pat)
strstr-hex_text bytes s pat w = strstr-plain (hex_text bytes) s pat (hex_text-HasNoQuote bytes w)

pub up_to-hex_text :
    (bytes s : List ℕ)
    → All IsByte bytes
    → up_to b'"' (hex_text bytes ++ (b'"' ∷ s)) ≡ some (hex_text bytes)
up_to-hex_text bytes s w = up_to-plain (hex_text bytes) s (hex_text-HasNoQuote bytes w)

quote-skipped :
    (c : ℕ) (s pat : List ℕ)
    → (c == b't') ≡ false
    → strstr (b'"' ∷ c ∷ s) (b'"' ∷ b't' ∷ pat) ≡ strstr (c ∷ s) (b'"' ∷ b't' ∷ pat)
unfolding strstr starts
quote-skipped c s pat e =
    ap
      (λ (x : Bool).
        if (if x then starts s pat else false)
        then some (b'"' ∷ c ∷ s)
        else strstr (c ∷ s) (b'"' ∷ b't' ∷ pat))
      e

-- A quote and digits behind it are no key that starts with `t`.
pub strstr-quoted_hex :
    (b : ℕ) (bytes s pat : List ℕ)
    → All IsByte (b ∷ bytes)
    → strstr (b'"' ∷ (hex_text (b ∷ bytes) ++ s)) (b'"' ∷ b't' ∷ pat) ≡ strstr s (b'"' ∷ b't' ∷ pat)
unfolding hex_text
strstr-quoted_hex b bytes s pat w =
    quote-skipped (hex_digit (b / 16)) (hex_digit (b - b / 16 * 16) ∷ (hex_text bytes ++ s)) pat
      (digit-IsPlain (b / 16) (omega (arith, w.0))).initial
    ∙ strstr-hex_text (b ∷ bytes) s (b't' ∷ pat) w
