-- ===== src/Coinbase/Height.antt =====
-- The block height at the front of the coinbase script.
use osprey_blake2b.Base.{
  ℕ, zero, suc, ◌-◌, ◌/◌, ◌%◌, ◌^◌, ◌≤◌, ◌<◌, ◌≡◌, refl, ap, ◌∙◌, arith, true, List, [], ◌∷◌, ◌++◌,
  length, ◌==◌, u8, bit_and, All, IsByte, All-get_or, Bool-cases, inl, inr, length-append,
  ne→==-false, ◌⊎◌, ==_iff, false,
}
use native.Mathlib.Nat.{pow-suc}
use osprey_blake2b.Base.Bytes.{le_value, byte_at}
use osprey_blake2b.Base.Bits.{bit_and-mod, bit_and-bit}
use osprey_blake2b.Coinbase.{height_bytes, height_push, push_height}

low_byte : (h : ℕ) → u8 (bit_and h 0xff) ≡ h % 256
low_byte h = omega (arith, bit_and-mod 8 h)

height_bytes_lem : (h : ℕ) → h < 2 ^ 32 → le_value (height_bytes 5 h) ≡ h
unfolding height_bytes
height_bytes_lem h p =
    ground (arith, low_byte h, low_byte (h / 256), low_byte (h / 65536), low_byte (h / 16777216))

-- The top bit of a byte.
sign_clear : (b : ℕ) → b < 256 → (bit_and b 0x80 == 0) ≡ true → b < 128
sign_clear b h e = ground (arith, bit_and-bit 7 b)

height_bytes-IsByte : (n h : ℕ) → All IsByte (height_bytes n h)
unfolding height_bytes
height_bytes-IsByte zero h = tt
height_bytes-IsByte (suc n) h = elim (Bool-cases (h == 0)) [
  | inl e ↦ rw (e, height_bytes) tt
  | inr e ↦ rw (e, height_bytes) (omega (arith, low_byte h), height_bytes-IsByte n (h / 256))
]

length-height_bytes : (h : ℕ) → h < 2 ^ 32 → length (height_bytes 5 h) ≤ 4
unfolding height_bytes
length-height_bytes h p = ground arith

le_value-append : (xs : List ℕ) → le_value (xs ++ (0 ∷ [])) ≡ le_value xs
le_value-append [] = refl
le_value-append (x ∷ xs) = omega (arith, le_value-append xs)

last-append : (xs : List ℕ) → byte_at (xs ++ (0 ∷ [])) (length xs) ≡ 0
last-append [] = refl
last-append (x ∷ xs) = last-append xs

last_place : (xs : List ℕ) → length (xs ++ (0 ∷ [])) - 1 ≡ length xs
last_place xs = omega (arith, length-append xs (0 ∷ []))

byte_at-append : (xs ys : List ℕ) (i : ℕ) → i < length xs → byte_at (xs ++ ys) i ≡ byte_at xs i
byte_at-append [] ys i h = absurd (omega arith)
byte_at-append (x ∷ xs) ys zero h = refl
byte_at-append (x ∷ xs) ys (suc i) h = byte_at-append xs ys i (omega arith)

last_cons :
    (x : ℕ) (xs : List ℕ)
    → 1 ≤ length xs
    → byte_at (x ∷ xs) (length (x ∷ xs) - 1) ≡ byte_at xs (length xs - 1)
last_cons x [] h = absurd (omega arith)
last_cons x (y ∷ ys) h =
    ap (byte_at (x ∷ (y ∷ ys))) {x = length (x ∷ (y ∷ ys)) - 1} {y = suc (length ys)} (omega arith)
    ∙ ap (byte_at (y ∷ ys)) {x = length ys} {y = length (y ∷ ys) - 1} (omega arith)

length-height_bytes-pos : (n h : ℕ) → 1 ≤ n → 1 ≤ h → 1 ≤ length (height_bytes n h)
unfolding height_bytes
length-height_bytes-pos zero h m p = absurd (omega arith)
length-height_bytes-pos (suc n) h m p =
    rw (ne→==-false h 0 (λ q. absurd (omega arith)), height_bytes) (omega arith)

height_bytes_zero : (n : ℕ) → height_bytes n 0 ≡ []
unfolding height_bytes
height_bytes_zero zero = refl
height_bytes_zero (suc n) = refl

-- The last byte taken from a height is not zero: the loop stops when nothing is left.
last-height_bytes :
    (n h : ℕ) → h < 256 ^ n → 1 ≤ h → 1 ≤ byte_at (height_bytes n h) (length (height_bytes n h) - 1)
unfolding height_bytes
last-height_bytes zero h below p = absurd (omega arith)
last-height_bytes (suc n) h below p =
    let rest = height_bytes n (h / 256) in
    let less : h / 256 < 256 ^ n = omega (arith, below, pow-suc 256 n) in
    rw (ne→==-false h 0 (λ q. absurd (omega arith)), height_bytes)
      (elim (Bool-cases (h / 256 == 0)) [
        | inl e ↦
            let none_left : rest ≡ [] =
              ap (height_bytes n) ((==_iff (h / 256) 0).0 e) ∙ height_bytes_zero n in
            rw none_left (ground (arith, low_byte h))
        | inr e ↦
            let some_left : 1 ≤ h / 256 = ground arith in
            let more : 1 ≤ n = positive n (h / 256) less some_left in
            let k = length-height_bytes-pos n (h / 256) more some_left in
            omega (
              arith,
              last_cons (u8 (bit_and h 0xff)) rest k,
              last-height_bytes n (h / 256) less some_left,
            )
      ])
  where
    positive : (n q : ℕ) → q < 256 ^ n → 1 ≤ q → 1 ≤ n
    positive zero q a b = absurd (omega arith)
    positive (suc n) q a b = omega arith

-- The top bit of a byte that has it.
sign_set : (b : ℕ) → b < 256 → (bit_and b 0x80 == 0) ≡ false → 128 ≤ b
sign_set b h e = ground (arith, bit_and-bit 7 b)

-- No byte can be left out: the last one is not zero, or it is the one byte of zero, or without it the
-- byte before it would read as a sign.
abbrev pub IsMinimal : List ℕ → Type 0
IsMinimal out =
    (1 ≤ byte_at out (length out - 1))
    ⊎ ((length out ≡ 1) × (le_value out ≡ 0))
    ⊎ ((2 ≤ length out) × (128 ≤ byte_at out (length out - 2)))

small : (n : ℕ) → n ≤ 5 → u8 n ≡ n
small n h = omega arith

before_last : (xs : List ℕ) → length (xs ++ (0 ∷ [])) - 2 ≡ length xs - 1
before_last xs = omega (arith, length-append xs (0 ∷ []))

-- What `height_push` gives from at most four bytes is the same number, in at most five bytes, and
-- its last byte keeps the sign bit clear.
record Pushed (tmp out : List ℕ) : Type 0 where
  value : le_value out ≡ le_value tmp
  size : length out ≤ 5
  some_byte : 1 ≤ length out
  positive : byte_at out (length out - 1) < 128
  minimal : IsMinimal out

height_push-Pushed :
    (tmp : List ℕ)
    → All IsByte tmp
    → length tmp ≤ 4
    → (1 ≤ length tmp → 1 ≤ byte_at tmp (length tmp - 1))
    → Pushed tmp (height_push tmp)
unfolding height_push
height_push-Pushed [] b h z = record {
  value = refl;
  size = omega arith;
  some_byte = omega arith;
  positive = omega arith;
  minimal = inr (inl (refl, refl));
}
height_push-Pushed (x ∷ xs) b h z =
    let tmp = x ∷ xs in
    let n = ne→==-false (suc (length xs)) 0 (λ q. absurd (omega arith)) in
    let last = length tmp - 1 in
    let k = length-append tmp (0 ∷ []) in
    elim (Bool-cases (bit_and (byte_at tmp last) 0x80 == 0)) [
      | inl e ↦
          rw (n, e)
            (record {
              value = refl;
              size = omega (arith, h);
              some_byte = omega arith;
              positive =
                  sign_clear (byte_at tmp last) (All-get_or IsByte tmp last 0 b (omega arith)) e;
              minimal = inl (z (omega arith));
            })
      | inr e ↦
          rw (n, e)
            (record {
              value = le_value-append tmp;
              size = omega (arith, h, k);
              some_byte = omega (arith, k);
              positive =
                  omega (arith, last-append tmp, ap (byte_at (tmp ++ (0 ∷ []))) (last_place tmp));
              minimal = inr (
                  inr (
                    omega (arith, k),
                    omega (
                      arith,
                      sign_set (byte_at tmp last) (All-get_or IsByte tmp last 0 b (omega arith)) e,
                      byte_at-append tmp (0 ∷ []) last (omega arith),
                      ap (byte_at (tmp ++ (0 ∷ []))) (before_last tmp),
                    ),
                  ));
            })
    ]

-- The push of a height is its length and at most five bytes, which are the height in
-- little-endian order with the sign bit clear, for every 32-bit pattern. The encoding is minimal: the
-- last byte is not zero, unless it is the one byte of height 0 or keeps the byte before it from
-- reading as a sign.
pub push_height-le_value :
    (height : ℕ)
    → height < 2 ^ 32
    → (bytes : List ℕ) × (push_height height ≡ length bytes ∷ bytes)
      × (1 ≤ length bytes)
      × (length bytes ≤ 5)
      × (le_value bytes ≡ height)
      × (byte_at bytes (length bytes - 1) < 128)
      × IsMinimal bytes
unfolding push_height
push_height-le_value height h =
    let tmp = height_bytes 5 height in
    let p =
      height_push-Pushed tmp (height_bytes-IsByte 5 height) (length-height_bytes height h)
        (λ k. nonzero height h k) in
    let out = height_push tmp in
    (
      out,
      ap (λ n. n ∷ out) (small (length out) p.size),
      p.some_byte,
      p.size,
      p.value ∙ height_bytes_lem height h,
      p.positive,
      p.minimal,
    )
  where
    nonzero :
        (t : ℕ)
        → t < 2 ^ 32
        → 1 ≤ length (height_bytes 5 t)
        → 1 ≤ byte_at (height_bytes 5 t) (length (height_bytes 5 t) - 1)
    nonzero zero k m = absurd (omega (arith, ap length (height_bytes_zero 5)))
    nonzero (suc t) k m = last-height_bytes 5 (suc t) (omega arith) (omega arith)
