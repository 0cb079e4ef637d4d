-- ===== src/Base/Places.antt =====
-- Big-endian bytes place by place: what a write to one byte does to the value.
use Prim.Native.Nat.{ℕ, zero, suc, ◌+◌, ◌*◌, ◌/◌, ◌%◌, ◌^◌, ◌≤◌, ◌<◌}
use mathlib.Core.Path.{◌≡◌, refl, ap, ap₂, ◌∙◌, sym}
use mathlib.Core.List.{List, [], ◌∷◌, ◌++◌, map}
use native.Mathlib.Nat.{pow-suc}
use native.Mathlib.Omega.{arith}
use native.Mathlib.Numerals.{add-one}
use osprey_blake2b.Base.Lists.{
  length, set, take, drop, replicate, length-set, length-take, length-drop, take-append-drop,
  drop-eq_cons, All, All-take, All-drop, All-get_or,
}
use osprey_blake2b.Base.Bytes.{
  byte_at, range, load_word, load_word_lem, be_value, be_value_from, be_value_from-append,
}
use osprey_blake2b.Base.Words.{IsByte}

-- The number before the bytes counts at the place above them.
pub be_value_from_lem :
    (v : ℕ) (bs : List ℕ) → be_value_from v bs ≡ v * 256 ^ length bs + be_value bs
be_value_from_lem v [] = omega arith
be_value_from_lem v (b ∷ bs) = omega (
  arith,
  be_value_from_lem (v * 256 + b) bs,
  be_value_from_lem (0 * 256 + b) bs,
  pow-suc 256 (length bs),
  ap (λ (t : ℕ). v * t) (pow-suc 256 (length bs)),
)

pub be_value_cons : (b : ℕ) (bs : List ℕ) → be_value (b ∷ bs) ≡ b * 256 ^ length bs + be_value bs
be_value_cons b bs = be_value_from_lem (0 * 256 + b) bs ∙ omega arith

pub be_value-lt : (bs : List ℕ) → All IsByte bs → be_value bs < 256 ^ length bs
be_value-lt [] h = omega arith
be_value-lt (b ∷ bs) h = omega (
  arith,
  be_value_cons b bs,
  be_value-lt bs h.1,
  pow-suc 256 (length bs),
  grow b (256 ^ length bs) h.0,
)
  where
    grow : (x p : ℕ) → x < 256 → x * p ≤ 255 * p
    grow x p k = grind arith

pub be_value-replicate : (n : ℕ) → be_value (replicate n 0) ≡ 0
be_value-replicate zero = refl
be_value-replicate (suc n) = be_value-replicate n

-- Byte `i` of `i + 1 + k` bytes is worth `256 ^ k`.
pub be_value-set :
    (bs : List ℕ) (i k v : ℕ)
    → length bs ≡ i + suc k
    → be_value (set bs i v) + byte_at bs i * 256 ^ k ≡ be_value bs + v * 256 ^ k
be_value-set [] i k v h = absurd (omega arith)
be_value-set (b ∷ bs) zero k v h =
    let e : length bs ≡ k = omega arith in
    omega (
      arith,
      be_value_cons b bs,
      be_value_cons v bs,
      ap (λ (t : ℕ). b * 256 ^ t) e,
      ap (λ (t : ℕ). v * 256 ^ t) e,
    )
be_value-set (b ∷ bs) (suc i) k v h = omega (
  arith,
  be_value_cons b bs,
  be_value_cons b (set bs i v),
  ap (λ (t : ℕ). b * 256 ^ t) (length-set bs i v),
  be_value-set bs i k v (omega arith),
)

-- A byte's own place is no more than the value.
pub byte_at-le :
    (bs : List ℕ) (i k : ℕ) → length bs ≡ i + suc k → byte_at bs i * 256 ^ k ≤ be_value bs
byte_at-le [] i k h = absurd (omega arith)
byte_at-le (b ∷ bs) zero k h =
    let e : length bs ≡ k = omega arith in
    omega (arith, be_value_cons b bs, ap (λ (t : ℕ). b * 256 ^ t) e)
byte_at-le (b ∷ bs) (suc i) k h = omega (arith, be_value_cons b bs, byte_at-le bs i k (omega arith))

-- Bytes read at increasing indices are a slice.
pub map-byte_at :
    (p : List ℕ) (i n : ℕ) → i + n ≤ length p → map (byte_at p) (range i n) ≡ take n (drop i p)
map-byte_at p i zero h = refl
map-byte_at p i (suc n) h =
    ap₂ ◌∷◌ refl (map-byte_at p (i + 1) n (omega arith) ∙ ap (λ k. take n (drop k p)) (add-one i))
    ∙ ap (take (suc n)) (sym (drop-eq_cons i p 0 (omega arith)))

pub be_value-append :
    (xs ys : List ℕ) → be_value (xs ++ ys) ≡ be_value xs * 256 ^ length ys + be_value ys
be_value-append xs ys = be_value_from-append 0 xs ys ∙ be_value_from_lem (be_value xs) ys

-- The first eight of 32 bytes, read as a word, are the top 64 bits of the number.
pub load_word-top :
    (p : List ℕ) → length p ≡ 32 → All IsByte p → load_word p 0 (range 0 8) ≡ be_value p / 2 ^ 192
load_word-top p size bytes =
    load_word_lem p 0 (range 0 8) (λ i. All-get_or IsByte p i 0 bytes (omega arith)) (omega arith)
    ∙ ap (λ t. be_value t % 2 ^ 64) (map-byte_at p 0 8 (omega arith))
    ∙ omega (
      arith,
      ap be_value (take-append-drop 8 p),
      be_value-append (take 8 p) (drop 8 p),
      ap (λ (t : ℕ). be_value (take 8 p) * 256 ^ t) low_length,
      ap (λ (t : ℕ). 256 ^ t) low_length,
      ap (λ (t : ℕ). 256 ^ t) top_length,
      be_value-lt (take 8 p) (All-take IsByte 8 p bytes),
      be_value-lt (drop 8 p) (All-drop IsByte 8 p bytes),
    )
  where
    low_length : length (drop 8 p) ≡ 24
    low_length = omega (arith, length-drop 8 p)

    top_length : length (take 8 p) ≡ 8
    top_length = omega (arith, length-take 8 p)
