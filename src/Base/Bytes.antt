-- ===== src/Base/Bytes.antt =====
-- Byte strings as numbers, and the loops of the program that read and write words.
use Prim.Native.Nat.{ℕ, zero, suc, ◌+◌, ◌*◌, ◌%◌, ◌^◌, ◌<◌, bit_or}
use mathlib.Core.Path.{◌≡◌, refl, ap, ◌∙◌}
use mathlib.Core.List.{List, [], ◌∷◌, ◌++◌, map}
use native.Mathlib.Omega.{arith}
use osprey_blake2b.Base.Bits.{bit_or-add}
use osprey_blake2b.Base.Lists.{length, get_or, take, drop, All, All-get_or}
use osprey_blake2b.Base.Words.{u8, shr, shl64, IsByte}

-- The element at an index; the program never reads out of range here.
abbrev pub byte_at : List ℕ → ℕ → ℕ
byte_at p i = get_or p i 0

-- `memcpy(buf + off, src, length src)` into a buffer.
abbrev pub blit : List ℕ → ℕ → List ℕ → List ℕ
blit buf off src = take off buf ++ (src ++ drop (off + length src) buf)

-- The indices `i, i + 1, …` of a loop with `n` rounds.
abbrev pub range : ℕ → ℕ → List ℕ
range i zero = []
range i (suc n) = i ∷ range (i + 1) n

abbrev pub le_value : List ℕ → ℕ
le_value [] = 0
le_value (b ∷ bs) = b + 256 * le_value bs

-- The value of big-endian bytes, behind a number already read.
abbrev pub be_value_from : ℕ → List ℕ → ℕ
be_value_from v [] = v
be_value_from v (b ∷ bs) = be_value_from (v * 256 + b) bs

abbrev pub be_value : List ℕ → ℕ
be_value bs = be_value_from 0 bs

-- `for (i = 0; i < n; ++i) p[i] = (uint8_t)(v >> (i * 8))`, from round `i` on.
unfoldable pub store_le : ℕ → ℕ → ℕ → List ℕ
store_le i zero v = []
store_le i (suc n) v = u8 (shr v (i * 8)) ∷ store_le (i + 1) n v

-- `v = (v << 8) | b` on a uint64_t.
unfoldable pub push_byte : ℕ → ℕ → ℕ
push_byte v b = bit_or (shl64 v 8) b

-- `for (i in is) v = (v << 8) | p[i]`.
unfoldable pub load_word : List ℕ → ℕ → List ℕ → ℕ
load_word p v [] = v
load_word p v (i ∷ is) = load_word p (push_byte v (byte_at p i)) is

pub push_byte_lem : (v b : ℕ) → b < 256 → push_byte v b ≡ (v * 256 + b) % 2 ^ 64
unfolding push_byte
push_byte_lem v b h = ground (arith, bit_or-add 8 (v % 2 ^ 56) b)

pub be_value_from-mod :
    (v w : ℕ) (bs : List ℕ)
    → v % 2 ^ 64 ≡ w % 2 ^ 64
    → be_value_from v bs % 2 ^ 64 ≡ be_value_from w bs % 2 ^ 64
be_value_from-mod v w [] e = e
be_value_from-mod v w (b ∷ bs) e = be_value_from-mod (v * 256 + b) (w * 256 + b) bs (omega arith)

-- A word that is read byte by byte is the big-endian value of those bytes, cut to 64 bits.
pub load_word_lem :
    (p : List ℕ) (v : ℕ) (is : List ℕ)
    → ((i : ℕ) → IsByte (byte_at p i))
    → v < 2 ^ 64
    → load_word p v is ≡ be_value_from v (map (byte_at p) is) % 2 ^ 64
unfolding load_word
load_word_lem p v [] h hv = omega arith
load_word_lem p v (i ∷ is) h hv =
    load_word_lem p (push_byte v (byte_at p i)) is h
      (omega (arith, push_byte_lem v (byte_at p i) (h i)))
    ∙ be_value_from-mod _ _ (map (byte_at p) is)
        (omega (arith, push_byte_lem v (byte_at p i) (h i)))

pub length-store_le : (i n v : ℕ) → length (store_le i n v) ≡ n
unfolding store_le
length-store_le i zero v = refl
length-store_le i (suc n) v = ap suc (length-store_le (i + 1) n v)

pub store_le-IsByte : (i n v : ℕ) → All IsByte (store_le i n v)
unfolding store_le
store_le-IsByte i zero v = tt
store_le-IsByte i (suc n) v = (omega arith, store_le-IsByte (i + 1) n v)

pub le_value-store_le_4 : (v : ℕ) → le_value (store_le 0 4 v) ≡ v % 2 ^ 32
unfolding store_le
le_value-store_le_4 v = omega arith

pub le_value-store_le_8 : (v : ℕ) → le_value (store_le 0 8 v) ≡ v % 2 ^ 64
unfolding store_le
le_value-store_le_8 v = omega arith

-- Reading eight bytes from the last to the first gives back what was stored.
pub load_word-store_le :
    (v : ℕ) → load_word (store_le 0 8 v) 0 (7 ∷ 6 ∷ 5 ∷ 4 ∷ 3 ∷ 2 ∷ 1 ∷ 0 ∷ []) ≡ v % 2 ^ 64
load_word-store_le v =
    load_word_lem (store_le 0 8 v) 0 _
      (λ i. All-get_or IsByte _ i 0 (store_le-IsByte 0 8 v) (omega arith)) (omega arith)
    ∙ unfold store_le in omega arith

pub be_value_from-append :
    (v : ℕ) (xs ys : List ℕ) → be_value_from v (xs ++ ys) ≡ be_value_from (be_value_from v xs) ys
be_value_from-append v [] ys = refl
be_value_from-append v (x ∷ xs) ys = be_value_from-append (v * 256 + x) xs ys
