-- ===== src/Sha256/Rounds.antt =====
-- miner/sha256.c, `sha256_transform` with its macros and the table K.
use osprey_blake2b.Base.{
  ℕ, zero, suc, ◌+◌, ◌-◌, ◌^◌, bit_and, bit_or, bit_xor, List, [], ◌∷◌, ◌++◌, u32, shr, shl32,
  get_or,
}
use osprey_blake2b.Base.Bytes.{byte_at}

-- `~x` on a uint32_t.
abbrev not32 : ℕ → ℕ
not32 x = 2 ^ 32 - 1 - x

pub rotr : ℕ → ℕ → ℕ
rotr a b = bit_or (shr a b) (shl32 a (32 - b))

pub ch : ℕ → ℕ → ℕ → ℕ
ch x y z = bit_xor (bit_and x y) (bit_and (not32 x) z)

pub maj : ℕ → ℕ → ℕ → ℕ
maj x y z = bit_xor (bit_xor (bit_and x y) (bit_and x z)) (bit_and y z)

pub ep0 : ℕ → ℕ
unfolding rotr
ep0 x = bit_xor (bit_xor (rotr x 2) (rotr x 13)) (rotr x 22)

pub ep1 : ℕ → ℕ
unfolding rotr
ep1 x = bit_xor (bit_xor (rotr x 6) (rotr x 11)) (rotr x 25)

pub sig0 : ℕ → ℕ
unfolding rotr
sig0 x = bit_xor (bit_xor (rotr x 7) (rotr x 18)) (shr x 3)

pub sig1 : ℕ → ℕ
unfolding rotr
sig1 x = bit_xor (bit_xor (rotr x 17) (rotr x 19)) (shr x 10)

abbrev pub k_table : List ℕ
k_table =
    0x428a2f98 ∷ 0x71374491 ∷ 0xb5c0fbcf ∷ 0xe9b5dba5 ∷ 0x3956c25b ∷ 0x59f111f1 ∷ 0x923f82a4
    ∷ 0xab1c5ed5 ∷ 0xd807aa98 ∷ 0x12835b01 ∷ 0x243185be ∷ 0x550c7dc3 ∷ 0x72be5d74 ∷ 0x80deb1fe
    ∷ 0x9bdc06a7 ∷ 0xc19bf174 ∷ 0xe49b69c1 ∷ 0xefbe4786 ∷ 0x0fc19dc6 ∷ 0x240ca1cc ∷ 0x2de92c6f
    ∷ 0x4a7484aa ∷ 0x5cb0a9dc ∷ 0x76f988da ∷ 0x983e5152 ∷ 0xa831c66d ∷ 0xb00327c8 ∷ 0xbf597fc7
    ∷ 0xc6e00bf3 ∷ 0xd5a79147 ∷ 0x06ca6351 ∷ 0x14292967 ∷ 0x27b70a85 ∷ 0x2e1b2138 ∷ 0x4d2c6dfc
    ∷ 0x53380d13 ∷ 0x650a7354 ∷ 0x766a0abb ∷ 0x81c2c92e ∷ 0x92722c85 ∷ 0xa2bfe8a1 ∷ 0xa81a664b
    ∷ 0xc24b8b70 ∷ 0xc76c51a3 ∷ 0xd192e819 ∷ 0xd6990624 ∷ 0xf40e3585 ∷ 0x106aa070 ∷ 0x19a4c116
    ∷ 0x1e376c08 ∷ 0x2748774c ∷ 0x34b0bcb5 ∷ 0x391c0cb3 ∷ 0x4ed8aa4a ∷ 0x5b9cca4f ∷ 0x682e6ff3
    ∷ 0x748f82ee ∷ 0x78a5636f ∷ 0x84c87814 ∷ 0x8cc70208 ∷ 0x90befffa ∷ 0xa4506ceb ∷ 0xbef9a3f7
    ∷ 0xc67178f2 ∷ []

-- The first sixteen words of the schedule, big-endian from the block.
pub word_at : List ℕ → ℕ → ℕ
word_at d j =
    bit_or
      (bit_or (bit_or (shl32 (byte_at d j) 24) (shl32 (byte_at d (j + 1)) 16))
        (shl32 (byte_at d (j + 2)) 8))
      (byte_at d (j + 3))

pub load_words : List ℕ → ℕ → ℕ → List ℕ
unfolding word_at
load_words d j zero = []
load_words d j (suc n) = word_at d j ∷ load_words d (j + 4) n

-- The rest of the schedule, from word `i` on.
pub expand : ℕ → ℕ → List ℕ → List ℕ
unfolding sig0 sig1
expand i zero m = m
expand i (suc n) m = expand (i + 1) n (
    m
    ++ (u32 (
          sig1 (get_or m (i - 2) 0)
          + get_or m (i - 7) 0
          + sig0 (get_or m (i - 15) 0)
          + get_or m (i - 16) 0)
        ∷ []))

-- The eight working variables, which are also the chaining state.
pub record Words : Type 0 where
  pub a : ℕ
  pub b : ℕ
  pub c : ℕ
  pub d : ℕ
  pub e : ℕ
  pub f : ℕ
  pub g : ℕ
  pub h : ℕ

pub round : ℕ → ℕ → Words → Words
unfolding ch maj ep0 ep1
round k m s =
    let t1 = u32 (s.h + ep1 s.e + ch s.e s.f s.g + k + m) in
    let t2 = u32 (ep0 s.a + maj s.a s.b s.c) in
    record {
      a = u32 (t1 + t2);
      b = s.a;
      c = s.b;
      d = s.c;
      e = u32 (s.d + t1);
      f = s.e;
      g = s.f;
      h = s.g;
    }

-- Rounds `i` to 63 over the table and the schedule.
pub rounds : List ℕ → List ℕ → Words → Words
unfolding round
rounds [] m s = s
rounds (k ∷ ks) [] s = s
rounds (k ∷ ks) (w ∷ m) s = rounds ks m (round k w s)

unfoldable pub transform : Words → List ℕ → Words
unfolding load_words expand rounds
transform s d =
    let r = rounds k_table (expand 16 48 (load_words d 0 16)) s in
    record {
      a = u32 (s.a + r.a);
      b = u32 (s.b + r.b);
      c = u32 (s.c + r.c);
      d = u32 (s.d + r.d);
      e = u32 (s.e + r.e);
      f = u32 (s.f + r.f);
      g = u32 (s.g + r.g);
      h = u32 (s.h + r.h);
    }
