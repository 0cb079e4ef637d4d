-- ===== src/Blake2b.antt =====
-- miner/blake2b.c: unkeyed BLAKE2b with a digest of `outlen` bytes.
pub mod Shape
mod Runs
use osprey_blake2b.Base.{
  ℕ, zero, suc, ◌+◌, ◌-◌, ◌*◌, ◌/◌, ◌%◌, ◌^◌, bit_or, bit_xor, Bool, true, false, List, [], ◌∷◌,
  ◌++◌, if◌then◌else◌, ltb, u8, u64, shr, shl64, get_or, set, take, drop, replicate, length,
}
use osprey_blake2b.Base.Bytes.{byte_at, blit, load_word}

abbrev pub iv : List ℕ
iv =
    0x6a09e667f3bcc908 ∷ 0xbb67ae8584caa73b ∷ 0x3c6ef372fe94f82b ∷ 0xa54ff53a5f1d36f1
    ∷ 0x510e527fade682d1 ∷ 0x9b05688c2b3e6c1f ∷ 0x1f83d9abfb41bd6b ∷ 0x5be0cd19137e2179 ∷ []

abbrev pub sigma : List (List ℕ)
sigma =
    (0 ∷ 1 ∷ 2 ∷ 3 ∷ 4 ∷ 5 ∷ 6 ∷ 7 ∷ 8 ∷ 9 ∷ 10 ∷ 11 ∷ 12 ∷ 13 ∷ 14 ∷ 15 ∷ [])
    ∷ (14 ∷ 10 ∷ 4 ∷ 8 ∷ 9 ∷ 15 ∷ 13 ∷ 6 ∷ 1 ∷ 12 ∷ 0 ∷ 2 ∷ 11 ∷ 7 ∷ 5 ∷ 3 ∷ [])
    ∷ (11 ∷ 8 ∷ 12 ∷ 0 ∷ 5 ∷ 2 ∷ 15 ∷ 13 ∷ 10 ∷ 14 ∷ 3 ∷ 6 ∷ 7 ∷ 1 ∷ 9 ∷ 4 ∷ [])
    ∷ (7 ∷ 9 ∷ 3 ∷ 1 ∷ 13 ∷ 12 ∷ 11 ∷ 14 ∷ 2 ∷ 6 ∷ 5 ∷ 10 ∷ 4 ∷ 0 ∷ 15 ∷ 8 ∷ [])
    ∷ (9 ∷ 0 ∷ 5 ∷ 7 ∷ 2 ∷ 4 ∷ 10 ∷ 15 ∷ 14 ∷ 1 ∷ 11 ∷ 12 ∷ 6 ∷ 8 ∷ 3 ∷ 13 ∷ [])
    ∷ (2 ∷ 12 ∷ 6 ∷ 10 ∷ 0 ∷ 11 ∷ 8 ∷ 3 ∷ 4 ∷ 13 ∷ 7 ∷ 5 ∷ 15 ∷ 14 ∷ 1 ∷ 9 ∷ [])
    ∷ (12 ∷ 5 ∷ 1 ∷ 15 ∷ 14 ∷ 13 ∷ 4 ∷ 10 ∷ 0 ∷ 7 ∷ 6 ∷ 3 ∷ 9 ∷ 2 ∷ 8 ∷ 11 ∷ [])
    ∷ (13 ∷ 11 ∷ 7 ∷ 14 ∷ 12 ∷ 1 ∷ 3 ∷ 9 ∷ 5 ∷ 0 ∷ 15 ∷ 4 ∷ 8 ∷ 6 ∷ 2 ∷ 10 ∷ [])
    ∷ (6 ∷ 15 ∷ 14 ∷ 9 ∷ 11 ∷ 3 ∷ 0 ∷ 8 ∷ 12 ∷ 2 ∷ 13 ∷ 7 ∷ 1 ∷ 4 ∷ 10 ∷ 5 ∷ [])
    ∷ (10 ∷ 2 ∷ 8 ∷ 4 ∷ 7 ∷ 6 ∷ 1 ∷ 5 ∷ 15 ∷ 11 ∷ 9 ∷ 14 ∷ 3 ∷ 12 ∷ 13 ∷ 0 ∷ [])
    ∷ (0 ∷ 1 ∷ 2 ∷ 3 ∷ 4 ∷ 5 ∷ 6 ∷ 7 ∷ 8 ∷ 9 ∷ 10 ∷ 11 ∷ 12 ∷ 13 ∷ 14 ∷ 15 ∷ [])
    ∷ (14 ∷ 10 ∷ 4 ∷ 8 ∷ 9 ∷ 15 ∷ 13 ∷ 6 ∷ 1 ∷ 12 ∷ 0 ∷ 2 ∷ 11 ∷ 7 ∷ 5 ∷ 3 ∷ [])
    ∷ []

pub rotr64 : ℕ → ℕ → ℕ
rotr64 x n = bit_or (shr x n) (shl64 x (64 - n))

-- `p + off` is read from byte 7 down to byte 0.
pub load64 : List ℕ → ℕ → ℕ
load64 p off =
    load_word p 0
      ((off + 7) ∷ (off + 6) ∷ (off + 5) ∷ (off + 4) ∷ (off + 3) ∷ (off + 2) ∷ (off + 1) ∷ off ∷ [])

-- The four words that G mixes.
pub record Quad : Type 0 where
  pub qa : ℕ
  pub qb : ℕ
  pub qc : ℕ
  pub qd : ℕ

-- One half of the macro G: a message word and two rotations.
half_g : ℕ → ℕ → ℕ → Quad → Quad
unfolding rotr64
half_g x r1 r2 q =
    let a = u64 (q.qa + q.qb + x) in
    let d = rotr64 (bit_xor q.qd a) r1 in
    let c = u64 (q.qc + d) in
    let b = rotr64 (bit_xor q.qb c) r2 in record { qa = a; qb = b; qc = c; qd = d }

-- `G(r, i, v[a], v[b], v[c], v[d])` on the state `v`.
mix : List ℕ → List ℕ → ℕ → ℕ → ℕ → ℕ → ℕ → List ℕ → List ℕ
unfolding half_g
mix m row i a b c d v =
    let q : Quad = record {
      qa = get_or v a 0;
      qb = get_or v b 0;
      qc = get_or v c 0;
      qd = get_or v d 0;
    } in
    let q1 = half_g (get_or m (get_or row (2 * i) 0) 0) 32 24 q in
    let q2 = half_g (get_or m (get_or row (2 * i + 1) 0) 0) 16 63 q1 in
    set (set (set (set v a q2.qa) b q2.qb) c q2.qc) d q2.qd

round : List ℕ → List ℕ → List ℕ → List ℕ
unfolding mix
round m row v0 =
    let v1 = mix m row 0 0 4 8 12 v0 in
    let v2 = mix m row 1 1 5 9 13 v1 in
    let v3 = mix m row 2 2 6 10 14 v2 in
    let v4 = mix m row 3 3 7 11 15 v3 in
    let v5 = mix m row 4 0 5 10 15 v4 in
    let v6 = mix m row 5 1 6 11 12 v5 in let v7 = mix m row 6 2 7 8 13 v6 in mix m row 7 3 4 9 14 v7

rounds : List (List ℕ) → List ℕ → List ℕ → List ℕ
unfolding round
rounds [] m v = v
rounds (row ∷ rows) m v = rounds rows m (round m row v)

-- Word `i` of the block, and of the new chaining value.
load_words : List ℕ → ℕ → ℕ → List ℕ
unfolding load64
load_words block i zero = []
load_words block i (suc n) = load64 block (i * 8) ∷ load_words block (i + 1) n

fold_back : List ℕ → ℕ → List ℕ → List ℕ
fold_back v i [] = []
fold_back v i (x ∷ h) =
    bit_xor x (bit_xor (get_or v i 0) (get_or v (i + 8) 0)) ∷ fold_back v (i + 1) h

unfoldable pub compress : List ℕ → List ℕ → ℕ → Bool → List ℕ
unfolding rounds load_words fold_back
compress h block t last =
    let m = load_words block 0 16 in
    let v = take 8 h ++ iv in
    let v' = set v 12 (bit_xor (get_or v 12 0) t) in
    let v'' = if last then set v' 14 (2 ^ 64 - 1 - get_or v' 14 0) else v' in
    fold_back (rounds sigma m v'') 0 h

-- What the loop over the complete blocks carries: `h`, `off` and `counter`.
pub record Progress : Type 0 where
  pub chain : List ℕ
  pub off : ℕ
  pub counter : ℕ

-- `while (inlen - off > 128)`, with fuel.
pub absorb : ℕ → List ℕ → Progress → Progress
absorb zero inp p = p
absorb (suc fuel) inp p =
    let counter = u64 (p.counter + 128) in
    let next = absorb fuel inp (record {
      chain = compress p.chain (take 128 (drop p.off inp)) counter false;
      off = p.off + 128;
      counter = counter;
    }) in
    if ltb 128 (length inp - p.off) then next else p

-- `out[i] = (uint8_t)(h[i / 8] >> (8 * (i % 8)))`, from byte `i` on.
pub emit : List ℕ → ℕ → ℕ → List ℕ
emit h i zero = []
emit h i (suc n) = u8 (shr (get_or h (i / 8) 0) (8 * (i % 8))) ∷ emit h (i + 1) n

pub start : ℕ → List ℕ
start outlen = set iv 0 (bit_xor (get_or iv 0 0) (bit_xor 0x01010000 outlen))

-- Each round takes 128 bytes, so as many rounds as there are bytes are enough.
unfoldable pub blake2b_nokey : List ℕ → ℕ → List ℕ
unfolding start
blake2b_nokey inp outlen =
    let p = absorb (length inp) inp (record { chain = start outlen; off = 0; counter = 0 }) in
    let rem = length inp - p.off in
    let block = blit (replicate 128 0) 0 (take rem (drop p.off inp)) in
    let h = compress p.chain block (u64 (p.counter + rem)) true in emit h 0 outlen
