-- ===== src/Sha256.antt =====
-- miner/sha256.c: the streaming SHA-256 and the tagged and double hashes over it.
pub mod Rounds
pub mod Padding
pub mod Laws
pub mod Final
pub mod Reference
mod Runs
use osprey_blake2b.Base.{
  ℕ, zero, suc, ◌+◌, ◌-◌, ◌*◌, List, [], ◌∷◌, ◌++◌, if◌then◌else◌, ltb, ◌==◌, u8, u64, shr, set,
  replicate, bit_and,
}
use osprey_blake2b.Base.Bytes.{blit}
use Rounds.{Words, transform}

pub record Sha256Ctx : Type 0 where
  pub buf : List ℕ
  pub datalen : ℕ
  pub bitlen : ℕ
  pub state : Words

abbrev pub initial_state : Words
initial_state = record {
  a = 0x6a09e667;
  b = 0xbb67ae85;
  c = 0x3c6ef372;
  d = 0xa54ff53a;
  e = 0x510e527f;
  f = 0x9b05688c;
  g = 0x1f83d9ab;
  h = 0x5be0cd19;
}

-- The 64 bytes of `data` are what the caller's stack held.
unfoldable pub sha256_init : List ℕ → Sha256Ctx
sha256_init stack = record { buf = stack; datalen = 0; bitlen = 0; state = initial_state }

-- One round of the loop of `sha256_update`.
pub update_byte : Sha256Ctx → ℕ → Sha256Ctx
update_byte c x =
    let buf' = set c.buf c.datalen x in
    if c.datalen + 1 == 64
    then record {
      buf = buf';
      datalen = 0;
      bitlen = u64 (c.bitlen + 512);
      state = transform c.state buf';
    }
    else record c { buf = buf'; datalen = c.datalen + 1 }

unfoldable pub sha256_update : Sha256Ctx → List ℕ → Sha256Ctx
unfolding update_byte
sha256_update c [] = c
sha256_update c (x ∷ xs) = sha256_update (update_byte c x) xs

-- `while (i < end) data[i++] = 0`, with `n` rounds left.
pub fill_zero : ℕ → ℕ → List ℕ → List ℕ
fill_zero i zero buf = buf
fill_zero i (suc n) buf = fill_zero (i + 1) n (set buf i 0)

-- `for (i = 0; i < 8; ++i) data[63 - i] = (uint8_t)(bitlen >> (i * 8))`, from round `i` on.
pub put_bitlen : ℕ → ℕ → ℕ → List ℕ → List ℕ
put_bitlen v i zero buf = buf
put_bitlen v i (suc n) buf = put_bitlen v (i + 1) n (set buf (63 - i) (u8 (shr v (i * 8))))

-- The four bytes of a state word, most significant first.
pub word_bytes : ℕ → List ℕ
word_bytes w =
    u8 (bit_and (shr w 24) 0xff)
    ∷ u8 (bit_and (shr w 16) 0xff)
    ∷ u8 (bit_and (shr w 8) 0xff)
    ∷ u8 (bit_and (shr w 0) 0xff)
    ∷ []

pub digest : Words → List ℕ
unfolding word_bytes
digest s =
    word_bytes s.a
    ++ (word_bytes s.b
        ++ (word_bytes s.c
            ++ (word_bytes s.d
                ++ (word_bytes s.e ++ (word_bytes s.f ++ (word_bytes s.g ++ word_bytes s.h))))))

-- The context before the length goes in: one block of padding, or two.
pub pad_ctx : Sha256Ctx → Sha256Ctx
unfolding fill_zero
pad_ctx c =
    let i = c.datalen in
    let marked = set c.buf i 0x80 in
    if ltb i 56
    then record c { buf = fill_zero (i + 1) (56 - (i + 1)) marked }
    else let full = fill_zero (i + 1) (64 - (i + 1)) marked in
      record c { buf = blit full 0 (replicate 56 0); state = transform c.state full }

unfoldable pub sha256_final : Sha256Ctx → List ℕ
sha256_final c =
    let p = pad_ctx c in
    let bits = u64 (p.bitlen + u64 (c.datalen * 8)) in
    digest (transform p.state (put_bitlen bits 0 8 p.buf))

-- What an uninitialised stack array holds does not matter; the model takes zeros.
abbrev pub stack_data : List ℕ
stack_data = replicate 64 0

unfoldable pub sha256 : List ℕ → List ℕ
sha256 xs = sha256_final (sha256_update (sha256_init stack_data) xs)

unfoldable pub tagged_hash : List ℕ → List ℕ → List ℕ
tagged_hash tag payload =
    let th = sha256 tag in
    let c = sha256_init stack_data in
    sha256_final (sha256_update (sha256_update (sha256_update c th) th) payload)

unfoldable pub sha256d : List ℕ → List ℕ
sha256d xs = sha256 (sha256 xs)
