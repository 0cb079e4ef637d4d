-- ===== src/Blake2b/Runs.antt =====
-- A run of miner/blake2b.c on the message "abc".
use osprey_blake2b.Base.{[], ◌∷◌, ◌≡◌, refl, take}
use osprey_blake2b.Base.Bytes.{load_word, push_byte}
use osprey_blake2b.Blake2b.{blake2b_nokey, absorb, emit, compress}

-- The first bytes of the 64-byte digest of "abc" in RFC 7693.
blake2b_abc : take 4 (blake2b_nokey (0x61 ∷ 0x62 ∷ 0x63 ∷ []) 64) ≡ 0xba ∷ 0x80 ∷ 0xa5 ∷ 0x3f ∷ []
unfolding blake2b_nokey absorb emit compress load_word push_byte
blake2b_abc = refl
