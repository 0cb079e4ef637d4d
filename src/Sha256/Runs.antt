-- ===== src/Sha256/Runs.antt =====
-- A run of miner/sha256.c on the message "abc".
use osprey_blake2b.Base.{[], ◌∷◌, ◌≡◌, refl, take}
use osprey_blake2b.Sha256
use osprey_blake2b.Sha256.Rounds.{transform}

-- The first bytes of the digest of "abc".
sha256_abc : take 4 (Sha256.sha256 (0x61 ∷ 0x62 ∷ 0x63 ∷ [])) ≡ 0xba ∷ 0x78 ∷ 0x16 ∷ 0xbf ∷ []
unfolding Sha256.sha256 Sha256.sha256_init Sha256.sha256_update Sha256.sha256_final Sha256.pad_ctx
    Sha256.put_bitlen Sha256.digest transform
sha256_abc = refl
