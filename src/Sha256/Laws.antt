-- ===== src/Sha256/Laws.antt =====
-- The streaming code against the padded message: what a context holds after each byte.
use osprey_blake2b.Base.{
  ℕ, suc, ◌+◌, ◌*◌, ◌%◌, ◌^◌, ◌<◌, ◌≡◌, refl, sym, ap, ap₂, ◌∙◌, arith, List, [], ◌∷◌, ◌++◌, length,
  take, drop, set, length-append, length-set, append_assoc, append-nil, take_all, Bool-cases, inl,
  inr, ◌==◌,
}
use native.Mathlib.Numerals.{add-one}
use osprey_blake2b.Base.Slices.{drop-append_le, drop_all, take-set-suc}
use osprey_blake2b.Sha256.Rounds.{transform}
use osprey_blake2b.Sha256.{Sha256Ctx, initial_state, sha256_init, sha256_update, update_byte}
use osprey_blake2b.Sha256.Padding.{absorb, absorb-append, absorb-suc}

-- The context after the bytes `seen`: whole blocks are in the state, the rest is in the buffer.
pub record Holds (c : Sha256Ctx) (seen : List ℕ) : Type 0 where
  pub blocks : ℕ
  pub whole : length seen ≡ blocks * 64 + c.datalen
  pub below : c.datalen < 64
  pub size : length c.buf ≡ 64
  pub rest : take c.datalen c.buf ≡ drop (blocks * 64) seen
  pub bits : c.bitlen ≡ blocks * 512 % 2 ^ 64
  pub chained : c.state ≡ absorb blocks initial_state seen

pub Holds-init : (stack : List ℕ) → length stack ≡ 64 → Holds (sha256_init stack) []
unfolding sha256_init
Holds-init stack h = record {
  blocks = 0;
  whole = refl;
  below = omega arith;
  size = h;
  rest = refl;
  bits = refl;
  chained = unfold absorb in refl;
}

module _ (c : Sha256Ctx) (seen : List ℕ) (x : ℕ) (h : Holds c seen) where
  -- The buffer with the byte in it, as far as it is in use.
  filled : take (suc c.datalen) (set c.buf c.datalen x) ≡ drop (h.blocks * 64) (seen ++ (x ∷ []))
  filled =
      take-set-suc c.buf c.datalen x (omega (arith, h.below, h.size))
      ∙ ap (λ t. t ++ (x ∷ [])) h.rest
      ∙ sym (drop-append_le (h.blocks * 64) seen (x ∷ []) (omega (arith, h.whole)))

  kept : absorb h.blocks initial_state (seen ++ (x ∷ [])) ≡ absorb h.blocks initial_state seen
  kept = absorb-append h.blocks initial_state seen (x ∷ []) (omega (arith, h.whole))

  abbrev buf' : List ℕ
  buf' = set c.buf c.datalen x

  size' : length buf' ≡ 64
  size' = length-set c.buf c.datalen x ∙ h.size

  -- A full buffer is the next block of the bytes seen.
  block_full : suc c.datalen ≡ 64 → take 64 (drop (h.blocks * 64) (seen ++ (x ∷ []))) ≡ buf'
  block_full full =
      ap (take 64) (sym filled ∙ take_all (suc c.datalen) buf' (size' ∙ sym full))
      ∙ take_all 64 buf' size'

  Holds-more :
      suc c.datalen < 64
      → Holds (record c { buf = set c.buf c.datalen x; datalen = c.datalen + 1 }) (seen ++ (x ∷ []))
  Holds-more room = record {
    blocks = h.blocks;
    whole = omega (arith, h.whole, length-append seen (x ∷ []));
    below = omega arith;
    size = size';
    rest = ap (λ k. take k (set c.buf c.datalen x)) (add-one c.datalen) ∙ filled;
    bits = h.bits;
    chained = h.chained ∙ sym kept;
  }

  Holds-block :
      suc c.datalen ≡ 64
      → Holds
          (record {
            buf = set c.buf c.datalen x;
            datalen = 0;
            bitlen = (c.bitlen + 512) % 2 ^ 64;
            state = transform c.state (set c.buf c.datalen x);
          })
          (seen ++ (x ∷ []))
  Holds-block full = record {
    blocks = suc h.blocks;
    whole = omega (arith, h.whole, length-append seen (x ∷ []));
    below = omega arith;
    size = size';
    rest = sym (
        drop_all (suc h.blocks * 64) (seen ++ (x ∷ []))
          (omega (arith, h.whole, length-append seen (x ∷ []))));
    bits = omega (arith, h.bits);
    chained =
        ap₂ transform (h.chained ∙ sym kept) (sym (block_full full))
        ∙ sym (absorb-suc h.blocks initial_state (seen ++ (x ∷ [])));
  }

pub Holds-update_byte :
    (c : Sha256Ctx) (seen : List ℕ) (x : ℕ)
    → Holds c seen
    → Holds (update_byte c x) (seen ++ (x ∷ []))
unfolding update_byte
Holds-update_byte c seen x h = elim (Bool-cases (c.datalen + 1 == 64)) [
  | inl full ↦ rw full (Holds-block c seen x h (ground arith))
  | inr more ↦ rw more (Holds-more c seen x h (ground (arith, h.below)))
]

-- Feeding bytes one by one or in pieces comes to the same context contents.
pub Holds-update :
    (c : Sha256Ctx) (seen xs : List ℕ) → Holds c seen → Holds (sha256_update c xs) (seen ++ xs)
unfolding sha256_update
Holds-update c seen [] h = rw append-nil h
Holds-update c seen (x ∷ xs) h =
    rw (append_assoc seen (x ∷ []) xs) at
      (Holds-update (update_byte c x) (seen ++ (x ∷ [])) xs (Holds-update_byte c seen x h))
