-- ===== src/Sha256/Reference.antt =====
-- The streaming `sha256` against padding the whole message and absorbing its blocks in turn; the
-- tagged and double hashes are built from it.
use osprey_blake2b.Base.{
  ℕ, zero, suc, ◌+◌, ◌-◌, ◌*◌, ◌/◌, ◌%◌, ◌^◌, ◌≤◌, ◌<◌, ◌≡◌, refl, sym, ap, ap₂, ◌∙◌, arith, List,
  [], ◌∷◌, ◌++◌, length, take, drop, replicate, length-append, length-drop, length-replicate,
  append_assoc, u64, All, IsByte, lt→ltb, le→ltb-false, set,
}
use native.Mathlib.Decide.{dec_lt}
use osprey_blake2b.Base.Bytes.{store_le}
use osprey_blake2b.Base.Slices.{drop_all}
use osprey_blake2b.Sha256.Rounds.{Words, transform}
use osprey_blake2b.Sha256.{
  Sha256Ctx, initial_state, sha256_init, sha256_update, sha256_final, sha256, sha256d, tagged_hash,
  stack_data, pad_ctx, fill_zero, put_bitlen, digest,
}
use osprey_blake2b.Sha256.Padding.{
  absorb, put_bitlen_lem, length_bytes, length-padding, padding, padded, sha256_reference,
}
use osprey_blake2b.Sha256.Laws.{Holds, Holds-init, Holds-update}
use osprey_blake2b.Sha256.Final.{absorb_last, short_buffer, full_buffer, use_length}

replicate-add : (m n k : ℕ) → m + n ≡ k → replicate {A = ℕ} m 0 ++ replicate n 0 ≡ replicate k 0
replicate-add zero n k h = ap (λ (t : ℕ). replicate t 0) (omega arith)
replicate-add (suc m) n zero h = absurd (omega arith)
replicate-add (suc m) n (suc k) h = ap (◌∷◌ 0) (replicate-add m n k (omega arith))

length_bytes-mod : (v w : ℕ) → v % 2 ^ 64 ≡ w % 2 ^ 64 → length_bytes v ≡ length_bytes w
unfolding store_le
length_bytes-mod v w h = ap₂ ◌∷◌ (omega arith) (
    ap₂ ◌∷◌ (omega arith) (
      ap₂ ◌∷◌ (omega arith) (
        ap₂ ◌∷◌ (omega arith) (
          ap₂ ◌∷◌ (omega arith) (
            ap₂ ◌∷◌ (omega arith)
              (ap₂ ◌∷◌ (omega arith) (ap (λ (t : ℕ). t ∷ []) (omega arith))))))))

-- The calls of the code, with the parts shut.
sha256_final_lem :
    (c : Sha256Ctx)
    → sha256_final c
      ≡ digest (
          transform
            (pad_ctx c).state
            (put_bitlen (u64 ((pad_ctx c).bitlen + u64 (c.datalen * 8))) 0 8 (pad_ctx c).buf))
unfolding sha256_final
sha256_final_lem c = refl

sha256_reference_lem :
    (msg : List ℕ)
    → sha256_reference msg ≡ digest (absorb ((length msg + 72) / 64) initial_state (padded msg))
unfolding sha256_reference
sha256_reference_lem msg = refl

pad_ctx_short :
    (c : Sha256Ctx)
    → c.datalen < 56
    → pad_ctx c ≡ record c {
      buf = fill_zero (c.datalen + 1) (56 - (c.datalen + 1)) (set c.buf c.datalen 0x80);
    }
unfolding pad_ctx
pad_ctx_short c h = rw (lt→ltb c.datalen 56 h)

abbrev long_fill : Sha256Ctx → List ℕ
long_fill c = fill_zero (c.datalen + 1) (64 - (c.datalen + 1)) (set c.buf c.datalen 0x80)

pad_ctx_long :
    (c : Sha256Ctx)
    → 56 ≤ c.datalen
    → pad_ctx c ≡ record c {
      buf = replicate 56 0 ++ drop 56 (long_fill c);
      state = transform c.state (long_fill c);
    }
unfolding pad_ctx
pad_ctx_long c h = rw (le→ltb-false c.datalen 56 h)

module _ (c : Sha256Ctx) (msg : List ℕ) (h : Holds c msg) where
  abbrev bits : ℕ
  bits = u64 (c.bitlen + u64 (c.datalen * 8))

  bits_length : length_bytes bits ≡ length_bytes (length msg * 8)
  bits_length = length_bytes-mod _ _ (omega (arith, h.bits, h.whole))

  -- What `sha256_final` does with the padded context.
  abbrev finish : Sha256Ctx → List ℕ
  finish p =
      digest (transform p.state (put_bitlen (u64 (p.bitlen + u64 (c.datalen * 8))) 0 8 p.buf))

  abbrev pre : List ℕ
  pre = take c.datalen c.buf

  pre-length : length pre ≡ c.datalen
  pre-length = use_length c.buf c.datalen bits h.size (omega (arith, h.below))

  final_short :
      c.datalen < 56
      → sha256_final c
        ≡ digest (absorb (suc h.blocks) initial_state (msg ++ padding (56 - (c.datalen + 1)) bits))
  final_short lt =
      sha256_final_lem c
      ∙ ap finish (pad_ctx_short c lt)
      ∙ ap digest (
          ap₂ transform h.chained (short_buffer c.buf c.datalen bits h.size _ (omega arith))
          ∙ sym (
              absorb_last h.blocks initial_state msg pre (padding (56 - (c.datalen + 1)) bits)
                (omega (arith, h.whole)) (sym h.rest)
                (omega (
                  arith,
                  pre-length,
                  length-append pre (padding (56 - (c.datalen + 1)) bits),
                  length-padding (56 - (c.datalen + 1)) bits,
                ))))

  abbrev mark : List ℕ
  mark = 0x80 ∷ replicate (64 - (c.datalen + 1)) 0

  mark-length : length mark ≡ suc (64 - (c.datalen + 1))
  mark-length = ap suc (length-replicate {A = ℕ} (64 - (c.datalen + 1)) 0)

  first_block : transform c.state (long_fill c) ≡ absorb (suc h.blocks) initial_state (msg ++ mark)
  first_block =
      ap₂ transform h.chained
        (full_buffer c.buf c.datalen bits h.size (64 - (c.datalen + 1)) (omega (arith, h.below)))
      ∙ sym (
          absorb_last h.blocks initial_state msg pre mark (omega (arith, h.whole)) (sym h.rest)
            (omega (arith, h.below, pre-length, length-append pre mark, mark-length)))

  fill_length : length (long_fill c) ≡ 64
  fill_length =
      ap length
        (full_buffer c.buf c.datalen bits h.size (64 - (c.datalen + 1)) (omega (arith, h.below)))
      ∙ omega (arith, h.below, pre-length, length-append pre mark, mark-length)

  second_block :
      absorb
        (suc (suc h.blocks))
        initial_state
        ((msg ++ mark) ++ (replicate 56 0 ++ length_bytes bits))
      ≡ transform
          (absorb (suc h.blocks) initial_state (msg ++ mark))
          (replicate 56 0 ++ length_bytes bits)
  second_block =
      absorb_last (suc h.blocks) initial_state (msg ++ mark) []
        (replicate 56 0 ++ length_bytes bits)
        (omega (arith, h.below, h.whole, length-append msg mark, mark-length))
        (drop_all (suc h.blocks * 64) (msg ++ mark)
          (omega (arith, h.below, h.whole, length-append msg mark, mark-length)))
        (unfold store_le in refl)

  final_long :
      56 ≤ c.datalen
      → sha256_final c
        ≡ digest (absorb (suc (suc h.blocks)) initial_state (msg ++ padding (119 - c.datalen) bits))
  final_long le =
      sha256_final_lem c
      ∙ ap finish (pad_ctx_long c le)
      ∙ ap digest (
          ap₂ transform first_block (
            put_bitlen_lem bits (replicate 56 0) (drop 56 (long_fill c)) refl
              (omega (arith, length-drop 56 (long_fill c), fill_length)))
          ∙ sym second_block
          ∙ ap (absorb (suc (suc h.blocks)) initial_state) (
              append_assoc msg mark (replicate 56 0 ++ length_bytes bits)
              ∙ ap (λ t. msg ++ (0x80 ∷ t))
                  (sym (
                      append_assoc (replicate (64 - (c.datalen + 1)) 0) (replicate 56 0)
                        (length_bytes bits))
                    ∙ ap (λ t. t ++ length_bytes bits)
                        (replicate-add _ 56 (119 - c.datalen) (omega (arith, h.below))))))

  -- Both cases have the number of zeros and of blocks of the padded message.
  as_reference :
      (n gap : ℕ)
      → n ≡ (length msg + 72) / 64
      → gap ≡ (119 - length msg % 64) % 64
      → digest (absorb n initial_state (msg ++ padding gap bits)) ≡ sha256_reference msg
  as_reference n gap e f =
      ap₂ (λ (k z : ℕ). digest (absorb k initial_state (msg ++ padding z bits))) e f
      ∙ ap
          (λ t. digest (
            absorb ((length msg + 72) / 64) initial_state
              (msg ++ (0x80 ∷ (replicate ((119 - length msg % 64) % 64) 0 ++ t)))))
          bits_length
      ∙ sym (sha256_reference_lem msg)

  pub final_reference : sha256_final c ≡ sha256_reference msg
  final_reference = elim (dec_lt c.datalen 56) [
    | yes lt ↦
        final_short lt
        ∙ as_reference _ _ (omega (arith, h.whole, h.below)) (omega (arith, h.whole, h.below))
    | no ge ↦
        final_long (omega arith)
        ∙ as_reference _ _ (omega (arith, h.whole, h.below)) (omega (arith, h.whole, h.below))
  ]

-- The digest does not depend on what the context's buffer held, and is that of the padded message.
pub sha256_any_stack :
    (stack msg : List ℕ)
    → length stack ≡ 64
    → sha256_final (sha256_update (sha256_init stack) msg) ≡ sha256_reference msg
sha256_any_stack stack msg h =
    final_reference _ msg (Holds-update (sha256_init stack) [] msg (Holds-init stack h))

-- On every message the streaming `sha256`, with its buffer and its count of bits, gives what one
-- gets by padding the whole message with a one bit, zeros and its length in 64 bits, and running
-- the code's own compression over the blocks of 64 bytes in turn from its own initial state.
pub sha256-sha256_reference : (msg : List ℕ) → sha256 msg ≡ sha256_reference msg
unfolding sha256
sha256-sha256_reference msg = sha256_any_stack stack_data msg refl

-- `sha256d` is SHA-256 twice.
pub sha256d_lem : (msg : List ℕ) → sha256d msg ≡ sha256_reference (sha256_reference msg)
sha256d_lem msg =
    unfold sha256d in
    refl ∙ sha256-sha256_reference (sha256 msg) ∙ ap sha256_reference (sha256-sha256_reference msg)

-- A tagged hash is the SHA-256 of the tag's hash twice and the payload.
pub tagged_hash_lem :
    (tag payload : List ℕ)
    → tagged_hash tag payload
      ≡ sha256_reference (sha256_reference tag ++ (sha256_reference tag ++ payload))
tagged_hash_lem tag payload =
    unfold tagged_hash in
    final_reference _ _ (
      Holds-update _ _ payload (
        Holds-update _ _ (sha256 tag)
          (Holds-update (sha256_init stack_data) [] (sha256 tag) (Holds-init stack_data refl))))
    ∙ ap sha256_reference (
        append_assoc (sha256 tag) (sha256 tag) payload
        ∙ ap (λ t. t ++ (t ++ payload)) (sha256-sha256_reference tag))

-- A digest is 32 bytes.
pub record IsDigest (d : List ℕ) : Type 0 where
  pub size : length d ≡ 32
  pub bytes : All IsByte d

digest-IsDigest : (s : Words) → IsDigest (digest s)
unfolding digest
digest-IsDigest s = record { size = refl; bytes = omega arith }

sha256_final-IsDigest : (c : Sha256Ctx) → IsDigest (sha256_final c)
sha256_final-IsDigest c = rw (sha256_final_lem c) (digest-IsDigest _)

pub sha256d-IsDigest : (msg : List ℕ) → IsDigest (sha256d msg)
sha256d-IsDigest msg = unfold sha256d sha256 in sha256_final-IsDigest _

pub tagged_hash-IsDigest : (tag payload : List ℕ) → IsDigest (tagged_hash tag payload)
tagged_hash-IsDigest tag payload = unfold tagged_hash in sha256_final-IsDigest _
