-- ===== src/SiaStratum/NonceSlot.antt =====
-- The nonce slot: what a solo header carries in two fields, a pool message carries in eight bytes.
use osprey_blake2b.Base.{
  ℕ, ◌-◌, ◌≡◌, refl, sym, ap, ap₂, ◌∙◌, arith, List, ◌++◌, length, take, replicate, take_all,
  append_assoc, All-replicate, map, bit_and, bit_xor, u8, u32, shr, All, IsByte, All-get_or, true,
}
use mathlib.Core.Path.{fun_ext}
use osprey_blake2b.Base.Bytes.{blit, byte_at, store_le, length-store_le, range, load_word}
use osprey_blake2b.Base.Bits.{bit_and-mod, bit_xor-zero}
use osprey_blake2b.Base.Blit.{blit-append, blit_first, length-blit}
use osprey_blake2b.Blake2b.{blake2b_nokey}
use osprey_blake2b.Blake2b.Shape.{length-blake2b_nokey, blake2b_nokey-IsByte}
use osprey_blake2b.WorkItem.{
  KnotsHeader, ok, put_le32, stage3_message, stage4_message, h1_payload, h2_hash,
  knots_complete_version, knots_time_on_wire, prev_hidden, stage_inputs, reversed32, get_pow_hash,
  pow_bytes, xor_mask, key_zero,
}
use osprey_blake2b.WorkItem.Layout.{
  IsHeader, IsMode0, stages_of, hash_a_of, stage_inputs_mode0, length-stage4_message, lengths,
}
use osprey_blake2b.Gbt.{with_nonce, expected_hash_top64}
use osprey_blake2b.SiaStratum.{put_nonce, sia_expected_top64, sia_pow_compare}

-- Two little-endian halves are the little-endian word.
halves :
    (nonce : ℕ)
    → put_le32 (u32 (bit_and nonce 0xffffffff)) ++ put_le32 (u32 (shr nonce 32))
      ≡ store_le 0 8 nonce
unfolding put_le32 store_le
halves nonce = rw (bit_and-mod 32 nonce) (ground arith)

-- The hidden previous block: the 32 bytes in front of the slot.
abbrev front : KnotsHeader → List ℕ
front h = take 32 (prev_hidden h)

length-front : (h : KnotsHeader) → length (front h) ≡ 32
unfolding prev_hidden
length-front h = simp lengths

-- What stands behind the slot.
abbrev back : KnotsHeader → List ℕ → List ℕ
back h a = put_le32 h.m_time_offset ++ (put_le32 h.m_nonce3 ++ take 32 a)

slot_write :
    (p x y z src : List ℕ)
    → length p ≡ 32
    → length src ≡ length (x ++ y)
    → blit (p ++ (x ++ (y ++ z))) 32 src ≡ p ++ (src ++ z)
slot_write p x y z src hp hs =
    blit-append p (x ++ (y ++ z)) src 32 0 (omega arith)
    ∙ ap (λ t. p ++ t)
        (ap (λ t. blit t 0 src) (sym (append_assoc x y z)) ∙ blit_first (x ++ y) z src hs)

-- The stage-4 message of the header with a nonce is the message with the nonce put into its slot.
pub stage4_message-with_nonce :
    (h : KnotsHeader) (a : List ℕ) (nonce : ℕ)
    → stage4_message (with_nonce h nonce) a ≡ put_nonce (stage4_message h a) nonce
stage4_message-with_nonce h a nonce =
    new
    ∙ ap (λ t. front h ++ t)
        (sym (
            append_assoc (put_le32 (u32 (bit_and nonce 0xffffffff))) (put_le32 (u32 (shr nonce 32)))
              (back h a))
          ∙ ap (λ t. t ++ back h a) (halves nonce))
    ∙ sym old
  where
    new :
        stage4_message (with_nonce h nonce) a
        ≡ front h
          ++ (put_le32 (u32 (bit_and nonce 0xffffffff))
              ++ (put_le32 (u32 (shr nonce 32)) ++ back h a))
    new = unfold stage4_message with_nonce prev_hidden in refl

    old : put_nonce (stage4_message h a) nonce ≡ front h ++ (store_le 0 8 nonce ++ back h a)
    old =
        unfold put_nonce stage4_message in
        slot_write (front h) (put_le32 h.n_nonce) (put_le32 h.m_nonce2) (back h a)
          (store_le 0 8 nonce) (length-front h) (unfold put_le32 store_le in refl)

-- The stage-3 message, and so `hash_a`, does not see the nonce.
stage3_message-with_nonce :
    (h : KnotsHeader) (nonce : ℕ) → stage3_message (with_nonce h nonce) ≡ stage3_message h
unfolding with_nonce stage3_message h2_hash h1_payload knots_complete_version knots_time_on_wire
stage3_message-with_nonce h nonce = refl

with_nonce-IsHeader : (h : KnotsHeader) (nonce : ℕ) → IsHeader h → IsHeader (with_nonce h nonce)
unfolding with_nonce
with_nonce-IsHeader h nonce v = record {
  prev_size = v.prev_size;
  root_size = v.root_size;
  extranonce_size = v.extranonce_size;
  key_size = v.key_size;
  rhs_size = v.rhs_size;
}

with_nonce-IsMode0 : (h : KnotsHeader) (nonce : ℕ) → IsMode0 h → IsMode0 (with_nonce h nonce)
unfolding with_nonce
with_nonce-IsMode0 h nonce m = m

length-put_nonce : (ss4 : List ℕ) (nonce : ℕ) → length ss4 ≡ 80 → length (put_nonce ss4 nonce) ≡ 80
unfolding put_nonce
length-put_nonce ss4 nonce h =
    length-blit ss4 (store_le 0 8 nonce) 32 (omega (arith, length-store_le 0 8 nonce)) ∙ h

module _ (h : KnotsHeader) (nonce : ℕ) (v : IsHeader h) (m : IsMode0 h) where
  abbrev message : List ℕ
  message = (stages_of h).ss4

  message_size : length message ≡ 80
  message_size =
      length-stage4_message h v (hash_a_of h) (length-blake2b_nokey (stage3_message h) 32)

  -- The stages of the header with the nonce.
  nonce_stages :
      stage_inputs (with_nonce h nonce)
      ≡ ok (record { ss3 = stage3_message h; ss4 = put_nonce message nonce; hash_a = hash_a_of h })
  nonce_stages =
      stage_inputs_mode0 (with_nonce h nonce) (with_nonce-IsHeader h nonce v)
        (with_nonce-IsMode0 h nonce m)
      ∙ λ i.
          let s3 = stage3_message-with_nonce h nonce in
          ok (record {
            ss3 = s3 i;
            ss4 =
                (ap (λ t. stage4_message (with_nonce h nonce) (blake2b_nokey t 32)) s3
                    ∙ stage4_message-with_nonce h (hash_a_of h) nonce)
                  i;
            hash_a = blake2b_nokey (s3 i) 32;
          })

  digest_input : take 80 (put_nonce message nonce) ≡ put_nonce (take 80 message) nonce
  digest_input =
      take_all 80 (put_nonce message nonce) (length-put_nonce message nonce message_size)
      ∙ ap (λ t. put_nonce t nonce) (sym (take_all 80 message message_size))

  -- The solo path and the pool path expect the same word of the same message and nonce.
  pub expected_hash_top64-sia_expected_top64 :
      expected_hash_top64 (with_nonce h nonce) ≡ sia_expected_top64 message nonce
  unfolding expected_hash_top64 sia_expected_top64
  expected_hash_top64-sia_expected_top64 =
      rw (nonce_stages, expected_hash_top64)
        (ap (λ t. load_word (blake2b_nokey t 32) 0 (range 24 8)) digest_input)

-- A digest whose bytes are combined with zeros is itself.
xor_zeros :
    (d : List ℕ)
    → All IsByte d
    → (i : ℕ) → u8 (bit_xor (byte_at d i) (byte_at (replicate 32 0) i)) ≡ byte_at d i
xor_zeros d h i =
    let byte : IsByte (byte_at d i) = All-get_or IsByte d i 0 h (omega arith) in
    ap (λ t. u8 (bit_xor (byte_at d i) t))
      (All-get_or (λ (x : ℕ). x ≡ 0) (replicate 32 0) i 0
        (All-replicate (λ (x : ℕ). x ≡ 0) 32 0 refl) refl)
    ∙ omega (arith, bit_xor-zero (byte_at d i))

module _ (h : KnotsHeader) (nonce : ℕ) (v : IsHeader h) (m : IsMode0 h) where
  xor_mask_zero :
      key_zero (take 16 h.m_xor_key) ≡ true → xor_mask (with_nonce h nonce) ≡ replicate 32 0
  unfolding xor_mask with_nonce
  xor_mask_zero z = rw z

  -- With a zero XOR key the full proof-of-work hash of the header with a nonce is the compare
  -- value of the pool path.
  pub get_pow_hash-sia_pow_compare :
      key_zero (take 16 h.m_xor_key) ≡ true
      → get_pow_hash (with_nonce h nonce) ≡ ok (sia_pow_compare (stages_of h).ss4 nonce)
  unfolding sia_pow_compare reversed32 get_pow_hash pow_bytes
  get_pow_hash-sia_pow_compare z =
      rw (nonce_stages h nonce v m, get_pow_hash)
        (ap ok (
          ap₂ pow_bytes (ap (λ t. blake2b_nokey t 32) (digest_input h nonce v m)) (xor_mask_zero z)
          ∙ ap (λ f. map f (range 0 32))
              (fun_ext (λ i.
                xor_zeros _ (blake2b_nokey-IsByte (put_nonce (take 80 (stages_of h).ss4) nonce) 32)
                  (31 - i)))))
