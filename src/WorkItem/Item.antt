-- ===== src/WorkItem/Item.antt =====
-- The work item byte by byte, the packing of worksrc.c against it, and the reply frame.
use osprey_blake2b.Base.{
  ℕ, ◌^◌, ◌<◌, ◌≡◌, refl, ap, ap₂, ◌∙◌, arith, true, List, ◌∷◌, ◌++◌, ◌==◌, length, replicate, All,
  IsByte, take_all, All-append, All-get_or,
}
use osprey_blake2b.Base.Bytes.{
  blit, byte_at, store_le, length-store_le, store_le-IsByte, load_word_lem,
}
use osprey_blake2b.Base.Blit.{blit-append, blit_first, blit_whole}
use osprey_blake2b.WorkItem.{KnotsHeader, ok, put_le64, get_le64, build_work_item, parse_result}
use osprey_blake2b.WorkItem.Layout.{
  IsHeader, IsMode0, stages_of, stage_inputs_mode0, length-stage3_message, length-stage4_message,
  hash_a_of,
}
use osprey_blake2b.Blake2b.Shape.{length-blake2b_nokey}

-- Three copies into 168 zeroed bytes.
pub item_bytes :
    (s3 s4 t : List ℕ)
    → length s3 ≡ 52
    → length s4 ≡ 80
    → length t ≡ 8
    → blit (blit (blit (replicate 168 0) 0 s3) 80 s4) 160 t ≡ s3 ++ (replicate 28 0 ++ (s4 ++ t))
item_bytes s3 s4 t h3 h4 ht =
    ap (λ b. blit (blit b 80 s4) 160 t) (blit_first (replicate 52 0) (replicate 116 0) s3 h3)
    ∙ ap (λ b. blit b 160 t)
        (blit-append s3 (replicate 116 0) s4 80 28 (omega arith)
          ∙ ap (λ b. s3 ++ b)
              (blit-append (replicate 28 0) (replicate 88 0) s4 28 0 refl
                ∙ ap (λ b. replicate 28 0 ++ b)
                    (blit_first (replicate 80 0) (replicate 8 0) s4 h4)))
    ∙ blit-append s3 (replicate 28 0 ++ (s4 ++ replicate 8 0)) t 160 108 (omega arith)
    ∙ ap (λ b. s3 ++ b)
        (blit-append (replicate 28 0) (s4 ++ replicate 8 0) t 108 80 refl
          ∙ ap (λ b. replicate 28 0 ++ b)
              (blit-append s4 (replicate 8 0) t 80 0 (omega arith)
                ∙ ap (λ b. s4 ++ b) (blit_whole (replicate 8 0) t ht)))

-- In mode 0 the item is the stage-3 message, 28 zero bytes up to the slot boundary, the stage-4
-- message and the target word in little-endian order.
pub build_work_item_lem :
    (h : KnotsHeader) (target : ℕ)
    → IsHeader h
    → IsMode0 h
    → build_work_item h target
      ≡ ok ((stages_of h).ss3 ++ (replicate 28 0 ++ ((stages_of h).ss4 ++ put_le64 target)))
unfolding build_work_item put_le64
build_work_item_lem h target v m =
    rw (stage_inputs_mode0 h v m, build_work_item)
      (ap ok (
        ap₂ (λ a b. blit (blit (blit (replicate 168 0) 0 a) 80 b) 160 (store_le 0 8 target))
          (take_all 52 _ (length-stage3_message h v)) (take_all 80 _ (size4 h v))
        ∙ item_bytes _ _ _ (length-stage3_message h v) (size4 h v) (length-store_le 0 8 target)))
  where
    size4 : (k : KnotsHeader) → IsHeader k → length (stages_of k).ss4 ≡ 80
    size4 k w = length-stage4_message k w (hash_a_of k) (length-blake2b_nokey _ 32)

-- The bytes of a reply frame, as the selftest of miner/miner.c builds one (`framing_make`).
unfoldable pub framing_make : ℕ → ℕ → List ℕ
framing_make nonce hash = 0x01 ∷ (store_le 0 8 nonce ++ store_le 0 8 hash)

frame-IsByte : (nonce hash : ℕ) → All IsByte (framing_make nonce hash)
unfolding framing_make
frame-IsByte nonce hash = (
  omega arith,
  All-append IsByte (store_le 0 8 nonce) (store_le 0 8 hash) (store_le-IsByte 0 8 nonce)
      (store_le-IsByte 0 8 hash),
)

frame_nonce : (nonce hash : ℕ) → nonce < 2 ^ 64 → get_le64 (framing_make nonce hash) 1 ≡ nonce
unfolding get_le64
frame_nonce nonce hash h =
    load_word_lem (framing_make nonce hash) 0 _
      (λ i. All-get_or IsByte _ i 0 (frame-IsByte nonce hash) (omega arith)) (omega arith)
    ∙ unfold framing_make store_le in omega arith

frame_hash : (nonce hash : ℕ) → hash < 2 ^ 64 → get_le64 (framing_make nonce hash) 9 ≡ hash
unfolding get_le64
frame_hash nonce hash h =
    load_word_lem (framing_make nonce hash) 0 _
      (λ i. All-get_or IsByte _ i 0 (frame-IsByte nonce hash) (omega arith)) (omega arith)
    ∙ unfold framing_make store_le in omega arith

frame_flag : (nonce hash : ℕ) → (byte_at (framing_make nonce hash) 0 == 0x01) ≡ true
unfolding framing_make
frame_flag nonce hash = refl

-- A frame is parsed back to the nonce and the word that it was made from.
pub parse_result-framing_make :
    (nonce hash : ℕ)
    → nonce < 2 ^ 64
    → hash < 2 ^ 64
    → parse_result (framing_make nonce hash)
      ≡ record { success = true; nonce = nonce; hash_top64 = hash }
unfolding parse_result
parse_result-framing_make nonce hash hn hh = λ i. record {
  success = frame_flag nonce hash i;
  nonce = frame_nonce nonce hash hn i;
  hash_top64 = frame_hash nonce hash hh i;
}
