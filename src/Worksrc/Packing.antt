-- ===== src/Worksrc/Packing.antt =====
-- The two layouts of `worksrc_pack_item`, and the agreement with `build_work_item`.
use osprey_blake2b.Base.{
  ℕ, ◌≡◌, ◌≢◌, ap, ap₂, ◌∙◌, arith, true, List, ◌++◌, length, replicate, take_all, ne→==-false,
}
use osprey_blake2b.Base.Bytes.{blit, store_le, length-store_le}
use osprey_blake2b.Base.Blit.{blit-append, blit_first}
use osprey_blake2b.WorkItem.{
  KnotsHeader, Stages, ok, build_work_item, stage_inputs, put_le64, work_item_len,
}
use osprey_blake2b.WorkItem.Item.{item_bytes}
use osprey_blake2b.Worksrc.{WorkCtx, worksrc_pack_item, put_target_le}

-- The messages of a context have their sizes.
pub record IsCtx (ctx : WorkCtx) : Type 0 where
  pub ss3_size : length ctx.ss3 ≡ 52
  pub ss4_size : length ctx.ss4 ≡ 80

-- The Siacoin item: the header, the target word, and 80 bytes that are not sent.
sia_bytes :
    (s4 t : List ℕ)
    → length s4 ≡ 80
    → length t ≡ 8
    → blit (blit (replicate 168 0) 0 s4) 80 t ≡ s4 ++ (t ++ replicate 80 0)
sia_bytes s4 t h4 ht =
    ap (λ b. blit b 80 t) (blit_first (replicate 80 0) (replicate 88 0) s4 h4)
    ∙ blit-append s4 (replicate 88 0) t 80 0 (omega arith)
    ∙ ap (λ b. s4 ++ b) (blit_first (replicate 8 0) (replicate 80 0) t ht)

-- All three branches of the packing: the 168-byte item, the 88-byte item in front of zeros, and
-- zeros with the number 0 for any other length.
pub worksrc_pack_item_layout :
    (ctx : WorkCtx)
    → IsCtx ctx
    → (worksrc_pack_item ctx 168
        ≡ (168, ctx.ss3 ++ (replicate 28 0 ++ (ctx.ss4 ++ store_le 0 8 ctx.target_top64))))
      × (worksrc_pack_item ctx 88
          ≡ (88, ctx.ss4 ++ (store_le 0 8 ctx.target_top64 ++ replicate 80 0)))
      × ((n : ℕ) → n ≢ 168 → n ≢ 88 → worksrc_pack_item ctx n ≡ (0, replicate 168 0))
unfolding worksrc_pack_item put_target_le
worksrc_pack_item_layout ctx v = (
  ap (λ (b : List ℕ). let p : ℕ × List ℕ = (168, b) in p)
      (ap₂
          (λ a b. blit (blit (blit (replicate 168 0) 0 a) 80 b) 160 (store_le 0 8 ctx.target_top64))
          (take_all 52 ctx.ss3 v.ss3_size) (take_all 80 ctx.ss4 v.ss4_size)
        ∙ item_bytes ctx.ss3 ctx.ss4 _ v.ss3_size v.ss4_size
            (length-store_le 0 8 ctx.target_top64)),
  ap (λ (b : List ℕ). let p : ℕ × List ℕ = (88, b) in p)
      (ap (λ a. blit (blit (replicate 168 0) 0 a) 80 (store_le 0 8 ctx.target_top64))
          (take_all 80 ctx.ss4 v.ss4_size)
        ∙ sia_bytes ctx.ss4 _ v.ss4_size (length-store_le 0 8 ctx.target_top64)),
  λ n a b. rw (ne→==-false n 168 a, ne→==-false n 88 b),
)

-- The context that a header's stages and a target give.
abbrev pub ctx_of : Stages → ℕ → WorkCtx
ctx_of st target = record { ss3 = st.ss3; ss4 = st.ss4; target_top64 = target; valid = true }

-- The packing at 168 bytes is `build_work_item`, byte for byte, for every header that has stages.
pub worksrc_pack_item-build_work_item :
    (h : KnotsHeader) (st : Stages) (target : ℕ)
    → stage_inputs h ≡ ok st
    → build_work_item h target ≡ ok (worksrc_pack_item (ctx_of st target) work_item_len).1
unfolding worksrc_pack_item put_target_le build_work_item put_le64
worksrc_pack_item-build_work_item h st target e = rw (e, build_work_item)
