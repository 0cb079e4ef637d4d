-- ===== src/Sha256/Final.antt =====
-- `sha256_final` on a context that holds a message, and the whole digest.
use osprey_blake2b.Base.{
  ℕ, suc, ◌+◌, ◌*◌, ◌≤◌, ◌≡◌, refl, sym, ap, ap₂, ◌∙◌, arith, List, [], ◌∷◌, ◌++◌, length, take,
  drop, replicate, set, length-append, length-take, length-drop, length-replicate, append_assoc,
  append-nil, take-append-drop, take-append,
}
use osprey_blake2b.Base.Slices.{drop-append_le, set-append_right}
use osprey_blake2b.Sha256.Rounds.{Words, transform}
use osprey_blake2b.Sha256.{fill_zero, put_bitlen}
use osprey_blake2b.Sha256.Padding.{
  absorb, absorb-append, absorb-suc, fill_zero_lem, put_bitlen_lem, length_bytes, padding,
}

-- What is in use, the byte behind it, `n` further bytes, and the rest of the buffer.
mark_and_fill :
    (pre : List ℕ) (x : ℕ) (mid post : List ℕ) (i n : ℕ)
    → length pre ≡ i
    → length mid ≡ n
    → fill_zero (i + 1) n (set (pre ++ (x ∷ (mid ++ post))) i 0x80)
      ≡ pre ++ (0x80 ∷ (replicate n 0 ++ post))
mark_and_fill pre x mid post i n e h =
    ap (fill_zero (i + 1) n) (
      set-append_right pre (x ∷ (mid ++ post)) i 0 0x80 (omega arith)
      ∙ sym (append_assoc pre (0x80 ∷ []) (mid ++ post)))
    ∙ fill_zero_lem (i + 1) n (pre ++ (0x80 ∷ [])) mid post
        (omega (arith, length-append pre (0x80 ∷ []))) h
    ∙ append_assoc pre (0x80 ∷ []) (replicate n 0 ++ post)

-- The next block of a message with something behind it that fills the block up.
block_of :
    (n : ℕ) (seen pre tail more : List ℕ)
    → n * 64 ≤ length seen
    → drop (n * 64) seen ≡ pre
    → length (pre ++ tail) ≡ 64
    → take 64 (drop (n * 64) (seen ++ (tail ++ more))) ≡ pre ++ tail
block_of n seen pre tail more h e k =
    ap (take 64) (drop-append_le (n * 64) seen (tail ++ more) h ∙ ap (λ t. t ++ (tail ++ more)) e)
    ∙ ap (take 64) (sym (append_assoc pre tail more))
    ∙ take-append 64 (pre ++ tail) more k

-- One more block: the state after it.
absorb_block :
    (n : ℕ) (s : Words) (seen pre tail more : List ℕ)
    → n * 64 ≤ length seen
    → drop (n * 64) seen ≡ pre
    → length (pre ++ tail) ≡ 64
    → absorb (suc n) s (seen ++ (tail ++ more)) ≡ transform (absorb n s seen) (pre ++ tail)
absorb_block n s seen pre tail more h e k =
    absorb-suc n s (seen ++ (tail ++ more))
    ∙ ap₂ transform (absorb-append n s seen (tail ++ more) h) (block_of n seen pre tail more h e k)

pub absorb_last :
    (n : ℕ) (s : Words) (seen pre tail : List ℕ)
    → n * 64 ≤ length seen
    → drop (n * 64) seen ≡ pre
    → length (pre ++ tail) ≡ 64
    → absorb (suc n) s (seen ++ tail) ≡ transform (absorb n s seen) (pre ++ tail)
absorb_last n s seen pre tail h e k =
    ap (λ t. absorb (suc n) s (seen ++ t)) (sym (append-nil tail))
    ∙ absorb_block n s seen pre tail [] h e k

-- The unused part of the buffer: a byte, `k` bytes and the rest.
record Unused (k : ℕ) (ds : List ℕ) : Type 0 where
  x : ℕ
  mid : List ℕ
  post : List ℕ
  parts : ds ≡ x ∷ (mid ++ post)
  mid_length : length mid ≡ k
  post_length : length post + suc k ≡ length ds

unused : (k : ℕ) (ds : List ℕ) → suc k ≤ length ds → Unused k ds
unused k [] h = absurd (omega arith)
unused k (x ∷ ds) h = record {
  x = x;
  mid = take k ds;
  post = drop k ds;
  parts = ap (◌∷◌ x) (sym (take-append-drop k ds));
  mid_length = omega (arith, length-take k ds);
  post_length = omega (arith, length-drop k ds);
}

nil_of : (xs : List ℕ) → length xs ≡ 0 → xs ≡ []
nil_of [] h = refl
nil_of (x ∷ xs) h = absurd (omega arith)

module _ (buf : List ℕ) (r v : ℕ) (size : length buf ≡ 64) where
  pub use_length : r ≤ 64 → length (take r buf) ≡ r
  use_length h = omega (arith, length-take r buf)

  -- The mark and `n` zeros behind the bytes in use.
  marked :
      (n : ℕ)
      → r + suc n ≤ 64
      → (post : List ℕ) × (length post + n + suc r ≡ 64)
        × (fill_zero (r + 1) n (set buf r 0x80) ≡ take r buf ++ (0x80 ∷ (replicate n 0 ++ post)))
  marked n h =
      let u = unused n (drop r buf) (omega (arith, length-drop r buf)) in
      (
        u.post,
        omega (arith, u.post_length, length-drop r buf),
        ap (λ t. fill_zero (r + 1) n (set t r 0x80))
              (sym (take-append-drop r buf) ∙ ap (λ t. take r buf ++ t) u.parts)
            ∙ mark_and_fill (take r buf) u.x u.mid u.post r n (use_length (omega arith))
                u.mid_length,
      )

  -- Padding that fits into the block.
  pub short_buffer :
      (n : ℕ)
      → r + suc n ≡ 56
      → put_bitlen v 0 8 (fill_zero (r + 1) n (set buf r 0x80)) ≡ take r buf ++ padding n v
  short_buffer n h =
      let (post, lp, e) = marked n (omega arith) in
      ap (put_bitlen v 0 8) (e ∙ sym (append_assoc (take r buf) (0x80 ∷ replicate n 0) post))
      ∙ put_bitlen_lem v (take r buf ++ (0x80 ∷ replicate n 0)) post
          (omega (
            arith,
            length-append (take r buf) (0x80 ∷ replicate n 0),
            length-replicate {A = ℕ} n 0,
            use_length (omega arith),
          ))
          (omega arith)
      ∙ append_assoc (take r buf) (0x80 ∷ replicate n 0) (length_bytes v)

  -- Padding that fills the block, which the length does not fit into.
  pub full_buffer :
      (n : ℕ)
      → r + suc n ≡ 64
      → fill_zero (r + 1) n (set buf r 0x80) ≡ take r buf ++ (0x80 ∷ replicate n 0)
  full_buffer n h =
      let (post, lp, e) = marked n (omega arith) in
      e
      ∙ ap (λ t. take r buf ++ (0x80 ∷ (replicate n 0 ++ t))) (nil_of post (omega arith))
      ∙ ap (λ t. take r buf ++ (0x80 ∷ t)) (append-nil (replicate n 0))
