-- ===== src/FrameSync/Gap.antt =====
-- miner/miner.c, `frame_sync`: a line that falls silent. Fifteen polls of 200 us with no byte are the
-- gap of 3 ms.
use osprey_blake2b.Base.{
  ℕ, ◌+◌, ◌<◌, ◌≡◌, refl, sym, ap, ◌∙◌, arith, Bool, true, List, [], ◌∷◌, ◌++◌, Option, none, some,
  map, length, replicate, length-append, append_assoc, append-nil, lt→ltb, lt→leb-false, u64,
}
use osprey_blake2b.FrameSync.{gap, SyncCounts, gather, frame_sync}

-- The polls of a line that gives these bytes and falls silent.
abbrev pub then_silent : List ℕ → List (Option ℕ)
then_silent bytes = map some bytes ++ replicate 15 none

gather-silence :
    (q : Bool) (got : List ℕ)
    → 0 < length got
    → length got < 512
    → gather q 0 got (replicate 15 none) ≡ gap got
unfolding gather
gather-silence q got h k = simp (lt→ltb 0 (length got) h, lt→leb-false 512 (length got) k, gather)

pub gather-then_silent :
    (q : Bool) (got bytes : List ℕ)
    → 0 < length got + length bytes
    → length got + length bytes < 512
    → gather q 0 got (then_silent bytes) ≡ gap (got ++ bytes)
unfolding gather
gather-then_silent q got [] h k =
    gather-silence q got (omega arith) (omega arith) ∙ ap gap (sym (append-nil got))
gather-then_silent q got (b ∷ bytes) h k =
    let n : length (got ++ (b ∷ [])) ≡ length got + 1 = length-append got (b ∷ []) in
    let ih = gather-then_silent q (got ++ (b ∷ [])) bytes (omega (arith, n)) (omega (arith, n)) in
    simp
      (
        lt→ltb (length got) 512 (omega arith),
        lt→leb-false 512 (length (got ++ (b ∷ []))) (omega (arith, n)),
        gather,
      )
      (ih ∙ ap gap (append_assoc got (b ∷ []) bytes))

-- A few bytes and then silence: the bytes are handed back.
pub frame_sync-then_silent :
    (st : SyncCounts) (q : Bool) (bytes : List ℕ) (skip_polls read_polls : List (Option ℕ))
    → 0 < length bytes
    → length bytes < 512
    → frame_sync st q true (then_silent bytes) skip_polls read_polls
      ≡ (record st { sync_gap = u64 (st.sync_gap + 1) }, some bytes)
unfolding frame_sync
frame_sync-then_silent st q bytes skip_polls read_polls h k =
    simp (gather-then_silent q [] bytes (omega arith) (omega arith), frame_sync) refl
