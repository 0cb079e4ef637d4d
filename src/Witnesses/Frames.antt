-- ===== src/Witnesses/Frames.antt =====
-- The theorems about the search for a frame at concrete inputs.
use osprey_blake2b.Base.{
  ℕ, ◌+◌, ◌%◌, ◌<◌, ◌≡◌, ◌≢◌, refl, arith, List, ◌∷◌, ◌++◌, some, replicate, length,
}
use osprey_blake2b.FrameSync.{lock, count_flags, best_from}
use osprey_blake2b.FrameSync.Locked
use osprey_blake2b.FrameSync.Locked.{IsLock, flags_at}

abbrev sparse_frame : List ℕ
sparse_frame = 1 ∷ replicate 16 0

-- The end of a frame, three whole ones and the start of one.
abbrev four_flags : List ℕ
four_flags =
    replicate 5 0 ++ (sparse_frame ++ (sparse_frame ++ (sparse_frame ++ (1 ∷ replicate 11 0))))

lock-IsLock_example : IsLock four_flags 5 5
unfolding lock count_flags best_from
lock-IsLock_example = Locked.lock-IsLock four_flags 5 5 refl

only_five : (r : ℕ) → r < 17 → r ≢ 5 → flags_at r 0 four_flags < flags_at 5 0 four_flags
only_five r h k = ground arith

lock-framed_example : (k : ℕ) × (lock four_flags ≡ some (5, k)) × ((length four_flags + k) % 17 ≡ 5)
lock-framed_example =
    Locked.lock-framed four_flags 5 (omega arith) (omega arith) (omega arith) only_five
