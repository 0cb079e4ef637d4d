-- ===== src/Mining/Sparse.antt =====
-- miner/miner.c, the mining loop of `main` on a line that is mostly silent: the search hands back the
-- bytes that it read to find the gap, and the loop replays them.
use osprey_blake2b.Base.{
  ℕ, ◌+◌, ◌-◌, ◌*◌, ◌/◌, ◌≤◌, ◌<◌, ◌≡◌, refl, ap, ◌∙◌, arith, Bool, true, false, ◌&&◌, not, List,
  [], ◌++◌, Option, none, some, if◌then◌else◌, length, drop, drop-append, length-append, lt→ltb,
  le→ltb-false, u64, All,
}
use osprey_blake2b.FrameSync.{frame_sync}
use osprey_blake2b.FrameSync.Gap.{then_silent, frame_sync-then_silent}
use osprey_blake2b.Mining.{Source, Line, Loop, drain, find_frame, sync_and_drain}
use osprey_blake2b.Mining.Assembled.{IsReply, frames, length-frames, parsed_each, drain-frames}

module _ (S : Source) where
  -- The state in which the replay starts.
  abbrev pub aligned : Loop S → Loop S
  aligned l = record l {
    frame = [];
    synced = true;
    sync = record l.sync { sync_gap = u64 (l.sync.sync_gap + 1) };
  }

  frame_sync-line :
      (l : Loop S) (line : Line) (bytes : List ℕ)
      → line.polls ≡ then_silent bytes
      → 0 < length bytes
      → length bytes < 512
      → frame_sync l.sync true true line.polls line.skip_polls line.read_polls
        ≡ (record l.sync { sync_gap = u64 (l.sync.sync_gap + 1) }, some bytes)
  frame_sync-line l line bytes e h k =
      ap (λ p. frame_sync l.sync true true p line.skip_polls line.read_polls) e
      ∙ frame_sync-then_silent l.sync true bytes line.skip_polls line.read_polls h k

  find_frame-then_silent :
      (l : Loop S) (line : Line) (bytes : List ℕ)
      → line.polls ≡ then_silent bytes
      → 0 < length bytes
      → length bytes ≤ 136
      → find_frame S l line ≡ some (aligned l, drop (length bytes - length bytes / 17 * 17) bytes)
  unfolding find_frame
  find_frame-then_silent l line bytes e h k =
      simp
        (
          frame_sync-line l line bytes e h (omega arith),
          le→ltb-false 136 (length bytes) k,
          find_frame,
        )
        refl

  find_frame-overrun :
      (l : Loop S) (line : Line) (bytes : List ℕ)
      → line.polls ≡ then_silent bytes
      → 136 < length bytes
      → length bytes < 512
      → find_frame S l line ≡ none
  unfolding find_frame
  find_frame-overrun l line bytes e h k =
      simp (frame_sync-line l line bytes e (omega arith) k, lt→ltb 136 (length bytes) h, find_frame)
        refl

module _ (S : Source) (nonce_offset : ℕ) where
  abbrev behind_search : Line → Option (Loop S × List ℕ) → Option (Loop S)
  behind_search line found = elim found [
    | none ↦ none
    | some r ↦ some (drain S nonce_offset r.0 (r.1 ++ line.arriving)).0
  ]

  sync_and_drain-search :
      (l : Loop S) (line : Line)
      → l.synced ≡ false
      → l.have_work ≡ true
      → sync_and_drain S nonce_offset l line ≡ behind_search line (find_frame S l line)
  unfolding sync_and_drain
  sync_and_drain-search l line y w =
      ap
        (λ (c : Bool).
          if c
          then behind_search line (find_frame S l line)
          else some (drain S nonce_offset l line.arriving).0)
        (ap (λ b. not b && l.have_work) y ∙ w)

  -- A loop that has sent work and has no alignment reads the rest of a frame, then frames of any
  -- replies, at most 136 bytes in all, and then the line is silent: each reply is judged once, in the
  -- order of the line, and then what the UART still holds is drained.
  pub sync_and_drain-then_silent :
      (l : Loop S) (line : Line) (fragment : List ℕ) (replies : List (ℕ × ℕ))
      → l.synced ≡ false
      → l.have_work ≡ true
      → length fragment < 17
      → All IsReply replies
      → line.polls ≡ then_silent (fragment ++ frames replies)
      → 0 < length (fragment ++ frames replies)
      → length (fragment ++ frames replies) ≤ 136
      → sync_and_drain S nonce_offset l line
        ≡ some
            (drain S nonce_offset
              (parsed_each S nonce_offset (aligned S l) replies)
              line.arriving).0
  unfolding sync_and_drain
  sync_and_drain-then_silent l line fragment replies y w f r e h k =
      let n = length-append fragment (frames replies) in
      let m = length-frames replies in
      let bytes = fragment ++ frames replies in
      let d : drop (length bytes - length bytes / 17 * 17) bytes ≡ frames replies =
        drop-append (length bytes - length bytes / 17 * 17) fragment (frames replies)
          (omega arith) in
      sync_and_drain-search l line y w
      ∙ ap (behind_search line) (find_frame-then_silent S l line bytes e h k)
      ∙ ap (λ b. some (drain S nonce_offset (aligned S l) (b ++ line.arriving)).0) d
      ∙ ap (λ p. some p.0)
          (drain-frames S nonce_offset (aligned S l) replies line.arriving refl refl r)

  -- A loop that has sent work and has no alignment reads more than 136 bytes, fewer than 512, before
  -- the first silence of 3 ms: the copy of the bytes runs over the end of `syncbuf`.
  pub sync_and_drain-overrun :
      (l : Loop S) (line : Line) (bytes : List ℕ)
      → l.synced ≡ false
      → l.have_work ≡ true
      → line.polls ≡ then_silent bytes
      → 136 < length bytes
      → length bytes < 512
      → sync_and_drain S nonce_offset l line ≡ none
  sync_and_drain-overrun l line bytes y w e h k =
      sync_and_drain-search l line y w
      ∙ ap (behind_search line) (find_frame-overrun S l line bytes e h k)
