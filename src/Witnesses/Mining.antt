-- ===== src/Witnesses/Mining.antt =====
-- The theorems about the mining loop at concrete inputs, with a source that notes what it is given.
use osprey_blake2b.Base.{
  ℕ, ◌≡◌, ◌∙◌, refl, arith, true, false, List, [], ◌∷◌, ◌++◌, none, some, replicate, length,
  length-append, ◌==◌, if◌then◌else◌,
}
use osprey_blake2b.Worksrc.{worksrc_pack_item}
use osprey_blake2b.Gbt.{bad, reproduces}
use osprey_blake2b.FrameSync.{frame_sync, gather}
use osprey_blake2b.FrameSync.Gap.{then_silent}
use osprey_blake2b.Mining.{
  Source, Line, Loop, no_work, loop_start, drain, sync_and_drain, pass, wants_work, push_work,
  find_frame, take_byte,
}
use osprey_blake2b.Mining.Assembled.{frames, length-frames, parsed_each}
use osprey_blake2b.Mining.Accounts
use osprey_blake2b.Mining.Accounts.{IsBetween, IsAccounted}
use osprey_blake2b.Mining.Sparse
use osprey_blake2b.Mining.Sparse.{aligned}
use osprey_blake2b.Mining.Reached

-- It keeps the candidates; one with an even hash word is good.
abbrev notes : Source
notes = record {
  State = List (ℕ × ℕ);
  poll = λ s t. s;
  get_work = λ s t. (s, some no_work);
  on_candidate = λ s ctx n h. ((n, h) ∷ s, if h == 10 then reproduces else bad);
  refresh_s = 30;
  item_len = 168;
}

abbrev working : Loop notes
working = record {
  source = [];
  ctx = no_work;
  frame = [];
  synced = false;
  bad_run = 0;
  have_work = true;
  last_template = 5;
  items_sent = 1;
  frames_ok = 0;
  frames_bad = 0;
  candidates_verified = 0;
  sync = record { sync_gap = 0; sync_quiet = 0; sync_failed = 0; sync_locked = 0 };
}

abbrev two_replies : List (ℕ × ℕ)
two_replies = (7, 9) ∷ (8, 10) ∷ []

abbrev fragment : List ℕ
fragment = 1 ∷ 2 ∷ 3 ∷ []

abbrev line_of : List ℕ → Line
line_of bytes = record {
  written = true;
  polls = then_silent bytes;
  skip_polls = [];
  read_polls = [];
  arriving = 1 ∷ [];
}

with_fragment : length (fragment ++ frames two_replies) ≡ 37
with_fragment =
    length-append fragment (frames two_replies) ∙ omega (arith, length-frames two_replies)

sync_and_drain-then_silent_example :
    sync_and_drain notes 0 working (line_of (fragment ++ frames two_replies))
    ≡ some (drain notes 0 (parsed_each notes 0 (aligned notes working) two_replies) (1 ∷ [])).0
sync_and_drain-then_silent_example =
    Sparse.sync_and_drain-then_silent notes 0 working (line_of (fragment ++ frames two_replies))
      fragment two_replies refl refl (omega arith) (omega arith) refl (omega (arith, with_fragment))
      (omega (arith, with_fragment))

sync_and_drain-overrun_example : sync_and_drain notes 0 working (line_of (replicate 140 0)) ≡ none
sync_and_drain-overrun_example =
    Sparse.sync_and_drain-overrun notes 0 working (line_of (replicate 140 0)) (replicate 140 0) refl
      refl refl (omega arith) (omega arith)

abbrev replaying : Loop notes
replaying = record working { synced = true }

drain-IsAccounted_example :
    (k : ℕ) × IsAccounted replaying
      (drain notes 0 replaying (replicate 40 1)).0
      (replicate 40 1)
      (drain notes 0 replaying (replicate 40 1)).1
      k
drain-IsAccounted_example =
    Accounts.drain-IsAccounted notes 0 replaying (replicate 40 1)
      record { short = omega arith; run = omega arith; ready = λ y. refl }

passes-loop_start_example : IsBetween (record working {
  synced = true;
  frame = 1 ∷ [];
  sync = record working.sync { sync_quiet = 1 };
})
unfolding pass wants_work push_work sync_and_drain find_frame frame_sync gather drain loop_start
    worksrc_pack_item take_byte
passes-loop_start_example =
    Reached.passes-loop_start notes 0 []
      (record working {
        synced = true;
        frame = 1 ∷ [];
        sync = record working.sync { sync_quiet = 1 };
      })
      ((5, line_of []) ∷ []) refl
