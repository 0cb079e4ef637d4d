-- ===== src/Mining.antt =====
-- miner/miner.c, the mining loop of `main`: the push of work, the search for a frame, the assembly of
-- frames and their verdicts. The work source is an interface; what the UART does is an argument of a
-- pass.
pub mod Assembled
pub mod Accounts
pub mod Sparse
pub mod Reached
pub mod Lifted
use osprey_blake2b.Base.{
  ℕ, zero, suc, ◌+◌, ◌-◌, ◌*◌, ◌/◌, ◌^◌, Bool, true, false, ◌&&◌, ◌||◌, not, List, [], ◌∷◌, ◌++◌,
  Option, none, some, if◌then◌else◌, ltb, leb, ◌==◌, length, drop, u64,
}
use osprey_blake2b.WorkItem.{FpgaResult, parse_result}
use osprey_blake2b.Worksrc.{WorkCtx, worksrc_pack_item}
use osprey_blake2b.Gbt.{Candidate, bad, reproduces, solution}
use osprey_blake2b.FrameSync.{SyncCounts, frame_sync, result_len}

-- The operations of `worksrc_t` over the state of a source. A `poll` that is NULL keeps the state.
pub record Source : Type 1 where
  pub State : Type 0
  pub poll : State → ℕ → State
  pub get_work : State → ℕ → State × Option WorkCtx
  pub on_candidate : State → WorkCtx → ℕ → ℕ → State × Candidate
  pub refresh_s : ℕ
  pub item_len : ℕ

-- The size of the array `syncbuf`.
abbrev pub syncbuf_size : ℕ
syncbuf_size = 136

-- `memset(&ctx, 0, sizeof ctx)`; a part of a cleared context is read by no source.
abbrev pub no_work : WorkCtx
no_work = record { ss3 = []; ss4 = []; target_top64 = 0; valid = false }

-- What the UART does in a pass: whether `uart_write` returns 0, the polls of the three loops of
-- `frame_sync`, and the bytes that `uart_get_nb` gives until there are none.
pub record Line : Type 0 where
  pub written : Bool
  pub polls : List (Option ℕ)
  pub skip_polls : List (Option ℕ)
  pub read_polls : List (Option ℕ)
  pub arriving : List ℕ

module _ (S : Source) where
  -- The variables of the loop, the counters of the status that it moves, and the state of the source.
  -- `frame` is the first `got` bytes of the array. The texts and times for status.json are left out.
  pub record Loop : Type 0 where
    pub source : S.State
    pub ctx : WorkCtx
    pub frame : List ℕ
    pub synced : Bool
    pub bad_run : ℕ
    pub have_work : Bool
    pub last_template : ℕ
    pub items_sent : ℕ
    pub frames_ok : ℕ
    pub frames_bad : ℕ
    pub candidates_verified : ℕ
    pub sync : SyncCounts

  unfoldable pub loop_start : S.State → Loop
  loop_start source = record {
    source = source;
    ctx = no_work;
    frame = [];
    synced = false;
    bad_run = 0;
    have_work = false;
    last_template = 0;
    items_sent = 0;
    frames_ok = 0;
    frames_bad = 0;
    candidates_verified = 0;
    sync = record { sync_gap = 0; sync_quiet = 0; sync_failed = 0; sync_locked = 0 };
  }

  -- A frame that does not parse; three in a row lose the alignment.
  unfoldable pub unparsed : Loop → Loop
  unparsed l =
      let lost = leb 3 (l.bad_run + 1) in
      record l {
        frames_bad = u64 (l.frames_bad + 1);
        bad_run = if lost then 0 else l.bad_run + 1;
        synced = if lost then false else l.synced;
      }

  unfoldable pub judged : Loop → S.State × Candidate → Loop
  judged l (source, bad) = record l { source = source; frames_bad = u64 (l.frames_bad + 1) }
  judged l (source, reproduces) = record l {
    source = source;
    candidates_verified = u64 (l.candidates_verified + 1);
  }
  judged l (source, solution submits) = record l {
    source = source;
    candidates_verified = u64 (l.candidates_verified + 1);
  }

  unfoldable pub parsed : ℕ → Loop → FpgaResult → Loop
  parsed nonce_offset l r =
      let m : Loop = record l { bad_run = 0; frames_ok = u64 (l.frames_ok + 1) } in
      judged m (S.on_candidate l.source l.ctx (u64 (r.nonce + nonce_offset)) r.hash_top64)

  -- A whole frame; `got` is 0 again.
  unfoldable pub whole_frame : ℕ → Loop → List ℕ → Loop
  whole_frame nonce_offset l frame =
      let r = parse_result frame in
      let m : Loop = record l { frame = [] } in
      if r.success then parsed nonce_offset m r else unparsed m

  unfoldable pub take_byte : ℕ → Loop → ℕ → Loop
  take_byte nonce_offset l b =
      let more = l.frame ++ (b ∷ []) in
      if length more == result_len
      then whole_frame nonce_offset l more
      else record l { frame = more }

  -- The draining loop over the bytes that can be had, and those that are left when the alignment is
  -- lost.
  unfoldable pub drain : ℕ → Loop → List ℕ → Loop × List ℕ
  drain nonce_offset l [] = (l, [])
  drain nonce_offset l (b ∷ bytes) = elim l.synced [
    | false ↦ (l, b ∷ bytes)
    | true ↦ drain nonce_offset (take_byte nonce_offset l b) bytes
  ]

  -- A push of work, and whether the pass goes on behind it.
  unfoldable pub push_work : Loop → ℕ → Bool → Loop × Bool
  push_work l t written =
      let w = S.get_work l.source t in
      let m : Loop = record l { source = w.0; last_template = t } in
      elim w.1 [
        | none ↦ (m, true)
        | some next ↦
            if (worksrc_pack_item next S.item_len).0 == 0
            then (m, false)
            else if written
            then (
              record m {
                ctx = next;
                items_sent = u64 (m.items_sent + 1);
                have_work = true;
                frame = [];
                synced = false;
              },
              true,
            )
            else (m, true)
      ]

  unfoldable pub wants_work : Loop → ℕ → Bool
  wants_work l t = not l.have_work || leb S.refresh_s (u64 (t + 2 ^ 64 - l.last_template))

  -- The search for a frame, and the bytes to replay: whole frames, counted from the end. None is a
  -- write behind the end of `syncbuf`.
  unfoldable pub find_frame : Loop → Line → Option (Loop × List ℕ)
  find_frame l line =
      let r = frame_sync l.sync true true line.polls line.skip_polls line.read_polls in
      let m : Loop = record l { frame = []; sync = r.0 } in
      elim r.1 [
        | none ↦ some (m, [])
        | some syncbuf ↦
            if ltb syncbuf_size (length syncbuf)
            then none
            else some (
              record m { synced = true },
              drop (length syncbuf - length syncbuf / result_len * result_len) syncbuf,
            )
      ]

  unfoldable pub sync_and_drain : ℕ → Loop → Line → Option Loop
  sync_and_drain nonce_offset l line =
      if not l.synced && l.have_work
      then elim (find_frame l line) [
        | none ↦ none
        | some r ↦ some (drain nonce_offset r.0 (r.1 ++ line.arriving)).0
      ]
      else some (drain nonce_offset l line.arriving).0

  -- One pass of the loop; none is a write behind the end of `syncbuf`.
  unfoldable pub pass : ℕ → Loop → ℕ → Line → Option Loop
  pass nonce_offset l0 t line =
      let l : Loop = record l0 { source = S.poll l0.source t } in
      let p = push_work l t line.written in
      if wants_work l t
      then (if p.1 then sync_and_drain nonce_offset p.0 line else some p.0)
      else sync_and_drain nonce_offset l line
