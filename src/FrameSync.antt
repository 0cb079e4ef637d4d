-- ===== src/FrameSync.antt =====
-- miner/miner.c, `frame_sync`: the search for the start of a reply frame in the bytes of the UART.
-- What the polls of the UART give before each deadline is an argument: a byte, or none.
pub mod Locked
pub mod Gap
use osprey_blake2b.Base.{
  ℕ, zero, suc, ◌+◌, ◌-◌, ◌*◌, ◌/◌, ◌%◌, Bool, true, false, ◌&&◌, ◌||◌, not, List, [], ◌∷◌, ◌++◌,
  Option, none, some, if◌then◌else◌, ltb, leb, ◌==◌, length, get_or, set, replicate, u64,
}

abbrev pub nsync : ℕ
nsync = 512

abbrev pub result_len : ℕ
result_len = 17

-- The counters of the status that `frame_sync` moves.
pub record SyncCounts : Type 0 where
  pub sync_gap : ℕ
  pub sync_quiet : ℕ
  pub sync_failed : ℕ
  pub sync_locked : ℕ

-- How the gathering ends: at a gap, on a quiet line, or full or out of time.
pub data Gathered : Type 0 where
  gap : List ℕ → Gathered
  quiet : Gathered
  burst : List ℕ → Gathered

-- The first loop, over the polls until the deadline; `idle_us` and `got` are as in the source.
unfoldable pub gather : Bool → ℕ → List ℕ → List (Option ℕ) → Gathered
gather quiet_ok idle_us got [] = burst got
gather quiet_ok idle_us got (some b ∷ polls) =
    let more = if ltb (length got) nsync then got ++ (b ∷ []) else got in
    let next = gather quiet_ok 0 more polls in if leb nsync (length more) then burst more else next
gather quiet_ok idle_us got (none ∷ polls) =
    let next = gather quiet_ok (idle_us + 200) got polls in
    if leb 3000 (idle_us + 200) && ltb 0 (length got)
    then gap got
    else if leb 3000 (idle_us + 200) && ((length got == 0) && quiet_ok)
    then quiet
    else if leb nsync (length got)
    then burst got
    else next

-- `if (buf[i] == 0x01) bucket[i % RESULT_LEN]++`, from index `i` on.
unfoldable pub count_flags : ℕ → List ℕ → List ℕ → List ℕ
count_flags i [] bucket = bucket
count_flags i (b ∷ buf) bucket =
    count_flags (i + 1) buf (
      if b == 1 then set bucket (i % result_len) (get_or bucket (i % result_len) 0 + 1) else bucket)

-- The loop for the fullest bucket, from `i` on with `n` left.
unfoldable pub best_from : List ℕ → ℕ → ℕ → ℕ → ℕ
best_from bucket i zero best = best
best_from bucket i (suc n) best =
    best_from bucket (i + 1) n (if ltb (get_or bucket best 0) (get_or bucket i 0) then i else best)

-- The dominant residue of a burst, and the bytes to skip; none where there is no lock.
unfoldable pub lock : List ℕ → Option (ℕ × ℕ)
lock buf =
    let bucket = count_flags 0 buf (replicate result_len 0) in
    let best = best_from bucket 1 16 0 in
    let frames = length buf / result_len in
    if ltb (length buf) (result_len * 4)
    then none
    else if ltb (get_or bucket best 0 * 2) frames
    then none
    else some (best, (best + result_len - length buf % result_len) % result_len)

-- The loop that skips; `false` where the polls are over before it is done.
unfoldable pub skip_loop : ℕ → List (Option ℕ) → Bool
skip_loop zero polls = true
skip_loop (suc skip) [] = false
skip_loop (suc skip) (some b ∷ polls) = skip_loop skip polls
skip_loop (suc skip) (none ∷ polls) = skip_loop (suc skip) polls

-- The loop that reads up to `n` bytes.
unfoldable pub read_loop : ℕ → List (Option ℕ) → List ℕ
read_loop zero polls = []
read_loop (suc n) [] = []
read_loop (suc n) (some b ∷ polls) = b ∷ read_loop n polls
read_loop (suc n) (none ∷ polls) = read_loop (suc n) polls

-- The three lists are the polls of the three loops; the bytes are those that are handed back where
-- the caller wants them, and none is -1.
unfoldable pub frame_sync :
    SyncCounts
    → Bool
    → Bool
    → List (Option ℕ)
    → List (Option ℕ)
    → List (Option ℕ)
    → SyncCounts × Option (List ℕ)
frame_sync st quiet_ok wants_bytes polls skip_polls read_polls = elim (gather quiet_ok 0 [] polls) [
  | gap buf ↦
      (record st { sync_gap = u64 (st.sync_gap + 1) }, some (if wants_bytes then buf else []))
  | quiet ↦ (record st { sync_quiet = u64 (st.sync_quiet + 1) }, some [])
  | burst buf ↦ elim (lock buf) [
    | none ↦ (record st { sync_failed = u64 (st.sync_failed + 1) }, none)
    | some l ↦
        if skip_loop l.1 skip_polls
        then (
          record st { sync_locked = u64 (st.sync_locked + 1) },
          some (if wants_bytes then read_loop (result_len * 8) read_polls else []),
        )
        else (st, none)
  ]
]
