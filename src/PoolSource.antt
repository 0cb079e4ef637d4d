-- ===== src/PoolSource.antt =====
-- miner/worksrc_stratum.c: work from a pool's job, and the verdict on a candidate. The two
-- sessions and the developer-fee counters are part of the state.
pub mod Sessions
pub mod Verdict
pub mod Fee
pub mod Rolled
pub mod Built
use osprey_blake2b.Base.{
  ℕ, zero, suc, ◌+◌, ◌-◌, ◌*◌, ◌/◌, ◌%◌, ◌^◌, bit_and, Bool, true, false, ◌&&◌, ◌||◌, not, List, [],
  ◌∷◌, Option, none, some, if◌then◌else◌, ltb, leb, ◌==◌, u8, u64, shr, set, take, replicate,
  length,
}
use osprey_blake2b.Base.Bytes.{store_le}
use osprey_blake2b.WorkItem.{stage3_len, stage4_len, work_item_len}
use osprey_blake2b.Base.Text.{codes}
use osprey_blake2b.WorkItem.Target.{hash_meets_target}
use osprey_blake2b.Worksrc.{WorkCtx, same_name}
use osprey_blake2b.Devfee.{DevfeeState, devfee_pool_epoch, devfee_pool_skip, devfee_pool_credit}
use osprey_blake2b.Stratum.Job.{StratumJob, stratum_max_en2}
use osprey_blake2b.Stratum.Session.{Session, en1, stratum_ready, stratum_submit, SubmitLine}
use osprey_blake2b.Stratum.Target.{stratum_target_full, stratum_target_top64}
use osprey_blake2b.SiaStratum.{
  sia_build_header, sia_build_stages, sia_expected_top64, sia_pow_compare, sia_chain_expected_top64,
  sia_chain_pow_compare,
}
use osprey_blake2b.Gbt.{Candidate, bad, reproduces, solution}

pub data Chain : Type 0 where
  knots : Chain
  sia : Chain

-- `g_cur`: what the current work was built from. The session it points to is told by `is_dev`.
pub record Current : Type 0 where
  pub job_id : List ℕ
  pub en2 : List ℕ
  pub ntime : List ℕ
  pub target : List ℕ
  pub job_seq : ℕ
  pub is_dev : Bool
  pub valid : Bool

-- The statics of the file, with those of devfee.c.
pub record PoolState : Type 0 where
  pub chain : Chain
  pub main : Session
  pub dev : Session
  pub dev_configured : Bool
  pub cur : Current
  pub en2_counter : ℕ
  pub last_prevhash : List ℕ
  pub have_pushed : Bool
  pub last_push_at : ℕ
  pub fee : DevfeeState

-- `en2[en2_len - 1 - i] = c >> (8 * i)`, from byte `i` on with `n` bytes left of the 8.
unfoldable pub roll_en2 : ℕ → ℕ → ℕ → ℕ → List ℕ → List ℕ
roll_en2 c en2_len i zero en2 = en2
roll_en2 c en2_len i (suc n) en2 =
    roll_en2 c en2_len (i + 1) n
      (if ltb i en2_len then set en2 (en2_len - 1 - i) (u8 (bit_and (shr c (8 * i)) 0xff)) else en2)

unfoldable pub make_en2 : ℕ → ℕ → List ℕ
make_en2 c en2_len = roll_en2 c en2_len 0 8 (replicate en2_len 0)

-- The two messages of the chain; `none` is a job that cannot be mined on it. What a refused job
-- leaves in the context's arrays is not modelled.
unfoldable pub chain_messages : Chain → Session → List ℕ → Option (List ℕ × List ℕ)
chain_messages sia s en2 = elim (sia_build_header s.job (en1 s) en2) [
  | none ↦ none
  | some h ↦ some (replicate stage3_len 0, h.0)
]
chain_messages knots s en2 = elim (sia_build_stages s.job (en1 s) en2) [
  | none ↦ none
  | some m ↦ if not (length s.job.branches == 0) then none else some (m.0, m.1)
]

-- The new state, and the context if the job can be mined. The counter moves on either way, once
-- the size of the extranonce is accepted.
unfoldable pub build_from : PoolState → Session → Bool → PoolState × Option WorkCtx
build_from p s is_dev =
    let en2_len = if s.en2_size == 0 then 8 else s.en2_size in
    let c = u64 (p.en2_counter + 1) in
    let en2 = make_en2 c en2_len in
    if ltb stratum_max_en2 en2_len then (p, none) else elim (chain_messages p.chain s en2) [
      | none ↦ (record p { en2_counter = c }, none)
      | some m ↦ (
        record p {
          en2_counter = c;
          cur = record {
            job_id = s.job.job_id;
            en2 = en2;
            ntime = take 8 s.job.ntime;
            target = stratum_target_full s.dscaled;
            job_seq = s.job.seq;
            is_dev = is_dev;
            valid = true;
          };
        },
        some (record {
          ss3 = m.0;
          ss4 = m.1;
          target_top64 = stratum_target_top64 s.dscaled;
          valid = true;
        }),
      )
    ]

abbrev pub push_max_age_s : ℕ
push_max_age_s = 30

-- Whether a push is worth its cost; the time since the last push wraps around.
unfoldable pub wants_push : PoolState → ℕ → Bool
wants_push p now =
    let new_block = not p.have_pushed || not (same_name p.last_prevhash p.main.job.prevhash) in
    let stale = p.have_pushed && leb push_max_age_s (u64 (now + 2 ^ 64 - p.last_push_at)) in
    new_block || stale

unfoldable pub remember_push : PoolState → ℕ → PoolState
remember_push p now = record p {
  last_prevhash = take 32 p.main.job.prevhash;
  have_pushed = true;
  last_push_at = now;
}

-- The last part of `st_get_work`: work from the operator's session.
unfoldable pub main_work : PoolState → ℕ → PoolState × Option WorkCtx
main_work p now =
    let b = build_from p p.main false in
    elim b.1 [ none ↦ (b.0, none) | some ctx ↦ (remember_push b.0 now, some ctx) ]

-- The part under `if (want_dev)`: work from the developer's session, or the skip.
unfoldable pub dev_work : PoolState → ℕ → PoolState × Option WorkCtx
dev_work p now =
    let skip : PoolState → PoolState × Option WorkCtx =
      λ q. main_work (record q { fee = devfee_pool_skip q.fee }) now in
    let b = build_from p p.dev true in
    if p.dev_configured && stratum_ready p.dev
    then elim b.1 [ none ↦ skip b.0 | some ctx ↦ (remember_push b.0 now, some ctx) ]
    else skip p

unfoldable pub st_get_work : PoolState → ℕ → PoolState × Option WorkCtx
st_get_work p now =
    let e = devfee_pool_epoch p.fee in
    let q = record p { fee = e.0 } in
    if not (stratum_ready p.main)
    then (p, none)
    else if not (wants_push p now)
    then (p, none)
    else if e.1
    then dev_work q now
    else main_work q now

unfoldable pub chain_expected : Chain → List ℕ → ℕ → ℕ
chain_expected sia ss4 nonce = sia_chain_expected_top64 ss4 nonce
chain_expected knots ss4 nonce = sia_expected_top64 ss4 nonce

unfoldable pub chain_compare : Chain → List ℕ → ℕ → List ℕ
chain_compare sia ss4 nonce = sia_chain_pow_compare ss4 nonce
chain_compare knots ss4 nonce = sia_pow_compare ss4 nonce

-- The session that `g_cur.sess` points to, by `g_cur.is_dev`.
unfoldable pub session_of : Bool → PoolState → Session
session_of true p = p.dev
session_of false p = p.main

unfoldable pub put_session : Bool → PoolState → Session → PoolState
put_session true p s = record p { dev = s }
put_session false p s = record p { main = s }

-- The state behind a submission that gave this session and this line.
unfoldable pub after_submit : Bool → PoolState → Session × Option SubmitLine → PoolState × Candidate
after_submit is_dev p r = elim r.1 [
  | none ↦ (put_session is_dev p r.0, reproduces)
  | some line ↦ (
    if is_dev
        then record (put_session is_dev p r.0) { fee = devfee_pool_credit p.fee }
        else put_session is_dev p r.0,
    solution true,
  )
]

-- The submission at the end of `st_on_candidate`.
unfoldable pub submit_candidate : Bool → PoolState → ℕ → PoolState × Candidate
submit_candidate sent p nonce = after_submit p.cur.is_dev p (
    stratum_submit sent (session_of p.cur.is_dev p) p.cur.job_id p.cur.en2 p.cur.ntime
      (store_le 0 8 nonce))

-- A job that a clean one has replaced.
unfoldable pub is_stale : PoolState → Bool
is_stale p = let s = session_of p.cur.is_dev p in not (p.cur.job_seq == s.job.seq) && s.job.clean

unfoldable pub st_on_candidate : Bool → PoolState → WorkCtx → ℕ → ℕ → PoolState × Candidate
st_on_candidate sent p ctx nonce hash_top64 =
    let r = submit_candidate sent p nonce in
    if not (chain_expected p.chain ctx.ss4 nonce == hash_top64)
    then (p, bad)
    else if not (hash_meets_target (chain_compare p.chain ctx.ss4 nonce) p.cur.target)
    then (p, reproduces)
    else if not p.cur.valid
    then (p, reproduces)
    else if is_stale p
    then (p, reproduces)
    else r

-- What the two backends differ in, and how often the loop asks; the functions are those above.
pub record Backend : Type 0 where
  pub name : List ℕ
  pub refresh_s : ℕ
  pub item_len : ℕ

unfoldable pub g_backend_knots : Backend
g_backend_knots = record { name = codes "stratum"; refresh_s = 5; item_len = work_item_len }

unfoldable pub g_backend_sia : Backend
g_backend_sia = record { name = codes "sia"; refresh_s = 5; item_len = stage4_len + 8 }

unfoldable pub worksrc_stratum_backend : Chain → Backend
worksrc_stratum_backend sia = g_backend_sia
worksrc_stratum_backend knots = g_backend_knots
