-- ===== src/Stratum/Session.antt =====
-- miner/stratum.c and stratum.h: the session's state, its start and the loss of its connection,
-- and the submission of a share. Whether the socket takes the line is an argument.
use osprey_blake2b.Base.{
  ℕ, ◌+◌, Bool, false, ◌&&◌, List, [], Option, none, some, if◌then◌else◌, u64, take, replicate,
}
use osprey_blake2b.Stratum.Job.{StratumJob}
use osprey_blake2b.Stratum.Json.{bin2hex}

-- `connected` is `fd >= 0`; `dscaled` stands for `difficulty` (see Stratum/Target); `rx` is the
-- first `rx_len` bytes of the buffer; a text is what stands before its NUL, but `reconnect_host`
-- is its whole buffer. The texts for the log and for status.json are left out.
pub record Session : Type 0 where
  pub host : List ℕ
  pub addr : List ℕ
  pub port : ℕ
  pub worker : List ℕ
  pub password : List ℕ
  pub connected : Bool
  pub rx : List ℕ
  pub extranonce1 : List ℕ
  pub en1_len : ℕ
  pub en2_size : ℕ
  pub dscaled : ℕ
  pub job : StratumJob
  pub have_job : Bool
  pub subscribed : Bool
  pub authorized : Bool
  pub next_id : ℕ
  pub sub_id : ℕ
  pub auth_id : ℕ
  pub suggest_diff_id : ℕ
  pub backoff_s : ℕ
  pub retry_at : ℕ
  pub reconnect_host : List ℕ
  pub reconnect_port : ℕ
  pub reconnect_pending : Bool
  pub jobs_received : ℕ
  pub shares_submitted : ℕ
  pub shares_accepted : ℕ
  pub shares_rejected : ℕ
  pub reconnects : ℕ

-- The job of a session that has none: `memset`.
abbrev pub no_job : StratumJob
no_job = record {
  job_id = [];
  prevhash = replicate 32 0;
  coinb1 = [];
  coinb2 = [];
  branches = [];
  ntime = replicate 8 0;
  nbits = 0;
  clean = false;
  seq = 0;
}

-- `difficulty = 1.0` is 2 ^ 32 after the conversion.
unfoldable pub stratum_init : List ℕ → ℕ → List ℕ → List ℕ → Session
stratum_init host port worker password = record {
  host = take 191 host;
  addr = [];
  port = port;
  worker = take 159 worker;
  password = take 159 password;
  connected = false;
  rx = [];
  extranonce1 = replicate 32 0;
  en1_len = 0;
  en2_size = 8;
  dscaled = 0x100000000;
  job = no_job;
  have_job = false;
  subscribed = false;
  authorized = false;
  next_id = 0;
  sub_id = 0;
  auth_id = 0;
  suggest_diff_id = 0;
  backoff_s = 0;
  retry_at = 0;
  reconnect_host = replicate 128 0;
  reconnect_port = 0;
  reconnect_pending = false;
  jobs_received = 0;
  shares_submitted = 0;
  shares_accepted = 0;
  shares_rejected = 0;
  reconnects = 0;
}

-- The bytes of extranonce1 that count.
abbrev pub en1 : Session → List ℕ
en1 s = take s.en1_len s.extranonce1

unfoldable pub stratum_ready : Session → Bool
stratum_ready s = s.connected && (s.subscribed && (s.authorized && s.have_job))

-- `drop`: a connection is lost or given up.
unfoldable pub drop_session : Session → Session
drop_session s = record s {
  connected = false;
  subscribed = false;
  authorized = false;
  have_job = false;
  rx = [];
}

-- What the line of a submission is formatted from.
pub record SubmitLine : Type 0 where
  pub id : ℕ
  pub worker : List ℕ
  pub job_id : List ℕ
  pub en2h : List ℕ
  pub nth : List ℕ
  pub noh : List ℕ

-- The session behind the submission and the line that was sent; `none` is -1.
unfoldable pub stratum_submit :
    Bool → Session → List ℕ → List ℕ → List ℕ → List ℕ → Session × Option SubmitLine
stratum_submit sent s job_id en2 ntime nonce =
    let id = u64 (s.next_id + 1) in
    let line : SubmitLine = record {
      id = id;
      worker = s.worker;
      job_id = job_id;
      en2h = bin2hex en2;
      nth = bin2hex (take 8 ntime);
      noh = bin2hex (take 8 nonce);
    } in
    if s.connected
    then (if sent
        then (record s { next_id = id; shares_submitted = u64 (s.shares_submitted + 1) }, some line)
        else (drop_session (record s { next_id = id }), none))
    else (s, none)
