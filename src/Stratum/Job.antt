-- ===== src/Stratum/Job.antt =====
-- miner/stratum.h: a job. An array with its length is a list; `nbranches` is the length of
-- `branches`.
use osprey_blake2b.Base.{ℕ, List, Bool}

abbrev pub stratum_max_branches : ℕ
stratum_max_branches = 32

abbrev pub stratum_max_cb : ℕ
stratum_max_cb = 512

abbrev pub stratum_max_en1 : ℕ
stratum_max_en1 = 32

abbrev pub stratum_max_en2 : ℕ
stratum_max_en2 = 32

pub record StratumJob : Type 0 where
  pub job_id : List ℕ
  pub prevhash : List ℕ
  pub coinb1 : List ℕ
  pub coinb2 : List ℕ
  pub branches : List (List ℕ)
  pub ntime : List ℕ
  pub nbits : ℕ
  pub clean : Bool
  pub seq : ℕ
