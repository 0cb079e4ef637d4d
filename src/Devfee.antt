-- ===== src/Devfee.antt =====
-- miner/devfee.c: one template, and one pool job, in twenty for the developer.
pub mod Accounts
use osprey_blake2b.Base.{
  ℕ, ◌+◌, ◌%◌, Bool, true, false, List, Option, none, some, if◌then◌else◌, ◌==◌, u64,
}
use osprey_blake2b.Base.Text.{codes}

abbrev pub devfee_interval : ℕ
devfee_interval = 20

abbrev pub devfee_address : List ℕ
devfee_address = codes "bc1qztsz84mn408vfklya05sgf8v4j2wtfrscszene"

-- The static counters of the file.
pub record DevfeeState : Type 0 where
  pub total : ℕ
  pub dev : ℕ
  pub current_is_dev : Bool
  pub pool_jobs : ℕ
  pub pool_dev_jobs : ℕ
  pub pool_skipped : ℕ
  pub pool_shares : ℕ

unfoldable pub devfee_reset : DevfeeState
devfee_reset = record {
  total = 0;
  dev = 0;
  current_is_dev = false;
  pool_jobs = 0;
  pool_dev_jobs = 0;
  pool_skipped = 0;
  pool_shares = 0;
}

unfoldable pub devfee_next_payout : DevfeeState → Option (List ℕ) → DevfeeState × List ℕ
devfee_next_payout s user_address =
    let total = u64 (s.total + 1) in
    if total % devfee_interval == 0
    then (record s { total = total; dev = u64 (s.dev + 1); current_is_dev = true }, devfee_address)
    else (
      record s { total = total; current_is_dev = false },
      elim user_address [ none ↦ devfee_address | some a ↦ a ],
    )

unfoldable pub devfee_pool_epoch : DevfeeState → DevfeeState × Bool
devfee_pool_epoch s =
    let jobs = u64 (s.pool_jobs + 1) in
    if jobs % devfee_interval == 0
    then (record s { pool_jobs = jobs; pool_dev_jobs = u64 (s.pool_dev_jobs + 1) }, true)
    else (record s { pool_jobs = jobs }, false)

unfoldable pub devfee_pool_skip : DevfeeState → DevfeeState
devfee_pool_skip s = record s { pool_skipped = u64 (s.pool_skipped + 1) }

unfoldable pub devfee_pool_credit : DevfeeState → DevfeeState
devfee_pool_credit s = record s { pool_shares = u64 (s.pool_shares + 1) }
