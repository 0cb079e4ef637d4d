-- ===== src/Options.antt =====
-- miner/miner.c, `main`: the command line and the choice of the work source. A text is the list of
-- its bytes up to its NUL, and `getenv` is an argument.
pub mod Dry
pub mod Silent
pub mod Offline
pub mod Chosen
use osprey_blake2b.Base.{
  ℕ, zero, suc, ◌+◌, ◌-◌, ◌*◌, ◌^◌, Bool, true, false, ◌&&◌, ◌||◌, not, List, [], ◌∷◌, ◌++◌, Option,
  none, some, if◌then◌else◌, ◌==◌, u32, length, take,
}
use osprey_blake2b.Base.Text.{codes}
use osprey_blake2b.WorkItem.{knots_header_init, build_work_item, Result, ok, err}
use osprey_blake2b.WorkItem.Target.{target_top64_from_bits}
use osprey_blake2b.Worksrc.{same_name, worksrc_register, worksrc_find}
use osprey_blake2b.PoolSource.{Chain, knots, sia, worksrc_stratum_backend}
use osprey_blake2b.Rpc.{skip_space, decimal}
use osprey_blake2b.Rpc.Hex.{hex_text}

-- `cfg`, with the local variable `selftest`. A number of type int is its bit pattern.
pub record Config : Type 0 where
  pub uart_dev : List ℕ
  pub status_path : List ℕ
  pub log_path : List ℕ
  pub rpc_host : List ℕ
  pub rpc_port : ℕ
  pub rpc_user : Option (List ℕ)
  pub rpc_pass : Option (List ℕ)
  pub target_shift : ℕ
  pub dry_run : Bool
  pub synthetic : Bool
  pub payout_address : Option (List ℕ)
  pub submit_test : Bool
  pub stratum_probe : Bool
  pub stratum_host : Option (List ℕ)
  pub stratum_port : ℕ
  pub worker : Option (List ℕ)
  pub pool_pass : Option (List ℕ)
  pub devfee_pool : Option (List ℕ)
  pub devfee_worker : Option (List ℕ)
  pub devfee_pass : Option (List ℕ)
  pub chain : Chain
  pub selftest : Option (List ℕ)

-- The initial values; the chain is that of the build.
unfoldable pub default_config : Chain → Config
default_config chain = record {
  uart_dev = codes "/dev/uio8";
  status_path = codes "/var/www/html/blake2b/status.json";
  log_path = codes "/var/www/html/blake2b/miner.log";
  rpc_host = codes "127.0.0.1";
  rpc_port = 4001;
  rpc_user = none;
  rpc_pass = none;
  target_shift = 22;
  dry_run = true;
  synthetic = false;
  payout_address = none;
  submit_test = false;
  stratum_probe = false;
  stratum_host = none;
  stratum_port = 0;
  worker = none;
  pool_pass = none;
  devfee_pool = none;
  devfee_worker = none;
  devfee_pass = none;
  chain = chain;
  selftest = none;
}

-- `atoi` with a `long` of 32 bits.
unfoldable pub atoi : List ℕ → ℕ
atoi s = elim (skip_space s) [
  | [] ↦ 0
  | c ∷ t ↦
      if c == b'-'
      then u32 (2 ^ 32 - decimal (2 ^ 31) 0 t)
      else decimal (2 ^ 31 - 1) 0 (if c == b'+' then t else c ∷ t)
]

-- The text before the last of a character, `strrchr`, and the text behind it.
unfoldable pub split_last : ℕ → List ℕ → Option (List ℕ × List ℕ)
split_last c [] = none
split_last c (d ∷ s) = elim (split_last c s) [
  | some p ↦ some (d ∷ p.0, p.1)
  | none ↦ if d == c then some ([], s) else none
]

-- What an option does: the configuration goes on, or the program ends with a code and an output.
pub data Outcome : Type 0 where
  goes : Config → Outcome
  exits : ℕ → List ℕ → Outcome

-- `--stratum`: the text is cut to the 191 characters of `hostbuf`.
unfoldable pub set_stratum : Config → List ℕ → Outcome
set_stratum cfg v = elim (split_last b':' (take 191 v)) [
  | none ↦ exits 2 []
  | some p ↦
      if length p.1 == 0
      then exits 2 []
      else goes (record cfg { stratum_host = some p.0; stratum_port = atoi p.1 })
]

unfoldable pub set_algo : Config → List ℕ → Outcome
set_algo cfg a =
    if same_name a (codes "sia")
    then goes (record cfg { chain = sia })
    else if same_name a (codes "knots") || same_name a (codes "blake2b")
    then goes (record cfg { chain = knots })
    else exits 2 []

-- A password from the environment; a variable that is not there or empty changes nothing.
unfoldable pub from_env : Option (List ℕ) → Option (List ℕ) → Option (List ℕ)
from_env none old = old
from_env (some v) old = if length v == 0 then old else some v

-- `--dump-item`: the item in hexadecimal, or a failure.
unfoldable pub dumped : Result (List ℕ) → Outcome
dumped (err e) = exits 1 []
dumped (ok di) = exits 0 (hex_text di ++ (10 ∷ []))

unfoldable pub dump_item : Outcome
unfolding knots_header_init
dump_item = dumped (
    build_work_item (record knots_header_init { n_bits = 0x1903c2d4; m_height = 969859 })
      (target_top64_from_bits 0x1903c2d4 22))

-- The options that take the next argument, in the order of the source.
unfoldable pub with_value : (List ℕ → Option (List ℕ)) → Config → List ℕ → List (List ℕ × Outcome)
with_value getenv cfg v =
    (codes "--uart", goes (record cfg { uart_dev = v }))
    ∷ (codes "--rpc-host", goes (record cfg { rpc_host = v }))
    ∷ (codes "--rpc-port", goes (record cfg { rpc_port = atoi v }))
    ∷ (codes "--rpc-user", goes (record cfg { rpc_user = some v }))
    ∷ (codes "--rpc-pass", goes (record cfg { rpc_pass = some v }))
    ∷ (codes "--rpc-pass-env", goes (record cfg { rpc_pass = from_env (getenv v) cfg.rpc_pass }))
    ∷ (codes "--target-shift", goes (record cfg { target_shift = atoi v }))
    ∷ (codes "--status", goes (record cfg { status_path = v }))
    ∷ (codes "--log", goes (record cfg { log_path = v }))
    ∷ (codes "--payout-address", goes (record cfg { payout_address = some v }))
    ∷ (codes "--selftest", goes (record cfg { selftest = some v }))
    ∷ (codes "--stratum", set_stratum cfg v)
    ∷ (codes "--worker", goes (record cfg { worker = some v }))
    ∷ (codes "--pool-pass", goes (record cfg { pool_pass = some v }))
    ∷ (codes "--pool-pass-env", goes (record cfg { pool_pass = from_env (getenv v) cfg.pool_pass }))
    ∷ (codes "--devfee-pool", goes (record cfg { devfee_pool = some v }))
    ∷ (codes "--devfee-worker", goes (record cfg { devfee_worker = some v }))
    ∷ (codes "--devfee-pass", goes (record cfg { devfee_pass = some v }))
    ∷ (codes "--algo", set_algo cfg v)
    ∷ []

-- The options that stand alone.
unfoldable pub alone : Config → List (List ℕ × Outcome)
alone cfg =
    (codes "--submit", goes (record cfg { dry_run = false }))
    ∷ (codes "--synthetic-work", goes (record cfg { synthetic = true }))
    ∷ (codes "--submit-test", goes (record cfg { submit_test = true }))
    ∷ (codes "--stratum-probe", goes (record cfg { stratum_probe = true }))
    ∷ (codes "--dump-item", dump_item)
    ∷ []

-- The chain of comparisons.
unfoldable pub option_of : List (List ℕ × Outcome) → List ℕ → Option Outcome
option_of [] a = none
option_of ((name, o) ∷ options) a =
    let rest = option_of options a in if same_name a name then some o else rest

-- An argument that is no option ends the program with the usage.
unfoldable pub one_alone : Config → List ℕ → Outcome
one_alone cfg a = elim (option_of (alone cfg) a) [ none ↦ exits 2 [] | some o ↦ o ]

-- The loop over the arguments behind the name of the program.
unfoldable pub parse_args : (List ℕ → Option (List ℕ)) → Config → List (List ℕ) → Outcome
parse_args getenv cfg [] = goes cfg
parse_args getenv cfg (a ∷ []) = one_alone cfg a
parse_args getenv cfg (a ∷ (v ∷ args)) = elim (option_of (with_value getenv cfg v) a) [
  | some o ↦ elim o [ exits code out ↦ exits code out | goes next ↦ parse_args getenv next args ]
  | none ↦ elim (one_alone cfg a) [
    | exits code out ↦ exits code out
    | goes next ↦ parse_args getenv next (v ∷ args)
  ]
]

-- The registry with the sources that a configuration registers; a source is its name here.
unfoldable pub registered : Config → List (List ℕ × List ℕ)
registered cfg =
    let solo =
      worksrc_register (worksrc_register [] (codes "gbt", codes "gbt"))
        (codes "synthetic", codes "synthetic") in
    let backend = (worksrc_stratum_backend cfg.chain).name in
    elim cfg.stratum_host [ none ↦ solo | some host ↦ worksrc_register solo (backend, backend) ]

-- The name that is looked for.
unfoldable pub wanted : Config → List ℕ
wanted cfg = elim cfg.stratum_host [
  | none ↦ if cfg.synthetic then codes "synthetic" else codes "gbt"
  | some host ↦ (worksrc_stratum_backend cfg.chain).name
]

-- `g_src`; none ends the program.
unfoldable pub choose_source : Config → Option (List ℕ)
choose_source cfg = worksrc_find (registered cfg) (wanted cfg)
