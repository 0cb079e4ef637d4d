-- ===== src/PoolSource/Sessions.antt =====
-- miner/worksrc_stratum.c: the start and the polling of both sessions, and the snapshot for
-- status.json without its texts. `atoi` is an argument, and so is what the polls meet.
use osprey_blake2b.Base.{
  ℕ, ◌+◌, Bool, true, false, ◌||◌, List, [], ◌∷◌, Option, none, some, if◌then◌else◌, ◌==◌, length,
  take, u64,
}
use osprey_blake2b.Base.Text.{codes}
use osprey_blake2b.Stratum.Floats.{Floats}
use osprey_blake2b.Stratum.Session.{Session, stratum_init}
use osprey_blake2b.Stratum.Link.{DialOutcome, Recv, stratum_poll}
use osprey_blake2b.PoolSource.{Chain, PoolState}

-- The texts around the last colon.
unfoldable pub last_colon : List ℕ → Option (List ℕ × List ℕ)
last_colon [] = none
last_colon (c ∷ p) = elim (last_colon p) [
  | some r ↦ some (c ∷ r.0, r.1)
  | none ↦ if c == b':' then some ([], p) else none
]

unfoldable pub password_or_x : List ℕ → List ℕ
password_or_x password = if length password == 0 then codes "x" else password

-- The session for the fee: the port stands behind the last colon of the pool, if there is one.
unfoldable pub dev_session : (List ℕ → ℕ) → ℕ → List ℕ → List ℕ → List ℕ → Session
dev_session atoi port devfee_pool devfee_worker devfee_password =
    elim (last_colon (take 191 devfee_pool)) [
      | none ↦
          stratum_init (take 191 devfee_pool) port devfee_worker (password_or_x devfee_password)
      | some r ↦ stratum_init r.0 (atoi r.1) devfee_worker (password_or_x devfee_password)
    ]

-- An argument that is NULL is an empty text.
unfoldable pub worksrc_stratum_configure :
    (List ℕ → ℕ)
    → Chain
    → List ℕ
    → ℕ
    → List ℕ
    → List ℕ
    → List ℕ
    → List ℕ
    → List ℕ
    → PoolState
    → PoolState
worksrc_stratum_configure atoi chain host port worker password devfee_pool devfee_worker
      devfee_password p =
    let q = record p {
      chain = chain;
      main = stratum_init host port worker (password_or_x password);
      dev_configured = false;
    } in
    if (length devfee_pool == 0) || (length devfee_worker == 0) then q else record q {
      dev = dev_session atoi port devfee_pool devfee_worker devfee_password;
      dev_configured = true;
    }

module _ (F : Floats) where
  -- `main_*` is what the main session meets, `dev_*` what the other one does.
  unfoldable pub st_poll :
      DialOutcome → List Recv → DialOutcome → List Recv → PoolState → ℕ → PoolState
  st_poll main_dial main_answers dev_dial dev_answers p now =
      let q = record p { main = stratum_poll F main_dial main_answers p.main now } in
      if p.dev_configured
      then record q { dev = stratum_poll F dev_dial dev_answers p.dev now }
      else q

pub record Status : Type 0 where
  pub connected : Bool
  pub subscribed : Bool
  pub authorized : Bool
  pub has_job : Bool
  pub dscaled : ℕ
  pub jobs_received : ℕ
  pub shares_submitted : ℕ
  pub shares_accepted : ℕ
  pub shares_rejected : ℕ
  pub reconnects : ℕ

unfoldable pub worksrc_stratum_status : PoolState → Status
worksrc_stratum_status p =
    let both = λ (main : ℕ) (dev : ℕ). u64 (main + (if p.dev_configured then dev else 0)) in
    record {
      connected = p.main.connected;
      subscribed = p.main.subscribed;
      authorized = p.main.authorized;
      has_job = p.main.have_job;
      dscaled = p.main.dscaled;
      jobs_received = p.main.jobs_received;
      shares_submitted = both p.main.shares_submitted p.dev.shares_submitted;
      shares_accepted = both p.main.shares_accepted p.dev.shares_accepted;
      shares_rejected = both p.main.shares_rejected p.dev.shares_rejected;
      reconnects = p.main.reconnects;
    }
