-- ===== src/Devfee/Accounts.antt =====
-- miner/devfee.c, the counters over any sequence of calls.
use osprey_blake2b.Base.{
  ℕ, suc, ◌+◌, ◌/◌, ◌%◌, ◌^◌, ◌≤◌, ◌<◌, ◌≡◌, ◌≢◌, refl, arith, true, false, List, [], ◌∷◌, length,
  Option, some, ◌==◌, u64, Bool-cases, inl, inr, ==_iff, eq→==, ne→==-false,
}
use osprey_blake2b.Devfee.{
  DevfeeState, devfee_interval, devfee_address, devfee_reset, devfee_next_payout, devfee_pool_epoch,
  devfee_pool_skip, devfee_pool_credit,
}

pub data Call : Type 0 where
  next_payout : Option (List ℕ) → Call
  pool_epoch : Call
  pool_skip : Call
  pool_credit : Call

unfoldable pub step : DevfeeState → Call → DevfeeState
step s (next_payout user) = (devfee_next_payout s user).0
step s pool_epoch = (devfee_pool_epoch s).0
step s pool_skip = devfee_pool_skip s
step s pool_credit = devfee_pool_credit s

unfoldable pub run : DevfeeState → List Call → DevfeeState
run s [] = s
run s (c ∷ calls) = run (step s c) calls

-- How many calls of each kind a sequence holds.
pub record Tally : Type 0 where
  pub payouts : ℕ
  pub epochs : ℕ
  pub skips : ℕ
  pub credits : ℕ

unfoldable pub count_call : Call → Tally → Tally
count_call (next_payout user) t = record t { payouts = t.payouts + 1 }
count_call pool_epoch t = record t { epochs = t.epochs + 1 }
count_call pool_skip t = record t { skips = t.skips + 1 }
count_call pool_credit t = record t { credits = t.credits + 1 }

unfoldable pub tally_from : Tally → List Call → Tally
tally_from t [] = t
tally_from t (c ∷ calls) = tally_from (count_call c t) calls

unfoldable pub tally : List Call → Tally
tally = tally_from (record { payouts = 0; epochs = 0; skips = 0; credits = 0 })

-- The counters are the numbers of calls, and a twentieth of them is the developer's.
pub record Accounts (t : Tally) (s : DevfeeState) : Type 0 where
  pub total : s.total ≡ t.payouts
  pub dev : s.dev ≡ t.payouts / 20
  pub pool_jobs : s.pool_jobs ≡ t.epochs
  pub pool_dev_jobs : s.pool_dev_jobs ≡ t.epochs / 20
  pub pool_skipped : s.pool_skipped ≡ t.skips
  pub pool_shares : s.pool_shares ≡ t.credits

-- No counter has come near 2 ^ 64.
record Room (t : Tally) (n : ℕ) : Type 0 where
  payouts : t.payouts + n < 2 ^ 64
  epochs : t.epochs + n < 2 ^ 64
  skips : t.skips + n < 2 ^ 64
  credits : t.credits + n < 2 ^ 64

count_call-Room : (c : Call) (t : Tally) (n : ℕ) → Room t (suc n) → Room (count_call c t) n
unfolding count_call
count_call-Room (next_payout user) t n r = record {
  payouts = omega (arith, r.payouts);
  epochs = omega (arith, r.epochs);
  skips = omega (arith, r.skips);
  credits = omega (arith, r.credits);
}
count_call-Room pool_epoch t n r = record {
  payouts = omega (arith, r.payouts);
  epochs = omega (arith, r.epochs);
  skips = omega (arith, r.skips);
  credits = omega (arith, r.credits);
}
count_call-Room pool_skip t n r = record {
  payouts = omega (arith, r.payouts);
  epochs = omega (arith, r.epochs);
  skips = omega (arith, r.skips);
  credits = omega (arith, r.credits);
}
count_call-Room pool_credit t n r = record {
  payouts = omega (arith, r.payouts);
  epochs = omega (arith, r.epochs);
  skips = omega (arith, r.skips);
  credits = omega (arith, r.credits);
}

u64-suc : (a t n : ℕ) → a ≡ t → t + suc n < 2 ^ 64 → u64 (a + 1) ≡ t + 1
u64-suc a t n e h = omega arith

u64-small : (a t n : ℕ) → a ≡ t / 20 → t + suc n < 2 ^ 64 → u64 (a + 1) ≡ t / 20 + 1
u64-small a t n e h = omega arith

false_ne : (n : ℕ) → (n == 0) ≡ false → n ≢ 0
false_ne n e z = ground arith

step-Accounts :
    (c : Call) (t : Tally) (s : DevfeeState) (n : ℕ)
    → Room t (suc n)
    → Accounts t s
    → Accounts (count_call c t) (step s c)
unfolding step count_call devfee_next_payout devfee_pool_epoch devfee_pool_skip devfee_pool_credit
step-Accounts (next_payout user) t s n r a =
    let e = u64-suc s.total t.payouts n a.total r.payouts in
    let d = u64-small s.dev t.payouts n a.dev r.payouts in
    elim (Bool-cases (u64 (s.total + 1) % devfee_interval == 0)) [
      | inl y ↦
          let z = (==_iff (u64 (s.total + 1) % 20) 0).0 y in
          rw (y, step)
            (record {
              total = e;
              dev = omega (arith, d, e, z);
              pool_jobs = a.pool_jobs;
              pool_dev_jobs = a.pool_dev_jobs;
              pool_skipped = a.pool_skipped;
              pool_shares = a.pool_shares;
            })
      | inr y ↦
          let z = false_ne (u64 (s.total + 1) % 20) y in
          rw (y, step)
            (record {
              total = e;
              dev = omega (arith, a.dev, e, z);
              pool_jobs = a.pool_jobs;
              pool_dev_jobs = a.pool_dev_jobs;
              pool_skipped = a.pool_skipped;
              pool_shares = a.pool_shares;
            })
    ]
step-Accounts pool_epoch t s n r a =
    let e = u64-suc s.pool_jobs t.epochs n a.pool_jobs r.epochs in
    let d = u64-small s.pool_dev_jobs t.epochs n a.pool_dev_jobs r.epochs in
    elim (Bool-cases (u64 (s.pool_jobs + 1) % devfee_interval == 0)) [
      | inl y ↦
          let z = (==_iff (u64 (s.pool_jobs + 1) % 20) 0).0 y in
          rw (y, step)
            (record {
              total = a.total;
              dev = a.dev;
              pool_jobs = e;
              pool_dev_jobs = omega (arith, d, e, z);
              pool_skipped = a.pool_skipped;
              pool_shares = a.pool_shares;
            })
      | inr y ↦
          let z = false_ne (u64 (s.pool_jobs + 1) % 20) y in
          rw (y, step)
            (record {
              total = a.total;
              dev = a.dev;
              pool_jobs = e;
              pool_dev_jobs = omega (arith, a.pool_dev_jobs, e, z);
              pool_skipped = a.pool_skipped;
              pool_shares = a.pool_shares;
            })
    ]
step-Accounts pool_skip t s n r a = record {
  total = a.total;
  dev = a.dev;
  pool_jobs = a.pool_jobs;
  pool_dev_jobs = a.pool_dev_jobs;
  pool_skipped = u64-suc s.pool_skipped t.skips n a.pool_skipped r.skips;
  pool_shares = a.pool_shares;
}
step-Accounts pool_credit t s n r a = record {
  total = a.total;
  dev = a.dev;
  pool_jobs = a.pool_jobs;
  pool_dev_jobs = a.pool_dev_jobs;
  pool_skipped = a.pool_skipped;
  pool_shares = u64-suc s.pool_shares t.credits n a.pool_shares r.credits;
}

run-Accounts :
    (calls : List Call) (t : Tally) (s : DevfeeState)
    → Room t (length calls)
    → Accounts t s
    → Accounts (tally_from t calls) (run s calls)
unfolding run tally_from
run-Accounts [] t s r a = a
run-Accounts (c ∷ calls) t s r a =
    run-Accounts calls (count_call c t) (step s c) (count_call-Room c t (length calls) r)
      (step-Accounts c t s (length calls) r a)

-- After any sequence of fewer than 2 ^ 64 calls from a reset, the counters are the numbers of
-- calls of each kind, and the developer's counters are a twentieth of the payouts and of the
-- pool's epochs, rounded down.
pub devfee-Accounts :
    (calls : List Call) → length calls < 2 ^ 64 → Accounts (tally calls) (run devfee_reset calls)
unfolding tally devfee_reset
devfee-Accounts calls h =
    run-Accounts calls (record { payouts = 0; epochs = 0; skips = 0; credits = 0 }) devfee_reset
      (record {
        payouts = omega (arith, h);
        epochs = omega (arith, h);
        skips = omega (arith, h);
        credits = omega (arith, h);
      })
      (record {
        total = refl;
        dev = refl;
        pool_jobs = refl;
        pool_dev_jobs = refl;
        pool_skipped = refl;
        pool_shares = refl;
      })

payouts-count_call : (c : Call) (t : Tally) → (count_call c t).payouts ≤ t.payouts + 1
unfolding count_call
payouts-count_call (next_payout user) t = omega arith
payouts-count_call pool_epoch t = omega arith
payouts-count_call pool_skip t = omega arith
payouts-count_call pool_credit t = omega arith

payouts-tally_from :
    (calls : List Call) (t : Tally) → (tally_from t calls).payouts ≤ t.payouts + length calls
unfolding tally_from
payouts-tally_from [] t = omega arith
payouts-tally_from (c ∷ calls) t =
    omega (arith, payouts-tally_from calls (count_call c t), payouts-count_call c t)

next_total :
    (calls : List Call)
    → length calls + 1 < 2 ^ 64
    → u64 ((run devfee_reset calls).total + 1) ≡ (tally calls).payouts + 1
unfolding tally
next_total calls h =
    u64-suc (run devfee_reset calls).total (tally calls).payouts 0
      (devfee-Accounts calls (omega (arith, h))).total
      (omega (
        arith,
        h,
        payouts-tally_from calls (record { payouts = 0; epochs = 0; skips = 0; credits = 0 }),
      ))

-- After any sequence of fewer than 2 ^ 64 - 1 calls from a reset, the next payout goes to the
-- developer exactly when it is a twentieth one, and otherwise to the user's address, if there is
-- one; `current_is_dev` says which.
pub devfee_next_payout_every_twentieth :
    (calls : List Call) (user : List ℕ)
    → length calls + 1 < 2 ^ 64
    → (((tally calls).payouts + 1) % 20 ≡ 0
        → ((devfee_next_payout (run devfee_reset calls) (some user)).1 ≡ devfee_address)
          × ((devfee_next_payout (run devfee_reset calls) (some user)).0.current_is_dev ≡ true))
      × (((tally calls).payouts + 1) % 20 ≢ 0
          → ((devfee_next_payout (run devfee_reset calls) (some user)).1 ≡ user)
            × ((devfee_next_payout (run devfee_reset calls) (some user)).0.current_is_dev ≡ false))
unfolding devfee_next_payout
devfee_next_payout_every_twentieth calls user h =
    let e = next_total calls h in
    (
      λ z.
          let y = eq→== (u64 ((run devfee_reset calls).total + 1) % 20) 0 (omega (arith, e, z)) in
          (rw (y, devfee_next_payout) refl, rw (y, devfee_next_payout) refl),
      λ z.
          let y =
            ne→==-false (u64 ((run devfee_reset calls).total + 1) % 20) 0
              (λ q. z (omega (arith, e, q))) in
          (rw (y, devfee_next_payout) refl, rw (y, devfee_next_payout) refl),
    )
