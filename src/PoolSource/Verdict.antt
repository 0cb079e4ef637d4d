-- ===== src/PoolSource/Verdict.antt =====
-- What the pool work source answers to a candidate.
use osprey_blake2b.Base.{
  ℕ, ◌+◌, ◌≡◌, ◌≢◌, ◌↔◌, ◌⊎◌, inl, inr, refl, sym, ap, ◌∙◌, Bool, true, false, ◌&&◌, List, Option,
  none, some, ◌==◌, eq→==, ==_iff, if◌then◌else◌, u64, take, Bool-cases,
}
use osprey_blake2b.Base.Bytes.{store_le}
use osprey_blake2b.WorkItem.Target.{hash_meets_target}
use osprey_blake2b.Devfee.{devfee_pool_credit}
use osprey_blake2b.Stratum.Json.{bin2hex}
use osprey_blake2b.Stratum.Session.{Session, stratum_submit, SubmitLine}
use osprey_blake2b.Worksrc.{WorkCtx}
use osprey_blake2b.Gbt.{Candidate, bad, reproduces, solution}
use osprey_blake2b.PoolSource.{
  PoolState, chain_expected, chain_compare, session_of, is_stale, submit_candidate, st_on_candidate,
  put_session, after_submit,
}

-- A candidate that may be submitted: its word is the expected one, its compare value meets the
-- target of the current work, and that work is valid and was not replaced by a clean job.
pub record IsShare (p : PoolState) (ctx : WorkCtx) (nonce word : ℕ) : Type 0 where
  pub reported : chain_expected p.chain ctx.ss4 nonce ≡ word
  pub meets : hash_meets_target (chain_compare p.chain ctx.ss4 nonce) p.cur.target ≡ true
  pub current : p.cur.valid ≡ true
  pub fresh : is_stale p ≡ false

false-true : ¬ (false ≡ true)
false-true e = cc

share_submits :
    (sent : Bool) (p : PoolState) (ctx : WorkCtx) (nonce word : ℕ)
    → IsShare p ctx nonce word
    → st_on_candidate sent p ctx nonce word ≡ submit_candidate sent p nonce
unfolding st_on_candidate
share_submits sent p ctx nonce word h =
    simp (eq→== (chain_expected p.chain ctx.ss4 nonce) word h.reported, h.meets, h.current, h.fresh)

-- The ways to be no share, each with the answer.
verdict_cases :
    (sent : Bool) (p : PoolState) (ctx : WorkCtx) (nonce word : ℕ)
    → (IsShare p ctx nonce word
        ⊎ ((chain_expected p.chain ctx.ss4 nonce ≢ word)
            × (st_on_candidate sent p ctx nonce word ≡ (p, bad))))
      ⊎ ((chain_expected p.chain ctx.ss4 nonce ≡ word)
          × (st_on_candidate sent p ctx nonce word ≡ (p, reproduces)))
unfolding st_on_candidate
verdict_cases sent p ctx nonce word =
    elim (Bool-cases (chain_expected p.chain ctx.ss4 nonce == word)) [
      | inr e ↦ inl (
          inr
            (λ q. false-true (sym e ∙ eq→== (chain_expected p.chain ctx.ss4 nonce) word q), simp e))
      | inl e ↦
          let eq = (==_iff (chain_expected p.chain ctx.ss4 nonce) word).0 e in
          elim (Bool-cases (hash_meets_target (chain_compare p.chain ctx.ss4 nonce) p.cur.target)) [
            | inr m ↦ inr (eq, simp (e, m))
            | inl m ↦ elim (Bool-cases p.cur.valid) [
              | inr v ↦ inr (eq, simp (e, m, v))
              | inl v ↦ elim (Bool-cases (is_stale p)) [
                | inl t ↦ inr (eq, simp (e, m, v, t))
                | inr f ↦ inl (inl (record { reported = eq; meets = m; current = v; fresh = f }))
              ]
            ]
          ]
    ]

-- The session behind a line that was sent.
abbrev session_after : Session → ℕ → Session
session_after s n = record s { next_id = n; shares_submitted = u64 (s.shares_submitted + 1) }

submit_sent :
    (s : Session) (job_id en2 ntime nonce : List ℕ)
    → s.connected ≡ true
    → (line : SubmitLine) × (n : ℕ) × (stratum_submit true s job_id en2 ntime nonce
        ≡ (session_after s n, some line))
unfolding stratum_submit
submit_sent s job_id en2 ntime nonce live = (
  record {
    id = u64 (s.next_id + 1);
    worker = s.worker;
    job_id = job_id;
    en2h = bin2hex en2;
    nth = bin2hex (take 8 ntime);
    noh = bin2hex (take 8 nonce);
  },
  u64 (s.next_id + 1),
  simp live,
)

submit_unsent :
    (sent : Bool) (s : Session) (job_id en2 ntime nonce : List ℕ)
    → sent && s.connected ≡ false
    → (stratum_submit sent s job_id en2 ntime nonce).1 ≡ none
unfolding stratum_submit
submit_unsent true s job_id en2 ntime nonce dead = simp dead
submit_unsent false s job_id en2 ntime nonce dead = elim (Bool-cases s.connected) [
  | inl c ↦ simp c
  | inr c ↦ simp c
]

-- A line that is sent: the answer, the developer's credit and the session's count.
after_sent :
    (b : Bool) (p : PoolState) (line : SubmitLine) (s : Session)
    → ((after_submit b p (s, some line)).1 ≡ solution true)
      × ((after_submit b p (s, some line)).0.fee.pool_shares
          ≡ (if b then u64 (p.fee.pool_shares + 1) else p.fee.pool_shares))
      × (session_of b (after_submit b p (s, some line)).0 ≡ s)
unfolding after_submit put_session session_of devfee_pool_credit
after_sent true p line s = (refl, refl, refl)
after_sent false p line s = (refl, refl, refl)

after_unsent :
    (b : Bool) (p : PoolState) (r : Session × Option SubmitLine)
    → r.1 ≡ none
    → ((after_submit b p r).1 ≡ reproduces) × ((after_submit b p r).0.fee ≡ p.fee)
unfolding after_submit put_session
after_unsent true p r e = (rw e refl, rw e refl)
after_unsent false p r e = (rw e refl, rw e refl)

after_not_bad :
    (b : Bool) (p : PoolState) (r : Session × Option SubmitLine) → (after_submit b p r).1 ≢ bad
unfolding after_submit
after_not_bad b p (s, none) e = cc
after_not_bad b p (s, some line) e = cc

not_bad : (q : PoolState) (r : PoolState × Candidate) → r ≡ (q, reproduces) → r.1 ≢ bad
not_bad q r e f = reproduces≢bad (sym (ap (λ t. t.1) e) ∙ f)
  where
    reproduces≢bad : reproduces ≢ bad
    reproduces≢bad e = cc

module _ (sent : Bool) (p : PoolState) (ctx : WorkCtx) (nonce word : ℕ) where
  abbrev session : Session
  session = session_of p.cur.is_dev p

  abbrev submitted : Session × Option SubmitLine
  submitted = stratum_submit sent session p.cur.job_id p.cur.en2 p.cur.ntime (store_le 0 8 nonce)

  share_after :
      IsShare p ctx nonce word
      → st_on_candidate sent p ctx nonce word ≡ after_submit p.cur.is_dev p submitted
  share_after h = share_submits sent p ctx nonce word h ∙ unfold submit_candidate in refl

  untouched : ¬ IsShare p ctx nonce word → (st_on_candidate sent p ctx nonce word).0 ≡ p
  untouched h = elim (verdict_cases sent p ctx nonce word) [
    | inl (inl y) ↦ absurd (h y)
    | inl (inr y) ↦ ap (λ t. t.0) y.1
    | inr y ↦ ap (λ t. t.0) y.1
  ]

  bad_iff :
      (chain_expected p.chain ctx.ss4 nonce ≡ word)
      ↔ ((st_on_candidate sent p ctx nonce word).1 ≢ bad)
  bad_iff = elim (verdict_cases sent p ctx nonce word) [
    | inl (inl y) ↦ (
      λ e q. after_not_bad p.cur.is_dev p submitted (sym (ap (λ t. t.1) (share_after y)) ∙ q),
      λ n. y.reported,
    )
    | inl (inr y) ↦ (λ e. absurd (y.0 e), λ n. absurd (n (ap (λ t. t.1) y.1)))
    | inr y ↦ (λ e. not_bad p (st_on_candidate sent p ctx nonce word) y.1, λ n. y.0)
  ]

-- A candidate that is no share changes no state, and one is answered with "bad" exactly when its
-- word is not the expected one. A share on a live connection whose line is sent is a solution, is
-- counted in the session of the current work, and is credited to the developer exactly when the
-- work was the developer's; a share that cannot be sent is answered like a candidate below the
-- target, and credits nobody.
pub st_on_candidate_cases :
    (sent : Bool) (p : PoolState) (ctx : WorkCtx) (nonce word : ℕ)
    → (¬ IsShare p ctx nonce word → (st_on_candidate sent p ctx nonce word).0 ≡ p)
      × ((chain_expected p.chain ctx.ss4 nonce ≡ word)
          ↔ ((st_on_candidate sent p ctx nonce word).1 ≢ bad))
      × (IsShare p ctx nonce word
          → sent ≡ true
          → (session_of p.cur.is_dev p).connected ≡ true
          → ((st_on_candidate sent p ctx nonce word).1 ≡ solution true)
            × ((st_on_candidate sent p ctx nonce word).0.fee.pool_shares
                ≡ (if p.cur.is_dev then u64 (p.fee.pool_shares + 1) else p.fee.pool_shares))
            × ((session_of p.cur.is_dev (st_on_candidate sent p ctx nonce word).0).shares_submitted
                ≡ u64 ((session_of p.cur.is_dev p).shares_submitted + 1)))
      × (IsShare p ctx nonce word
          → sent && (session_of p.cur.is_dev p).connected ≡ false
          → ((st_on_candidate sent p ctx nonce word).1 ≡ reproduces)
            × ((st_on_candidate sent p ctx nonce word).0.fee ≡ p.fee))
st_on_candidate_cases sent p ctx nonce word = (
  untouched sent p ctx nonce word,
  bad_iff sent p ctx nonce word,
  λ h ok live.
      let d = p.cur.is_dev in
      let u =
        submit_sent (session_of d p) p.cur.job_id p.cur.en2 p.cur.ntime (store_le 0 8 nonce) live in
      let after = session_after (session_of d p) u.1 in
      let a = after_sent d p u.0 after in
      let e : st_on_candidate sent p ctx nonce word ≡ after_submit d p (after, some u.0) =
        share_after sent p ctx nonce word h
        ∙ ap
            (λ b. after_submit d p (
              stratum_submit b (session_of d p) p.cur.job_id p.cur.en2 p.cur.ntime
                (store_le 0 8 nonce)))
            ok
        ∙ ap (after_submit d p) u.2 in
      (
        ap (λ t. t.1) e ∙ a.0,
        ap (λ t. t.0.fee.pool_shares) e ∙ a.1,
        ap (λ t. (session_of d t.0).shares_submitted) e ∙ ap (λ t. t.shares_submitted) a.2,
      ),
  λ h dead.
      let e = share_after sent p ctx nonce word h in
      let a = after_unsent p.cur.is_dev p (submitted sent p ctx nonce word) (
        submit_unsent sent (session_of p.cur.is_dev p) p.cur.job_id p.cur.en2 p.cur.ntime
          (store_le 0 8 nonce) dead) in
      (ap (λ t. t.1) e ∙ a.0, ap (λ t. t.0.fee) e ∙ a.1),
)
