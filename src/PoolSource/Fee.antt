-- ===== src/PoolSource/Fee.antt =====
-- The developer's epochs: when `st_get_work` counts, redirects and skips.
use osprey_blake2b.Base.{
  true≢false, sym, ℕ, ◌+◌, ◌%◌, ◌≡◌, ◌≢◌, ◌⊎◌, inl, inr, ap, ◌∙◌, Bool, true, false, ◌&&◌, Option,
  none, some, ◌==◌, eq→==, ne→==-false, if◌then◌else◌, ltb, u64, Bool-cases, Option-cases,
}
use osprey_blake2b.Devfee.{DevfeeState, devfee_pool_epoch, devfee_pool_skip}
use osprey_blake2b.Stratum.Session.{Session, stratum_ready}
use osprey_blake2b.Worksrc.{WorkCtx}
use osprey_blake2b.PoolSource.{
  PoolState, build_from, chain_messages, make_en2, remember_push, wants_push, main_work, dev_work,
  st_get_work,
}

abbrev en2_len : Session → ℕ
en2_len s = if s.en2_size == 0 then 8 else s.en2_size

build_from-fee :
    (p : PoolState) (s : Session) (is_dev : Bool) → (build_from p s is_dev).0.fee ≡ p.fee
unfolding build_from
build_from-fee p s is_dev = elim (Bool-cases (ltb 32 (en2_len s))) [
  | inl e ↦ simp e
  | inr e ↦
      elim (Option-cases
        (chain_messages p.chain s (make_en2 (u64 (p.en2_counter + 1)) (en2_len s)))) [
          | inl m ↦ simp (e, m)
          | inr (a, m) ↦ simp (e, m)
        ]
]

-- Work that is handed out is remembered with the session it came from.
build_from-is_dev :
    (p : PoolState) (s : Session) (is_dev : Bool) (ctx : WorkCtx)
    → (build_from p s is_dev).1 ≡ some ctx
    → (build_from p s is_dev).0.cur.is_dev ≡ is_dev
unfolding build_from
build_from-is_dev p s is_dev ctx h = elim (Bool-cases (ltb 32 (en2_len s))) [
  | inl e ↦ absurd (none≢some (simp e at h))
  | inr e ↦
      elim (Option-cases
        (chain_messages p.chain s (make_en2 (u64 (p.en2_counter + 1)) (en2_len s)))) [
          | inl m ↦ absurd (none≢some (simp (e, m) at h))
          | inr (a, m) ↦ simp (e, m)
        ]
]
  where
    none≢some : none ≢ some ctx
    none≢some e = cc

main_work-fee : (p : PoolState) (now : ℕ) → (main_work p now).0.fee ≡ p.fee
unfolding main_work remember_push
main_work-fee p now = elim (Option-cases (build_from p p.main false).1) [
  | inl e ↦ simp (e, main_work) (build_from-fee p p.main false)
  | inr (ctx, e) ↦ simp (e, main_work) (build_from-fee p p.main false)
]

-- The fee's counters play no part in what is built.
build_from-same :
    (p : PoolState) (fee : DevfeeState) (s : Session) (is_dev : Bool)
    → (build_from (record p { fee = fee }) s is_dev).1 ≡ (build_from p s is_dev).1
unfolding build_from
build_from-same p fee s is_dev = elim (Bool-cases (ltb 32 (en2_len s))) [
  | inl e ↦ simp e
  | inr e ↦
      elim (Option-cases
        (chain_messages p.chain s (make_en2 (u64 (p.en2_counter + 1)) (en2_len s)))) [
          | inl m ↦ simp (e, m)
          | inr (a, m) ↦ simp (e, m)
        ]
]

-- The developer's session is there and ready.
abbrev pub dev_ready : PoolState → Bool
dev_ready p = p.dev_configured && stratum_ready p.dev

-- An epoch of the developer ends in the work that is built from the developer's session, exactly
-- where that session is ready and gives work, and otherwise in a skip.
record IsRedirected (p : PoolState) (r : PoolState × Option WorkCtx) : Type 0 where
  ready : dev_ready p ≡ true
  ctx : WorkCtx
  given : (build_from p p.dev true).1 ≡ some ctx
  handed : r.1 ≡ some ctx
  fee : r.0.fee ≡ p.fee
  owner : r.0.cur.is_dev ≡ true

dev_work-fee :
    (p : PoolState) (now : ℕ)
    → IsRedirected p (dev_work p now)
      ⊎ (((dev_ready p ≡ false) ⊎ ((build_from p p.dev true).1 ≡ none))
          × ((dev_work p now).0.fee ≡ devfee_pool_skip p.fee))
unfolding dev_work remember_push
dev_work-fee p now = elim (Bool-cases (p.dev_configured && stratum_ready p.dev)) [
  | inr e ↦ inr (inl e, simp e (main_work-fee (record p { fee = devfee_pool_skip p.fee }) now))
  | inl e ↦ elim (Option-cases (build_from p p.dev true).1) [
    | inl n ↦
        let b = (build_from p p.dev true).0 in
        inr (
          inr n,
          simp (e, n)
              (main_work-fee (record b { fee = devfee_pool_skip b.fee }) now
                ∙ ap devfee_pool_skip (build_from-fee p p.dev true)),
        )
    | inr (ctx, n) ↦ inl (record {
      ready = e;
      ctx = ctx;
      given = n;
      handed = simp (e, n);
      fee = simp (e, n) (build_from-fee p p.dev true);
      owner = simp (e, n) (build_from-is_dev p p.dev true ctx n);
    })
  ]
]

-- The part of `st_get_work` behind its guards.
abbrev produce : PoolState → DevfeeState × Bool → ℕ → PoolState × Option WorkCtx
produce p e now =
    if e.1 then dev_work (record p { fee = e.0 }) now else main_work (record p { fee = e.0 }) now

idle :
    (p : PoolState) (now : ℕ)
    → stratum_ready p.main && wants_push p now ≡ false
    → st_get_work p now ≡ (p, none)
unfolding st_get_work
idle p now h = elim (Bool-cases (stratum_ready p.main)) [
  | inr r ↦ simp r
  | inl r ↦ elim (Bool-cases (wants_push p now)) [
    | inr w ↦ simp (r, w)
    | inl w ↦ absurd (true≢false (simp (r, w) at h))
  ]
]

busy :
    (p : PoolState) (now : ℕ)
    → stratum_ready p.main && wants_push p now ≡ true
    → st_get_work p now ≡ produce p (devfee_pool_epoch p.fee) now
unfolding st_get_work
busy p now h = elim (Bool-cases (stratum_ready p.main)) [
  | inr r ↦ absurd (true≢false (sym (simp r at h)))
  | inl r ↦ elim (Bool-cases (wants_push p now)) [
    | inr w ↦ absurd (true≢false (sym (simp (r, w) at h)))
    | inl w ↦ simp (r, w)
  ]
]

own_epoch :
    (s : DevfeeState)
    → u64 (s.pool_jobs + 1) % 20 ≢ 0
    → devfee_pool_epoch s ≡ (record s { pool_jobs = u64 (s.pool_jobs + 1) }, false)
unfolding devfee_pool_epoch
own_epoch s h = simp (ne→==-false (u64 (s.pool_jobs + 1) % 20) 0 h)

dev_epoch :
    (s : DevfeeState)
    → u64 (s.pool_jobs + 1) % 20 ≡ 0
    → devfee_pool_epoch s ≡ (
      record s { pool_jobs = u64 (s.pool_jobs + 1); pool_dev_jobs = u64 (s.pool_dev_jobs + 1) },
      true,
    )
unfolding devfee_pool_epoch
dev_epoch s h = simp (eq→== (u64 (s.pool_jobs + 1) % 20) 0 h)

-- Without a ready session, or while the last push is good enough, there is no work and nothing
-- changes. Otherwise the call counts one job. When the count is no multiple of 20, no other
-- counter of the fee moves. When it is one, the developer's count moves. Then either the developer's
-- session is configured, ready and gives work, which is handed out as the developer's with no skip
-- counted, or it is not configured, not ready or gives none, and exactly one skip is counted.
pub st_get_work-fee :
    (p : PoolState) (now : ℕ)
    → let q = (st_get_work p now).0.fee in
      let jobs = u64 (p.fee.pool_jobs + 1) in
      (stratum_ready p.main && wants_push p now ≡ false → st_get_work p now ≡ (p, none))
      × (stratum_ready p.main && wants_push p now ≡ true
          → jobs % 20 ≢ 0
          → q ≡ record p.fee { pool_jobs = jobs })
      × (stratum_ready p.main && wants_push p now ≡ true
          → jobs % 20 ≡ 0
          → ((dev_ready p ≡ true)
              × ((ctx : WorkCtx) × ((build_from p p.dev true).1 ≡ some ctx)
                  × ((st_get_work p now).1 ≡ some ctx))
              × (q ≡ record p.fee {
                pool_jobs = jobs;
                pool_dev_jobs = u64 (p.fee.pool_dev_jobs + 1);
              })
              × ((st_get_work p now).0.cur.is_dev ≡ true))
            ⊎ (((dev_ready p ≡ false) ⊎ ((build_from p p.dev true).1 ≡ none))
                × (q ≡ record p.fee {
                  pool_jobs = jobs;
                  pool_dev_jobs = u64 (p.fee.pool_dev_jobs + 1);
                  pool_skipped = u64 (p.fee.pool_skipped + 1);
                })))
unfolding devfee_pool_skip
st_get_work-fee p now = (
  idle p now,
  λ h own.
      let e = busy p now h ∙ ap (λ t. produce p t now) (own_epoch p.fee own) in
      ap (λ t. t.0.fee) e
      ∙ main_work-fee (record p { fee = record p.fee { pool_jobs = u64 (p.fee.pool_jobs + 1) } })
          now,
  λ h dev.
      let e = busy p now h ∙ ap (λ t. produce p t now) (dev_epoch p.fee dev) in
      let s : DevfeeState = record p.fee {
        pool_jobs = u64 (p.fee.pool_jobs + 1);
        pool_dev_jobs = u64 (p.fee.pool_dev_jobs + 1);
      } in
      let same = build_from-same p s p.dev true in
      elim (dev_work-fee (record p { fee = s }) now) [
        | inl y ↦ inl (
          y.ready,
          (y.ctx, sym same ∙ y.given, ap (λ t. t.1) e ∙ y.handed),
          ap (λ t. t.0.fee) e ∙ y.fee,
          ap (λ t. t.0.cur.is_dev) e ∙ y.owner,
        )
        | inr y ↦
            inr (elim y.0 [ inl f ↦ inl f | inr n ↦ inr (sym same ∙ n) ], ap (λ t. t.0.fee) e ∙ y.1)
      ],
)
