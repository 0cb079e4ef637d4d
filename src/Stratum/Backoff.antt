-- ===== src/Stratum/Backoff.antt =====
-- miner/stratum.c, `dial`: the waits between attempts that fail.
use osprey_blake2b.Base.{
  ℕ, zero, suc, ◌+◌, ◌*◌, ◌^◌, ◌≤◌, ◌<◌, ◌≡◌, refl, ap, ◌∙◌, arith, Bool, true, false, List, [],
  ◌∷◌, inl, inr, if◌then◌else◌, ltb, u64, Bool-cases, Option-cases, List-cases, length,
}
use native.Mathlib.Nat.{pow-suc, one-le-pow}
use osprey_blake2b.Stratum.Floats.{Floats}
use osprey_blake2b.Stratum.Session.{Session}
use osprey_blake2b.Stratum.Link.{
  DialOutcome, Recv, back_off, next_backoff, connect_to, dial_redirect, dial_own, dial,
  stratum_poll,
}

-- The wait behind a number of failures in a row.
abbrev pub wait : ℕ → ℕ
wait zero = 0
wait (suc n) = if ltb 120 (2 ^ suc n) then 120 else 2 ^ suc n

-- When the next attempt is due behind attempts that fail, of which `n` were made before: the time of
-- the last one plus the wait behind it.
unfoldable pub deadline : ℕ → ℕ → List (DialOutcome × ℕ) → ℕ
deadline due n [] = due
deadline due n (a ∷ rest) = deadline (u64 (a.1 + wait (suc n))) (suc n) rest

next_backoff_doubles :
    (b p : ℕ)
    → 0 < p
    → b ≡ (if ltb 120 p then 120 else p)
    → next_backoff b ≡ (if ltb 120 (2 * p) then 120 else 2 * p)
unfolding next_backoff
next_backoff_doubles b p h e = ground arith

twice : (n : ℕ) → 2 * 2 ^ n ≡ 2 ^ suc n
twice n = omega (arith, pow-suc 2 n)

next_backoff-wait : (n : ℕ) → next_backoff (wait n) ≡ wait (suc n)
unfolding next_backoff
next_backoff-wait zero = refl
next_backoff-wait (suc n) =
    next_backoff_doubles (wait (suc n)) (2 ^ suc n) (one-le-pow (suc n) 2 (omega arith)) refl
    ∙ ap (λ (p : ℕ). if ltb 120 p then 120 else p) (twice (suc n))

-- An attempt that meets a pool which does not answer.
abbrev pub IsRefused : DialOutcome → Type 0
IsRefused o = (o.has_socket ≡ true) × (o.is_address ≡ true) × (o.connects ≡ false)

-- What a failed attempt leaves.
pub record IsBackedOff (s t : Session) (now : ℕ) : Type 0 where
  pub backoff : t.backoff_s ≡ next_backoff s.backoff_s
  pub retry : t.retry_at ≡ u64 (now + next_backoff s.backoff_s)
  pub connected : t.connected ≡ s.connected
  pub pending : t.reconnect_pending ≡ false

connect_to-refused :
    (o : DialOutcome) (own : Bool) (s : Session) (now : ℕ)
    → IsRefused o
    → connect_to o own s now ≡ back_off s now
unfolding connect_to
connect_to-refused o own s now h = simp (h.0, h.1, h.2, connect_to)

dial_redirect-refused :
    (o : DialOutcome) (s : Session) (now : ℕ)
    → IsRefused o
    → IsBackedOff s (dial_redirect o s now) now
unfolding dial_redirect back_off
dial_redirect-refused o s now h = elim (Option-cases o.resolved) [
  | inl a ↦
      simp (a, dial_redirect)
        (record { backoff = refl; retry = refl; connected = refl; pending = refl })
  | inr (q, a) ↦
      simp
        (
          a,
          dial_redirect,
          connect_to-refused o false (record s { reconnect_pending = false }) now h,
        )
        (record { backoff = refl; retry = refl; connected = refl; pending = refl })
]

dial_own-refused :
    (o : DialOutcome) (s : Session) (now : ℕ)
    → IsRefused o
    → s.reconnect_pending ≡ false
    → IsBackedOff s (dial_own o s now) now
unfolding dial_own back_off
dial_own-refused o s now h r = elim (List-cases s.addr) [
  | inr (c, cs, e) ↦
      simp (e, dial_own, connect_to-refused o true s now h)
        (record { backoff = refl; retry = refl; connected = refl; pending = r })
  | inl e ↦ elim (Option-cases o.resolved) [
    | inl a ↦
        simp (e, a, dial_own)
          (record { backoff = refl; retry = refl; connected = refl; pending = r })
    | inr (q, a) ↦
        simp (e, a, dial_own, connect_to-refused o true (record s { addr = q }) now h)
          (record { backoff = refl; retry = refl; connected = refl; pending = r })
  ]
]

dial-refused :
    (o : DialOutcome) (s : Session) (now : ℕ)
    → IsRefused o
    → s.retry_at ≤ now
    → IsBackedOff s (dial o s now) now
unfolding dial
dial-refused o s now h e =
    let due : ltb now s.retry_at ≡ false = ground arith in
    elim (Bool-cases s.reconnect_pending) [
      | inl r ↦ simp (due, r, dial) (dial_redirect-refused o s now h)
      | inr r ↦ simp (due, r, dial) (dial_own-refused o s now h r)
    ]

module _ (F : Floats) where
  -- The polls of a session without a connection, each at its time.
  abbrev pub attempts : List (DialOutcome × ℕ) → Session → Session
  attempts [] s = s
  attempts (a ∷ rest) s = attempts rest (stratum_poll F a.0 [] s a.1)

  -- Each attempt is refused, and none is made before the wait that the last one set is over.
  abbrev pub IsRefusing : List (DialOutcome × ℕ) → Session → Type 0
  IsRefusing [] s = Unit
  IsRefusing (a ∷ rest) s =
      IsRefused a.0 × (s.retry_at ≤ a.1) × IsRefusing rest (stratum_poll F a.0 [] s a.1)

  attempts-backoff :
      (rest : List (DialOutcome × ℕ)) (s : Session) (n m : ℕ)
      → m ≡ n + length rest
      → s.connected ≡ false
      → s.backoff_s ≡ wait n
      → IsRefusing rest s
      → ((attempts rest s).backoff_s ≡ wait m)
        × ((attempts rest s).retry_at ≡ deadline s.retry_at n rest)
        × ((attempts rest s).connected ≡ false)
  unfolding stratum_poll deadline
  attempts-backoff [] s n m e c b h = (b ∙ ap wait {x = n} {y = m} (omega arith), refl, c)
  attempts-backoff (a ∷ rest) s n m e c b h =
      let r = dial-refused a.0 s a.1 h.0 h.1 in
      let polled : stratum_poll F a.0 [] s a.1 ≡ dial a.0 s a.1 = simp (c, stratum_poll) in
      let q = stratum_poll F a.0 [] s a.1 in
      let longer : next_backoff s.backoff_s ≡ wait (suc n) =
        ap next_backoff b ∙ next_backoff-wait n in
      let due : q.retry_at ≡ u64 (a.1 + wait (suc n)) =
        ap (λ x. x.retry_at) polled ∙ (r.retry ∙ ap (λ w. u64 (a.1 + w)) longer) in
      let t =
        attempts-backoff rest q (suc n) m (omega arith)
          (ap (λ x. x.connected) polled ∙ (r.connected ∙ c))
          (ap (λ x. x.backoff_s) polled ∙ (r.backoff ∙ longer)) h.2 in
      (t.0, t.1 ∙ ap (λ w. deadline w (suc n) rest) due, t.2)

  -- A poll before the deadline makes no attempt.
  waiting :
      (o : DialOutcome) (answers : List Recv) (s : Session) (now : ℕ)
      → s.connected ≡ false
      → now < s.retry_at
      → stratum_poll F o answers s now ≡ s
  unfolding stratum_poll dial
  waiting o answers s now c early =
      let not_due : ltb now s.retry_at ≡ true = ground arith in
      simp (c, not_due, stratum_poll, dial)

  -- A session without a connection or a wait whose attempts are all refused, each made when the wait
  -- before it is over, stays without one. Its next attempt is due at the time of the last one plus
  -- the wait, modulo 2 ^ 64; the wait is 2 seconds behind the first, twice as long behind each further
  -- one, and never more than 120. A poll before that time makes no attempt and changes nothing.
  pub attempts-wait :
      (rest : List (DialOutcome × ℕ)) (s : Session)
      → s.connected ≡ false
      → s.backoff_s ≡ 0
      → IsRefusing rest s
      → ((attempts rest s).backoff_s ≡ wait (length rest))
        × ((attempts rest s).retry_at ≡ deadline s.retry_at 0 rest)
        × ((attempts rest s).connected ≡ false)
        × ((o : DialOutcome) (answers : List Recv) (now : ℕ)
            → now < deadline s.retry_at 0 rest
            → stratum_poll F o answers (attempts rest s) now ≡ attempts rest s)
  attempts-wait rest s c b h =
      let t = attempts-backoff rest s 0 (length rest) (omega arith) c b h in
      (
        t.0,
        t.1,
        t.2,
        λ o answers now early.
            waiting o answers (attempts rest s) now t.2 (omega (arith, early, t.1)),
      )
