-- ===== src/Stratum/Connecting.antt =====
-- The attempts to connect and the receiving loop keep the invariant of a session.
use osprey_blake2b.Base.{
  true≢false, ℕ, ◌+◌, ◌≤◌, ◌<◌, ◌≡◌, refl, sym, ◌∙◌, arith, Bool, true, false, List, [], ◌∷◌, ◌++◌,
  inl, inr, ltb, u64, Bool-cases, Option-cases, List-cases, length, take, ◌-◌, length-append,
  length-take,
}
use osprey_blake2b.Stratum.Invariant.{Inv, drop_session-Inv}
use osprey_blake2b.Stratum.Session.{Session}
use osprey_blake2b.Stratum.Link.{
  DialOutcome, Recv, bytes, interrupted, closed, failed, back_off, next_backoff, send_suggest,
  send_authorize, send_subscribe, connected_session, connect_to, dial_redirect, dial_own, dial,
  is_full, receive, rx_size,
}

-- A session whose parts that the invariant reads are another's.
pub same :
    (s t : Session)
    → Inv s
    → (t.extranonce1 ≡ s.extranonce1)
      × (t.en1_len ≡ s.en1_len)
      × (t.job ≡ s.job)
      × (t.backoff_s ≡ s.backoff_s)
      × (t.rx ≡ s.rx)
    → (t.connected ≡ s.connected)
      × (t.subscribed ≡ s.subscribed)
      × (t.authorized ≡ s.authorized)
      × (t.have_job ≡ s.have_job)
    → Inv t
same s t v e f = record {
  extranonce1_size = rw e.0 v.extranonce1_size;
  en1_len = rw e.1 v.en1_len;
  job = rw e.2 v.job;
  backoff = rw e.3 v.backoff;
  rx_fits = rw e.4 v.rx_fits;
  down = λ c. let d = v.down (sym f.0 ∙ c) in (f.1 ∙ d.0, f.2 ∙ d.1, f.3 ∙ d.2);
}

next_backoff-le : (b : ℕ) → next_backoff b ≤ 120
unfolding next_backoff
next_backoff-le b = ground arith

back_off-Inv : (s : Session) (now : ℕ) → Inv s → Inv (back_off s now)
unfolding back_off
back_off-Inv s now v = record {
  extranonce1_size = v.extranonce1_size;
  en1_len = v.en1_len;
  job = v.job;
  backoff = next_backoff-le s.backoff_s;
  rx_fits = v.rx_fits;
  down = v.down;
}

next_ids-Inv :
    (s : Session) (n sub auth suggest : ℕ)
    → Inv s
    → Inv (record s { next_id = n; sub_id = sub; auth_id = auth; suggest_diff_id = suggest })
next_ids-Inv s n sub auth suggest v =
    same s (record s { next_id = n; sub_id = sub; auth_id = auth; suggest_diff_id = suggest }) v
      (refl, refl, refl, refl, refl) (refl, refl, refl, refl)

send_suggest-Inv : (o : DialOutcome) (s : Session) → Inv s → Inv (send_suggest o s)
unfolding send_suggest
send_suggest-Inv o s v =
    let h = next_ids-Inv s (u64 (s.next_id + 1)) s.sub_id s.auth_id (u64 (s.next_id + 1)) v in
    elim (Bool-cases o.sends_suggest) [
      | inl e ↦ simp (e, send_suggest) h
      | inr e ↦
          simp (e, send_suggest)
            (drop_session-Inv
              (record s { next_id = u64 (s.next_id + 1); suggest_diff_id = u64 (s.next_id + 1) }) h)
    ]

send_authorize-Inv : (o : DialOutcome) (s : Session) → Inv s → Inv (send_authorize o s)
unfolding send_authorize
send_authorize-Inv o s v =
    let t : Session = record s { next_id = u64 (s.next_id + 1); auth_id = u64 (s.next_id + 1) } in
    let h =
      next_ids-Inv s (u64 (s.next_id + 1)) s.sub_id (u64 (s.next_id + 1)) s.suggest_diff_id v in
    elim (Bool-cases o.sends_authorize) [
      | inl e ↦ simp (e, send_authorize) (send_suggest-Inv o t h)
      | inr e ↦ simp (e, send_authorize) (drop_session-Inv t h)
    ]

send_subscribe-Inv : (o : DialOutcome) (s : Session) → Inv s → Inv (send_subscribe o s)
unfolding send_subscribe
send_subscribe-Inv o s v =
    let t : Session = record s { next_id = u64 (s.next_id + 1); sub_id = u64 (s.next_id + 1) } in
    let h =
      next_ids-Inv s (u64 (s.next_id + 1)) (u64 (s.next_id + 1)) s.auth_id s.suggest_diff_id v in
    elim (Bool-cases o.sends_subscribe) [
      | inl e ↦ simp (e, send_subscribe) (send_authorize-Inv o t h)
      | inr e ↦ simp (e, send_subscribe) (drop_session-Inv t h)
    ]

connected_session-Inv : (s : Session) → Inv s → Inv (connected_session s)
unfolding connected_session
connected_session-Inv s v = record {
  extranonce1_size = v.extranonce1_size;
  en1_len = v.en1_len;
  job = v.job;
  backoff = omega arith;
  rx_fits = omega arith;
  down = λ e. absurd (true≢false e);
}

address-Inv : (s : Session) (a : List ℕ) → Inv s → Inv (record s { addr = a })
address-Inv s a v =
    same s (record s { addr = a }) v (refl, refl, refl, refl, refl) (refl, refl, refl, refl)

connect_to-Inv :
    (o : DialOutcome) (own : Bool) (s : Session) (now : ℕ) → Inv s → Inv (connect_to o own s now)
unfolding connect_to
connect_to-Inv o own s now v = elim (Bool-cases o.has_socket) [
  | inr a ↦ simp (a, connect_to) v
  | inl a ↦ elim (Bool-cases o.is_address) [
    | inr b ↦ elim (Bool-cases own) [
      | inl d ↦ simp (a, b, d, connect_to) (address-Inv s [] v)
      | inr d ↦ simp (a, b, d, connect_to) v
    ]
    | inl b ↦ elim (Bool-cases o.connects) [
      | inl d ↦
          simp (a, b, d, connect_to)
            (send_subscribe-Inv o (connected_session s) (connected_session-Inv s v))
      | inr d ↦ simp (a, b, d, connect_to) (back_off-Inv s now v)
    ]
  ]
]

dial_redirect-Inv : (o : DialOutcome) (s : Session) (now : ℕ) → Inv s → Inv (dial_redirect o s now)
unfolding dial_redirect
dial_redirect-Inv o s now v =
    let t : Session = record s { reconnect_pending = false } in
    let h = same s t v (refl, refl, refl, refl, refl) (refl, refl, refl, refl) in
    elim (Option-cases o.resolved) [
      | inl e ↦ simp (e, dial_redirect) (back_off-Inv t now h)
      | inr (a, e) ↦ simp (e, dial_redirect) (connect_to-Inv o false t now h)
    ]

dial_own-Inv : (o : DialOutcome) (s : Session) (now : ℕ) → Inv s → Inv (dial_own o s now)
unfolding dial_own
dial_own-Inv o s now v = elim (List-cases s.addr) [
  | inr (c, cs, e) ↦ simp (e, dial_own) (connect_to-Inv o true s now v)
  | inl e ↦ elim (Option-cases o.resolved) [
    | inl r ↦ simp (e, r, dial_own) (back_off-Inv (record s { addr = [] }) now (address-Inv s [] v))
    | inr (a, r) ↦
        simp (e, r, dial_own)
          (connect_to-Inv o true (record s { addr = a }) now (address-Inv s a v))
  ]
]

pub dial-Inv : (o : DialOutcome) (s : Session) (now : ℕ) → Inv s → Inv (dial o s now)
unfolding dial
dial-Inv o s now v = elim (Bool-cases (ltb now s.retry_at)) [
  | inl e ↦ simp (e, dial) v
  | inr e ↦ elim (Bool-cases s.reconnect_pending) [
    | inl r ↦ simp (e, r, dial) (dial_redirect-Inv o s now v)
    | inr r ↦ simp (e, r, dial) (dial_own-Inv o s now v)
  ]
]

pub received-Inv :
    (s : Session) (rx : List ℕ) → Inv s → length rx < rx_size → Inv (record s { rx = rx })
received-Inv s rx v h = record {
  extranonce1_size = v.extranonce1_size;
  en1_len = v.en1_len;
  job = v.job;
  backoff = v.backoff;
  rx_fits = h;
  down = v.down;
}

room :
    (rx b : List ℕ)
    → length rx < rx_size
    → length (rx ++ take (rx_size - length rx - 1) b) < rx_size
room rx b h = omega (
  arith,
  length-append rx (take (rx_size - length rx - 1) b),
  length-take (rx_size - length rx - 1) b,
)

-- The receiving loop keeps the invariant, and the connection where it goes on to the lines.
pub receive-Inv :
    (s : Session) (answers : List Recv)
    → Inv s
    → Inv (receive s answers).0
      × ((receive s answers).1 ≡ true → (receive s answers).0.connected ≡ s.connected)
unfolding receive
receive-Inv s [] v = elim (Bool-cases (is_full s)) [
  | inl e ↦ simp (e, receive) (drop_session-Inv s v, λ f. absurd (true≢false (sym f)))
  | inr e ↦ simp (e, receive) (v, λ f. refl)
]
receive-Inv s (bytes b ∷ answers) v = elim (Bool-cases (is_full s)) [
  | inl e ↦ simp (e, receive) (drop_session-Inv s v, λ f. absurd (true≢false (sym f)))
  | inr e ↦
      simp (e, receive)
        (receive-Inv (record s { rx = s.rx ++ take (rx_size - length s.rx - 1) b }) answers
          (received-Inv s (s.rx ++ take (rx_size - length s.rx - 1) b) v (room s.rx b v.rx_fits)))
]
receive-Inv s (interrupted ∷ answers) v = elim (Bool-cases (is_full s)) [
  | inl e ↦ simp (e, receive) (drop_session-Inv s v, λ f. absurd (true≢false (sym f)))
  | inr e ↦ simp (e, receive) (receive-Inv s answers v)
]
receive-Inv s (closed ∷ answers) v = (drop_session-Inv s v, λ f. absurd (true≢false (sym f)))
receive-Inv s (failed ∷ answers) v = (drop_session-Inv s v, λ f. absurd (true≢false (sym f)))
