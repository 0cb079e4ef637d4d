-- ===== src/Stratum/Reached.antt =====
-- What holds of a session after any sequence of polls and submissions.
use osprey_blake2b.Base.{
  ℕ, ◌+◌, ◌<◌, ◌≡◌, refl, sym, ◌∙◌, arith, Bool, true, List, [], ◌∷◌, ◌++◌, Option, inl, inr, u64,
  ◌==◌, Bool-cases, Option-cases, length, length-append,
}
use osprey_blake2b.Base.Text.{codes}
use osprey_blake2b.Stratum.Json.{js_get, js_str}
use osprey_blake2b.Stratum.Floats.{Floats}
use osprey_blake2b.Stratum.Invariant.{Inv, stratum_init-Inv, drop_session-Inv, live}
use osprey_blake2b.Stratum.Connecting.{same, dial-Inv, received-Inv, receive-Inv}
use osprey_blake2b.Stratum.Invariant.Handlers.{on_subscribe-Inv, on_method-Inv}
use osprey_blake2b.Stratum.Session.{Session, stratum_init, stratum_submit}
use osprey_blake2b.Stratum.Dispatch.{is_array, is_true, js_num, on_reply, on_line}
use osprey_blake2b.Stratum.Link.{
  DialOutcome, Recv, newline, receive, c_text, take_line, run_lines, stratum_poll, rx_size,
}

module _ (F : Floats) where
  on_reply-Inv :
      (s : Session) (id : ℕ) (res : Option (List ℕ))
      → Inv s
      → s.connected ≡ true
      → Inv (on_reply F s id res)
  unfolding on_reply
  on_reply-Inv s id res v c = elim (Bool-cases (id == s.sub_id)) [
    | inl a ↦ elim (Option-cases res) [
      | inl r ↦ simp (a, r, on_reply) v
      | inr (l, r) ↦ elim (Bool-cases (is_array l)) [
        | inl b ↦ simp (a, r, b, on_reply) (on_subscribe-Inv F s l v c)
        | inr b ↦ simp (a, r, b, on_reply) v
      ]
    ]
    | inr a ↦ elim (Bool-cases (id == s.auth_id)) [
      | inl b ↦
          simp (a, b, on_reply)
            (record {
              extranonce1_size = v.extranonce1_size;
              en1_len = v.en1_len;
              job = v.job;
              backoff = v.backoff;
              rx_fits = v.rx_fits;
              down = live s c;
            })
      | inr b ↦ elim (Bool-cases (id == s.suggest_diff_id)) [
        | inl d ↦ simp (a, b, d, on_reply) v
        | inr d ↦ elim (Bool-cases (is_true res)) [
          | inl e ↦
              simp (a, b, d, e, on_reply)
                (counted s (u64 (s.shares_accepted + 1)) s.shares_rejected v)
          | inr e ↦
              simp (a, b, d, e, on_reply)
                (counted s s.shares_accepted (u64 (s.shares_rejected + 1)) v)
        ]
      ]
    ]
  ]
    where
      counted :
          (s : Session) (a r : ℕ)
          → Inv s
          → Inv (record s { shares_accepted = a; shares_rejected = r })
      counted s a r v =
          same s (record s { shares_accepted = a; shares_rejected = r }) v
            (refl, refl, refl, refl, refl) (refl, refl, refl, refl)

  on_line-Inv :
      (s : Session) (line : List ℕ) (now : ℕ)
      → Inv s
      → s.connected ≡ true
      → Inv (on_line F s line now)
  unfolding on_line
  on_line-Inv s line now v c = elim (Option-cases (js_get line (codes "method"))) [
    | inr (meth, a) ↦ elim (Option-cases (js_str meth 64)) [
      | inl b ↦ simp (a, b, on_line) v
      | inr (m, b) ↦ elim (Option-cases (js_get line (codes "params"))) [
        | inl d ↦ simp (a, b, d, on_line) v
        | inr (p, d) ↦ simp (a, b, d, on_line) (on_method-Inv F s now m p v c)
      ]
    ]
    | inl a ↦ elim (Option-cases (js_get line (codes "id"))) [
      | inl b ↦ simp (a, b, on_line) v
      | inr (i, b) ↦
          simp (a, b, on_line)
            (on_reply-Inv s (F.to_u64 (js_num F i)) (js_get line (codes "result")) v c)
    ]
  ]

  take_line-Inv :
      (s : Session) (line : List ℕ) (now : ℕ)
      → Inv s
      → s.connected ≡ true
      → Inv (take_line F s line now)
  unfolding take_line
  take_line-Inv s [] now v c = v
  take_line-Inv s (d ∷ line) now v c = on_line-Inv s (c_text (d ∷ line)) now v c

  run_lines-Inv :
      (s : Session) (now : ℕ) (line text : List ℕ)
      → Inv s
      → s.connected ≡ true
      → length line + length text < rx_size
      → Inv (run_lines F s now line text)
  unfolding run_lines
  run_lines-Inv s now line [] v c h = received-Inv s line v (omega arith)
  run_lines-Inv s now line (d ∷ text) v c h = elim (Bool-cases (d == newline)) [
    | inr n ↦
        simp (n, run_lines)
          (run_lines-Inv s now (line ++ (d ∷ [])) text v c
            (omega (arith, length-append line (d ∷ []))))
    | inl n ↦ elim (Bool-cases (take_line F s line now).connected) [
      | inl k ↦
          simp (n, k, run_lines)
            (run_lines-Inv (take_line F s line now) now [] text (take_line-Inv s line now v c) k
              (omega arith))
      | inr k ↦ simp (n, k, run_lines) (take_line-Inv s line now v c)
    ]
  ]

  stratum_poll-Inv :
      (o : DialOutcome) (answers : List Recv) (s : Session) (now : ℕ)
      → Inv s
      → Inv (stratum_poll F o answers s now)
  unfolding stratum_poll
  stratum_poll-Inv o answers s now v =
      let r = receive-Inv s answers v in
      elim (Bool-cases s.connected) [
        | inr c ↦ simp (c, stratum_poll) (dial-Inv o s now v)
        | inl c ↦ elim (Bool-cases (receive s answers).1) [
          | inr k ↦ simp (c, k, stratum_poll) r.0
          | inl k ↦
              simp (c, k, stratum_poll)
                (run_lines-Inv (receive s answers).0 now [] (receive s answers).0.rx r.0 (r.1 k ∙ c)
                  (omega (arith, r.0.rx_fits)))
        ]
      ]

stratum_submit-Inv :
    (sent : Bool) (s : Session) (job_id en2 ntime nonce : List ℕ)
    → Inv s
    → Inv (stratum_submit sent s job_id en2 ntime nonce).0
unfolding stratum_submit
stratum_submit-Inv sent s job_id en2 ntime nonce v =
    let id = u64 (s.next_id + 1) in
    let t : Session = record s { connected = true; next_id = id } in
    let q : Session = record s {
      connected = true;
      next_id = id;
      shares_submitted = u64 (s.shares_submitted + 1);
    } in
    elim (Bool-cases s.connected) [
      | inr c ↦ simp (c, stratum_submit) v
      | inl c ↦ elim (Bool-cases sent) [
        | inl k ↦
            simp (c, k, stratum_submit)
              (same s q v (refl, refl, refl, refl, refl) (sym c, refl, refl, refl))
        | inr k ↦
            simp (c, k, stratum_submit)
              (drop_session-Inv t
                (same s t v (refl, refl, refl, refl, refl) (sym c, refl, refl, refl)))
      ]
    ]

-- What a session can become, whatever the pool, the resolver, the sockets and the clock do.
pub data Reached (F : Floats) : Session → Type 0 where
  started :
      (host : List ℕ) (port : ℕ) (worker password : List ℕ)
      → Reached F (stratum_init host port worker password)
  polled :
      {s : Session} (o : DialOutcome) (answers : List Recv) (now : ℕ)
      → Reached F s
      → Reached F (stratum_poll F o answers s now)
  submitted :
      {s : Session} (sent : Bool) (job_id en2 ntime nonce : List ℕ)
      → Reached F s
      → Reached F (stratum_submit sent s job_id en2 ntime nonce).0

-- In every session that polls and submissions lead to, the array of extranonce1 keeps its 32 bytes
-- and its length is at most that, the receive buffer is not full, the wait between two attempts is
-- at most 120 seconds, every part of the job fits its array, with all of its branches of 32 bytes,
-- and a session without a connection is neither subscribed nor authorized and has no job.
pub Reached-Inv : (F : Floats) {s : Session} → Reached F s → Inv s
Reached-Inv F (started host port worker password) = stratum_init-Inv host port worker password
Reached-Inv F (polled {s} o answers now r) = stratum_poll-Inv F o answers s now (Reached-Inv F r)
Reached-Inv F (submitted {s} sent job_id en2 ntime nonce r) =
    stratum_submit-Inv sent s job_id en2 ntime nonce (Reached-Inv F r)
