-- ===== src/Stratum/Invariant/Handlers.antt =====
-- miner/stratum.c: the handlers of a line keep the invariant of a session.
use osprey_blake2b.Base.{ℕ, ◌≡◌, inl, inr, ◌∙◌, true, List, ◌||◌, Bool-cases, Option-cases}
use osprey_blake2b.Base.Text.{codes}
use osprey_blake2b.Stratum.Json.{js_elem, match_key}
use osprey_blake2b.Stratum.Floats.{Floats}
use osprey_blake2b.Stratum.Parsed.{parse_job-IsJob}
use osprey_blake2b.Stratum.Session.{Session}
use osprey_blake2b.Stratum.Lines.{js_hex_into, js_str_into, parse_job, on_notify}
use osprey_blake2b.Stratum.Dispatch.{
  put_extranonce1, put_subscription, on_subscribe, set_difficulty, set_extranonce, reconnect_to,
  client_reconnect, on_method, js_num,
}
use osprey_blake2b.Stratum.Invariant.{Inv, drop_session-Inv, put_extranonce1-Inv, live}

on_notify-Inv : (s : Session) (p : List ℕ) → Inv s → s.connected ≡ true → Inv (on_notify s p)
unfolding on_notify
on_notify-Inv s p v c = elim (Option-cases (parse_job p s.job.seq)) [
  | inl e ↦ simp (e, on_notify) v
  | inr (j, e) ↦
      simp (e, on_notify)
        (record {
          extranonce1_size = v.extranonce1_size;
          en1_len = v.en1_len;
          job = (parse_job-IsJob p s.job.seq j e).0;
          backoff = v.backoff;
          rx_fits = v.rx_fits;
          down = live s c;
        })
]

put_extranonce1-connected :
    (s : Session) (v : List ℕ) → (put_extranonce1 s v).0.connected ≡ s.connected
unfolding put_extranonce1
put_extranonce1-connected s v = elim (Option-cases (js_hex_into v 32 s.extranonce1).1) [
  | inl e ↦ simp (e, put_extranonce1)
  | inr (n, e) ↦ simp (e, put_extranonce1)
]

module _ (F : Floats) where
  put_subscription-Inv :
      (s : Session) (en sz : List ℕ) → Inv s → s.connected ≡ true → Inv (put_subscription F s en sz)
  unfolding put_subscription
  put_subscription-Inv s en sz v c =
      let r = (put_extranonce1 s en).0 in
      let h = put_extranonce1-Inv s en v in
      let d = put_extranonce1-connected s en ∙ c in
      elim (Bool-cases (put_extranonce1 s en).1) [
        | inr e ↦ simp (e, put_subscription) h
        | inl e ↦
            elim (Bool-cases
              (F.less (js_num F sz) (F.constant 1) || F.less (F.constant 32) (js_num F sz))) [
                | inl b ↦ simp (e, b, put_subscription) h
                | inr b ↦
                    simp (e, b, put_subscription)
                      (record {
                        extranonce1_size = h.extranonce1_size;
                        en1_len = h.en1_len;
                        job = h.job;
                        backoff = h.backoff;
                        rx_fits = h.rx_fits;
                        down = live r d;
                      })
              ]
      ]

  pub on_subscribe-Inv :
      (s : Session) (p : List ℕ) → Inv s → s.connected ≡ true → Inv (on_subscribe F s p)
  unfolding on_subscribe
  on_subscribe-Inv s p v c = elim (Option-cases (js_elem p 1)) [
    | inl a ↦ simp (a, on_subscribe) v
    | inr (en, a) ↦ elim (Option-cases (js_elem p 2)) [
      | inl b ↦ simp (a, b, on_subscribe) v
      | inr (sz, b) ↦ simp (a, b, on_subscribe) (put_subscription-Inv s en sz v c)
    ]
  ]

  set_difficulty-Inv : (s : Session) (p : List ℕ) → Inv s → Inv (set_difficulty F s p)
  unfolding set_difficulty
  set_difficulty-Inv s p v = elim (Option-cases (js_elem p 0)) [
    | inl a ↦ simp (a, set_difficulty) v
    | inr (d, a) ↦
        simp (a, set_difficulty)
          (record {
            extranonce1_size = v.extranonce1_size;
            en1_len = v.en1_len;
            job = v.job;
            backoff = v.backoff;
            rx_fits = v.rx_fits;
            down = v.down;
          })
  ]

  set_extranonce-Inv :
      (s : Session) (p : List ℕ) → Inv s → s.connected ≡ true → Inv (set_extranonce F s p)
  unfolding set_extranonce
  set_extranonce-Inv s p v c = elim (Option-cases (js_elem p 0)) [
    | inl a ↦ simp (a, set_extranonce) v
    | inr (e, a) ↦
        let r = (put_extranonce1 s e).0 in
        let h = put_extranonce1-Inv s e v in
        let d = put_extranonce1-connected s e ∙ c in
        elim (Bool-cases (put_extranonce1 s e).1) [
          | inr b ↦ simp (a, b, set_extranonce) h
          | inl b ↦
              simp (a, b, set_extranonce)
                (record {
                  extranonce1_size = h.extranonce1_size;
                  en1_len = h.en1_len;
                  job = h.job;
                  backoff = h.backoff;
                  rx_fits = h.rx_fits;
                  down = live r d;
                })
        ]
  ]

  reconnect_to-Inv : (s : Session) (now : ℕ) (p h : List ℕ) → Inv s → Inv (reconnect_to F s now p h)
  unfolding reconnect_to
  reconnect_to-Inv s now p h v = elim (Bool-cases (js_str_into h 128 s.reconnect_host).1) [
    | inl b ↦
        simp (b, reconnect_to)
          (record {
            extranonce1_size = v.extranonce1_size;
            en1_len = v.en1_len;
            job = v.job;
            backoff = v.backoff;
            rx_fits = v.rx_fits;
            down = v.down;
          })
    | inr b ↦
        simp (b, reconnect_to)
          (record {
            extranonce1_size = v.extranonce1_size;
            en1_len = v.en1_len;
            job = v.job;
            backoff = v.backoff;
            rx_fits = v.rx_fits;
            down = v.down;
          })
  ]

  client_reconnect-Inv :
      (s : Session) (now : ℕ) (p : List ℕ) → Inv s → Inv (client_reconnect F s now p)
  unfolding client_reconnect
  client_reconnect-Inv s now p v = elim (Option-cases (js_elem p 0)) [
    | inl a ↦ simp (a, client_reconnect) (drop_session-Inv s v)
    | inr (h, a) ↦
        simp (a, client_reconnect)
          (drop_session-Inv (reconnect_to F s now p h) (reconnect_to-Inv s now p h v))
  ]

  pub on_method-Inv :
      (s : Session) (now : ℕ) (m p : List ℕ)
      → Inv s
      → s.connected ≡ true
      → Inv (on_method F s now m p)
  unfolding on_method
  on_method-Inv s now m p v c = elim (Bool-cases (match_key m (codes "mining.notify"))) [
    | inl a ↦ simp (a, on_method) (on_notify-Inv s p v c)
    | inr a ↦ elim (Bool-cases (match_key m (codes "mining.set_difficulty"))) [
      | inl b ↦ simp (a, b, on_method) (set_difficulty-Inv s p v)
      | inr b ↦ elim (Bool-cases (match_key m (codes "mining.set_extranonce"))) [
        | inl d ↦ simp (a, b, d, on_method) (set_extranonce-Inv s p v c)
        | inr d ↦ elim (Bool-cases (match_key m (codes "client.reconnect"))) [
          | inl e ↦ simp (a, b, d, e, on_method) (client_reconnect-Inv s now p v)
          | inr e ↦ simp (a, b, d, e, on_method) v
        ]
      ]
    ]
  ]
