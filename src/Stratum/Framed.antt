-- ===== src/Stratum/Framed.antt =====
-- miner/stratum.c: the handlers of a line leave the receive buffer alone, but for the loss of the
-- connection.
use osprey_blake2b.Base.{
  ℕ, ◌≡◌, refl, true, ◌||◌, List, Option, none, some, inl, inr, if◌then◌else◌, ◌==◌, Bool-cases,
  Option-cases,
}
use osprey_blake2b.Base.Text.{codes}
use osprey_blake2b.Stratum.Json.{js_get, js_elem, js_str, match_key}
use osprey_blake2b.Stratum.Floats.{Floats}
use osprey_blake2b.Stratum.Session.{Session, drop_session}
use osprey_blake2b.Stratum.Lines.{js_hex_into, js_str_into, parse_job, on_notify}
use osprey_blake2b.Stratum.Dispatch.{
  rotated_size, is_array, is_true, put_extranonce1, js_num, put_subscription, on_subscribe,
  set_difficulty, set_extranonce, reconnect_to, client_reconnect, on_method, on_reply, on_line,
}

-- Another buffer, unless the connection is lost.
abbrev pub with_rx : List ℕ → Session → Session
with_rx x s = if s.connected then record s { rx = x } else s

on_notify-rx :
    (x : List ℕ) (s : Session) (p : List ℕ)
    → s.connected ≡ true
    → on_notify (record s { rx = x }) p ≡ with_rx x (on_notify s p)
unfolding on_notify
on_notify-rx x s p c = elim (Option-cases (parse_job p s.job.seq)) [
  | inl e ↦ simp (e, c, on_notify)
  | inr (j, e) ↦ simp (e, c, on_notify)
]

put_extranonce1-rx :
    (x : List ℕ) (s : Session) (v : List ℕ)
    → put_extranonce1 (record s { rx = x }) v
      ≡ (record (put_extranonce1 s v).0 { rx = x }, (put_extranonce1 s v).1)
unfolding put_extranonce1
put_extranonce1-rx x s v = elim (Option-cases (js_hex_into v 32 s.extranonce1).1) [
  | inl e ↦ simp (e, put_extranonce1)
  | inr (n, e) ↦ simp (e, put_extranonce1)
]

put_extranonce1-live :
    (s : Session) (v : List ℕ) → s.connected ≡ true → (put_extranonce1 s v).0.connected ≡ true
unfolding put_extranonce1
put_extranonce1-live s v c = elim (Option-cases (js_hex_into v 32 s.extranonce1).1) [
  | inl e ↦ simp (e, put_extranonce1) c
  | inr (n, e) ↦ simp (e, put_extranonce1) c
]

module _ (F : Floats) where
  put_subscription-rx :
      (x : List ℕ) (s : Session) (en sz : List ℕ)
      → s.connected ≡ true
      → put_subscription F (record s { rx = x }) en sz ≡ with_rx x (put_subscription F s en sz)
  unfolding put_subscription
  put_subscription-rx x s en sz c =
      let d = put_extranonce1-live s en c in
      elim (Bool-cases (put_extranonce1 s en).1) [
        | inr e ↦ simp (put_extranonce1-rx x s en, e, d, put_subscription)
        | inl e ↦
            elim (Bool-cases
              (F.less (js_num F sz) (F.constant 1) || F.less (F.constant 32) (js_num F sz))) [
                | inl b ↦ simp (put_extranonce1-rx x s en, e, b, d, put_subscription)
                | inr b ↦ simp (put_extranonce1-rx x s en, e, b, d, put_subscription)
              ]
      ]

  on_subscribe-rx :
      (x : List ℕ) (s : Session) (p : List ℕ)
      → s.connected ≡ true
      → on_subscribe F (record s { rx = x }) p ≡ with_rx x (on_subscribe F s p)
  unfolding on_subscribe
  on_subscribe-rx x s p c = elim (Option-cases (js_elem p 1)) [
    | inl a ↦ simp (a, c, on_subscribe)
    | inr (en, a) ↦ elim (Option-cases (js_elem p 2)) [
      | inl b ↦ simp (a, b, c, on_subscribe)
      | inr (sz, b) ↦ simp (a, b, on_subscribe) (put_subscription-rx x s en sz c)
    ]
  ]

  set_difficulty-rx :
      (x : List ℕ) (s : Session) (p : List ℕ)
      → s.connected ≡ true
      → set_difficulty F (record s { rx = x }) p ≡ with_rx x (set_difficulty F s p)
  unfolding set_difficulty
  set_difficulty-rx x s p c = elim (Option-cases (js_elem p 0)) [
    | inl a ↦ simp (a, c, set_difficulty)
    | inr (d, a) ↦ simp (a, c, set_difficulty)
  ]

  rotated_size-rx :
      (x : List ℕ) (s : Session) (z : Option (List ℕ))
      → rotated_size F (record s { rx = x }) z ≡ rotated_size F s z
  unfolding rotated_size
  rotated_size-rx x s none = refl
  rotated_size-rx x s (some z) = refl

  set_extranonce-rx :
      (x : List ℕ) (s : Session) (p : List ℕ)
      → s.connected ≡ true
      → set_extranonce F (record s { rx = x }) p ≡ with_rx x (set_extranonce F s p)
  unfolding set_extranonce
  set_extranonce-rx x s p c = elim (Option-cases (js_elem p 0)) [
    | inl a ↦ simp (a, c, set_extranonce)
    | inr (e, a) ↦
        let d = put_extranonce1-live s e c in
        elim (Bool-cases (put_extranonce1 s e).1) [
          | inr b ↦ simp (a, put_extranonce1-rx x s e, b, d, set_extranonce)
          | inl b ↦
              simp (
                a,
                put_extranonce1-rx x s e,
                b,
                d,
                rotated_size-rx x s (js_elem p 1),
                set_extranonce,
              )
        ]
  ]

  reconnect_to-rx :
      (x : List ℕ) (s : Session) (now : ℕ) (p h : List ℕ)
      → reconnect_to F (record s { rx = x }) now p h ≡ record (reconnect_to F s now p h) { rx = x }
  unfolding reconnect_to
  reconnect_to-rx x s now p h = elim (Bool-cases (js_str_into h 128 s.reconnect_host).1) [
    | inl b ↦ simp (b, reconnect_to)
    | inr b ↦ simp (b, reconnect_to)
  ]

  client_reconnect-rx :
      (x : List ℕ) (s : Session) (now : ℕ) (p : List ℕ)
      → client_reconnect F (record s { rx = x }) now p ≡ with_rx x (client_reconnect F s now p)
  unfolding client_reconnect drop_session
  client_reconnect-rx x s now p = elim (Option-cases (js_elem p 0)) [
    | inl a ↦ simp (a, client_reconnect, drop_session)
    | inr (h, a) ↦ simp (a, reconnect_to-rx x s now p h, client_reconnect, drop_session)
  ]

  on_method-rx :
      (x : List ℕ) (s : Session) (now : ℕ) (m p : List ℕ)
      → s.connected ≡ true
      → on_method F (record s { rx = x }) now m p ≡ with_rx x (on_method F s now m p)
  unfolding on_method
  on_method-rx x s now m p c = elim (Bool-cases (match_key m (codes "mining.notify"))) [
    | inl a ↦ simp (a, on_method) (on_notify-rx x s p c)
    | inr a ↦ elim (Bool-cases (match_key m (codes "mining.set_difficulty"))) [
      | inl b ↦ simp (a, b, on_method) (set_difficulty-rx x s p c)
      | inr b ↦ elim (Bool-cases (match_key m (codes "mining.set_extranonce"))) [
        | inl d ↦ simp (a, b, d, on_method) (set_extranonce-rx x s p c)
        | inr d ↦ elim (Bool-cases (match_key m (codes "client.reconnect"))) [
          | inl e ↦ simp (a, b, d, e, on_method) (client_reconnect-rx x s now p)
          | inr e ↦ simp (a, b, d, e, c, on_method)
        ]
      ]
    ]
  ]

  on_reply-rx :
      (x : List ℕ) (s : Session) (id : ℕ) (res : Option (List ℕ))
      → s.connected ≡ true
      → on_reply F (record s { rx = x }) id res ≡ with_rx x (on_reply F s id res)
  unfolding on_reply
  on_reply-rx x s id res c = elim (Bool-cases (id == s.sub_id)) [
    | inl a ↦ elim (Option-cases res) [
      | inl r ↦ simp (a, r, c, on_reply)
      | inr (l, r) ↦ elim (Bool-cases (is_array l)) [
        | inl b ↦ simp (a, r, b, on_reply) (on_subscribe-rx x s l c)
        | inr b ↦ simp (a, r, b, c, on_reply)
      ]
    ]
    | inr a ↦ elim (Bool-cases (id == s.auth_id)) [
      | inl b ↦ simp (a, b, c, on_reply)
      | inr b ↦ elim (Bool-cases (id == s.suggest_diff_id)) [
        | inl d ↦ simp (a, b, d, c, on_reply)
        | inr d ↦ elim (Bool-cases (is_true res)) [
          | inl e ↦ simp (a, b, d, e, c, on_reply)
          | inr e ↦ simp (a, b, d, e, c, on_reply)
        ]
      ]
    ]
  ]

  -- A handler takes a session with another buffer to what it takes the session to, with that buffer
  -- unless the connection is lost.
  pub on_line-rx :
      (x : List ℕ) (s : Session) (line : List ℕ) (now : ℕ)
      → s.connected ≡ true
      → on_line F (record s { rx = x }) line now ≡ with_rx x (on_line F s line now)
  unfolding on_line
  on_line-rx x s line now c = elim (Option-cases (js_get line (codes "method"))) [
    | inr (meth, a) ↦ elim (Option-cases (js_str meth 64)) [
      | inl b ↦ simp (a, b, c, on_line)
      | inr (m, b) ↦ elim (Option-cases (js_get line (codes "params"))) [
        | inl d ↦ simp (a, b, d, c, on_line)
        | inr (p, d) ↦ simp (a, b, d, on_line) (on_method-rx x s now m p c)
      ]
    ]
    | inl a ↦ elim (Option-cases (js_get line (codes "id"))) [
      | inl b ↦ simp (a, b, c, on_line)
      | inr (i, b) ↦
          simp (a, b, on_line)
            (on_reply-rx x s (F.to_u64 (js_num F i)) (js_get line (codes "result")) c)
    ]
  ]
