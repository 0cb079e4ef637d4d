-- ===== src/Stratum/Invariant.antt =====
-- The invariant of a session, its start, and the reading of extranonce1.
pub mod Handlers
use osprey_blake2b.Base.{
  true≢false, ℕ, ◌+◌, ◌/◌, ◌%◌, ◌≤◌, ◌<◌, ◌≡◌, ◌≢◌, inl, inr, refl, sym, ◌∙◌, arith, Bool, true,
  false, List, [], ◌∷◌, none, some, if◌then◌else◌, ltb, ◌==◌, ◌||◌, Bool-cases, Option-cases,
  length, length-set, set, none≢some, some-injective,
}
use osprey_blake2b.Base.Text.{codes}
use osprey_blake2b.Coinbase.{hexval, hex_byte}
use osprey_blake2b.Stratum.Json.{js_elem, js_str, hex_buf_size, match_key}
use osprey_blake2b.Stratum.Floats.{Floats}
use osprey_blake2b.Stratum.Parsed.{IsJob, ltb-false→le, parse_job-IsJob}
use osprey_blake2b.Stratum.Session.{Session, stratum_init, drop_session}
use osprey_blake2b.Stratum.Lines.{hex_into, js_hex_into, js_str_into, parse_job, on_notify}
use osprey_blake2b.Stratum.Dispatch.{
  put_extranonce1, put_subscription, on_subscribe, set_difficulty, set_extranonce, reconnect_to,
  client_reconnect, on_method, js_num,
}
use osprey_blake2b.Stratum.Link.{rx_size}

pub record Inv (s : Session) : Type 0 where
  pub extranonce1_size : length s.extranonce1 ≡ 32
  pub en1_len : s.en1_len ≤ 32
  pub job : IsJob s.job
  pub backoff : s.backoff_s ≤ 120
  pub rx_fits : length s.rx < rx_size
  pub down :
      s.connected ≡ false → (s.subscribed ≡ false) × (s.authorized ≡ false) × (s.have_job ≡ false)

pub stratum_init-Inv :
    (host : List ℕ) (port : ℕ) (worker password : List ℕ)
    → Inv (stratum_init host port worker password)
unfolding stratum_init
stratum_init-Inv host port worker password = record {
  extranonce1_size = refl;
  en1_len = omega arith;
  job = record {
    job_id = omega arith;
    prevhash = refl;
    coinb1 = omega arith;
    coinb2 = omega arith;
    few_branches = omega arith;
    branches = tt;
    ntime = refl;
  };
  backoff = omega arith;
  rx_fits = omega arith;
  down = λ e. (refl, refl, refl);
}

pub drop_session-Inv : (s : Session) → Inv s → Inv (drop_session s)
unfolding drop_session
drop_session-Inv s v = record {
  extranonce1_size = v.extranonce1_size;
  en1_len = v.en1_len;
  job = v.job;
  backoff = v.backoff;
  rx_fits = omega arith;
  down = λ e. (refl, refl, refl);
}

length-hex_into : (i : ℕ) (cs out : List ℕ) → length (hex_into i cs out).0 ≡ length out
unfolding hex_into
length-hex_into i [] out = refl
length-hex_into i (c ∷ []) out = refl
length-hex_into i (c ∷ (d ∷ cs)) out = elim (Option-cases (hexval c)) [
  | inl h ↦ simp (h, hex_into)
  | inr (hi, h) ↦ elim (Option-cases (hexval d)) [
    | inl l ↦ simp (h, l, hex_into)
    | inr (lo, l) ↦
        simp (h, l, hex_into)
          (length-hex_into (i + 1) cs (set out i (hex_byte hi lo))
            ∙ length-set out i (hex_byte hi lo))
  ]
]

-- What `js_hex` leaves in an array, and the length that it gives.
js_hex_into-sizes :
    (v : List ℕ) (n : ℕ) (out : List ℕ)
    → (length (js_hex_into v n out).0 ≡ length out)
      × ((k : ℕ) → (js_hex_into v n out).1 ≡ some k → k ≤ n)
unfolding js_hex_into
js_hex_into-sizes v n out = elim (Option-cases (js_str v hex_buf_size)) [
  | inl t ↦ simp (t, js_hex_into) (refl, λ k e. absurd (none≢some e))
  | inr (buf, t) ↦ elim (Bool-cases ((length buf % 2) == 0)) [
    | inr w ↦ simp (t, w, js_hex_into) (refl, λ k e. absurd (none≢some e))
    | inl w ↦ elim (Bool-cases (ltb n (length buf / 2))) [
      | inl l ↦ simp (t, w, l, js_hex_into) (refl, λ k e. absurd (none≢some e))
      | inr l ↦
          simp (t, w, l, js_hex_into)
            (
              length-hex_into 0 buf out,
              λ k e.
                  given (length buf / 2) n k (hex_into 0 buf out).1
                    (ltb-false→le n (length buf / 2) l) e,
            )
    ]
  ]
]
  where
    given : (m n k : ℕ) (b : Bool) → m ≤ n → (if b then some m else none) ≡ some k → k ≤ n
    given m n k true h e = omega (arith, h, some-injective e)
    given m n k false h e = absurd (none≢some e)

pub put_extranonce1-Inv : (s : Session) (v : List ℕ) → Inv s → Inv (put_extranonce1 s v).0
unfolding put_extranonce1
put_extranonce1-Inv s v h =
    let r = js_hex_into-sizes v 32 s.extranonce1 in
    elim (Option-cases (js_hex_into v 32 s.extranonce1).1) [
      | inl e ↦
          simp (e, put_extranonce1)
            (record {
              extranonce1_size = r.0 ∙ h.extranonce1_size;
              en1_len = h.en1_len;
              job = h.job;
              backoff = h.backoff;
              rx_fits = h.rx_fits;
              down = h.down;
            })
      | inr (n, e) ↦
          simp (e, put_extranonce1)
            (record {
              extranonce1_size = r.0 ∙ h.extranonce1_size;
              en1_len = r.1 n e;
              job = h.job;
              backoff = h.backoff;
              rx_fits = h.rx_fits;
              down = h.down;
            })
    ]

-- Of a live session the last part says nothing, so a handler may set what it likes of it.
pub live : {A : Type 0} (s : Session) → s.connected ≡ true → s.connected ≡ false → A
live s c d = absurd (true≢false (sym c ∙ d))
