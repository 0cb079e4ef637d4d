-- ===== src/Stratum/Dispatch.antt =====
-- miner/stratum.c, `on_subscribe` and `on_line`: what a line of the pool does to the session.
-- `strtod` and the arithmetic on its results are the argument `F`.
use osprey_blake2b.Base.{
  ℕ, ◌+◌, Bool, true, false, ◌&&◌, ◌||◌, not, List, [], ◌∷◌, Option, none, some, if◌then◌else◌,
  ◌==◌, u64,
}
use osprey_blake2b.Base.Text.{codes}
use osprey_blake2b.Stratum.Job.{stratum_max_en1, stratum_max_en2}
use osprey_blake2b.Stratum.Json.{js_ws, js_get, js_elem, js_str, js_true, match_key}
use osprey_blake2b.Stratum.Floats.{Floats}
use osprey_blake2b.Stratum.Session.{Session, drop_session}
use osprey_blake2b.Stratum.Lines.{js_hex_into, js_str_into, on_notify}

-- `*js_ws(v) == '['`.
unfoldable pub is_array : List ℕ → Bool
is_array v = elim (js_ws v) [ [] ↦ false | c ∷ p ↦ c == b'[' ]

-- `res && js_true(res)`.
unfoldable pub is_true : Option (List ℕ) → Bool
is_true none = false
is_true (some v) = js_true v

-- `js_hex` into `extranonce1`; the length moves with a success only.
unfoldable pub put_extranonce1 : Session → List ℕ → Session × Bool
put_extranonce1 s v =
    let r = js_hex_into v stratum_max_en1 s.extranonce1 in
    elim r.1 [
      | none ↦ (record s { extranonce1 = r.0 }, false)
      | some n ↦ (record s { extranonce1 = r.0; en1_len = n }, true)
    ]

module _ (F : Floats) where
  unfoldable pub js_num : List ℕ → F.Double
  js_num v = F.strtod (js_ws v)

  unfoldable pub put_subscription : Session → List ℕ → List ℕ → Session
  put_subscription s en1 sz =
      let r = put_extranonce1 s en1 in
      let n = js_num sz in
      if not r.1
      then r.0
      else if F.less n (F.constant 1) || F.less (F.constant stratum_max_en2) n
      then r.0
      else record r.0 { en2_size = F.to_u64 n; subscribed = true }

  unfoldable pub on_subscribe : Session → List ℕ → Session
  on_subscribe s result = elim (js_elem result 1) [
    | none ↦ s
    | some en1 ↦ elim (js_elem result 2) [ none ↦ s | some sz ↦ put_subscription s en1 sz ]
  ]

  unfoldable pub set_difficulty : Session → List ℕ → Session
  set_difficulty s params = elim (js_elem params 0) [
    | none ↦ s
    | some d ↦ record s { dscaled = F.scaled (js_num d) }
  ]

  -- The size that `mining.set_extranonce` may bring; `n >= 1 && n <= 32` is false of a NaN.
  unfoldable pub rotated_size : Session → Option (List ℕ) → ℕ
  rotated_size s none = s.en2_size
  rotated_size s (some z) =
      let n = js_num z in
      let at_least = F.less (F.constant 1) n || F.equal (F.constant 1) n in
      let at_most =
        F.less n (F.constant stratum_max_en2) || F.equal n (F.constant stratum_max_en2) in
      if at_least && at_most then F.to_u64 n else s.en2_size

  unfoldable pub set_extranonce : Session → List ℕ → Session
  set_extranonce s params = elim (js_elem params 0) [
    | none ↦ s
    | some e ↦
        let r = put_extranonce1 s e in
        if r.1
        then record r.0 { en2_size = rotated_size s (js_elem params 1); have_job = false }
        else r.0
  ]

  -- The wait of `client.reconnect`, from 0 to 300 seconds.
  unfoldable pub reconnect_wait : Option (List ℕ) → F.Double
  reconnect_wait none = F.constant 0
  reconnect_wait (some w) =
      let n = js_num w in
      let low = if F.less n (F.constant 0) then F.constant 0 else n in
      if F.less (F.constant 300) low then F.constant 300 else low

  unfoldable pub reconnect_to : Session → ℕ → List ℕ → List ℕ → Session
  reconnect_to s now params h =
      let r = js_str_into h 128 s.reconnect_host in
      if r.1
      then record s {
        reconnect_host = r.0;
        reconnect_port = elim (js_elem params 1) [ none ↦ s.port | some p ↦ F.to_int (js_num p) ];
        reconnect_pending = true;
        addr = [];
        retry_at = u64 (now + F.to_u64 (reconnect_wait (js_elem params 2)));
      }
      else record s { reconnect_host = r.0 }

  unfoldable pub client_reconnect : Session → ℕ → List ℕ → Session
  client_reconnect s now params =
      drop_session (elim (js_elem params 0) [ none ↦ s | some h ↦ reconnect_to s now params h ])

  unfoldable pub on_method : Session → ℕ → List ℕ → List ℕ → Session
  on_method s now m params =
      if match_key m (codes "mining.notify")
      then on_notify s params
      else if match_key m (codes "mining.set_difficulty")
      then set_difficulty s params
      else if match_key m (codes "mining.set_extranonce")
      then set_extranonce s params
      else if match_key m (codes "client.reconnect")
      then client_reconnect s now params
      else s

  -- The reply to the request `id`. The text of a rejection is for the log.
  unfoldable pub on_reply : Session → ℕ → Option (List ℕ) → Session
  on_reply s id res =
      if id == s.sub_id
      then elim res [ none ↦ s | some r ↦ if is_array r then on_subscribe s r else s ]
      else if id == s.auth_id
      then record s { authorized = is_true res }
      else if id == s.suggest_diff_id
      then s
      else if is_true res
      then record s { shares_accepted = u64 (s.shares_accepted + 1) }
      else record s { shares_rejected = u64 (s.shares_rejected + 1) }

  unfoldable pub on_line : Session → List ℕ → ℕ → Session
  on_line s line now = elim (js_get line (codes "method")) [
    | some meth ↦ elim (js_str meth 64) [
      | none ↦ s
      | some m ↦ elim (js_get line (codes "params")) [
        | none ↦ s
        | some params ↦ on_method s now m params
      ]
    ]
    | none ↦ elim (js_get line (codes "id")) [
      | none ↦ s
      | some idv ↦ on_reply s (F.to_u64 (js_num idv)) (js_get line (codes "result"))
    ]
  ]
