-- ===== src/Stratum/Link.antt =====
-- miner/stratum.c, the connection: `dial`, the reading of the socket and `stratum_poll`. What the
-- resolver and the sockets answer is an argument.
use osprey_blake2b.Base.{
  ℕ, ◌+◌, ◌*◌, ◌-◌, Bool, true, false, not, List, [], ◌∷◌, ◌++◌, Option, none, some, if◌then◌else◌,
  ltb, leb, ◌==◌, u64, length, take,
}
use osprey_blake2b.Stratum.Floats.{Floats}
use osprey_blake2b.Stratum.Session.{Session, drop_session}
use osprey_blake2b.Stratum.Dispatch.{on_line}

abbrev pub backoff_min_s : ℕ
backoff_min_s = 2

abbrev pub backoff_max_s : ℕ
backoff_max_s = 120

-- The size of the array `rx`.
abbrev pub rx_size : ℕ
rx_size = 262144

abbrev pub newline : ℕ
newline = 10

-- What `dial` meets: the answer of `dns_resolve_a`, whether there is a socket, whether the address
-- is a dotted quad, whether the connection stands in time, and whether each line can be sent.
pub record DialOutcome : Type 0 where
  pub resolved : Option (List ℕ)
  pub has_socket : Bool
  pub is_address : Bool
  pub connects : Bool
  pub sends_subscribe : Bool
  pub sends_authorize : Bool
  pub sends_suggest : Bool

unfoldable pub next_backoff : ℕ → ℕ
next_backoff b =
    let doubled = if b == 0 then backoff_min_s else b * 2 in
    if ltb backoff_max_s doubled then backoff_max_s else doubled

unfoldable pub back_off : Session → ℕ → Session
back_off s now =
    let b = next_backoff s.backoff_s in record s { backoff_s = b; retry_at = u64 (now + b) }

-- The three requests behind a connection; each is sent only if the ones before it were.
unfoldable pub send_suggest : DialOutcome → Session → Session
send_suggest o s =
    let t = record s { next_id = u64 (s.next_id + 1); suggest_diff_id = u64 (s.next_id + 1) } in
    if o.sends_suggest then t else drop_session t

unfoldable pub send_authorize : DialOutcome → Session → Session
send_authorize o s =
    let t = record s { next_id = u64 (s.next_id + 1); auth_id = u64 (s.next_id + 1) } in
    if o.sends_authorize then send_suggest o t else drop_session t

unfoldable pub send_subscribe : DialOutcome → Session → Session
send_subscribe o s =
    let t = record s { next_id = u64 (s.next_id + 1); sub_id = u64 (s.next_id + 1) } in
    if o.sends_subscribe then send_authorize o t else drop_session t

unfoldable pub connected_session : Session → Session
connected_session s = record s {
  connected = true;
  rx = [];
  backoff_s = 0;
  reconnects = u64 (s.reconnects + 1);
}

-- The part of `dial` behind the resolution. `own` says that the address is the configured one's.
unfoldable pub connect_to : DialOutcome → Bool → Session → ℕ → Session
connect_to o own s now =
    if not o.has_socket
    then s
    else if not o.is_address
    then (if own then record s { addr = [] } else s)
    else if not o.connects
    then back_off s now
    else send_subscribe o (connected_session s)

-- A redirect resolves into an address of its own, and is consumed by this attempt.
unfoldable pub dial_redirect : DialOutcome → Session → ℕ → Session
dial_redirect o s now =
    let t = record s { reconnect_pending = false } in
    elim o.resolved [ none ↦ back_off t now | some a ↦ connect_to o false t now ]

unfoldable pub dial_own : DialOutcome → Session → ℕ → Session
dial_own o s now = elim s.addr [
  | c ∷ cs ↦ connect_to o true s now
  | [] ↦ elim o.resolved [
    | none ↦ back_off (record s { addr = [] }) now
    | some a ↦ connect_to o true (record s { addr = a }) now
  ]
]

unfoldable pub dial : DialOutcome → Session → ℕ → Session
dial o s now =
    if ltb now s.retry_at
    then s
    else if s.reconnect_pending
    then dial_redirect o s now
    else dial_own o s now

-- The answers of `recv`, up to the one that says that no more bytes wait.
pub data Recv : Type 0 where
  bytes : List ℕ → Recv
  interrupted : Recv
  closed : Recv
  failed : Recv

unfoldable pub is_full : Session → Bool
is_full s = leb rx_size (length s.rx + 1)

-- The receiving loop; `false` says that it returned from `stratum_poll`.
unfoldable pub receive : Session → List Recv → Session × Bool
receive s [] = if is_full s then (drop_session s, false) else (s, true)
receive s (bytes b ∷ answers) =
    let rest = receive (record s { rx = s.rx ++ take (rx_size - length s.rx - 1) b }) answers in
    if is_full s then (drop_session s, false) else rest
receive s (interrupted ∷ answers) =
    let rest = receive s answers in if is_full s then (drop_session s, false) else rest
receive s (closed ∷ answers) = (drop_session s, false)
receive s (failed ∷ answers) = (drop_session s, false)

-- A text up to its first NUL.
unfoldable pub c_text : List ℕ → List ℕ
c_text [] = []
c_text (c ∷ p) = elim (c == 0) [ true ↦ [] | false ↦ c ∷ c_text p ]

module _ (F : Floats) where
  -- `if (nl > start) on_line(...)`; the handler sees the line up to its first NUL.
  unfoldable pub take_line : Session → List ℕ → ℕ → Session
  take_line s [] now = s
  take_line s (c ∷ line) now = on_line F s (c_text (c ∷ line)) now

  -- The loop over the lines of a text; `line` is what stands since the last newline. What is left
  -- at the end stays in the buffer.
  unfoldable pub run_lines : Session → ℕ → List ℕ → List ℕ → Session
  run_lines s now line [] = record s { rx = line }
  run_lines s now line (c ∷ text) = elim (c == newline) [
    | false ↦ run_lines s now (line ++ (c ∷ [])) text
    | true ↦
        let t = take_line s line now in
        elim t.connected [ true ↦ run_lines t now [] text | false ↦ t ]
  ]

  unfoldable pub stratum_poll : DialOutcome → List Recv → Session → ℕ → Session
  stratum_poll o answers s now =
      let r = receive s answers in
      if not s.connected then dial o s now else if r.1 then run_lines r.0 now [] r.0.rx else r.0
