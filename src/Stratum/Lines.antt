-- ===== src/Stratum/Lines.antt =====
-- miner/stratum.c: the job of a `mining.notify`, and the reading of texts into arrays.
use osprey_blake2b.Base.{
  ℕ, zero, suc, ◌+◌, ◌/◌, ◌%◌, Bool, true, false, ◌||◌, not, List, [], ◌∷◌, ◌++◌, Option, none,
  some, if◌then◌else◌, ltb, leb, ◌==◌, ◌>>=◌, ◌>>◌, guard, length, set, u64,
}
use osprey_blake2b.Base.Bytes.{le_value, blit}
use osprey_blake2b.Coinbase.{hexval, hex_byte}
use osprey_blake2b.Stratum.Job.{StratumJob, stratum_max_cb, stratum_max_branches}
use osprey_blake2b.Stratum.Json.{
  quote, js_ws, js_elem, js_count, js_str, js_hex, js_true, hex_buf_size, copy_string,
}
use osprey_blake2b.Stratum.Session.{Session}

-- The loop of `js_hex` into an array, from byte `i` on: what is written before a bad digit stays
-- written.
unfoldable pub hex_into : ℕ → List ℕ → List ℕ → List ℕ × Bool
hex_into i [] out = (out, true)
hex_into i (c ∷ []) out = (out, true)
hex_into i (c ∷ (d ∷ cs)) out = elim (hexval c) [
  | none ↦ (out, false)
  | some hi ↦ elim (hexval d) [
    | none ↦ (out, false)
    | some lo ↦ hex_into (i + 1) cs (set out i (hex_byte hi lo))
  ]
]

-- `js_hex` into an array of `maxlen` bytes: the array behind it, and the length or the failure.
unfoldable pub js_hex_into : List ℕ → ℕ → List ℕ → List ℕ × Option ℕ
js_hex_into v maxlen out = elim (js_str v hex_buf_size) [
  | none ↦ (out, none)
  | some buf ↦
      let r = hex_into 0 buf out in
      if not ((length buf % 2) == 0)
      then (out, none)
      else if ltb maxlen (length buf / 2)
      then (out, none)
      else (r.0, if r.1 then some (length buf / 2) else none)
]

-- The copy of `js_str` into an array: the characters up to the quote, the end or a full array.
unfoldable pub copied : ℕ → ℕ → List ℕ → List ℕ
copied o outlen [] = []
copied o outlen (c ∷ v) = elim (c == quote || leb outlen (o + 1)) [
  | true ↦ []
  | false ↦ c ∷ copied (o + 1) outlen v
]

-- `js_str` into an array of `outlen` bytes.
unfoldable pub js_str_into : List ℕ → ℕ → List ℕ → List ℕ × Bool
js_str_into v outlen out = elim (js_ws v) [
  | [] ↦ (out, false)
  | c ∷ p ↦
      if c == quote
      then elim (copy_string 0 outlen p) [
        | none ↦ (blit out 0 (copied 0 outlen p), false)
        | some s ↦ (blit out 0 (s ++ (0 ∷ [])), true)
      ]
      else (out, false)
]

unfoldable pub exact_hex : ℕ → List ℕ → Option (List ℕ)
exact_hex n v = elim (js_hex v n) [
  | none ↦ none
  | some bs ↦ if length bs == n then some bs else none
]

-- The loop over the merkle branches, from element `i` on with `n` left.
unfoldable pub parse_branches : List ℕ → ℕ → ℕ → Option (List (List ℕ))
parse_branches p i zero = some []
parse_branches p i (suc n) = do
  v ← js_elem p i
  b ← exact_hex 32 v
  bs ← parse_branches p (i + 1) n
  some (b ∷ bs)

-- A job, or nothing where the message is ignored. `nbits` is put together from four bytes, the
-- lowest first.
unfoldable pub parse_job : List ℕ → ℕ → Option StratumJob
parse_job params last_seq = do
  n ← js_count params
  guard (leb 9 n)
  p_job ← js_elem params 0
  p_prev ← js_elem params 1
  p_cb1 ← js_elem params 2
  p_cb2 ← js_elem params 3
  p_br ← js_elem params 4
  p_bits ← js_elem params 6
  p_ntime ← js_elem params 7
  job_id ← js_str p_job 64
  prevhash ← exact_hex 32 p_prev
  coinb1 ← js_hex p_cb1 stratum_max_cb
  coinb2 ← js_hex p_cb2 stratum_max_cb
  nb ← js_count p_br
  guard (leb nb stratum_max_branches)
  branches ← parse_branches p_br 0 nb
  ntime ← exact_hex 8 p_ntime
  bits ← exact_hex 4 p_bits
  some (record {
    job_id = job_id;
    prevhash = prevhash;
    coinb1 = coinb1;
    coinb2 = coinb2;
    branches = branches;
    ntime = ntime;
    nbits = le_value bits;
    clean = elim (js_elem params 8) [ none ↦ true | some p ↦ js_true p ];
    seq = u64 (last_seq + 1);
  })

unfoldable pub on_notify : Session → List ℕ → Session
on_notify s params = elim (parse_job params s.job.seq) [
  | none ↦ s
  | some j ↦ record s { job = j; have_job = true; jobs_received = u64 (s.jobs_received + 1) }
]
