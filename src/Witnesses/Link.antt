-- ===== src/Witnesses/Link.antt =====
-- The theorems about the connection of a session at concrete inputs.
use osprey_blake2b.Base.{
  ◌<◌, ℕ, ◌+◌, ◌-◌, ◌*◌, ◌≡◌, refl, arith, true, false, ◌&&◌, List, [], ◌∷◌, some, ltb, leb, ◌==◌,
  length, u64, u32, replicate,
}
use osprey_blake2b.Base.Text.{codes}
use osprey_blake2b.Stratum.Floats.{Floats}
use osprey_blake2b.Stratum.Session.{Session, stratum_init, stratum_submit}
use osprey_blake2b.Stratum.Link.{
  Recv, DialOutcome, bytes, stratum_poll, receive, is_full, run_lines, dial, dial_own, connect_to,
  back_off, next_backoff,
}
use osprey_blake2b.Stratum.Invariant.{Inv}
use osprey_blake2b.Stratum.Reached as Sessions
use osprey_blake2b.Stratum.Reached.{Reached, started, polled, submitted}
use osprey_blake2b.Stratum.Backoff
use osprey_blake2b.Stratum.Cuts
use osprey_blake2b.Stratum.Backoff.{deadline, attempts, wait, IsRefused}

abbrev number_from : ℕ → List ℕ → ℕ
number_from v [] = v
number_from v (c ∷ p) = elim (leb b'0' c && leb c b'9') [
  | true ↦ number_from (10 * v + (c - b'0')) p
  | false ↦ v
]

-- Doubles that are whole numbers.
abbrev whole : Floats
whole = record {
  Double = ℕ;
  strtod = number_from 0;
  constant = λ n. n;
  less = ltb;
  equal = ◌==◌;
  to_u64 = u64;
  to_int = u32;
  scaled = λ n. n * 0x100000000;
}

abbrev answering : DialOutcome
answering = record {
  resolved = some (codes "192.0.2.7");
  has_socket = true;
  is_address = true;
  connects = true;
  sends_subscribe = true;
  sends_authorize = true;
  sends_suggest = true;
}

abbrev refusing : DialOutcome
refusing = record answering { connects = false }

abbrev fresh : Session
unfolding stratum_init
fresh = stratum_init (codes "pool.example") 3333 (codes "worker") (codes "x")

-- The reply to the request 1.
abbrev reply : List ℕ
reply = codes "{\"id\":1,\"result\":[[],\"0a0b\",4]}\n"

Reached-Inv_example :
    Inv
      (stratum_submit true
        (stratum_poll whole answering
          (bytes reply ∷ [])
          (stratum_poll whole answering [] fresh 5)
          6)
        (codes "j")
        (0 ∷ 1 ∷ [])
        (replicate 8 0)
        (replicate 8 1)).0
unfolding stratum_init
Reached-Inv_example = Sessions.Reached-Inv whole (
    submitted true (codes "j") (0 ∷ 1 ∷ []) (replicate 8 0) (replicate 8 1) (
      polled answering (bytes reply ∷ []) 6
        (polled answering [] 5 (started (codes "pool.example") 3333 (codes "worker") (codes "x")))))

abbrev refusals : List (DialOutcome × ℕ)
refusals = (refusing, 0) ∷ (refusing, 2) ∷ (refusing, 6) ∷ []

attempts-wait_example :
    ((attempts whole refusals fresh).backoff_s ≡ wait (length refusals))
    × ((attempts whole refusals fresh).retry_at ≡ deadline fresh.retry_at 0 refusals)
    × ((attempts whole refusals fresh).connected ≡ false)
    × ((o : DialOutcome) (answers : List Recv) (now : ℕ)
        → now < deadline fresh.retry_at 0 refusals
        → stratum_poll whole o answers (attempts whole refusals fresh) now
          ≡ attempts whole refusals fresh)
unfolding fresh stratum_poll dial dial_own connect_to back_off next_backoff
attempts-wait_example =
    let met : IsRefused refusing = (refl, refl, refl) in
    Backoff.attempts-wait whole refusals fresh refl refl
      (met, omega arith, (met, omega arith, (met, omega arith, tt)))

abbrev online : Session
unfolding stratum_init
online = record (stratum_init (codes "pool.example") 3333 (codes "worker") (codes "x")) {
  connected = true;
  sub_id = 1;
}

stratum_poll-stratum_poll_example :
    stratum_poll whole answering
      (bytes (codes "0b\",4]}\n{") ∷ [])
      (stratum_poll whole answering (bytes (codes "{\"id\":1,\"result\":[[],\"0a") ∷ []) online 6)
      6
    ≡ stratum_poll whole answering
        (bytes (codes "{\"id\":1,\"result\":[[],\"0a") ∷ (bytes (codes "0b\",4]}\n{") ∷ []))
        online
        6
unfolding online stratum_poll receive is_full run_lines
stratum_poll-stratum_poll_example =
    Cuts.stratum_poll-stratum_poll whole answering online (codes "{\"id\":1,\"result\":[[],\"0a")
      (codes "0b\",4]}\n{") 6 refl (omega arith) refl
