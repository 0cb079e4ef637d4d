-- ===== src/Dns.antt =====
-- miner/dns.c: the resolution of a pool's name. `inet_pton`, `inet_ntop`, the file resolv.conf and
-- the sockets are arguments. A read outside of a datagram is a result of its own.
pub mod Message
pub mod Bounds
pub mod Names
pub mod Replies
pub mod Resolved
use osprey_blake2b.Base.{
  ℕ, zero, suc, ◌+◌, ◌*◌, ◌-◌, ◌/◌, Bool, true, false, ◌||◌, not, List, [], ◌∷◌, ◌++◌, Option, none,
  some, if◌then◌else◌, ltb, leb, ◌==◌, length, take, u8, u16, u32, shr, bit_and, bit_xor,
}
use osprey_blake2b.Base.Text.{codes}
use osprey_blake2b.Dns.Message.{
  Failure, name_too_long, no_nameserver, dns_buf, ◌>>=◌, no_socket, bad_nameserver, not_sent,
  no_reply, no_text, empty_name, Parsed, value, refused, fault, make_query, parse_reply,
}

abbrev pub max_ns : ℕ
max_ns = 4

abbrev pub is_blank : ℕ → Bool
is_blank c = c == b' ' || c == b'\t'

unfoldable pub skip_blanks : List ℕ → List ℕ
skip_blanks [] = []
skip_blanks (c ∷ p) = elim (is_blank c) [ true ↦ skip_blanks p | false ↦ c ∷ p ]

-- `strncmp(p, "nameserver", 10)`, with what stands behind.
unfoldable pub behind : List ℕ → List ℕ → Option (List ℕ)
behind [] p = some p
behind (k ∷ key) [] = none
behind (k ∷ key) (c ∷ p) = elim (k == c) [ true ↦ behind key p | false ↦ none ]

unfoldable pub first_word : List ℕ → List ℕ
first_word [] = []
first_word (c ∷ p) = elim (c == b'\n' || (c == b'\r' || is_blank c)) [
  | true ↦ []
  | false ↦ c ∷ first_word p
]

-- `inet_pton(...) == 1`, and `inet_ntop` of four bytes into the caller's array.
pub record Addresses : Type 0 where
  pub is_address : List ℕ → Bool
  pub to_text : ℕ → List ℕ → Option (List ℕ)

-- What a query meets: whether there is a socket, whether `sendto` takes all of it, and the
-- datagram that `recv` gives.
pub record Exchange : Type 0 where
  pub has_socket : Bool
  pub sent : Bool
  pub reply : Option (List ℕ)

module _ (N : Addresses) where
  -- The address of a line, if it is honoured. The array `ns` holds 15 characters of each.
  unfoldable pub nameserver_of : List ℕ → Option (List ℕ)
  nameserver_of line = elim (behind (codes "nameserver") (skip_blanks line)) [
    | none ↦ none
    | some p ↦
        let e = first_word (skip_blanks p) in if N.is_address e then some (take 15 e) else none
  ]

  -- The loop over the lines, with room for `n` more.
  unfoldable pub read_lines : ℕ → List (List ℕ) → List (List ℕ)
  read_lines zero lines = []
  read_lines (suc n) [] = []
  read_lines (suc n) (line ∷ lines) =
      let skipped = read_lines (suc n) lines in
      elim (nameserver_of line) [ none ↦ skipped | some a ↦ a ∷ read_lines n lines ]

  -- A file that cannot be opened has no lines.
  unfoldable pub load_nameservers : List (List ℕ) → List (List ℕ)
  load_nameservers lines = elim (read_lines max_ns lines) [
    | [] ↦ codes "1.1.1.1" ∷ codes "8.8.8.8" ∷ []
    | a ∷ as' ↦ a ∷ as'
  ]

  -- `ask` gives what a query to a server meets; of the datagram, `DNS_BUF` bytes are kept.
  unfoldable pub query_one :
      (List ℕ → List ℕ → Exchange) → List ℕ → List ℕ → ℕ → ℕ → Parsed (List ℕ)
  query_one ask server host id outlen = elim (make_query host id) [
    | none ↦ refused name_too_long
    | some q ↦
        let x = ask server q in
        if not x.has_socket
        then refused no_socket
        else if not (N.is_address server)
        then refused bad_nameserver
        else if not x.sent
        then refused not_sent
        else elim x.reply [
          | none ↦ refused no_reply
          | some r ↦ parse_reply id (take dns_buf r) >>= λ a. elim (N.to_text outlen a) [
            | none ↦ refused no_text
            | some t ↦ value t
          ]
        ]
  ]

  -- The loop over the servers, from the one numbered `i` on; the last failure is the one that is
  -- told.
  unfoldable pub try_servers :
      (List ℕ → List ℕ → Exchange) → List ℕ → ℕ → ℕ → Failure → ℕ → List (List ℕ) → Parsed (List ℕ)
  try_servers ask host id outlen last i [] = refused last
  try_servers ask host id outlen last i (server ∷ servers) =
      elim (query_one ask server host (u16 (id + i)) outlen) [
        | value t ↦ value t
        | fault ↦ fault
        | refused e ↦ try_servers ask host id outlen e (i + 1) servers
      ]

  -- The static `seq` is given and given back; `place` is the address of the text `host`.
  unfoldable pub dns_resolve_a :
      (List ℕ → List ℕ → Exchange) → List (List ℕ) → ℕ → ℕ → List ℕ → ℕ → Parsed (List ℕ) × ℕ
  dns_resolve_a ask lines place seq host outlen =
      let next = u16 (seq + 1) in
      let id = u16 (bit_xor (shr place 4) (u16 (u32 (next * 2654435761)))) in
      if length host == 0
      then (refused empty_name, seq)
      else if N.is_address host
      then (value (take (outlen - 1) host), seq)
      else (try_servers ask host id outlen no_nameserver 0 (load_nameservers lines), next)
