-- ===== src/Rpc/Reply.antt =====
-- miner/miner.c, `get_template`: what is read out of the node's reply, the header, the value of the
-- coinbase, the commitment and the transactions.
use osprey_blake2b.Base.{
  ℕ, zero, suc, ◌+◌, ◌/◌, ◌^◌, Bool, true, false, ◌||◌, not, List, [], ◌∷◌, ◌++◌, Option, none,
  some, if◌then◌else◌, ltb, leb, ◌==◌, ◌>>=◌, ◌>>◌, guard, u32, length, drop,
}
use osprey_blake2b.Base.Text.{codes}
use osprey_blake2b.WorkItem.{KnotsHeader, knots_header_init, reversed32}
use osprey_blake2b.Rpc.{strstr, up_to, strtoul_16, hex2bin, hex2bin_n, json_num, json_str}

abbrev pub tpl_max_tx : ℕ
tpl_max_tx = 8192

-- The size of `tx_data`.
abbrev pub tx_data_size : ℕ
tx_data_size = 4194304

abbrev pub template_request : List ℕ
template_request =
    codes
      "{\"jsonrpc\":\"1.0\",\"id\":\"osprey\",\"method\":\"getblocktemplate\",\"params\":[{\"rules\":[\"segwit\",\"blake2b\"]}]}"

-- The header up to the previous block, and the height. A height that is negative as an int32_t keeps
-- its bit pattern.
unfoldable pub read_header : List ℕ → Option (KnotsHeader × ℕ)
unfolding knots_header_init
read_header r = do
  height ← json_num r (codes "height")
  curtime ← json_num r (codes "curtime")
  version ← json_num r (codes "version")
  bits ← json_str r (codes "bits") 32
  prev ← json_str r (codes "previousblockhash") 80
  pb ← hex2bin prev 32
  some (
    record knots_header_init {
      n_version = u32 version;
      n_time = u32 curtime;
      n_bits = strtoul_16 bits;
      m_height = u32 height;
      hash_prev_block = reversed32 pb;
    },
    height,
  )

-- `coinbasevalue`, positive as a `long long`.
unfoldable pub read_value : List ℕ → Option ℕ
read_value r = do
  v ← json_num r (codes "coinbasevalue")
  guard (not ((v == 0) || leb (2 ^ 63) v))
  some v

-- One round of the loop over the transactions from `p` on: the id in internal order, the bytes of the
-- transaction, none of them where it does not fit, and where the next round starts. The loop ends
-- where there is none.
pub data Round : Type 0 where
  too_large : Round
  found : List ℕ → List ℕ → List ℕ → Round

unfoldable pub keep_tx : ℕ → List ℕ → List ℕ → List ℕ → ℕ → Option Round
keep_tx data_len txid tx dt nbytes =
    if ltb tx_data_size (data_len + nbytes) then some too_large else elim (hex2bin_n dt nbytes) [
      | none ↦ none
      | some raw ↦ some (found txid raw (if ltb (length tx) (length dt) then tx else dt))
    ]

unfoldable pub read_tx : ℕ → List ℕ → Option Round
read_tx data_len p = do
  tx ← strstr p (codes "\"txid\":\"")
  disp ← hex2bin_n (drop 8 tx) 32
  dt ← strstr p (codes "\"data\":\"")
  text ← up_to b'"' (drop 8 dt)
  keep_tx data_len (reversed32 disp) (drop 8 tx) (drop 8 dt) (length text / 2)

-- The ids and the bytes that the loop gathers, and whether it ends at a transaction that does not fit.
pub record Gathering : Type 0 where
  pub ids : List (List ℕ)
  pub txs : List ℕ
  pub fits : Bool

-- The loop, with at most `n` transactions still to come.
unfoldable pub gather_txs : ℕ → List ℕ → List (List ℕ) → List ℕ → Gathering
gather_txs zero p ids txs = record { ids = ids; txs = txs; fits = true }
gather_txs (suc n) p ids txs = elim (read_tx (length txs) p) [
  | none ↦ record { ids = ids; txs = txs; fits = true }
  | some r ↦ elim r [
    | too_large ↦ record { ids = ids; txs = txs; fits = false }
    | found txid raw next ↦ gather_txs n next (ids ++ (txid ∷ [])) (txs ++ raw)
  ]
]

-- The optional commitment; a text that is empty counts as none.
unfoldable pub read_commitment : List ℕ → Option (List ℕ)
read_commitment r = elim (json_str r (codes "default_witness_commitment") 256) [
  | none ↦ none
  | some wc ↦ if length wc == 0 then none else some wc
]
