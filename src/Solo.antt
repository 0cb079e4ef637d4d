-- ===== src/Solo.antt =====
-- miner/miner.c, the solo work source on a node: the template out of the node's reply, the candidate
-- and the block that is offered. What the node replies to each call is part of the state. The texts
-- for status.json and the log are left out.
pub mod Gathered
pub mod Filled
pub mod Coherent
pub mod Offered
pub mod Scanned
pub mod Sent
use osprey_blake2b.Base.{
  ℕ, zero, suc, ◌+◌, ◌-◌, ◌*◌, ◌/◌, ◌^◌, Bool, true, false, ◌||◌, not, List, [], ◌∷◌, ◌++◌, Option,
  none, some, if◌then◌else◌, ltb, leb, ◌==◌, ◌>>=◌, ◌>>◌, guard, u16, u32, u64, length, take, drop,
  reverse, replicate,
}
use osprey_blake2b.Base.Text.{codes}
use osprey_blake2b.WorkItem.{KnotsHeader, knots_header_init, reversed32, work_item_len}
use osprey_blake2b.Worksrc.{WorkCtx}
use osprey_blake2b.Block.{block_serialize}
use osprey_blake2b.Coinbase.{
  CoinbaseTx, coinbase_build, built, bad_address, bad_script, bad_commitment,
}
use osprey_blake2b.Merkle.{merkle_root}
use osprey_blake2b.Devfee.{DevfeeState, devfee_next_payout}
use osprey_blake2b.Gbt.{
  Candidate, bad, reproduces, solution, synthetic_template, gbt_build, gbt_on_candidate, with_nonce,
}
use osprey_blake2b.Mining.{Source}
use osprey_blake2b.Rpc.Hex.{hex_text}
use osprey_blake2b.Rpc.Reply.{
  tpl_max_tx, tx_data_size, template_request, read_header, read_value, Round, too_large, found,
  keep_tx, read_tx, Gathering, gather_txs, read_commitment,
}
use osprey_blake2b.Rpc.{starts, strstr, up_to, strtoul_16, hex2bin, hex2bin_n, json_num, json_str}

-- The size of `blk`.
abbrev pub blk_size : ℕ
blk_size = 4198400

-- `g_tpl`; the rows `ids` are written anew before each use and are no part of the state.
pub record Template : Type 0 where
  pub hdr : KnotsHeader
  pub cb : CoinbaseTx
  pub tx_count : ℕ
  pub tx_data : List ℕ
  pub valid : Bool

-- With the counters of the developer fee, the header of the current work, the replies still to come
-- and the bodies sent, the last one first.
pub record Solo : Type 0 where
  pub tpl : Template
  pub fee : DevfeeState
  pub gbt_hdr : KnotsHeader
  pub blocks_submitted : ℕ
  pub blocks_accepted : ℕ
  pub last_template_height : ℕ
  pub replies : List (Option (List ℕ))
  pub sent : List (List ℕ)

-- `rpc_call`: the body goes out and the next reply is the result; none where there is no reply.
unfoldable pub rpc_call : Solo → List ℕ → Solo × Option (List ℕ)
rpc_call s body = elim s.replies [
  | [] ↦ (record s { sent = body ∷ s.sent }, none)
  | r ∷ replies ↦ (record s { replies = replies; sent = body ∷ s.sent }, r)
]

-- What `coinbase_build` leaves where it fails.
abbrev pub no_coinbase : CoinbaseTx
no_coinbase = record { raw = []; stripped = []; txid = replicate 32 0 }

-- The part behind the loop: the coinbase, the root and the count.
unfoldable pub finish_template :
    Option (List ℕ)
    → Solo
    → KnotsHeader
    → ℕ
    → ℕ
    → Option (List ℕ)
    → List (List ℕ)
    → Solo × Option KnotsHeader
finish_template payout_address s h height value commitment ids =
    let pay = devfee_next_payout s.fee payout_address in
    let paid : Solo = record s { fee = pay.0 } in
    let failed : Solo = record paid { tpl = record s.tpl { cb = no_coinbase } } in
    elim (coinbase_build pay.1 value (u32 height) pay.0.total commitment) [
      | bad_address ↦ (failed, none)
      | bad_script ↦ (failed, none)
      | bad_commitment ↦ (failed, none)
      | built cb ↦ elim (merkle_root (cb.txid ∷ ids) (length ids + 1)) [
        | none ↦ (record paid { tpl = record s.tpl { cb = cb } }, none)
        | some root ↦
            let done = record h { hash_merkle_root = root; m_txcount = u16 (length ids + 1) } in
            (record paid { tpl = record s.tpl { hdr = done; cb = cb; valid = true } }, some done)
      ]
    ]

unfoldable pub get_template : Option (List ℕ) → Solo → Solo × Option KnotsHeader
get_template payout_address s0 =
    let call = rpc_call s0 template_request in
    let s : Solo = call.0 in
    elim call.1 [
      | none ↦ (s, none)
      | some r ↦ elim (read_header r) [
        | none ↦ (s, none)
        | some (h, height) ↦
            let s1 : Solo = record s { last_template_height = height } in
            elim (read_value r) [
              | none ↦ (s1, none)
              | some value ↦
                  let g = gather_txs tpl_max_tx r [] [] in
                  let s2 : Solo = record s1 {
                    tpl = record s.tpl { tx_count = length g.ids; tx_data = g.txs };
                  } in
                  if g.fits
                  then finish_template payout_address s2 h height value (read_commitment r) g.ids
                  else (s2, none)
            ]
      ]
    ]

unfoldable pub gbt_get_work : Option (List ℕ) → ℕ → Solo → ℕ → Solo × Option WorkCtx
gbt_get_work payout_address target_shift s0 t =
    let g = get_template payout_address s0 in
    let s : Solo = g.0 in
    elim (gbt_build g.1 t target_shift) [
      | none ↦ (s, none)
      | some b ↦ (record s { gbt_hdr = b.0 }, some b.1)
    ]

unfoldable pub submit_body : List ℕ → List ℕ
submit_body blk =
    codes "{\"jsonrpc\":\"1.0\",\"id\":\"osprey\",\"method\":\"submitblock\",\"params\":[\""
    ++ (hex_text blk ++ codes "\"]}")

-- The reply to `submitblock` is null.
unfoldable pub accepted : List ℕ → Bool
accepted r = elim (strstr r (codes "\"result\":")) [
  | none ↦ false
  | some res ↦ starts (drop 9 res) (codes "null")
]

-- Whether the block is accepted is the number returned.
unfoldable pub submit_block : Solo → KnotsHeader → Solo × Bool
submit_block s winner =
    if not s.tpl.valid
    then (s, false)
    else elim (block_serialize winner s.tpl.cb.raw s.tpl.tx_data s.tpl.tx_count blk_size) [
      | none ↦ (s, false)
      | some blk ↦
          let m : Solo = record s { blocks_submitted = u64 (s.blocks_submitted + 1) } in
          let call = rpc_call m (submit_body blk) in
          let n : Solo = call.0 in
          elim call.1 [
            | none ↦ (n, false)
            | some r ↦
                if accepted r
                then (record n { blocks_accepted = u64 (n.blocks_accepted + 1) }, true)
                else (n, false)
          ]
    ]

-- The candidate of `gbt_on_candidate`, and the block that it offers where it says so.
unfoldable pub on_candidate : Bool → ℕ → Solo → WorkCtx → ℕ → ℕ → Solo × Candidate
on_candidate dry_run target_shift s ctx nonce hash_top64 =
    elim (gbt_on_candidate s.gbt_hdr dry_run target_shift nonce hash_top64) [
      | bad ↦ (s, bad)
      | reproduces ↦ (s, reproduces)
      | solution submits ↦
          (if submits then (submit_block s (with_nonce s.gbt_hdr nonce)).0 else s, solution submits)
    ]

-- `synthetic_get_work`, with the clock.
unfoldable pub synthetic_get_work : ℕ → Solo → ℕ → Solo × Option WorkCtx
synthetic_get_work target_shift s0 t =
    let s : Solo = record s0 { last_template_height = 969912 } in
    elim (gbt_build (some (synthetic_template t t)) t target_shift) [
      | none ↦ (s, none)
      | some b ↦ (record s { gbt_hdr = b.0 }, some b.1)
    ]

-- `g_worksrc_gbt`.
abbrev pub worksrc_gbt : Option (List ℕ) → Bool → ℕ → Source
worksrc_gbt payout_address dry_run target_shift = record {
  State = Solo;
  poll = λ s t. s;
  get_work = gbt_get_work payout_address target_shift;
  on_candidate = on_candidate dry_run target_shift;
  refresh_s = 30;
  item_len = work_item_len;
}

-- `g_worksrc_synthetic`.
abbrev pub worksrc_synthetic : Bool → ℕ → Source
worksrc_synthetic dry_run target_shift = record {
  State = Solo;
  poll = λ s t. s;
  get_work = synthetic_get_work target_shift;
  on_candidate = on_candidate dry_run target_shift;
  refresh_s = 30;
  item_len = work_item_len;
}
