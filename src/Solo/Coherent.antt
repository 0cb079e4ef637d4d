-- ===== src/Solo/Coherent.antt =====
-- miner/miner.c, the solo source: the work belongs to the held template.
use osprey_blake2b.Base.{ℕ, ◌+◌, ◌≤◌, ◌≡◌, true, List, ◌∷◌, length, u8, shr, set, bit_and}
use osprey_blake2b.WorkItem.{KnotsHeader, Stages, ok, stage_inputs}
use osprey_blake2b.WorkItem.Target.{target_top64_from_bits}
use osprey_blake2b.Worksrc.{WorkCtx}
use osprey_blake2b.Merkle.Tree.{IsRoot}
use osprey_blake2b.Solo.{Solo}

-- The held template belongs to the header of the current work: its root is that of the tree over the
-- coinbase's id and as many others as are counted.
pub record IsCoherent (s : Solo) : Type 0 where
  pub valid : s.tpl.valid ≡ true
  pub ids : List (List ℕ)
  pub root : IsRoot (s.tpl.cb.txid ∷ ids) s.gbt_hdr.hash_merkle_root
  pub held : s.tpl.tx_count ≡ length ids
  pub count : s.gbt_hdr.m_txcount ≡ length ids + 1
  pub size : length s.tpl.tx_data ≤ 4194304

-- The header with the time in two bytes of its extranonce.
abbrev rolled : KnotsHeader → ℕ → KnotsHeader
rolled h t = record h {
  m_extranonce = set (set h.m_extranonce 0 (u8 (bit_and t 0xff))) 1 (u8 (bit_and (shr t 8) 0xff));
}

-- A context that is staged from a header: its two messages, and the top word of its target.
pub record IsStaged (h : KnotsHeader) (shift : ℕ) (ctx : WorkCtx) : Type 0 where
  pub stages : Stages
  pub staged : stage_inputs h ≡ ok stages
  pub ss3 : ctx.ss3 ≡ stages.ss3
  pub ss4 : ctx.ss4 ≡ stages.ss4
  pub target : ctx.target_top64 ≡ target_top64_from_bits h.n_bits shift
  pub valid : ctx.valid ≡ true
