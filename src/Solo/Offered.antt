-- ===== src/Solo/Offered.antt =====
-- miner/miner.c, the solo source: the block that is offered.
use osprey_blake2b.Base.{
  ℕ, ◌+◌, ◌≤◌, ◌≡◌, ◌≢◌, ◌⊎◌, inl, inr, refl, sym, ap, ◌∙◌, arith, Bool, true, false, List, ◌∷◌,
  ◌++◌, Option, none, some, if◌then◌else◌, le→ltb-false, Bool-cases, Option-cases, List-cases,
  length, u64,
}
use mathlib.Core.Path.{subst}
use osprey_blake2b.WorkItem.{KnotsHeader}
use osprey_blake2b.Worksrc.{WorkCtx}
use osprey_blake2b.Block.{header_bytes, put_compact, block_serialize_header, block_serialize}
use osprey_blake2b.Merkle.Tree.{IsRoot}
use osprey_blake2b.Gbt.{Candidate, bad, reproduces, solution, gbt_on_candidate, with_nonce}
use osprey_blake2b.Gbt.Verdict.{Candidate-cases}
use osprey_blake2b.Solo.{
  Solo, Template, rpc_call, submit_body, accepted, submit_block, on_candidate,
}
use osprey_blake2b.Solo.Coherent.{IsCoherent}

-- The block of a header and the held template.
abbrev pub block_of : Solo → KnotsHeader → List ℕ
block_of s w =
    header_bytes w ++ (put_compact (u64 (s.tpl.tx_count + 1)) ++ (s.tpl.cb.raw ++ s.tpl.tx_data))

-- The block is sent as the call `submitblock`, and counted; it counts as accepted when the reply's
-- result is null.
pub record IsOffered (s m : Solo) (w : KnotsHeader) (reply : Option (List ℕ)) : Type 0 where
  pub sent : m.sent ≡ submit_body (block_of s w) ∷ s.sent
  pub counted : m.blocks_submitted ≡ u64 (s.blocks_submitted + 1)
  pub answered : reply ≡ (rpc_call s (submit_body (block_of s w))).1
  pub verdict : m.blocks_accepted ≡ (
      if elim reply [ none ↦ false | some r ↦ accepted r ]
      then u64 (s.blocks_accepted + 1)
      else s.blocks_accepted)
  pub kept : (m.tpl ≡ s.tpl) × (m.gbt_hdr ≡ s.gbt_hdr)

block_serialize-fits :
    (w : KnotsHeader) (raw txs : List ℕ) (count outsz : ℕ)
    → 164 + 9 + length raw + length txs ≤ outsz
    → block_serialize w raw txs count outsz
      ≡ some (header_bytes w ++ (put_compact (u64 (count + 1)) ++ (raw ++ txs)))
unfolding block_serialize block_serialize_header
block_serialize-fits w raw txs count outsz h =
    simp
      (
        le→ltb-false outsz (164 + 9 + length raw + length txs) h,
        le→ltb-false outsz 164 (omega arith),
        block_serialize,
        block_serialize_header,
      )
      refl

submit_block-IsOffered :
    (s : Solo) (w : KnotsHeader)
    → s.tpl.valid ≡ true
    → 164 + 9 + length s.tpl.cb.raw + length s.tpl.tx_data ≤ 4198400
    → (reply : Option (List ℕ)) × IsOffered s (submit_block s w).0 w reply
unfolding submit_block rpc_call
submit_block-IsOffered s w v h =
    let f = block_serialize-fits w s.tpl.cb.raw s.tpl.tx_data s.tpl.tx_count 4198400 h in
    elim (List-cases s.replies) [
      | inl e ↦ (
        none,
        simp (v, f, e, submit_block, rpc_call)
            record {
              sent = refl;
              counted = refl;
              answered = simp (e, rpc_call) refl;
              verdict = refl;
              kept = (refl, refl);
            },
      )
      | inr (r, replies, e) ↦ elim (Option-cases r) [
        | inl n ↦ (
          none,
          simp (v, f, e, n, submit_block, rpc_call)
              record {
                sent = refl;
                counted = refl;
                answered = simp (e, n, rpc_call) refl;
                verdict = refl;
                kept = (refl, refl);
              },
        )
        | inr (text, n) ↦ elim (Bool-cases (accepted text)) [
          | inl a ↦ (
            some text,
            simp (v, f, e, n, a, submit_block, rpc_call)
                record {
                  sent = refl;
                  counted = refl;
                  answered = simp (e, n, rpc_call) refl;
                  verdict = simp a refl;
                  kept = (refl, refl);
                },
          )
          | inr a ↦ (
            some text,
            simp (v, f, e, n, a, submit_block, rpc_call)
                record {
                  sent = refl;
                  counted = refl;
                  answered = simp (e, n, rpc_call) refl;
                  verdict = simp a refl;
                  kept = (refl, refl);
                },
          )
        ]
      ]
    ]

-- A candidate that solves a block at the network's difficulty.
on_candidate-IsOffered :
    (dry_run : Bool) (target_shift : ℕ) (s : Solo) (ctx : WorkCtx) (nonce hash_top64 : ℕ)
    → IsCoherent s
    → length s.tpl.cb.raw ≤ 3923
    → gbt_on_candidate s.gbt_hdr dry_run target_shift nonce hash_top64 ≡ solution true
    → ((reply : Option (List ℕ)) × IsOffered s
          (on_candidate dry_run target_shift s ctx nonce hash_top64).0
          (with_nonce s.gbt_hdr nonce)
          reply)
      × IsCoherent (on_candidate dry_run target_shift s ctx nonce hash_top64).0
unfolding on_candidate
on_candidate-IsOffered dry_run target_shift s ctx nonce hash_top64 c h e =
    let w = with_nonce s.gbt_hdr nonce in
    let o = submit_block-IsOffered s w c.valid (omega (arith, c.size)) in
    let m = (submit_block s w).0 in
    let k = o.1.kept in
    simp (e, on_candidate)
      (
        o,
        record {
          valid = ap (λ (t : Template). t.valid) k.0 ∙ c.valid;
          ids = c.ids;
          root =
              subst
                (λ (p : Template × KnotsHeader). IsRoot (p.0.cb.txid ∷ c.ids) p.1.hash_merkle_root)
                {x = (s.tpl, s.gbt_hdr)} {y = (m.tpl, m.gbt_hdr)} (λ i. (sym k.0 i, sym k.1 i))
                c.root;
          held = ap (λ (t : Template). t.tx_count) k.0 ∙ c.held;
          count = ap (λ (x : KnotsHeader). x.m_txcount) k.1 ∙ c.count;
          size = omega (arith, c.size, ap (λ (t : Template). length t.tx_data) k.0);
        },
      )

bad≢solution : bad ≢ solution true
bad≢solution e = cc

reproduces≢solution : reproduces ≢ solution true
reproduces≢solution e = cc

unsent≢solution : solution false ≢ solution true
unsent≢solution e = cc

solution_apart : {c : Candidate} {d : Candidate} → c ≡ d → d ≢ solution true → c ≢ solution true
solution_apart e n k = n (sym e ∙ k)

-- What a candidate with a verdict leads to: a solution that is offered, or nothing.
abbrev pub OffersOrNot : Solo → Solo → KnotsHeader → Candidate → Type 0
OffersOrNot s m w verdict =
    ((verdict ≡ solution true) × ((reply : Option (List ℕ)) × IsOffered s m w reply))
    ⊎ ((verdict ≢ solution true) × (m ≡ s))

-- In a state where the template belongs to the work and the coinbase is at most 3923 bytes, any
-- candidate leaves it so. Where the verdict is a solution that is offered, the block of the work's
-- header with the nonce, the coinbase and the transactions is sent and counted, and counted as accepted
-- when the reply's result is null; on every other verdict nothing changes.
pub on_candidate-outcome :
    (dry_run : Bool) (target_shift : ℕ) (s : Solo) (ctx : WorkCtx) (nonce hash_top64 : ℕ)
    → IsCoherent s
    → length s.tpl.cb.raw ≤ 3923
    → OffersOrNot s
        (on_candidate dry_run target_shift s ctx nonce hash_top64).0
        (with_nonce s.gbt_hdr nonce)
        (gbt_on_candidate s.gbt_hdr dry_run target_shift nonce hash_top64)
      × IsCoherent (on_candidate dry_run target_shift s ctx nonce hash_top64).0
unfolding on_candidate
on_candidate-outcome dry_run target_shift s ctx nonce hash_top64 c h =
    let w = with_nonce s.gbt_hdr nonce in
    let m = (on_candidate dry_run target_shift s ctx nonce hash_top64).0 in
    let v = gbt_on_candidate s.gbt_hdr dry_run target_shift nonce hash_top64 in
    let quiet : (m ≡ s) → v ≢ solution true → OffersOrNot s m w v × IsCoherent m =
      λ k n. (inr (n, k), subst IsCoherent (sym k) c) in
    elim (Candidate-cases v) [
      | inl e ↦ quiet (simp (e, on_candidate) refl) (solution_apart e bad≢solution)
      | inr k ↦ elim k [
        | inl e ↦ quiet (simp (e, on_candidate) refl) (solution_apart e reproduces≢solution)
        | inr (b, e) ↦ elim (Bool-cases b) [
          | inr z ↦
              quiet (simp (e ∙ ap solution z, on_candidate) refl)
                (solution_apart (e ∙ ap solution z) unsent≢solution)
          | inl z ↦
              let o =
                on_candidate-IsOffered dry_run target_shift s ctx nonce hash_top64 c h
                  (e ∙ ap solution z) in
              (inl (e ∙ ap solution z, o.0), o.1)
        ]
      ]
    ]
