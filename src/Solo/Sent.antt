-- ===== src/Solo/Sent.antt =====
-- miner/miner.c, the solo source: which bodies are sent to the node.
use osprey_blake2b.Base.{
  ℕ, ◌+◌, ◌≡◌, inl, inr, refl, ap, ◌∙◌, Bool, false, List, [], ◌∷◌, Option, some, Bool-cases,
  Option-cases, List-cases, u32, length,
}
use osprey_blake2b.WorkItem.{KnotsHeader}
use osprey_blake2b.Worksrc.{WorkCtx}
use osprey_blake2b.Coinbase.{coinbase_build}
use osprey_blake2b.Merkle.{merkle_root}
use osprey_blake2b.Devfee.{devfee_next_payout}
use osprey_blake2b.Gbt.{solution, synthetic_template, gbt_build, gbt_on_candidate, with_nonce}
use osprey_blake2b.Gbt.Verdict.{Candidate-cases}
use osprey_blake2b.Rpc.Reply.{
  template_request, read_header, read_value, read_commitment, gather_txs,
}
use osprey_blake2b.Solo.{
  Solo, rpc_call, finish_template, get_template, gbt_get_work, synthetic_get_work, submit_block,
  on_candidate,
}
use osprey_blake2b.Solo.Filled.{CoinbaseResult-cases}

rpc_call-sent : (s : Solo) (body : List ℕ) → (rpc_call s body).0.sent ≡ body ∷ s.sent
unfolding rpc_call
rpc_call-sent s body = elim (List-cases s.replies) [
  | inl e ↦ simp (e, rpc_call) refl
  | inr (r, replies, e) ↦ simp (e, rpc_call) refl
]

finish_template-sent :
    (payout_address : Option (List ℕ)) (s : Solo) (h : KnotsHeader) (height value : ℕ)
    (commitment : Option (List ℕ)) (ids : List (List ℕ))
    → (finish_template payout_address s h height value commitment ids).0.sent ≡ s.sent
unfolding finish_template
finish_template-sent payout_address s h height value commitment ids =
    let pay = devfee_next_payout s.fee payout_address in
    elim (CoinbaseResult-cases (coinbase_build pay.1 value (u32 height) pay.0.total commitment)) [
      | inr f ↦ elim f [
        | inl e ↦ simp (e, finish_template) refl
        | inr k ↦ elim k [
          | inl e ↦ simp (e, finish_template) refl
          | inr e ↦ simp (e, finish_template) refl
        ]
      ]
      | inl (cb, e) ↦ elim (Option-cases (merkle_root (cb.txid ∷ ids) (length ids + 1))) [
        | inl m ↦ simp (e, m, finish_template) refl
        | inr (root, m) ↦ simp (e, m, finish_template) refl
      ]
    ]

get_template-sent :
    (payout_address : Option (List ℕ)) (s0 : Solo)
    → (get_template payout_address s0).0.sent ≡ template_request ∷ s0.sent
unfolding get_template
get_template-sent payout_address s0 =
    let call = rpc_call s0 template_request in
    let k = rpc_call-sent s0 template_request in
    elim (Option-cases call.1) [
      | inl e ↦ simp (e, get_template) k
      | inr (r, e) ↦ elim (Option-cases (read_header r)) [
        | inl f ↦ simp (e, f, get_template) k
        | inr (hh, f) ↦ elim (Option-cases (read_value r)) [
          | inl v ↦ simp (e, f, v, get_template) k
          | inr (value, v) ↦ elim (Bool-cases (gather_txs 8192 r [] []).fits) [
            | inr b ↦ simp (e, f, v, b, get_template) k
            | inl b ↦
                simp (e, f, v, b, get_template)
                  (finish_template-sent payout_address _ hh.0 hh.1 value (read_commitment r) _ ∙ k)
          ]
        ]
      ]
    ]

-- A call for work asks for one template.
pub gbt_get_work-sent :
    (payout_address : Option (List ℕ)) (target_shift t : ℕ) (s0 : Solo)
    → (gbt_get_work payout_address target_shift s0 t).0.sent ≡ template_request ∷ s0.sent
unfolding gbt_get_work
gbt_get_work-sent payout_address target_shift t s0 =
    let g = get_template payout_address s0 in
    elim (Option-cases (gbt_build g.1 t target_shift)) [
      | inl m ↦ simp (m, gbt_get_work) (get_template-sent payout_address s0)
      | inr (b, m) ↦ simp (m, gbt_get_work) (get_template-sent payout_address s0)
    ]

pub synthetic_get_work_kept :
    (target_shift t : ℕ) (s0 : Solo)
    → ((synthetic_get_work target_shift s0 t).0.sent ≡ s0.sent)
      × ((synthetic_get_work target_shift s0 t).0.tpl ≡ s0.tpl)
unfolding synthetic_get_work
synthetic_get_work_kept target_shift t s0 =
    elim (Option-cases (gbt_build (some (synthetic_template t t)) t target_shift)) [
      | inl m ↦ simp (m, synthetic_get_work) (refl, refl)
      | inr (b, m) ↦ simp (m, synthetic_get_work) (refl, refl)
    ]

submit_block-invalid : (s : Solo) (w : KnotsHeader) → s.tpl.valid ≡ false → (submit_block s w).0 ≡ s
unfolding submit_block
submit_block-invalid s w v = simp (v, submit_block) refl

-- Where no template is held, a candidate changes nothing.
pub on_candidate-invalid :
    (dry_run : Bool) (target_shift : ℕ) (s : Solo) (ctx : WorkCtx) (nonce top : ℕ)
    → s.tpl.valid ≡ false
    → (on_candidate dry_run target_shift s ctx nonce top).0 ≡ s
unfolding on_candidate
on_candidate-invalid dry_run target_shift s ctx nonce top v =
    elim (Candidate-cases (gbt_on_candidate s.gbt_hdr dry_run target_shift nonce top)) [
      | inl e ↦ simp (e, on_candidate) refl
      | inr k ↦ elim k [
        | inl e ↦ simp (e, on_candidate) refl
        | inr (b, e) ↦ elim (Bool-cases b) [
          | inl z ↦
              simp (e ∙ ap solution z, on_candidate)
                (submit_block-invalid s (with_nonce s.gbt_hdr nonce) v)
          | inr z ↦ simp (e ∙ ap solution z, on_candidate) refl
        ]
      ]
    ]
