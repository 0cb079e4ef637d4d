-- ===== src/Solo/Filled.antt =====
-- miner/miner.c, `get_template`: what a template holds where it is a success.
use osprey_blake2b.Base.{
  ℕ, ◌+◌, ◌≤◌, ◌≡◌, ◌⊎◌, inl, inr, refl, sym, ap, ◌∙◌, arith, true, List, [], ◌∷◌, Option, none,
  some, Bool-cases, Option-cases, some-injective, List-cases, length, take_all, All, u32,
}
use mathlib.Core.Path.{subst}
use osprey_blake2b.WorkItem.{KnotsHeader}
use osprey_blake2b.Merkle.{merkle_root}
use osprey_blake2b.Merkle.Level.{IsRow}
use osprey_blake2b.Merkle.Tree.{IsRoot, merkle_root-IsRoot}
use osprey_blake2b.Sha256.Reference.{sha256d-IsDigest}
use osprey_blake2b.Bech32.{bech32_decode_addr, bech32_scriptpubkey}
use osprey_blake2b.Coinbase.{
  CoinbaseTx, CoinbaseResult, commitment_bytes, coinbase_build, built, bad_address, bad_script,
  bad_commitment,
}
use osprey_blake2b.Rpc.Reply.{
  gather_txs, read_header, read_value, read_commitment, template_request,
}
use osprey_blake2b.Solo.{Solo, finish_template, get_template, rpc_call}
use osprey_blake2b.Devfee.{devfee_next_payout}
use osprey_blake2b.Solo.Gathered.{IsGathered, gather_txs-IsGathered}

-- A template that was filled out of a reply, paid to the next payout address.
pub record IsFilled (payout_address : Option (List ℕ)) (s0 s : Solo) (h : KnotsHeader)
    : Type 0 where
  pub reply : List ℕ
  pub answered : (rpc_call s0 template_request).1 ≡ some reply
  pub held : (s.tpl.valid ≡ true) × (s.tpl.hdr ≡ h)
  pub ids : List (List ℕ)
  pub gathered : ids ≡ (gather_txs 8192 reply [] []).ids
  pub txs : s.tpl.tx_data ≡ (gather_txs 8192 reply [] []).txs
  pub count : (s.tpl.tx_count ≡ length ids) × (h.m_txcount ≡ length ids + 1)
  pub sizes : (length ids ≤ 8192) × (length s.tpl.tx_data ≤ 4194304)
  pub root : IsRoot (s.tpl.cb.txid ∷ ids) h.hash_merkle_root
  pub value : ℕ
  pub height : ℕ
  pub paid :
      coinbase_build
        (devfee_next_payout s0.fee payout_address).1
        value
        (u32 height)
        s.fee.total
        (read_commitment reply)
      ≡ built s.tpl.cb
  pub valued : read_value reply ≡ some value
  pub based :
      (b : KnotsHeader) × (read_header reply ≡ some (b, height))
      × (h ≡ record b { hash_merkle_root = h.hash_merkle_root; m_txcount = h.m_txcount })

pub CoinbaseResult-cases :
    (r : CoinbaseResult)
    → ((cb : CoinbaseTx) × (r ≡ built cb))
      ⊎ ((r ≡ bad_address) ⊎ ((r ≡ bad_script) ⊎ (r ≡ bad_commitment)))
CoinbaseResult-cases (built cb) = inl (cb, refl)
CoinbaseResult-cases bad_address = inr (inl refl)
CoinbaseResult-cases bad_script = inr (inr (inl refl))
CoinbaseResult-cases bad_commitment = inr (inr (inr refl))

abbrev TxidRow : CoinbaseResult → Type 0
TxidRow (built cb) = IsRow cb.txid
TxidRow bad_address = Unit {0}
TxidRow bad_script = Unit {0}
TxidRow bad_commitment = Unit {0}

coinbase_build-row :
    (a : List ℕ) (v h x : ℕ) (wc : Option (List ℕ)) → TxidRow (coinbase_build a v h x wc)
unfolding coinbase_build
coinbase_build-row a v h x wc = elim (Option-cases (bech32_decode_addr a)) [
  | inl e ↦ simp (e, coinbase_build) tt
  | inr (d, e) ↦ elim (Option-cases (bech32_scriptpubkey d 64)) [
    | inl f ↦ simp (e, f, coinbase_build) tt
    | inr (spk, f) ↦ elim (Option-cases (commitment_bytes wc)) [
      | inl g ↦ simp (e, f, g, coinbase_build) tt
      | inr (c, g) ↦ simp (e, f, g, coinbase_build) (sha256d-IsDigest _).size
    ]
  ]
]

-- The root over the coinbase's id and those of the others.
IsRoot-over :
    (txid : List ℕ) (ids : List (List ℕ)) (root : List ℕ)
    → IsRow txid
    → All IsRow ids
    → merkle_root (txid ∷ ids) (length ids + 1) ≡ some root
    → IsRoot (txid ∷ ids) root
IsRoot-over txid ids root w rows e =
    let t =
      (merkle_root-IsRoot (txid ∷ ids) (length ids + 1) (w, rows) (omega arith)).1 (omega arith) in
    subst (IsRoot (txid ∷ ids)) (some-injective (sym t.1 ∙ e))
      (subst (λ l. IsRoot l t.0) (take_all (length ids + 1) (txid ∷ ids) (omega arith)) t.2)

-- What holds of a success; a failure keeps the header of the work and whether a template is held.
abbrev OnSuccess : Solo → (Solo → KnotsHeader → Type 0) → Solo × Option KnotsHeader → Type 0
OnSuccess s0 P (s, none) = (s.gbt_hdr ≡ s0.gbt_hdr) × (s.tpl.valid ≡ s0.tpl.valid)
OnSuccess s0 P (s, some h) = P s h × (s.gbt_hdr ≡ s0.gbt_hdr)

module _ (payout_address : Option (List ℕ)) (s0 : Solo) where
  -- The replies of a node that fill a template.
  record IsReadable (s : Solo) (h : KnotsHeader) (height value : ℕ) (reply : List ℕ) : Type 0 where
    answered : (rpc_call s0 template_request).1 ≡ some reply
    fee : s.fee ≡ s0.fee
    kept : (s.gbt_hdr ≡ s0.gbt_hdr) × (s.tpl.valid ≡ s0.tpl.valid)
    based : read_header reply ≡ some (h, height)
    valued : read_value reply ≡ some value
    counted : s.tpl.tx_count ≡ length (gather_txs 8192 reply [] []).ids
    filled : s.tpl.tx_data ≡ (gather_txs 8192 reply [] []).txs

  finish_template-IsFilled :
      (s : Solo) (h : KnotsHeader) (height value : ℕ) (reply : List ℕ)
      → IsReadable s h height value reply
      → OnSuccess s0 (IsFilled payout_address s0) (
          finish_template payout_address s h height value
            (read_commitment reply)
            (gather_txs 8192 reply [] []).ids)
  unfolding finish_template
  finish_template-IsFilled s h height value reply v =
      let g = gather_txs 8192 reply [] [] in
      let w : IsGathered 8192 [] g = gather_txs-IsGathered 8192 reply [] [] tt (omega arith) in
      let pay = devfee_next_payout s.fee payout_address in
      let b = coinbase_build pay.1 value (u32 height) pay.0.total (read_commitment reply) in
      elim (CoinbaseResult-cases b) [
        | inr f ↦ elim f [
          | inl e ↦ simp (e, finish_template) v.kept
          | inr k ↦ elim k [
            | inl e ↦ simp (e, finish_template) v.kept
            | inr e ↦ simp (e, finish_template) v.kept
          ]
        ]
        | inl (cb, e) ↦ elim (Option-cases (merkle_root (cb.txid ∷ g.ids) (length g.ids + 1))) [
          | inl m ↦ simp (e, m, finish_template) v.kept
          | inr (root, m) ↦
              let row : IsRow cb.txid =
                subst TxidRow e (
                  coinbase_build-row pay.1 value (u32 height) pay.0.total
                    (read_commitment reply)) in
              let tree = IsRoot-over cb.txid g.ids root row w.rows m in
              let paid =
                (λ i.
                  coinbase_build (devfee_next_payout (sym v.fee i) payout_address).1 value
                    (u32 height) pay.0.total (read_commitment reply))
                ∙ e in
              simp (e, m, finish_template)
                (
                  record {
                    reply = reply;
                    answered = v.answered;
                    held = (refl, refl);
                    ids = g.ids;
                    gathered = refl;
                    txs = v.filled;
                    count = (v.counted, omega (arith, w.count));
                    sizes = (omega (arith, w.count), omega (arith, w.room, ap length v.filled));
                    root = tree;
                    value = value;
                    height = height;
                    paid = paid;
                    valued = v.valued;
                    based = (h, v.based, refl);
                  },
                  v.kept.0,
                )
        ]
      ]

  rpc_call_kept :
      (body : List ℕ)
      → ((rpc_call s0 body).0.fee ≡ s0.fee)
        × ((rpc_call s0 body).0.gbt_hdr ≡ s0.gbt_hdr)
        × ((rpc_call s0 body).0.tpl.valid ≡ s0.tpl.valid)
  unfolding rpc_call
  rpc_call_kept body = elim (List-cases s0.replies) [
    | inl e ↦ simp (e, rpc_call) (refl, refl, refl)
    | inr (r, replies, e) ↦ simp (e, rpc_call) (refl, refl, refl)
  ]

  get_template-OnSuccess :
      OnSuccess s0 (IsFilled payout_address s0) (get_template payout_address s0)
  unfolding get_template
  get_template-OnSuccess =
      let call = rpc_call s0 template_request in
      let k0 = rpc_call_kept template_request in
      elim (Option-cases call.1) [
        | inl e ↦ simp (e, get_template) (k0.1, k0.2)
        | inr (r, e) ↦ elim (Option-cases (read_header r)) [
          | inl f ↦ simp (e, f, get_template) (k0.1, k0.2)
          | inr (hh, f) ↦ elim (Option-cases (read_value r)) [
            | inl k ↦ simp (e, f, k, get_template) (k0.1, k0.2)
            | inr (value, k) ↦ elim (Bool-cases (gather_txs 8192 r [] []).fits) [
              | inr b ↦ simp (e, f, k, b, get_template) (k0.1, k0.2)
              | inl b ↦
                  let g = gather_txs 8192 r [] [] in
                  let s : Solo = record call.0 {
                    last_template_height = hh.1;
                    tpl = record call.0.tpl { tx_count = length g.ids; tx_data = g.txs };
                  } in
                  simp (e, f, k, b, get_template)
                    (finish_template-IsFilled s hh.0 hh.1 value r record {
                      answered = e;
                      fee = k0.0;
                      kept = (k0.1, k0.2);
                      based = f;
                      valued = k;
                      counted = refl;
                      filled = refl;
                    })
            ]
          ]
        ]
      ]

  get_template-IsFilled :
      (s : Solo) (h : KnotsHeader)
      → get_template payout_address s0 ≡ (s, some h)
      → IsFilled payout_address s0 s h × (s.gbt_hdr ≡ s0.gbt_hdr)
  get_template-IsFilled s h e =
      subst (OnSuccess s0 (IsFilled payout_address s0)) e get_template-OnSuccess

  get_template_kept :
      (s : Solo)
      → get_template payout_address s0 ≡ (s, none)
      → (s.gbt_hdr ≡ s0.gbt_hdr) × (s.tpl.valid ≡ s0.tpl.valid)
  get_template_kept s e = subst (OnSuccess s0 (IsFilled payout_address s0)) e get_template-OnSuccess

  -- Either `get_template` is a success: the template is held with its header; its count is that of the
  -- ids gathered out of the node's reply, 8192 at most, and the header's is one more; its bytes are
  -- those gathered, 4 MiB at most; the header's root is that of the tree over the coinbase's id and
  -- those ids; and the coinbase pays the reply's value to the next payout address. Or it fails, and
  -- then a template that was held before still counts as held. The header of the work is kept.
  pub get_template-outcome :
      (((h : KnotsHeader) × ((get_template payout_address s0).1 ≡ some h)
          × IsFilled payout_address s0 (get_template payout_address s0).0 h)
        ⊎ (((get_template payout_address s0).1 ≡ none)
            × ((get_template payout_address s0).0.tpl.valid ≡ s0.tpl.valid)))
      × ((get_template payout_address s0).0.gbt_hdr ≡ s0.gbt_hdr)
  get_template-outcome =
      let g = get_template payout_address s0 in
      elim (Option-cases g.1) [
        | inl e ↦ let k = get_template_kept g.0 (λ i. (g.0, e i)) in (inr (e, k.1), k.0)
        | inr (h, e) ↦
            let k = get_template-IsFilled g.0 h (λ i. (g.0, e i)) in (inl (h, e, k.0), k.1)
      ]
