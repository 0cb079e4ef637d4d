-- ===== src/PoolSource/Built.antt =====
-- The work that the pool source builds, and the item that is packed from it.
use osprey_blake2b.Base.{
  ℕ, ◌+◌, ◌≡◌, inl, inr, sym, ap, ◌∙◌, arith, Bool, List, length, take, replicate, some, ◌==◌,
  ==_iff, ltb, if◌then◌else◌, u64, Bool-cases, Option-cases, none≢some, some-injective, length-take,
}
use osprey_blake2b.Base.Bytes.{blit}
use osprey_blake2b.Base.Blit.{length-blit}
use osprey_blake2b.Worksrc.{WorkCtx, worksrc_pack_item}
use osprey_blake2b.Worksrc.Packing.{IsCtx, worksrc_pack_item_layout}
use osprey_blake2b.Stratum.Session.{Session, en1}
use osprey_blake2b.SiaStratum.{
  sia_build_stages, sia_build_header, sia_arbtx, sia_arbtx_leaf, sia_merkle_root, header_of,
}
use osprey_blake2b.Stratum.Job.{StratumJob}
use osprey_blake2b.PoolSource.{
  PoolState, Chain, knots, sia, chain_messages, build_from, make_en2, worksrc_stratum_backend,
  g_backend_knots, g_backend_sia,
}

length-header_of : (j : StratumJob) (root : List ℕ) → length (header_of j root) ≡ 80
unfolding header_of
length-header_of j root =
    let a = blit (replicate 80 0) 0 (take 32 j.prevhash) in
    let b = blit a 40 (take 8 j.ntime) in
    let ea : length a ≡ 80 =
      length-blit (replicate 80 0) (take 32 j.prevhash) 0
        (omega (arith, length-take 32 j.prevhash)) in
    let eb : length b ≡ 80 =
      length-blit a (take 8 j.ntime) 40 (omega (arith, ea, length-take 8 j.ntime)) ∙ ea in
    length-blit b (take 32 root) 48 (omega (arith, eb, length-take 32 root)) ∙ eb

-- The messages of a job have their sizes on both chains, and on Knots there is no merkle branch.
record Sized (c : Chain) (s : Session) (m : List ℕ × List ℕ) : Type 0 where
  first : length m.0 ≡ 52
  second : length m.1 ≡ 80

sia-Sized :
    (s : Session) (en2 : List ℕ) (m : List ℕ × List ℕ)
    → chain_messages sia s en2 ≡ some m
    → Sized sia s m
unfolding chain_messages sia_build_header
sia-Sized s en2 m e = elim (Option-cases (sia_arbtx s.job (en1 s) en2 2048)) [
  | inl n ↦ absurd (none≢some (simp (n, chain_messages, sia_build_header) at e))
  | inr (arbtx, n) ↦
      let q = some-injective (simp (n, chain_messages, sia_build_header) at e) in
      record {
        first = ap (λ t. length t.0) (sym q);
        second =
            ap (λ t. length t.1) (sym q)
            ∙ length-header_of s.job (sia_merkle_root s.job (sia_arbtx_leaf arbtx));
      }
]

knots-Sized :
    (s : Session) (en2 : List ℕ) (m : List ℕ × List ℕ)
    → chain_messages knots s en2 ≡ some m
    → Sized knots s m
unfolding chain_messages sia_build_stages
knots-Sized s en2 m e = elim (Option-cases (sia_arbtx s.job (en1 s) en2 2048)) [
  | inl n ↦ absurd (none≢some (simp (n, chain_messages, sia_build_stages) at e))
  | inr (arbtx, n) ↦ elim (Bool-cases (length arbtx + 1 == 52)) [
    | inr f ↦ absurd (none≢some (simp (n, f, chain_messages, sia_build_stages) at e))
    | inl f ↦ elim (Bool-cases (length s.job.branches == 0)) [
      | inr g ↦ absurd (none≢some (simp (n, f, g, chain_messages, sia_build_stages) at e))
      | inl g ↦
          let q = some-injective (simp (n, f, g, chain_messages, sia_build_stages) at e) in
          record {
            first =
                ap (λ t. length t.0) (sym q) ∙ omega (arith, (==_iff (length arbtx + 1) 52).0 f);
            second =
                ap (λ t. length t.1) (sym q)
                ∙ length-header_of s.job (sia_merkle_root s.job (sia_arbtx_leaf arbtx));
          }
    ]
  ]
]

chain_messages-Sized :
    (c : Chain) (s : Session) (en2 : List ℕ) (m : List ℕ × List ℕ)
    → chain_messages c s en2 ≡ some m
    → Sized c s m
chain_messages-Sized knots s en2 m e = knots-Sized s en2 m e
chain_messages-Sized sia s en2 m e = sia-Sized s en2 m e

abbrev en2_len : Session → ℕ
en2_len s = if s.en2_size == 0 then 8 else s.en2_size

-- What `build_from` leaves when it gives work.
record Built (p : PoolState) (s : Session) (q : PoolState) (ctx : WorkCtx) : Type 0 where
  messages :
      chain_messages p.chain s (make_en2 (u64 (p.en2_counter + 1)) (en2_len s))
      ≡ some (ctx.ss3, ctx.ss4)
  en2 : q.cur.en2 ≡ make_en2 (u64 (p.en2_counter + 1)) (en2_len s)

build_from-Built :
    (p : PoolState) (s : Session) (is_dev : Bool) (ctx : WorkCtx)
    → (build_from p s is_dev).1 ≡ some ctx
    → Built p s (build_from p s is_dev).0 ctx
unfolding build_from
build_from-Built p s is_dev ctx h = elim (Bool-cases (ltb 32 (en2_len s))) [
  | inl e ↦ absurd (none≢some (simp (e, build_from) at h))
  | inr e ↦
      elim (Option-cases
        (chain_messages p.chain s (make_en2 (u64 (p.en2_counter + 1)) (en2_len s)))) [
          | inl m ↦ absurd (none≢some (simp (e, m, build_from) at h))
          | inr (a, m) ↦
              let q = some-injective (simp (e, m, build_from) at h) in
              record {
                messages = m ∙ ap (λ t. some (t.ss3, t.ss4)) q;
                en2 = simp (e, m, build_from);
              }
        ]
]

packs :
    (c : Chain) (ctx : WorkCtx)
    → IsCtx ctx
    → (worksrc_pack_item ctx (worksrc_stratum_backend c).item_len).0
      ≡ (worksrc_stratum_backend c).item_len
unfolding worksrc_stratum_backend g_backend_knots g_backend_sia
packs knots ctx v = ap (λ t. t.0) (worksrc_pack_item_layout ctx v).0
packs sia ctx v = ap (λ t. t.0) (worksrc_pack_item_layout ctx v).1

-- Whatever job the pool sent, work that `build_from` gives has messages of 52 and 80 bytes, packs
-- to the item length of the chain's backend, and is remembered with the extranonce2 of the
-- counter's next value.
pub build_from-pack_item :
    (p : PoolState) (s : Session) (is_dev : Bool) (ctx : WorkCtx)
    → (build_from p s is_dev).1 ≡ some ctx
    → (length ctx.ss3 ≡ 52)
      × (length ctx.ss4 ≡ 80)
      × ((worksrc_pack_item ctx (worksrc_stratum_backend p.chain).item_len).0
          ≡ (worksrc_stratum_backend p.chain).item_len)
      × ((build_from p s is_dev).0.cur.en2
          ≡ make_en2 (u64 (p.en2_counter + 1)) (if s.en2_size == 0 then 8 else s.en2_size))
build_from-pack_item p s is_dev ctx h =
    let b = build_from-Built p s is_dev ctx h in
    let z =
      chain_messages-Sized p.chain s (make_en2 (u64 (p.en2_counter + 1)) (en2_len s))
        (ctx.ss3, ctx.ss4) b.messages in
    (
      z.first,
      z.second,
      packs p.chain ctx (record { ss3_size = z.first; ss4_size = z.second }),
      b.en2,
    )
