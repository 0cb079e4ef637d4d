-- ===== src/Loopback/Calibrated.antt =====
-- miner/miner.c, `loopback_verify`: an offset is found exactly where a window has one.
use osprey_blake2b.Base.{
  ℕ, zero, suc, ◌+◌, ◌-◌, ◌^◌, ◌≤◌, ◌<◌, ◌≡◌, inl, inr, refl, sym, ap, ◌∙◌, arith, true, false,
  List, [], ◌∷◌, none, some, ltb, ◌==◌, ==_iff, le→ltb-false, eq→==, length, drop, u64, true≢false,
  none≢some, some-injective, Bool-cases, Option-cases,
}
use osprey_blake2b.WorkItem.{KnotsHeader, FpgaResult, parse_result}
use osprey_blake2b.Gbt.{expected_hash_top64, with_nonce}
use osprey_blake2b.Loopback.{reproduced, find_offset, try_window, loopback_verify}

-- A reply whose hash the header gives at an offset of its nonce.
pub record IsReproduced (h : KnotsHeader) (r : FpgaResult) (off : ℕ) : Type 0 where
  pub success : r.success ≡ true
  pub guarded : 256 ≤ u64 (2 ^ 64 - r.nonce)
  pub small : off < 512
  pub hash : expected_hash_top64 (with_nonce h (u64 (r.nonce + off))) ≡ r.hash_top64

find_offset-some :
    (h : KnotsHeader) (r : FpgaResult) (off n k : ℕ)
    → find_offset h r off n ≡ some k
    → (off ≤ k) × (k < off + n) × (reproduced h r k ≡ true)
unfolding find_offset
find_offset-some h r off zero k e = absurd (none≢some e)
find_offset-some h r off (suc n) k e = elim (Bool-cases (reproduced h r off)) [
  | inl t ↦
      let p : off ≡ k = some-injective (sym (simp (t, find_offset) refl) ∙ e) in
      (omega (arith, p), omega (arith, p), ap (reproduced h r) (sym p) ∙ t)
  | inr t ↦
      let v = find_offset-some h r (off + 1) n k (sym (simp (t, find_offset) refl) ∙ e) in
      (omega (arith, v.0), omega (arith, v.1), v.2)
]

find_offset-none :
    (h : KnotsHeader) (r : FpgaResult) (off n k : ℕ)
    → find_offset h r off n ≡ none
    → off ≤ k
    → k < off + n
    → reproduced h r k ≡ false
unfolding find_offset
find_offset-none h r off zero k e p q = absurd (omega arith)
find_offset-none h r off (suc n) k e p q = elim (Bool-cases (reproduced h r off)) [
  | inl t ↦ absurd (none≢some {a = off} (sym e ∙ simp (t, find_offset) refl))
  | inr t ↦ elim (Bool-cases (k == off)) [
    | inl z ↦ ap (reproduced h r) ((==_iff k off).0 z) ∙ t
    | inr z ↦
        find_offset-none h r (off + 1) n k (sym (simp (t, find_offset) refl) ∙ e)
          (ground (arith, z, p)) (omega arith)
  ]
]

-- A window whose first byte is `b`.
module _ (h : KnotsHeader) (b : ℕ) (buf : List ℕ) where
  abbrev reply : FpgaResult
  reply = parse_result (b ∷ buf)

  flag : reply.success ≡ (b == 1)
  unfolding parse_result
  flag = refl

  try_window-some :
      (off nonce : ℕ)
      → try_window h b (b ∷ buf) ≡ some (off, nonce)
      → (reply.nonce ≡ nonce) × IsReproduced h reply off
  unfolding try_window reproduced
  try_window-some off nonce e = elim (Bool-cases (b == 1)) [
    | inr f ↦ absurd (none≢some (sym (simp (f, try_window) refl) ∙ e))
    | inl f ↦ elim (Bool-cases (ltb (u64 (2 ^ 64 - reply.nonce)) 256)) [
      | inl g ↦ absurd (none≢some (sym (simp (f, flag, g, try_window) refl) ∙ e))
      | inr g ↦ elim (Option-cases (find_offset h reply 0 512)) [
        | inl k ↦ absurd (none≢some (sym (simp (f, flag, g, k, try_window) refl) ∙ e))
        | inr (o, k) ↦
            let p : (o, reply.nonce) ≡ (off, nonce) =
              some-injective (sym (simp (f, flag, g, k, try_window) refl) ∙ e) in
            let q : o ≡ off = ap (λ (x : ℕ × ℕ). x.0) p in
            let v : (0 ≤ off) × (off < 0 + 512) × (reproduced h reply off ≡ true) =
              find_offset-some h reply 0 512 off (k ∙ ap some q) in
            (
              ap (λ (x : ℕ × ℕ). x.1) p,
              record {
                success = flag ∙ f;
                guarded = ground (arith, g);
                small = omega (arith, v.1);
                hash = (==_iff _ _).0 v.2;
              },
            )
      ]
    ]
  ]

  try_window-none : (off : ℕ) → try_window h b (b ∷ buf) ≡ none → ¬ IsReproduced h reply off
  unfolding try_window reproduced
  try_window-none off e v =
      let f : (b == 1) ≡ true = sym flag ∙ v.success in
      let g : ltb (u64 (2 ^ 64 - reply.nonce)) 256 ≡ false =
        le→ltb-false (u64 (2 ^ 64 - reply.nonce)) 256 v.guarded in
      elim (Option-cases (find_offset h reply 0 512)) [
        | inr (o, k) ↦
            none≢some {a = (o, reply.nonce)} (sym e ∙ simp (f, flag, g, k, try_window) refl)
        | inl k ↦ true≢false (
            sym (
              eq→== (expected_hash_top64 (with_nonce h (u64 (reply.nonce + off)))) reply.hash_top64
                v.hash)
            ∙ find_offset-none h reply 0 512 off k (omega arith) (omega (arith, v.small)))
      ]

-- A window inside of the bytes received.
pub record IsWindow (h : KnotsHeader) (buf : List ℕ) (off nonce w : ℕ) : Type 0 where
  pub inside : w + 17 ≤ length buf
  pub nonce_at : (parse_result (drop w buf)).nonce ≡ nonce
  pub good : IsReproduced h (parse_result (drop w buf)) off

loopback_verify-some :
    (h : KnotsHeader) (buf : List ℕ) (off nonce : ℕ)
    → loopback_verify h buf ≡ some (off, nonce)
    → (w : ℕ) × IsWindow h buf off nonce w
unfolding loopback_verify
loopback_verify-some h [] off nonce e = absurd (none≢some e)
loopback_verify-some h (b ∷ buf) off nonce e = elim (Bool-cases (ltb (length (b ∷ buf)) 17)) [
  | inl s ↦ absurd (none≢some (sym (simp (s, loopback_verify) refl) ∙ e))
  | inr s ↦ elim (Option-cases (try_window h b (b ∷ buf))) [
    | inr (v, t) ↦
        let p =
          try_window-some h b buf off nonce (t ∙ sym (simp (s, t, loopback_verify) refl) ∙ e) in
        (0, record { inside = ground (arith, s); nonce_at = p.0; good = p.1 })
    | inl t ↦
        let ih =
          loopback_verify-some h buf off nonce (sym (simp (s, t, loopback_verify) refl) ∙ e) in
        (
          suc ih.0,
          record {
            inside = omega (arith, ih.1.inside);
            nonce_at = ih.1.nonce_at;
            good = ih.1.good;
          },
        )
  ]
]

loopback_verify-none :
    (h : KnotsHeader) (buf : List ℕ) (off nonce w : ℕ)
    → loopback_verify h buf ≡ none
    → ¬ IsWindow h buf off nonce w
unfolding loopback_verify
loopback_verify-none h [] off nonce w e v = absurd (omega (arith, v.inside))
loopback_verify-none h (b ∷ buf) off nonce w e v = elim (Bool-cases (ltb (length (b ∷ buf)) 17)) [
  | inl s ↦ absurd (ground (arith, s, v.inside))
  | inr s ↦ elim (Option-cases (try_window h b (b ∷ buf))) [
    | inr (p, t) ↦ none≢some {a = p} (sym e ∙ simp (s, t, loopback_verify) refl)
    | inl t ↦
        later w v (try_window-none h b buf off t) (λ k.
          loopback_verify-none h buf off nonce k (sym (simp (s, t, loopback_verify) refl) ∙ e))
  ]
]
  where
    later :
        (w : ℕ)
        → IsWindow h (b ∷ buf) off nonce w
        → ¬ IsReproduced h (parse_result (b ∷ buf)) off
        → ((k : ℕ) → ¬ IsWindow h buf off nonce k)
        → ⊥
    later zero v n m = n v.good
    later (suc k) v n m =
        m k record { inside = omega (arith, v.inside); nonce_at = v.nonce_at; good = v.good }

-- What `loopback_verify` gives is the offset, below 512, and the nonce of a window of 17 bytes that
-- has its flag set, a nonce 256 steps from the seed at least, and the hash word of the header with the
-- nonce moved by the offset; and where it fails, no window has any such offset.
pub loopback_verify-IsWindow :
    (h : KnotsHeader) (buf : List ℕ) (off nonce : ℕ)
    → (loopback_verify h buf ≡ some (off, nonce) → (w : ℕ) × IsWindow h buf off nonce w)
      × (loopback_verify h buf ≡ none → (w : ℕ) → ¬ IsWindow h buf off nonce w)
loopback_verify-IsWindow h buf off nonce =
    (loopback_verify-some h buf off nonce, λ e w. loopback_verify-none h buf off nonce w e)
