-- ===== src/Stratum/Parsed.antt =====
-- The sizes of what the handlers read from a line.
use osprey_blake2b.Base.{
  ℕ, zero, suc, ◌+◌, ◌/◌, ◌%◌, ◌≤◌, ◌<◌, ◌≡◌, ◌⊎◌, inl, inr, refl, sym, ap, arith, Bool, true,
  false, List, [], ◌∷◌, some, ltb, leb, ◌==◌, ==_iff, Bool-cases, Option-cases, length, All, u64,
  List-cases, >>=-some, none≢some, some-injective, guard,
}
use mathlib.Core.Path.{subst}
use osprey_blake2b.Coinbase.{hexval, hex_pairs}
use osprey_blake2b.Stratum.Job.{StratumJob}
use osprey_blake2b.Stratum.Json.{
  quote, js_ws, js_str, js_hex, copy_string, hex_buf_size, js_count, js_elem,
}
use osprey_blake2b.Stratum.Lines.{exact_hex, parse_branches, parse_job}

pub ltb-false→le : (a b : ℕ) → ltb a b ≡ false → b ≤ a
ltb-false→le a b e = ground arith

pub leb-false→lt : (a b : ℕ) → leb a b ≡ false → b < a
leb-false→lt a b e = ground arith

leb→le : (a b : ℕ) → leb a b ≡ true → a ≤ b
leb→le a b e = ground arith

-- A string that is copied fits its array, with the NUL.
copy_string-fits :
    (o n : ℕ) (v s : List ℕ) → copy_string o n v ≡ some s → (length s ≡ 0) ⊎ (o + length s < n)
unfolding copy_string
copy_string-fits o n [] s e = absurd (none≢some e)
copy_string-fits o n (c ∷ v) s e = elim (Bool-cases (c == quote)) [
  | inl q ↦ inl (ap length (sym (some-injective (simp (q, copy_string) at e))))
  | inr q ↦ elim (Bool-cases (leb n (o + 1))) [
    | inl f ↦ absurd (none≢some (simp (q, f, copy_string) at e))
    | inr f ↦ elim (Option-cases (copy_string (o + 1) n v)) [
      | inl r ↦ absurd (none≢some (simp (q, f, r, copy_string) at e))
      | inr (t, r) ↦
          let k = ap length (some-injective (simp (q, f, r, copy_string) at e)) in
          inr (elim (copy_string-fits (o + 1) n v t r) [
            | inl z ↦ omega (arith, k, z, leb-false→lt n (o + 1) f)
            | inr z ↦ omega (arith, k, z)
          ])
    ]
  ]
]

pub js_str-fits : (v : List ℕ) (n : ℕ) (s : List ℕ) → 1 ≤ n → js_str v n ≡ some s → length s < n
unfolding js_str
js_str-fits v n s h e = elim (List-cases (js_ws v)) [
  | inl w ↦ absurd (none≢some (simp (w, js_str) at e))
  | inr (c, p, w) ↦ elim (Bool-cases (c == quote)) [
    | inr q ↦ absurd (none≢some (simp (w, q, js_str) at e))
    | inl q ↦ elim (copy_string-fits 0 n p s (simp (w, q, js_str) at e)) [
      | inl z ↦ omega (arith, z, h)
      | inr z ↦ omega (arith, z)
    ]
  ]
]

pub hex_pairs-length : (cs bs : List ℕ) → hex_pairs cs ≡ some bs → length bs ≡ length cs / 2
unfolding hex_pairs
hex_pairs-length [] bs e = ap length (sym (some-injective e))
hex_pairs-length (c ∷ []) bs e = ap length (sym (some-injective e))
hex_pairs-length (c ∷ (d ∷ cs)) bs e = elim (Option-cases (hexval c)) [
  | inl h ↦ absurd (none≢some (simp (h, hex_pairs) at e))
  | inr (hi, h) ↦ elim (Option-cases (hexval d)) [
    | inl l ↦ absurd (none≢some (simp (h, l, hex_pairs) at e))
    | inr (lo, l) ↦ elim (Option-cases (hex_pairs cs)) [
      | inl r ↦ absurd (none≢some (simp (h, l, r, hex_pairs) at e))
      | inr (t, r) ↦ omega (
        arith,
        ap length (some-injective (simp (h, l, r, hex_pairs) at e)),
        hex_pairs-length cs t r,
      )
    ]
  ]
]

pub js_hex-fits : (v : List ℕ) (n : ℕ) (bs : List ℕ) → js_hex v n ≡ some bs → length bs ≤ n
unfolding js_hex
js_hex-fits v n bs e = elim (Option-cases (js_str v hex_buf_size)) [
  | inl t ↦ absurd (none≢some (simp (t, js_hex) at e))
  | inr (buf, t) ↦ elim (Bool-cases ((length buf % 2) == 0)) [
    | inr w ↦ absurd (none≢some (simp (t, w, js_hex) at e))
    | inl w ↦ elim (Bool-cases (ltb n (length buf / 2))) [
      | inl l ↦ absurd (none≢some (simp (t, w, l, js_hex) at e))
      | inr l ↦ omega (
        arith,
        hex_pairs-length buf bs (simp (t, w, l, js_hex) at e),
        ltb-false→le n (length buf / 2) l,
      )
    ]
  ]
]

pub exact_hex-length : (n : ℕ) (v bs : List ℕ) → exact_hex n v ≡ some bs → length bs ≡ n
unfolding exact_hex
exact_hex-length n v bs e = elim (Option-cases (js_hex v n)) [
  | inl t ↦ absurd (none≢some (simp (t, exact_hex) at e))
  | inr (b, t) ↦ elim (Bool-cases (length b == n)) [
    | inr w ↦ absurd (none≢some (simp (t, w, exact_hex) at e))
    | inl w ↦
        subst (λ x. length x ≡ n) (some-injective (simp (t, w, exact_hex) at e))
          ((==_iff (length b) n).0 w)
  ]
]

-- Every branch of a job is 32 bytes.
pub parse_branches-length :
    (p : List ℕ) (i n : ℕ) (bs : List (List ℕ))
    → parse_branches p i n ≡ some bs
    → (length bs ≡ n) × All (λ b. length b ≡ 32) bs
unfolding parse_branches
parse_branches-length p i zero bs e =
    subst (λ x. (length x ≡ 0) × All (λ b. length b ≡ 32) x) (some-injective e) (refl, tt)
parse_branches-length p i (suc n) bs e =
    let v = >>=-some (js_elem p i) _ bs e in
    let b = >>=-some (exact_hex 32 v.0) _ bs v.2 in
    let r = >>=-some (parse_branches p (i + 1) n) _ bs b.2 in
    let ih = parse_branches-length p (i + 1) n r.0 r.1 in
    subst (λ x. (length x ≡ suc n) × All (λ b. length b ≡ 32) x) {x = b.0 ∷ r.0}
      (some-injective r.2)
      (let z : (suc (length r.0) ≡ suc n) × ((length b.0 ≡ 32) × All (λ b. length b ≡ 32) r.0) =
          (ap suc ih.0, (exact_hex-length 32 v.0 b.0 b.1, ih.1)) in
        z)

-- The sizes of a job.
pub record IsJob (j : StratumJob) : Type 0 where
  pub job_id : length j.job_id < 64
  pub prevhash : length j.prevhash ≡ 32
  pub coinb1 : length j.coinb1 ≤ 512
  pub coinb2 : length j.coinb2 ≤ 512
  pub few_branches : length j.branches ≤ 32
  pub branches : All (λ b. length b ≡ 32) j.branches
  pub ntime : length j.ntime ≡ 8

guard-some : (b : Bool) → guard b ≡ some tt → b ≡ true
guard-some true e = refl
guard-some false e = cc

at_most_32 : (a b : ℕ) → a ≡ b → leb b 32 ≡ true → a ≤ 32
at_most_32 a b e h = omega (arith, e, leb→le b 32 h)

one≤64 : 1 ≤ 64
one≤64 = omega arith

pub parse_job-IsJob :
    (params : List ℕ) (n : ℕ) (j : StratumJob)
    → parse_job params n ≡ some j
    → IsJob j × (j.seq ≡ u64 (n + 1))
unfolding parse_job
parse_job-IsJob params n j e =
    let count = >>=-some (js_count params) _ j e in
    let nine = >>=-some (guard (leb 9 count.0)) _ j count.2 in
    let p_job = >>=-some (js_elem params 0) _ j nine.2 in
    let p_prev = >>=-some (js_elem params 1) _ j p_job.2 in
    let p_cb1 = >>=-some (js_elem params 2) _ j p_prev.2 in
    let p_cb2 = >>=-some (js_elem params 3) _ j p_cb1.2 in
    let p_br = >>=-some (js_elem params 4) _ j p_cb2.2 in
    let p_bits = >>=-some (js_elem params 6) _ j p_br.2 in
    let p_ntime = >>=-some (js_elem params 7) _ j p_bits.2 in
    let id = >>=-some (js_str p_job.0 64) _ j p_ntime.2 in
    let prev = >>=-some (exact_hex 32 p_prev.0) _ j id.2 in
    let cb1 = >>=-some (js_hex p_cb1.0 512) _ j prev.2 in
    let cb2 = >>=-some (js_hex p_cb2.0 512) _ j cb1.2 in
    let nb = >>=-some (js_count p_br.0) _ j cb2.2 in
    let few = >>=-some (guard (leb nb.0 32)) _ j nb.2 in
    let br = >>=-some (parse_branches p_br.0 0 nb.0) _ j few.2 in
    let time = >>=-some (exact_hex 8 p_ntime.0) _ j br.2 in
    let bits = >>=-some (exact_hex 4 p_bits.0) _ j time.2 in
    let size = parse_branches-length p_br.0 0 nb.0 br.0 br.1 in
    subst (λ k. IsJob k × (k.seq ≡ u64 (n + 1))) (some-injective bits.2)
      (
        record {
          job_id = js_str-fits p_job.0 64 id.0 one≤64 id.1;
          prevhash = exact_hex-length 32 p_prev.0 prev.0 prev.1;
          coinb1 = js_hex-fits p_cb1.0 512 cb1.0 cb1.1;
          coinb2 = js_hex-fits p_cb2.0 512 cb2.0 cb2.1;
          few_branches = at_most_32 (length br.0) nb.0 size.0 (guard-some (leb nb.0 32) few.1);
          branches = size.1;
          ntime = exact_hex-length 8 p_ntime.0 time.0 time.1;
        },
        refl,
      )
