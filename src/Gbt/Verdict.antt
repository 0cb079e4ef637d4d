-- ===== src/Gbt/Verdict.antt =====
-- What the solo source answers to a candidate, and the work it hands out.
use osprey_blake2b.Base.{
  ℕ, ◌%◌, ◌^◌, ◌≤◌, ◌<◌, ◌≡◌, ◌≢◌, ◌⊎◌, inl, inr, refl, sym, arith, Bool, true, false, ◌&&◌, not,
  List, length, All, IsByte, ◌==◌, eq→==, ne→==-false, if◌then◌else◌,
}
use mathlib.Core.Path.{subst}
use osprey_blake2b.Base.Bytes.{be_value}
use osprey_blake2b.WorkItem.{
  KnotsHeader, Result, ok, err, StageError, stage_inputs, get_pow_hash, pow_bytes,
}
use osprey_blake2b.WorkItem.Target.{compact_to_target_shifted, hash_meets_target}
use osprey_blake2b.WorkItem.TargetValue.{target_number, compact_to_target_shifted-Holds}
use osprey_blake2b.WorkItem.TargetLaws.{hash_meets_target_iff}
use osprey_blake2b.Gbt.{
  Candidate, bad, reproduces, solution, gbt_on_candidate, expected_hash_top64, with_nonce,
}

pub Result-cases {ℓ} :
    {A : Type ℓ} (r : Result A) → ((a : A) × (r ≡ ok a)) ⊎ ((e : StageError) × (r ≡ err e))
Result-cases (ok a) = inl (a, refl)
Result-cases (err e) = inr (e, refl)

pub Candidate-cases :
    (c : Candidate) → (c ≡ bad) ⊎ ((c ≡ reproduces) ⊎ ((b : Bool) × (c ≡ solution b)))
Candidate-cases bad = inl refl
Candidate-cases reproduces = inr (inl refl)
Candidate-cases (solution b) = inr (inr (b, refl))

-- A proof-of-work hash is 32 bytes.
record IsHash (d : List ℕ) : Type 0 where
  size : length d ≡ 32
  bytes : All IsByte d

ok-injective : {a b : List ℕ} → ok a ≡ ok b → a ≡ b
ok-injective e = cc

err≢ok : {x : StageError} {a : List ℕ} → ¬ (err x ≡ ok a)
err≢ok e = cc

pow_bytes-IsHash : (hash_b mask : List ℕ) → IsHash (pow_bytes hash_b mask)
unfolding pow_bytes
pow_bytes-IsHash hash_b mask = record { size = refl; bytes = omega arith }

get_pow_hash-IsHash : (c : KnotsHeader) (pow : List ℕ) → get_pow_hash c ≡ ok pow → IsHash pow
unfolding get_pow_hash
get_pow_hash-IsHash c pow e = elim (Result-cases (stage_inputs c)) [
  | inl (st, s) ↦ subst IsHash (ok-injective (rw (s, get_pow_hash) at e)) (pow_bytes-IsHash _ _)
  | inr (x, s) ↦ absurd (err≢ok (rw (s, get_pow_hash) at e))
]

same_bits : (h : KnotsHeader) (nonce : ℕ) → (with_nonce h nonce).n_bits ≡ h.n_bits
unfolding with_nonce
same_bits h nonce = refl

not_true : (b : Bool) → ¬ (b ≡ true) → b ≡ false
not_true true h = absurd (h refl)
not_true false h = refl

submits : (dry b : Bool) → solution (if dry then false else b) ≡ solution (not dry && b)
submits true b = refl
submits false b = refl

-- The target that a solution has to meet: mainnet's shift, whatever the prefilter's shift is.
abbrev pub network_target : KnotsHeader → ℕ
network_target h = target_number h.n_bits 22 % 2 ^ 256

-- All answers to a candidate whose hash can be computed: a word that is not the expected one is
-- bad; with the expected word the hash, read as a number, decides against the network's target;
-- and a solution is submitted exactly when this is no dry run and the shift is mainnet's.
pub gbt_on_candidate_cases :
    (h : KnotsHeader) (dry : Bool) (shift nonce word : ℕ) (pow : List ℕ)
    → get_pow_hash (with_nonce h nonce) ≡ ok pow
    → (word ≢ expected_hash_top64 (with_nonce h nonce)
        → gbt_on_candidate h dry shift nonce word ≡ bad)
      × (word ≡ expected_hash_top64 (with_nonce h nonce)
          → network_target h < be_value pow
          → gbt_on_candidate h dry shift nonce word ≡ reproduces)
      × (word ≡ expected_hash_top64 (with_nonce h nonce)
          → be_value pow ≤ network_target h
          → gbt_on_candidate h dry shift nonce word ≡ solution (not dry && shift == 22))
unfolding gbt_on_candidate
gbt_on_candidate_cases h dry shift nonce word pow e =
    let p = get_pow_hash-IsHash (with_nonce h nonce) pow e in
    let t = compact_to_target_shifted-Holds h.n_bits 22 (omega arith) in
    let met =
      hash_meets_target_iff pow (compact_to_target_shifted h.n_bits 22) p.size t.size p.bytes
        t.bytes in
    (
      λ ne. rw (ne→==-false (expected_hash_top64 (with_nonce h nonce)) word (λ q. ne (sym q))),
      λ eq over. rw (
        eq→== (expected_hash_top64 (with_nonce h nonce)) word (sym eq),
        e,
        same_bits h nonce,
        not_true (hash_meets_target pow (compact_to_target_shifted h.n_bits 22))
            (λ y. absurd (omega (arith, met.0 y, t.value))),
        gbt_on_candidate,
      ),
      λ eq under.
          rw
            (
              eq→== (expected_hash_top64 (with_nonce h nonce)) word (sym eq),
              e,
              same_bits h nonce,
              met.1 (omega (arith, t.value)),
              gbt_on_candidate,
            )
            (submits dry (shift == 22)),
    )
