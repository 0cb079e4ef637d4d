-- ===== src/Options/Silent.antt =====
-- miner/miner.c: the command line and the solo source together. A dry run offers no block.
use osprey_blake2b.Base.{
  ℕ, ◌≡◌, inl, inr, refl, ap, ◌∙◌, true, false, List, Option, All, ◌==◌, Bool-cases,
}
use mathlib.Core.Path.{subst}
use osprey_blake2b.Base.Text.{codes}
use osprey_blake2b.WorkItem.{KnotsHeader, get_pow_hash}
use osprey_blake2b.WorkItem.Target.{hash_meets_target, compact_to_target_shifted}
use osprey_blake2b.Worksrc.{WorkCtx, same_name}
use osprey_blake2b.PoolSource.{Chain}
use osprey_blake2b.Gbt.{
  Candidate, bad, reproduces, solution, gbt_on_candidate, with_nonce, expected_hash_top64,
}
use osprey_blake2b.Gbt.Verdict.{Result-cases, Candidate-cases}
use osprey_blake2b.Solo.{Solo, on_candidate}
use osprey_blake2b.Options.{Config, goes, default_config, parse_args}
use osprey_blake2b.Options.Dry.{parse_args-dry_run}

abbrev IsQuiet : Candidate → Type 0
IsQuiet bad = Unit {0}
IsQuiet reproduces = Unit {0}
IsQuiet (solution b) = b ≡ false

gbt_on_candidate-IsQuiet :
    (h : KnotsHeader) (shift nonce top : ℕ) → IsQuiet (gbt_on_candidate h true shift nonce top)
unfolding gbt_on_candidate
gbt_on_candidate-IsQuiet h shift nonce top =
    let c = with_nonce h nonce in
    elim (Bool-cases (expected_hash_top64 c == top)) [
      | inr e ↦ simp (e, gbt_on_candidate) tt
      | inl e ↦ elim (Result-cases (get_pow_hash c)) [
        | inr (x, f) ↦ simp (e, f, gbt_on_candidate) tt
        | inl (pow, f) ↦
            elim (Bool-cases (hash_meets_target pow (compact_to_target_shifted c.n_bits 22))) [
              | inl m ↦ simp (e, f, m, gbt_on_candidate) refl
              | inr m ↦ simp (e, f, m, gbt_on_candidate) tt
            ]
      ]
    ]

pub on_candidate-dry :
    (shift : ℕ) (s : Solo) (ctx : WorkCtx) (nonce top : ℕ)
    → (on_candidate true shift s ctx nonce top).0 ≡ s
unfolding on_candidate
on_candidate-dry shift s ctx nonce top =
    let q = gbt_on_candidate-IsQuiet s.gbt_hdr shift nonce top in
    elim (Candidate-cases (gbt_on_candidate s.gbt_hdr true shift nonce top)) [
      | inl e ↦ simp (e, on_candidate) refl
      | inr k ↦ elim k [
        | inl e ↦ simp (e, on_candidate) refl
        | inr (b, e) ↦
            let z : b ≡ false = subst IsQuiet e q in simp (e ∙ ap solution z, on_candidate) refl
      ]
    ]

-- Where no argument of the command line is `--submit` and the program goes on, no candidate changes
-- the state of the solo source: no block is offered to the node, whatever is reported.
pub on_candidate-parse_args :
    (getenv : List ℕ → Option (List ℕ)) (chain : Chain) (args : List (List ℕ)) (c : Config)
    (s : Solo) (ctx : WorkCtx) (nonce hash_top64 : ℕ)
    → All (λ a. same_name a (codes "--submit") ≡ false) args
    → parse_args getenv (default_config chain) args ≡ goes c
    → (on_candidate c.dry_run c.target_shift s ctx nonce hash_top64).0 ≡ s
unfolding default_config
on_candidate-parse_args getenv chain args c s ctx nonce hash_top64 h e =
    ap (λ d. (on_candidate d c.target_shift s ctx nonce hash_top64).0)
      (parse_args-dry_run getenv (default_config chain) c args h e)
    ∙ on_candidate-dry c.target_shift s ctx nonce hash_top64
