-- ===== src/Options/Offline.antt =====
-- miner/miner.c: the command line, the mining loop and the solo sources together. What the passes of
-- the mining loop send to the node. `main` runs the submission test of `--submit-test`, which offers
-- a block without `--submit`, in place of the loop; it is not part of these passes.
use osprey_blake2b.Base.{ℕ, ◌≡◌, refl, sym, ap, ◌∙◌, Bool, true, false, List, [], Option, some, All}
use mathlib.Core.Path.{subst}
use osprey_blake2b.Base.Text.{codes}
use osprey_blake2b.Worksrc.{same_name}
use osprey_blake2b.PoolSource.{Chain}
use osprey_blake2b.Mining.{Line, Loop, loop_start}
use osprey_blake2b.Mining.Reached.{passes}
use osprey_blake2b.Mining.Lifted.{IsKept, passes_kept}
use osprey_blake2b.Rpc.Reply.{template_request}
use osprey_blake2b.Solo.{Solo, on_candidate, worksrc_gbt, worksrc_synthetic}
use osprey_blake2b.Solo.Sent.{gbt_get_work-sent, synthetic_get_work_kept, on_candidate-invalid}
use osprey_blake2b.Options.{Config, goes, default_config, parse_args}
use osprey_blake2b.Options.Dry.{parse_args-dry_run}
use osprey_blake2b.Options.Silent.{on_candidate-dry}

-- Nothing was sent but requests of templates.
abbrev pub OnlyRequests : List (List ℕ) → Type 0
OnlyRequests sent = All (λ body. body ≡ template_request) sent

dry_IsKept :
    (payout_address : Option (List ℕ)) (dry_run : Bool) (target_shift : ℕ)
    → dry_run ≡ true
    → IsKept (worksrc_gbt payout_address dry_run target_shift) (λ (s : Solo). OnlyRequests s.sent)
dry_IsKept payout_address dry_run target_shift d = record {
  by_poll = λ s t h. h;
  by_get_work = λ s t h.
      subst OnlyRequests (sym (gbt_get_work-sent payout_address target_shift t s)) (refl, h);
  by_candidate = λ s ctx nonce top h.
      subst (λ (x : Solo). OnlyRequests x.sent)
        (sym (
          ap (λ b. (on_candidate b target_shift s ctx nonce top).0) d
          ∙ on_candidate-dry target_shift s ctx nonce top))
        h;
}

-- Where no argument of the command line is `--submit`, over any passes of the mining loop with the
-- node as the source, from a state in which nothing was sent, those passes send nothing but requests
-- of templates to the node: the loop offers no block, whatever the FPGA and the node answer.
pub passes-parse_args :
    (getenv : List ℕ → Option (List ℕ)) (chain : Chain) (args : List (List ℕ)) (c : Config)
    (nonce_offset : ℕ) (s0 : Solo) (lines : List (ℕ × Line))
    (m : Loop (worksrc_gbt c.payout_address c.dry_run c.target_shift))
    → All (λ a. same_name a (codes "--submit") ≡ false) args
    → parse_args getenv (default_config chain) args ≡ goes c
    → s0.sent ≡ []
    → passes
        (worksrc_gbt c.payout_address c.dry_run c.target_shift)
        nonce_offset
        (loop_start (worksrc_gbt c.payout_address c.dry_run c.target_shift) s0)
        lines
      ≡ some m
    → OnlyRequests m.source.sent
unfolding default_config loop_start
passes-parse_args getenv chain args c nonce_offset s0 lines m h e n p =
    let S = worksrc_gbt c.payout_address c.dry_run c.target_shift in
    passes_kept S nonce_offset (λ (s : Solo). OnlyRequests s.sent)
      (dry_IsKept c.payout_address c.dry_run c.target_shift
        (parse_args-dry_run getenv (default_config chain) c args h e))
      (loop_start S s0) m lines (subst OnlyRequests (sym n) tt) p

-- Nothing was sent and no template is held.
record IsOffline (s : Solo) : Type 0 where
  unsent : s.sent ≡ []
  invalid : s.tpl.valid ≡ false

synthetic-IsKept :
    (dry_run : Bool) (target_shift : ℕ) → IsKept (worksrc_synthetic dry_run target_shift) IsOffline
synthetic-IsKept dry_run target_shift = record {
  by_poll = λ s t h. h;
  by_get_work = λ s t h.
      let k = synthetic_get_work_kept target_shift t s in
      record { unsent = k.0 ∙ h.unsent; invalid = ap (λ x. x.valid) k.1 ∙ h.invalid };
  by_candidate = λ s ctx nonce top h.
      subst IsOffline (sym (on_candidate-invalid dry_run target_shift s ctx nonce top h.invalid)) h;
}

-- Over any passes of the mining loop with the synthetic source, from a state in which no template is
-- held and nothing was sent, those passes send nothing to a node, also where solutions may be
-- submitted.
pub passes-worksrc_synthetic :
    (dry_run : Bool) (target_shift nonce_offset : ℕ) (s0 : Solo) (lines : List (ℕ × Line))
    (m : Loop (worksrc_synthetic dry_run target_shift))
    → s0.tpl.valid ≡ false
    → s0.sent ≡ []
    → passes
        (worksrc_synthetic dry_run target_shift)
        nonce_offset
        (loop_start (worksrc_synthetic dry_run target_shift) s0)
        lines
      ≡ some m
    → m.source.sent ≡ []
unfolding loop_start
passes-worksrc_synthetic dry_run target_shift nonce_offset s0 lines m v n p =
    let S = worksrc_synthetic dry_run target_shift in
    (passes_kept S nonce_offset IsOffline (synthetic-IsKept dry_run target_shift) (loop_start S s0)
      m lines record { unsent = n; invalid = v } p).unsent
