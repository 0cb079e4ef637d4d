-- ===== src/Options/Dry.antt =====
-- miner/miner.c, `main`: only `--submit` changes whether this is a dry run.
use osprey_blake2b.Base.{
  ℕ, ◌≡◌, ◌⊎◌, inl, inr, refl, ap, ◌∙◌, Bool, false, List, [], ◌∷◌, Option, none, some, All, length,
  ◌==◌, take, ◌||◌, Bool-cases, Option-cases,
}
use mathlib.Core.Path.{subst}
use osprey_blake2b.Base.Text.{codes}
use osprey_blake2b.WorkItem.{Result, err, ok}
use osprey_blake2b.Worksrc.{same_name}
use osprey_blake2b.Options.{
  Config, Outcome, goes, exits, set_stratum, split_last, set_algo, dumped, dump_item, with_value,
  alone, option_of, one_alone, parse_args,
}

-- Whether the program may submit is as before, where it goes on.
abbrev Keeps : Bool → Outcome → Type 0
Keeps b (goes c) = c.dry_run ≡ b
Keeps b (exits code out) = Unit {0}

set_stratum-Keeps : (cfg : Config) (v : List ℕ) → Keeps cfg.dry_run (set_stratum cfg v)
unfolding set_stratum
set_stratum-Keeps cfg v = elim (Option-cases (split_last b':' (take 191 v))) [
  | inl e ↦ simp (e, set_stratum) tt
  | inr (p, e) ↦ elim (Bool-cases (length p.1 == 0)) [
    | inl z ↦ simp (e, z, set_stratum) tt
    | inr z ↦ simp (e, z, set_stratum) refl
  ]
]

set_algo-Keeps : (cfg : Config) (v : List ℕ) → Keeps cfg.dry_run (set_algo cfg v)
unfolding set_algo
set_algo-Keeps cfg v = elim (Bool-cases (same_name v (codes "sia"))) [
  | inl e ↦ simp (e, set_algo) refl
  | inr e ↦ elim (Bool-cases (same_name v (codes "knots") || same_name v (codes "blake2b"))) [
    | inl z ↦ simp (e, z, set_algo) refl
    | inr z ↦ simp (e, z, set_algo) tt
  ]
]

dumped-Keeps : (b : Bool) (r : Result (List ℕ)) → Keeps b (dumped r)
unfolding dumped
dumped-Keeps b (ok di) = tt
dumped-Keeps b (err e) = tt

dump_item-Keeps : (b : Bool) → Keeps b dump_item
unfolding dump_item
dump_item-Keeps b = dumped-Keeps b _

abbrev FoundKeeps : Bool → Option Outcome → Type 0
FoundKeeps b none = Unit {0}
FoundKeeps b (some o) = Keeps b o

-- An option of another name, or one that keeps.
Harmless : Bool → List ℕ → List ℕ × Outcome → Type 0
Harmless b a o = (same_name a o.0 ≡ false) ⊎ Keeps b o.1

option_of-Keeps :
    (b : Bool) (options : List (List ℕ × Outcome)) (a : List ℕ)
    → All (Harmless b a) options
    → FoundKeeps b (option_of options a)
unfolding option_of Harmless
option_of-Keeps b [] a h = tt
option_of-Keeps b ((name, o) ∷ options) a h = elim (Bool-cases (same_name a name)) [
  | inr e ↦ simp (e, option_of) (option_of-Keeps b options a h.1)
  | inl e ↦ elim h.0 [ inl f ↦ cc | inr k ↦ simp (e, option_of) k ]
]

with_value-Harmless :
    (getenv : List ℕ → Option (List ℕ)) (cfg : Config) (v a : List ℕ)
    → All (Harmless cfg.dry_run a) (with_value getenv cfg v)
unfolding with_value Harmless
with_value-Harmless getenv cfg v a = (
  inr refl,
  (
    inr refl,
    (
      inr refl,
      (
        inr refl,
        (
          inr refl,
          (
            inr refl,
            (
              inr refl,
              (
                inr refl,
                (
                  inr refl,
                  (
                    inr refl,
                    (
                      inr refl,
                      (
                        inr (set_stratum-Keeps cfg v),
                        (
                          inr refl,
                          (
                            inr refl,
                            (
                              inr refl,
                              (inr refl, (inr refl, (inr refl, (inr (set_algo-Keeps cfg v), tt)))),
                            ),
                          ),
                        ),
                      ),
                    ),
                  ),
                ),
              ),
            ),
          ),
        ),
      ),
    ),
  ),
)

alone-Harmless :
    (cfg : Config) (a : List ℕ)
    → same_name a (codes "--submit") ≡ false
    → All (Harmless cfg.dry_run a) (alone cfg)
unfolding alone Harmless
alone-Harmless cfg a h =
    (inl h, (inr refl, (inr refl, (inr refl, (inr (dump_item-Keeps cfg.dry_run), tt)))))

one_alone-Keeps :
    (cfg : Config) (a : List ℕ)
    → same_name a (codes "--submit") ≡ false
    → Keeps cfg.dry_run (one_alone cfg a)
unfolding one_alone
one_alone-Keeps cfg a h =
    let k = option_of-Keeps cfg.dry_run (alone cfg) a (alone-Harmless cfg a h) in
    elim (Option-cases (option_of (alone cfg) a)) [
      | inl e ↦ simp (e, one_alone) tt
      | inr (o, e) ↦ simp (e, one_alone) (subst (FoundKeeps cfg.dry_run) e k)
    ]

Outcome-cases :
    (o : Outcome)
    → ((c : Config) × (o ≡ goes c)) ⊎ ((code : ℕ) × (out : List ℕ) × (o ≡ exits code out))
Outcome-cases (goes c) = inl (c, refl)
Outcome-cases (exits code out) = inr (code, out, refl)

parse_args-Keeps :
    (getenv : List ℕ → Option (List ℕ)) (cfg : Config) (args : List (List ℕ))
    → All (λ a. same_name a (codes "--submit") ≡ false) args
    → Keeps cfg.dry_run (parse_args getenv cfg args)
unfolding parse_args
parse_args-Keeps getenv cfg [] h = refl
parse_args-Keeps getenv cfg (a ∷ []) h = one_alone-Keeps cfg a h.0
parse_args-Keeps getenv cfg (a ∷ (v ∷ args)) h =
    let t =
      option_of-Keeps cfg.dry_run (with_value getenv cfg v) a
        (with_value-Harmless getenv cfg v a) in
    elim (Option-cases (option_of (with_value getenv cfg v) a)) [
      | inr (o, e) ↦ elim (Outcome-cases o) [
        | inr (code, out, f) ↦ simp (e ∙ ap some f, parse_args) tt
        | inl (c, f) ↦
            let q : c.dry_run ≡ cfg.dry_run = subst (FoundKeeps cfg.dry_run) (e ∙ ap some f) t in
            simp (e ∙ ap some f, parse_args)
              (subst (λ b. Keeps b (parse_args getenv c args)) q
                (parse_args-Keeps getenv c args h.1.1))
      ]
      | inl e ↦
          let u = one_alone-Keeps cfg a h.0 in
          elim (Outcome-cases (one_alone cfg a)) [
            | inr (code, out, f) ↦ simp (e, f, parse_args) tt
            | inl (c, f) ↦
                let q : c.dry_run ≡ cfg.dry_run = subst (Keeps cfg.dry_run) f u in
                simp (e, f, parse_args)
                  (subst (λ b. Keeps b (parse_args getenv c (v ∷ args))) q
                    (parse_args-Keeps getenv c (v ∷ args) h.1))
          ]
    ]

-- Where no argument is `--submit` and the program goes on, it may submit exactly where it might before.
pub parse_args-dry_run :
    (getenv : List ℕ → Option (List ℕ)) (cfg c : Config) (args : List (List ℕ))
    → All (λ a. same_name a (codes "--submit") ≡ false) args
    → parse_args getenv cfg args ≡ goes c
    → c.dry_run ≡ cfg.dry_run
parse_args-dry_run getenv cfg c args h e =
    subst (Keeps cfg.dry_run) e (parse_args-Keeps getenv cfg args h)
