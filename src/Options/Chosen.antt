-- ===== src/Options/Chosen.antt =====
-- miner/miner.c, `main`: a work source is always found.
use osprey_blake2b.Base.{◌≡◌, refl, Bool-cases, Option-cases, some, ◌⊎◌, inl, inr}
use osprey_blake2b.Worksrc.{same_name, replace_source, worksrc_register, worksrc_find}
use osprey_blake2b.PoolSource.{
  Chain, knots, sia, worksrc_stratum_backend, g_backend_knots, g_backend_sia,
}
use osprey_blake2b.Options.{Config, registered, wanted, choose_source}

Chain-cases : (c : Chain) → (c ≡ knots) ⊎ (c ≡ sia)
Chain-cases knots = inl refl
Chain-cases sia = inr refl

-- The source that is looked for is registered, whatever the configuration: the pool's where a pool is
-- configured, and else the synthetic one or the node's.
pub choose_source-wanted : (cfg : Config) → choose_source cfg ≡ some (wanted cfg)
unfolding choose_source registered wanted worksrc_register replace_source worksrc_find same_name
    worksrc_stratum_backend g_backend_knots g_backend_sia
choose_source-wanted cfg = elim (Option-cases cfg.stratum_host) [
  | inl e ↦ elim (Bool-cases cfg.synthetic) [
    | inl s ↦ simp (e, s, choose_source, registered, wanted) refl
    | inr s ↦ simp (e, s, choose_source, registered, wanted) refl
  ]
  | inr (h, e) ↦ elim (Chain-cases cfg.chain) [
    | inl c ↦ simp (e, c, choose_source, registered, wanted) refl
    | inr c ↦ simp (e, c, choose_source, registered, wanted) refl
  ]
]
