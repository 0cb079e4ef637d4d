-- ===== src/Worksrc.antt =====
-- miner/worksrc.c and worksrc.h: the packing of a work context and the registry of work sources.
pub mod Packing
use osprey_blake2b.Base.{
  ℕ, zero, suc, ◌+◌, ◌*◌, Bool, true, false, List, [], ◌∷◌, ◌++◌, Option, none, some, if◌then◌else◌,
  leb, ◌==◌, take, replicate, length,
}
use osprey_blake2b.Base.Bytes.{blit, store_le}
use osprey_blake2b.WorkItem.{work_item_len, stage3_len, stage4_len, slots}

pub record WorkCtx : Type 0 where
  pub ss3 : List ℕ
  pub ss4 : List ℕ
  pub target_top64 : ℕ
  pub valid : Bool

-- `put_target_le`.
unfoldable pub put_target_le : ℕ → List ℕ
put_target_le v = store_le 0 8 v

-- The number returned, and the 168 bytes of `out`.
unfoldable pub worksrc_pack_item : WorkCtx → ℕ → ℕ × List ℕ
worksrc_pack_item ctx item_len =
    let out = replicate work_item_len 0 in
    if item_len == work_item_len
    then (
      work_item_len,
      blit (blit (blit out 0 (take stage3_len ctx.ss3)) (slots * 8) (take stage4_len ctx.ss4))
          (2 * slots * 8) (put_target_le ctx.target_top64),
    )
    else if item_len == stage4_len + 8
    then (
      stage4_len + 8,
      blit (blit out 0 (take stage4_len ctx.ss4)) stage4_len (put_target_le ctx.target_top64),
    )
    else (0, out)

-- The registry. A source is its name (compared by `strcmp`) and the rest, which it does not read.
abbrev pub max_sources : ℕ
max_sources = 4

-- `strcmp(a, b) == 0`.
unfoldable pub same_name : List ℕ → List ℕ → Bool
same_name [] [] = true
same_name [] (y ∷ b) = false
same_name (x ∷ a) [] = false
same_name (x ∷ a) (y ∷ b) = if x == y then same_name a b else false

module _ {ℓ} {S : Type ℓ} where
  -- The loop of `worksrc_register`: the table with the source in place of its namesake, if any.
  unfoldable pub replace_source : List (List ℕ × S) → List ℕ × S → Option (List (List ℕ × S))
  replace_source [] src = none
  replace_source ((n, t) ∷ sources) (m, s) =
      if same_name n m
      then some ((m, s) ∷ sources)
      else elim (replace_source sources (m, s)) [ none ↦ none | some rest ↦ some ((n, t) ∷ rest) ]

  unfoldable pub worksrc_register : List (List ℕ × S) → List ℕ × S → List (List ℕ × S)
  worksrc_register sources src =
      if leb max_sources (length sources)
      then sources
      else elim (replace_source sources src) [ none ↦ sources ++ (src ∷ []) | some r ↦ r ]

  unfoldable pub worksrc_find : List (List ℕ × S) → List ℕ → Option S
  worksrc_find [] name = none
  worksrc_find ((n, s) ∷ sources) name =
      if same_name n name then some s else worksrc_find sources name
