-- ===== src/Merkle/Tree.antt =====
-- The whole tree: `merkle_root` against the tree over the hashes.
use osprey_blake2b.Base.{
  ℕ, zero, suc, ◌+◌, ◌/◌, ◌≤◌, ◌≡◌, inl, inr, refl, arith, true, false, List, [], ◌∷◌, length,
  get_or, take, All, All-take, eq→==, ltb, take_all, none, some, ne→==-false, Bool-cases,
}
use mathlib.Core.Path.{subst}
use osprey_blake2b.Merkle.{merkle_level, merkle_loop, merkle_root}
use osprey_blake2b.Merkle.Level.{
  IsRow, level_above, level_above-IsRow, take-merkle_level, length-merkle_level, merkle_level-IsRow,
}

-- The root over a row of hashes: a single hash is its own root, and otherwise it is the root
-- over the level above. No row has two roots, and the empty row has none.
pub data IsRoot : List (List ℕ) → List ℕ → Type 0 where
  single : (r : List ℕ) → IsRoot (r ∷ []) r
  above :
      (a b : List ℕ) (rows : List (List ℕ)) (r : List ℕ)
      → IsRoot (level_above (a ∷ b ∷ rows)) r
      → IsRoot (a ∷ b ∷ rows) r

IsRoot-IsRow : (ids : List (List ℕ)) (r : List ℕ) → IsRoot ids r → All IsRow ids → IsRow r
IsRoot-IsRow ids root (single r) h = h.0
IsRoot-IsRow ids root (above a b rows r t) h =
    IsRoot-IsRow (level_above (a ∷ b ∷ rows)) r t (level_above-IsRow (a ∷ b ∷ rows))

single_row : (ids : List (List ℕ)) → 1 ≤ length ids → IsRoot (take 1 ids) (get_or ids 0 [])
single_row [] h = absurd (omega arith)
single_row (r ∷ ids) h = single r

step_up :
    (ids : List (List ℕ)) (count : ℕ) (r : List ℕ)
    → 2 ≤ count
    → count ≤ length ids
    → IsRoot (level_above (take count ids)) r
    → IsRoot (take count ids) r
step_up [] count r h k t = absurd (omega arith)
step_up (a ∷ []) count r h k t = absurd (omega arith)
step_up (a ∷ b ∷ ids) zero r h k t = absurd (omega arith)
step_up (a ∷ b ∷ ids) (suc zero) r h k t = absurd (omega arith)
step_up (a ∷ b ∷ ids) (suc (suc count)) r h k t = above a b (take count ids) r t

one : (count : ℕ) → 1 ≤ count → ltb 1 count ≡ false → count ≡ 1
one count h e = ground arith

many : (count : ℕ) → ltb 1 count ≡ true → 2 ≤ count
many count e = ground arith

merkle_loop-IsRoot :
    (fuel count : ℕ) (ids : List (List ℕ))
    → All IsRow ids
    → 1 ≤ count
    → count ≤ fuel
    → count ≤ length ids
    → IsRoot (take count ids) (get_or (merkle_loop fuel count ids) 0 [])
unfolding merkle_loop
merkle_loop-IsRoot zero count ids rows h k room = absurd (omega arith)
merkle_loop-IsRoot (suc fuel) count ids rows h k room =
    let pairs = (count + 1) / 2 in
    let up = merkle_level count 0 pairs ids in
    elim (Bool-cases (ltb 1 count)) [
      | inl y ↦
          let two = many count y in
          rw (y, merkle_loop)
            (step_up ids count (get_or (merkle_loop fuel pairs up) 0 []) two room (
              subst (λ t. IsRoot t (get_or (merkle_loop fuel pairs up) 0 []))
                (take-merkle_level ids count rows room)
                (merkle_loop-IsRoot fuel pairs up (merkle_level-IsRow count 0 pairs ids rows)
                  (omega arith) (omega arith)
                  (omega (arith, length-merkle_level count 0 pairs ids)))))
      | inr y ↦ rw (y, one count h y, merkle_loop) (single_row ids (omega arith))
    ]

-- With no hash the result is an error. Over one or more hashes of 32 bytes each, at the front of
-- a buffer that may be longer, the result is the root of the tree over them.
pub merkle_root-IsRoot :
    (ids : List (List ℕ)) (count : ℕ)
    → All IsRow ids
    → count ≤ length ids
    → (count ≡ 0 → merkle_root ids count ≡ none)
      × (1 ≤ count → (r : List ℕ) × (merkle_root ids count ≡ some r) × IsRoot (take count ids) r)
unfolding merkle_root
merkle_root-IsRoot ids count rows room = (
  λ z. rw (eq→== count 0 z) refl,
  λ one.
      let r = get_or (merkle_loop count count ids) 0 [] in
      let t = merkle_loop-IsRoot count count ids rows one (omega arith) room in
      (
        r,
        rw
            (
              ne→==-false count 0 (λ z. absurd (omega arith)),
              take_all 32 r (IsRoot-IsRow (take count ids) r t (All-take IsRow count ids rows)),
            )
            refl,
        t,
      ),
)
