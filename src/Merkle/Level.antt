-- ===== src/Merkle/Level.antt =====
-- One level of the tree: the loop that overwrites its own input, and the level as a function.
use osprey_blake2b.Base.{
  ℕ, zero, suc, ◌+◌, ◌*◌, ◌/◌, ◌≤◌, ◌<◌, ◌≡◌, inl, inr, refl, sym, ap, ◌∙◌, arith, true, false,
  List, [], ◌∷◌, ◌++◌, length, get_or, set, take, All, All-set, All-take, length-set, length-take,
  ltb, lt→ltb, take_all, get_or-set_self, get_or-set_ne, get_or_ext, Bool-cases, ◌==◌, ==_iff,
}
use mathlib.Core.Path.{subst}
use osprey_blake2b.Sha256.{sha256d}
use osprey_blake2b.Sha256.Reference.{sha256d-IsDigest}
use osprey_blake2b.Merkle.{pair_hash, merkle_level}

abbrev pub IsRow : List ℕ → Type 0
IsRow r = length r ≡ 32

-- The level above a row of hashes: neighbours are hashed together, a last one with itself.
abbrev pub level_above : List (List ℕ) → List (List ℕ)
level_above [] = []
level_above (a ∷ []) = sha256d (a ++ a) ∷ []
level_above (a ∷ b ∷ rows) = sha256d (a ++ b) ∷ level_above rows

pub length-level_above : (rows : List (List ℕ)) → length (level_above rows) ≡ (length rows + 1) / 2
length-level_above [] = refl
length-level_above (a ∷ []) = refl
length-level_above (a ∷ b ∷ rows) = omega (arith, length-level_above rows)

pub level_above-IsRow : (rows : List (List ℕ)) → All IsRow (level_above rows)
level_above-IsRow [] = tt
level_above-IsRow (a ∷ []) = ((sha256d-IsDigest (a ++ a)).size, tt)
level_above-IsRow (a ∷ b ∷ rows) = ((sha256d-IsDigest (a ++ b)).size, level_above-IsRow rows)

two_suc : (i : ℕ) → 2 * suc i ≡ suc (suc (2 * i))
two_suc i = omega arith

two_suc_1 : (i : ℕ) → suc (suc (2 * i)) + 1 ≡ suc (suc (2 * i + 1))
two_suc_1 i = omega arith

ltb-suc : (m n : ℕ) → ltb (suc (suc m)) (suc (suc n)) ≡ ltb m n
ltb-suc m n = ground arith

pair_hash-suc :
    (a b : List ℕ) (rows : List (List ℕ)) (i : ℕ)
    → pair_hash (a ∷ b ∷ rows) (suc (suc (length rows))) (suc i) ≡ pair_hash rows (length rows) i
unfolding pair_hash
pair_hash-suc a b rows i = rw (two_suc i, two_suc_1 i, ltb-suc (2 * i + 1) (length rows)) refl

get_or-level_above :
    (rows : List (List ℕ)) (i : ℕ)
    → All IsRow rows
    → i < (length rows + 1) / 2
    → get_or (level_above rows) i [] ≡ pair_hash rows (length rows) i
get_or-level_above [] i h p = absurd (omega arith)
get_or-level_above (a ∷ []) zero h p = unfold pair_hash in rw (take_all 32 a h.0) refl
get_or-level_above (a ∷ []) (suc i) h p = absurd (omega arith)
get_or-level_above (a ∷ b ∷ rows) zero h p =
    unfold pair_hash in
    rw (lt→ltb 1 (suc (suc (length rows))) (omega arith), take_all 32 a h.0, take_all 32 b h.1.0)
      refl
get_or-level_above (a ∷ b ∷ rows) (suc i) h p =
    get_or-level_above rows i h.1.1 (omega arith) ∙ sym (pair_hash-suc a b rows i)

-- Two buffers that agree on the rows of a pair give the same hash.
pair_hash_ext :
    (xs ys : List (List ℕ)) (count j : ℕ)
    → get_or xs (2 * j) [] ≡ get_or ys (2 * j) []
    → get_or xs (2 * j + 1) [] ≡ get_or ys (2 * j + 1) []
    → pair_hash xs count j ≡ pair_hash ys count j
unfolding pair_hash
pair_hash_ext xs ys count j e f = rw (e, f) refl

pub length-merkle_level :
    (count i n : ℕ) (ids : List (List ℕ)) → length (merkle_level count i n ids) ≡ length ids
unfolding merkle_level
length-merkle_level count i zero ids = refl
length-merkle_level count i (suc n) ids =
    length-merkle_level count (i + 1) n (set ids i (pair_hash ids count i))
    ∙ length-set ids i (pair_hash ids count i)

before :
    (count i n : ℕ) (ids : List (List ℕ)) (j : ℕ)
    → j < i
    → get_or (merkle_level count i n ids) j [] ≡ get_or ids j []
unfolding merkle_level
before count i zero ids j h = refl
before count i (suc n) ids j h =
    before count (i + 1) n (set ids i (pair_hash ids count i)) j (omega arith)
    ∙ get_or-set_ne ids i j (pair_hash ids count i) [] (λ e. absurd (omega arith))

i<j : (i j : ℕ) → i ≤ j → (i == j) ≡ false → i + 1 ≤ j
i<j i j h e = ground arith

ltb→lt : (m n : ℕ) → ltb m n ≡ true → m < n
ltb→lt m n e = ground arith

get_or-take :
    (n : ℕ) (xs : List (List ℕ)) (i : ℕ) → i < n → get_or (take n xs) i [] ≡ get_or xs i []
get_or-take zero xs i h = absurd (omega arith)
get_or-take (suc n) [] i h = refl
get_or-take (suc n) (x ∷ xs) zero h = refl
get_or-take (suc n) (x ∷ xs) (suc i) h = get_or-take n xs i (omega arith)

count_eq : (count : ℕ) (ids : List (List ℕ)) → count ≤ length ids → count ≡ length (take count ids)
count_eq count ids h = omega (arith, length-take count ids)

pub merkle_level-IsRow :
    (count i n : ℕ) (ids : List (List ℕ)) → All IsRow ids → All IsRow (merkle_level count i n ids)
unfolding merkle_level
merkle_level-IsRow count i zero ids h = h
merkle_level-IsRow count i (suc n) ids h =
    merkle_level-IsRow count (i + 1) n (set ids i (pair_hash ids count i)) (
      All-set IsRow ids i (pair_hash ids count i) h (unfold pair_hash in (sha256d-IsDigest _).size))

-- Row `j` of the result is the hash of the pair `j` of the original buffer: no row is
-- overwritten before it has been read.
written :
    (count i n : ℕ) (ids : List (List ℕ)) (j : ℕ)
    → i + n ≤ length ids
    → i ≤ j
    → j < i + n
    → get_or (merkle_level count i n ids) j [] ≡ pair_hash ids count j
unfolding merkle_level
written count i zero ids j room h k = absurd (omega arith)
written count i (suc n) ids j room h k =
    let row = pair_hash ids count i in
    let next = set ids i row in
    elim (Bool-cases (i == j)) [
      | inl e ↦
          let q = (==_iff i j).0 e in
          subst (λ t. get_or (merkle_level count (i + 1) n next) t [] ≡ pair_hash ids count t) q
            (before count (i + 1) n next i (omega arith)
              ∙ get_or-set_self ids i row [] (omega arith))
      | inr e ↦
          let q = i<j i j h e in
          written count (i + 1) n next j (omega (arith, length-set ids i row)) q (omega arith)
          ∙ pair_hash_ext next ids count j
              (get_or-set_ne ids i (2 * j) row [] (λ z. absurd (omega arith)))
              (get_or-set_ne ids i (2 * j + 1) row [] (λ z. absurd (omega arith)))
    ]

pair_hash-take :
    (ids : List (List ℕ)) (count j : ℕ)
    → j < (count + 1) / 2
    → pair_hash (take count ids) count j ≡ pair_hash ids count j
unfolding pair_hash
pair_hash-take ids count j h = elim (Bool-cases (ltb (2 * j + 1) count)) [
  | inl y ↦
      rw
        (
          y,
          get_or-take count ids (2 * j) (omega arith),
          get_or-take count ids (2 * j + 1) (ltb→lt (2 * j + 1) count y),
        )
        refl
  | inr y ↦ rw (y, get_or-take count ids (2 * j) (omega arith)) refl
]

-- The loop over one level leaves the level above in front.
pub take-merkle_level :
    (ids : List (List ℕ)) (count : ℕ)
    → All IsRow ids
    → count ≤ length ids
    → take ((count + 1) / 2) (merkle_level count 0 ((count + 1) / 2) ids)
      ≡ level_above (take count ids)
take-merkle_level ids count rows room =
    let pairs = (count + 1) / 2 in
    let out = merkle_level count 0 pairs ids in
    let n = length-take count ids in
    let size : length (take pairs out) ≡ pairs =
      omega (arith, length-take pairs out, length-merkle_level count 0 pairs ids) in
    get_or_ext [] (take pairs out) (level_above (take count ids))
      (omega (arith, size, n, length-level_above (take count ids)))
      (λ i p.
        get_or-take pairs out i (omega arith)
        ∙ written count 0 pairs ids i (omega arith) (omega arith) (omega arith)
        ∙ sym (pair_hash-take ids count i (omega arith))
        ∙ ap (λ t. pair_hash (take count ids) t i) (count_eq count ids room)
        ∙ sym (get_or-level_above (take count ids) i (All-take IsRow count ids rows) (omega arith)))
