-- ===== src/Blake2b/Shape.antt =====
-- The digest of miner/blake2b.c has the length asked for, and its elements are bytes.
use osprey_blake2b.Base.{ℕ, zero, suc, ◌+◌, ◌≡◌, refl, ap, arith, List, length, All, IsByte}
use osprey_blake2b.Blake2b.{emit, blake2b_nokey}

length-emit : (h : List ℕ) (i n : ℕ) → length (emit h i n) ≡ n
unfolding emit
length-emit h i zero = refl
length-emit h i (suc n) = ap suc (length-emit h (i + 1) n)

emit-IsByte : (h : List ℕ) (i n : ℕ) → All IsByte (emit h i n)
unfolding emit
emit-IsByte h i zero = tt
emit-IsByte h i (suc n) = (omega arith, emit-IsByte h (i + 1) n)

pub length-blake2b_nokey : (inp : List ℕ) (n : ℕ) → length (blake2b_nokey inp n) ≡ n
length-blake2b_nokey inp n = unfold blake2b_nokey in length-emit _ 0 n

pub blake2b_nokey-IsByte : (inp : List ℕ) (n : ℕ) → All IsByte (blake2b_nokey inp n)
blake2b_nokey-IsByte inp n = unfold blake2b_nokey in emit-IsByte _ 0 n
