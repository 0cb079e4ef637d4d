-- ===== src/Sha256/Padding.antt =====
-- The padded message of FIPS 180-4, and its blocks taken one after the other.
use osprey_blake2b.Base.{
  ℕ, zero, suc, ◌+◌, ◌-◌, ◌*◌, ◌/◌, ◌%◌, ◌^◌, ◌≤◌, ◌≡◌, refl, sym, ap, ◌∙◌, arith, List, [], ◌∷◌,
  ◌++◌, length, take, drop, replicate, reverse, set, length-append, length-drop, length-replicate,
  drop-drop, append_assoc,
}
use osprey_blake2b.Base.Bytes.{store_le}
use osprey_blake2b.Base.Slices.{take-append_le, drop-append_le, set-append_right}
use osprey_blake2b.Sha256.Rounds.{Words, transform}
use osprey_blake2b.Sha256.{initial_state, fill_zero, put_bitlen, digest}

-- `n` blocks of 64 bytes go into the state.
unfoldable pub absorb : ℕ → Words → List ℕ → Words
absorb zero s xs = s
absorb (suc n) s xs = absorb n (transform s (take 64 xs)) (drop 64 xs)

-- The 64-bit length in bits, most significant byte first.
abbrev pub length_bytes : ℕ → List ℕ
length_bytes bits = reverse (store_le 0 8 bits)

-- What is put behind a message: a one bit, zeros up to 56 bytes in the last block, the length.
abbrev pub padding : ℕ → ℕ → List ℕ
padding gap bits = 0x80 ∷ (replicate gap 0 ++ length_bytes bits)

abbrev pub padded : List ℕ → List ℕ
padded msg = msg ++ padding ((119 - length msg % 64) % 64) (length msg * 8)

pub length-padding : (gap bits : ℕ) → length (padding gap bits) ≡ gap + 9
unfolding store_le
length-padding gap bits = omega (
  arith,
  length-append (replicate {A = ℕ} gap 0) (length_bytes bits),
  length-replicate {A = ℕ} gap 0,
)

-- SHA-256 of a whole message: the padded message, block by block, through the compression of the
-- code.
unfoldable pub sha256_reference : List ℕ → List ℕ
unfolding absorb digest
sha256_reference msg = digest (absorb ((length msg + 72) / 64) initial_state (padded msg))

pub absorb-append :
    (n : ℕ) (s : Words) (xs ys : List ℕ)
    → n * 64 ≤ length xs
    → absorb n s (xs ++ ys) ≡ absorb n s xs
unfolding absorb
absorb-append zero s xs ys h = refl
absorb-append (suc n) s xs ys h =
    rw (take-append_le 64 xs ys (omega arith), drop-append_le 64 xs ys (omega arith))
      (absorb-append n _ (drop 64 xs) ys (omega (arith, length-drop 64 xs)))

-- The last block on its own.
pub absorb-suc :
    (n : ℕ) (s : Words) (xs : List ℕ)
    → absorb (suc n) s xs ≡ transform (absorb n s xs) (take 64 (drop (n * 64) xs))
unfolding absorb
absorb-suc zero s xs = refl
absorb-suc (suc n) s xs =
    absorb-suc n (transform s (take 64 xs)) (drop 64 xs)
    ∙ ap (λ t. transform (absorb n (transform s (take 64 xs)) (drop 64 xs)) (take 64 t))
        (drop-drop (n * 64) 64 xs ∙ ap (λ k. drop k xs) (omega arith))

pub fill_zero_lem :
    (i n : ℕ) (pre mid post : List ℕ)
    → length pre ≡ i
    → length mid ≡ n
    → fill_zero i n (pre ++ (mid ++ post)) ≡ pre ++ (replicate n 0 ++ post)
unfolding fill_zero
fill_zero_lem i zero pre [] post h k = refl
fill_zero_lem i zero pre (x ∷ mid) post h k = absurd (omega arith)
fill_zero_lem i (suc n) pre [] post h k = absurd (omega arith)
fill_zero_lem i (suc n) pre (x ∷ mid) post h k =
    ap (fill_zero (i + 1) n) (
      set-append_right pre (x ∷ (mid ++ post)) i 0 0 (omega arith)
      ∙ sym (append_assoc pre (0 ∷ []) (mid ++ post)))
    ∙ fill_zero_lem (i + 1) n (pre ++ (0 ∷ [])) mid post (omega (arith, length-append pre (0 ∷ [])))
        (omega arith)
    ∙ append_assoc pre (0 ∷ []) (replicate n 0 ++ post)

put_bitlen_step :
    (v i n j : ℕ) (pre ys : List ℕ)
    → 63 - i ≡ length pre + j
    → put_bitlen v i (suc n) (pre ++ ys)
      ≡ put_bitlen v (i + 1) n (pre ++ set ys j (v / 2 ^ (i * 8) % 2 ^ 8))
unfolding put_bitlen
put_bitlen_step v i n j pre ys e =
    ap (put_bitlen v (i + 1) n) (set-append_right pre ys (63 - i) j _ e)

pub put_bitlen_lem :
    (v : ℕ) (pre ys : List ℕ)
    → length pre ≡ 56
    → length ys ≡ 8
    → put_bitlen v 0 8 (pre ++ ys) ≡ pre ++ length_bytes v
unfolding store_le put_bitlen
put_bitlen_lem v pre (a ∷ b ∷ c ∷ d ∷ e ∷ f ∷ g ∷ h ∷ []) hp hy =
    put_bitlen_step v 0 7 7 pre _ (omega arith)
    ∙ put_bitlen_step v 1 6 6 pre _ (omega arith)
    ∙ put_bitlen_step v 2 5 5 pre _ (omega arith)
    ∙ put_bitlen_step v 3 4 4 pre _ (omega arith)
    ∙ put_bitlen_step v 4 3 3 pre _ (omega arith)
    ∙ put_bitlen_step v 5 2 2 pre _ (omega arith)
    ∙ put_bitlen_step v 6 1 1 pre _ (omega arith)
    ∙ put_bitlen_step v 7 0 0 pre _ (omega arith)
put_bitlen_lem v pre _ hp hy = absurd (omega arith)
