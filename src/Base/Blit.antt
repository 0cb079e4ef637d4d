-- ===== src/Base/Blit.antt =====
-- Copies into a buffer at an offset.
use Prim.Native.Nat.{ℕ, zero, suc, ◌+◌, ◌≤◌}
use mathlib.Core.Path.{◌≡◌, ap, ap₂, ◌∙◌}
use mathlib.Core.List.{List, [], ◌∷◌, ◌++◌, append-nil, append_assoc}
use native.Mathlib.Omega.{arith}
use osprey_blake2b.Base.Lists.{
  length, take, drop, length-append, length-take, length-drop, drop-append,
}
use osprey_blake2b.Base.Slices.{drop_all}
use osprey_blake2b.Base.Bytes.{blit}

module _ {ℓ} {A : Type ℓ} where
  take-append_ge :
      (n k : ℕ) (xs ys : List A) → n ≡ length xs + k → take n (xs ++ ys) ≡ xs ++ take k ys
  take-append_ge n k [] ys h = ap (λ t. take t ys) (omega arith)
  take-append_ge zero k (x ∷ xs) ys h = absurd (omega arith)
  take-append_ge (suc n) k (x ∷ xs) ys h = ap (◌∷◌ x) (take-append_ge n k xs ys (omega arith))

  drop-append_ge : (n k : ℕ) (xs ys : List A) → n ≡ length xs + k → drop n (xs ++ ys) ≡ drop k ys
  drop-append_ge n k [] ys h = ap (λ t. drop t ys) (omega arith)
  drop-append_ge zero k (x ∷ xs) ys h = absurd (omega arith)
  drop-append_ge (suc n) k (x ∷ xs) ys h = drop-append_ge n k xs ys (omega arith)

-- A copy behind the first part leaves that part alone.
pub blit-append :
    (xs ys src : List ℕ) (off k : ℕ)
    → off ≡ length xs + k
    → blit (xs ++ ys) off src ≡ xs ++ blit ys k src
blit-append xs ys src off k h =
    ap₂ (λ t d. t ++ (src ++ d)) (take-append_ge off k xs ys h)
      (drop-append_ge (off + length src) (k + length src) xs ys (omega arith))
    ∙ append_assoc xs (take k ys) (src ++ drop (k + length src) ys)

-- A copy over the whole buffer.
pub blit_whole : (buf src : List ℕ) → length src ≡ length buf → blit buf 0 src ≡ src
blit_whole buf src h =
    ap (λ t. src ++ t) (drop_all (0 + length src) buf (omega arith)) ∙ append-nil src

-- A copy over the first part.
pub blit_first : (xs ys src : List ℕ) → length src ≡ length xs → blit (xs ++ ys) 0 src ≡ src ++ ys
blit_first xs ys src h = ap (λ t. src ++ t) (drop-append (0 + length src) xs ys (omega arith))

pub length-blit :
    (buf src : List ℕ) (off : ℕ)
    → off + length src ≤ length buf
    → length (blit buf off src) ≡ length buf
length-blit buf src off h = omega (
  arith,
  length-append (take off buf) (src ++ drop (off + length src) buf),
  length-append src (drop (off + length src) buf),
  length-take off buf,
  length-drop (off + length src) buf,
)
