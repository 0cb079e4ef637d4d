-- ===== src/Dns/Names/Skipped.antt =====
-- miner/dns.c, `skip_name`: wherever an encoded name stands, just the name is skipped.
use osprey_blake2b.Base.{
  true≢false, ℕ, zero, suc, ◌+◌, ◌-◌, ◌≤◌, ◌<◌, ◌≡◌, inl, inr, refl, sym, ap, ◌∙◌, arith, Bool,
  true, false, ◌&&◌, not, List, [], ◌∷◌, ◌++◌, some, ltb, ◌==◌, ==_iff, Bool-cases, length,
  length-append, drop-append, append_assoc, All, bit_and,
}
use osprey_blake2b.Dns.Message.{value, encode_qname, byte, skip_from, skip_name}
use osprey_blake2b.Dns.Names.{wire, IsLabel, Encodes, encode_from-Encodes}

all_below : (ℕ → Bool) → ℕ → Bool
all_below P zero = true
all_below P (suc n) = P n && all_below P n

all_below-true : (P : ℕ → Bool) (n k : ℕ) → all_below P n ≡ true → k < n → P k ≡ true
unfolding all_below
all_below-true P zero k e h = absurd (omega arith)
all_below-true P (suc n) k e h = elim (Bool-cases (P n)) [
  | inr b ↦ absurd (true≢false (sym (simp (b, all_below) at e)))
  | inl b ↦ elim (Bool-cases (k == n)) [
    | inl q ↦ rw ((==_iff k n).0 q) b
    | inr q ↦ all_below-true P n k (simp (b, all_below) at e) (ground arith)
  ]
]

-- The bits of a length below 64 are not those of a pointer.
pointer_bits : (l : ℕ) → l < 64 → not (bit_and l 192 == 192) ≡ true
unfolding all_below
pointer_bits l h = all_below-true (λ l. not (bit_and l 192 == 192)) 64 l refl h

pub byte-append :
    (pre bs : List ℕ) (b off : ℕ) → length pre ≡ off → byte (pre ++ (b ∷ bs)) off ≡ value b
unfolding byte
byte-append pre bs b off e = simp (drop-append off pre (b ∷ bs) e, byte)

wire_in_place :
    (l ws pre rest : List ℕ) (n : ℕ)
    → (pre ++ (n ∷ l)) ++ (ws ++ rest) ≡ pre ++ ((n ∷ (l ++ ws)) ++ rest)
wire_in_place l ws pre rest n =
    append_assoc pre (n ∷ l) (ws ++ rest) ∙ ap (λ x. pre ++ (n ∷ x)) (sym (append_assoc l ws rest))

wire-nonempty : (ls : List (List ℕ)) → 0 < length (wire ls)
wire-nonempty [] = omega arith
wire-nonempty (l ∷ ls) = omega arith

-- One label is skipped.
skip_from-label :
    (l pre bs r : List ℕ) (off fuel : ℕ)
    → r ≡ pre ++ (length l ∷ bs)
    → IsLabel l
    → length pre ≡ off
    → skip_from (suc fuel) r off ≡ skip_from fuel r (off + (1 + length l))
unfolding skip_from
skip_from-label l pre bs r off fuel q h e =
    let inside : ltb off (length r) ≡ true =
      ground (arith, ap length q, length-append pre (length l ∷ bs)) in
    let here : byte r off ≡ value (length l) = rw q (byte-append pre bs (length l) off e) in
    let full : (length l == 0) ≡ false = ground (arith, h.0) in
    let plain : (bit_and (length l) 192 == 192) ≡ false =
      ground (arith, pointer_bits (length l) h.1) in
    let short : ltb 63 (length l) ≡ false = ground (arith, h.1) in
    simp (inside, here, full, plain, short, skip_from)

skip_from-wire :
    (ls : List (List ℕ)) (pre rest r : List ℕ) (off fuel : ℕ)
    → r ≡ pre ++ (wire ls ++ rest)
    → All IsLabel ls
    → length pre ≡ off
    → length (wire ls) ≤ fuel
    → skip_from fuel r off ≡ value (some (off + length (wire ls)))
unfolding skip_from
skip_from-wire ls pre rest r off zero q h e f = absurd (omega (arith, wire-nonempty ls))
skip_from-wire [] pre rest r off (suc fuel) q h e f =
    let inside : ltb off (length r) ≡ true =
      ground (arith, ap length q, length-append pre (0 ∷ rest)) in
    let here : byte r off ≡ value 0 = rw q (byte-append pre rest 0 off e) in
    simp (inside, here, skip_from)
skip_from-wire (l ∷ ls) pre rest r off (suc fuel) q h e f =
    let n = length-append l (wire ls) in
    skip_from-label l pre ((l ++ wire ls) ++ rest) r off fuel q h.0 e
    ∙ (skip_from-wire ls (pre ++ (length l ∷ l)) rest r (off + (1 + length l)) fuel
          (q ∙ sym (wire_in_place l (wire ls) pre rest (length l))) h.1
          (omega (arith, length-append pre (length l ∷ l))) (omega arith)
        ∙ ap (λ k. value (some k)) {x = off + (1 + length l) + length (wire ls)}
            {y = off + length (wire (l ∷ ls))} (omega arith))

pub skip_name-wire :
    (ls : List (List ℕ)) (pre rest r : List ℕ) (off : ℕ)
    → r ≡ pre ++ (wire ls ++ rest)
    → All IsLabel ls
    → length pre ≡ off
    → skip_name r off ≡ value (some (off + length (wire ls)))
unfolding skip_name
skip_name-wire ls pre rest r off q h e =
    skip_from-wire ls pre rest r off (length r - off + 1) q h e (
      omega (arith, ap length q, length-append pre (wire ls ++ rest), length-append (wire ls) rest))

-- A name that is encoded is the labels of the host name, each of 1 to 63 characters behind its
-- length and the empty label at the end; the labels with dots between them spell the host name, the
-- name fits the buffer, and wherever it stands in a message, `skip_name` skips just the name.
pub encode_qname-skip_name :
    (host : List ℕ) (buflen : ℕ) (q : List ℕ)
    → encode_qname host buflen ≡ some q
    → Encodes buflen 0 host q
      × ((pre rest : List ℕ)
          → skip_name (pre ++ (q ++ rest)) (length pre) ≡ value (some (length pre + length q)))
unfolding encode_qname
encode_qname-skip_name host buflen q e =
    let h = encode_from-Encodes buflen 0 [] host q tt e in
    (
      h,
      λ pre rest.
          skip_name-wire h.labels pre rest (pre ++ (q ++ rest)) (length pre)
            (ap (λ x. pre ++ (x ++ rest)) h.sent) h.sizes refl
          ∙ ap (λ x. value (some (length pre + length x))) (sym h.sent),
    )
