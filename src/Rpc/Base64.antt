-- ===== src/Rpc/Base64.antt =====
-- miner/miner.c, `b64`: a reader of base64 gives the text back.
use osprey_blake2b.Base.{
  ℕ, zero, suc, ◌+◌, ◌-◌, ◌*◌, ◌/◌, ◌%◌, ◌^◌, ◌<◌, ◌≡◌, refl, sym, ap, ap₂, ◌∙◌, arith, bit_or,
  false, ◌&&◌, List, [], ◌∷◌, if◌then◌else◌, leb, ◌==◌, lt→ltb, ne→==-false, length, get_or, All,
  IsByte, shr,
}
use osprey_blake2b.Base.Bits.{bit_and-mod, bit_or-add}
use osprey_blake2b.Rpc.{b64_alphabet, b64_char, b64_from, b64}

-- The number of a character; 64 for every other.
abbrev pub b64_digit : ℕ → ℕ
b64_digit c =
    if leb b'A' c && leb c b'Z'
    then c - 65
    else if leb b'a' c && leb c b'z'
    then c - 71
    else if leb b'0' c && leb c b'9'
    then c + 4
    else if c == b'+'
    then 62
    else if c == b'/'
    then 63
    else 64

-- A reader of base64, after RFC 4648.
unfoldable pub b64_read : List ℕ → List ℕ
b64_read (p ∷ q ∷ r ∷ s ∷ rest) =
    let more = b64_read rest in
    let a = b64_digit p * 4 + b64_digit q / 16 in
    let b = b64_digit q % 16 * 16 + b64_digit r / 4 in
    let c = b64_digit r % 4 * 64 + b64_digit s in
    if r == b'=' then a ∷ [] else if s == b'=' then a ∷ b ∷ [] else a ∷ b ∷ c ∷ more
b64_read text = []

-- Characters whose numbers count up from `i`.
abbrev Digits : ℕ → List ℕ → Type 0
Digits i [] = Unit {0}
Digits i (c ∷ cs) = (b64_digit c ≡ i) × Digits (i + 1) cs

Digits-get_or :
    (i : ℕ) (cs : List ℕ) (k : ℕ) → Digits i cs → k < length cs → b64_digit (get_or cs k 0) ≡ i + k
Digits-get_or i [] k h l = absurd (omega arith)
Digits-get_or i (c ∷ cs) zero h l = h.0 ∙ omega arith
Digits-get_or i (c ∷ cs) (suc k) h l = Digits-get_or (i + 1) cs k h.1 (omega arith) ∙ omega arith

alphabet-Digits : Digits 0 b64_alphabet
alphabet-Digits = omega arith

b64_digit-b64_char : (v : ℕ) → b64_digit (b64_char v) ≡ v % 64
unfolding b64_char
b64_digit-b64_char v =
    ap (λ k. b64_digit (get_or b64_alphabet k 0)) (bit_and-mod 6 v)
    ∙ Digits-get_or 0 b64_alphabet (v % 64) alphabet-Digits (omega arith)
    ∙ omega arith

b64_char-padding : (v : ℕ) → (b64_char v == b'=') ≡ false
b64_char-padding v = ne→==-false (b64_char v) b'=' (λ e.
    let n : 64 ≡ v % 64 = ap b64_digit (sym e) ∙ b64_digit-b64_char v in absurd (omega (arith, n)))

-- The three bytes joined.
joined_two : (a b : ℕ) → a < 256 → b < 256 → bit_or (a * 2 ^ 16) (b * 2 ^ 8) ≡ (a * 256 + b) * 256
joined_two a b h k = bit_or-add 16 a (b * 2 ^ 8) (omega arith) ∙ omega arith

joined_three :
    (a b c : ℕ)
    → a < 256
    → b < 256
    → c < 256
    → bit_or (bit_or (a * 2 ^ 16) (b * 2 ^ 8)) c ≡ (a * 256 + b) * 256 + c
joined_three a b c h k l =
    ap (λ x. bit_or x c) (joined_two a b h k) ∙ bit_or-add 8 (a * 256 + b) c (omega arith)

module _ (a b c : ℕ) (h : a < 256) (k : b < 256) (l : c < 256) where
  -- The bytes out of the numbers of four characters.
  byte_0 : (v : ℕ) → v / 65536 ≡ a → shr v 18 % 64 * 4 + shr v 12 % 64 / 16 ≡ a
  byte_0 v e = omega (arith, e)

  byte_1 : (v : ℕ) → v / 256 ≡ a * 256 + b → shr v 12 % 64 % 16 * 16 + shr v 6 % 64 / 4 ≡ b
  byte_1 v e = omega (arith, e)

  byte_2 : (v : ℕ) → v ≡ (a * 256 + b) * 256 + c → shr v 6 % 64 % 4 * 64 + v % 64 ≡ c
  byte_2 v e = omega (arith, e)

b64_read-b64_from :
    (outsz o : ℕ) (text : List ℕ)
    → All IsByte text
    → o + 4 * ((length text + 2) / 3) < outsz
    → b64_read (b64_from outsz o text) ≡ text
unfolding b64_read b64_from
b64_read-b64_from outsz o [] w h = refl
b64_read-b64_from outsz o (a ∷ []) w h =
    let d = b64_digit-b64_char in
    let v = a * 2 ^ 16 in
    simp (lt→ltb (o + 4) outsz (omega arith), b64_from, b64_read)
      (ap (λ x. x ∷ [])
        (ap₂ (λ x y. x * 4 + y / 16) (d (shr v 18)) (d (shr v 12))
          ∙ byte_0 a 0 0 w.0 (omega arith) (omega arith) v (omega arith)))
b64_read-b64_from outsz o (a ∷ b ∷ []) w h =
    let d = b64_digit-b64_char in
    let v = bit_or (a * 2 ^ 16) (b * 2 ^ 8) in
    let e = joined_two a b w.0 w.1.0 in
    simp (lt→ltb (o + 4) outsz (omega arith), b64_char-padding (shr v 6), b64_from, b64_read)
      (ap₂ (λ x y. x ∷ y ∷ [])
        (ap₂ (λ x y. x * 4 + y / 16) (d (shr v 18)) (d (shr v 12))
          ∙ byte_0 a b 0 w.0 w.1.0 (omega arith) v (omega (arith, e)))
        (ap₂ (λ x y. x % 16 * 16 + y / 4) (d (shr v 12)) (d (shr v 6))
          ∙ byte_1 a b 0 w.0 w.1.0 (omega arith) v (omega (arith, e))))
b64_read-b64_from outsz o (a ∷ b ∷ c ∷ rest) w h =
    let d = b64_digit-b64_char in
    let v = bit_or (bit_or (a * 2 ^ 16) (b * 2 ^ 8)) c in
    let e = joined_three a b c w.0 w.1.0 w.1.1.0 in
    let ih = b64_read-b64_from outsz (o + 4) rest w.1.1.1 (omega arith) in
    simp
      (
        lt→ltb (o + 4) outsz (omega arith),
        b64_char-padding (shr v 6),
        b64_char-padding v,
        b64_from,
        b64_read,
      )
      (λ i.
        (ap₂ (λ x y. x * 4 + y / 16) (d (shr v 18)) (d (shr v 12))
            ∙ byte_0 a b c w.0 w.1.0 w.1.1.0 v (omega (arith, e)))
          i
        ∷ (ap₂ (λ x y. x % 16 * 16 + y / 4) (d (shr v 12)) (d (shr v 6))
              ∙ byte_1 a b c w.0 w.1.0 w.1.1.0 v (omega (arith, e)))
            i
        ∷ (ap₂ (λ x y. x % 4 * 64 + y) (d (shr v 6)) (d v) ∙ byte_2 a b c w.0 w.1.0 w.1.1.0 v e) i
        ∷ ih i)

-- The base64 of a text that fits into the array, its NUL included, is read back as the text.
pub b64_read-b64 :
    (text : List ℕ) (outsz : ℕ)
    → All IsByte text
    → 4 * ((length text + 2) / 3) < outsz
    → b64_read (b64 text outsz) ≡ text
unfolding b64
b64_read-b64 text outsz w h = b64_read-b64_from outsz 0 text w (omega arith)
