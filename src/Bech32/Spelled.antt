-- ===== src/Bech32/Spelled.antt =====
-- What the searches of miner/bech32.c find: the place of the separator and the values that the data
-- characters stand for.
use osprey_blake2b.Base.{
  ℕ, suc, ◌+◌, ◌<◌, ◌≡◌, ◌⊎◌, inl, inr, refl, ap, ap₂, ◌∙◌, arith, List, [], ◌∷◌, ◌++◌, Option,
  none, some, Option-cases, Bool-cases, none≢some, some-injective, length, map, take, drop, ◌==◌,
  ==_iff, leb, u8, All, if◌then◌else◌,
}
use mathlib.Core.Path.{subst}
use osprey_blake2b.Base.Bytes.{byte_at}
use osprey_blake2b.Bech32.{charset, index_from, charset_index, decode_chars, last_index}

-- What a search of the charset finds is the place of the character.
index_from-found :
    (xs : List ℕ) (i c v : ℕ)
    → index_from i xs c ≡ some v
    → (m : ℕ) × (v ≡ i + m) × (m < length xs) × (byte_at xs m ≡ c)
unfolding index_from
index_from-found [] i c v e = absurd (none≢some e)
index_from-found (x ∷ xs) i c v e = elim (Bool-cases (x == c)) [
  | inl y ↦
      let q : some i ≡ some v = simp (y, index_from) at e in
      (0, omega (arith, some-injective q), omega arith, (==_iff x c).0 y)
  | inr n ↦
      let t = index_from-found xs (i + 1) c v (simp (n, index_from) at e) in
      (suc t.0, omega (arith, t.1), omega (arith, t.2), t.3)
]

charset_index-found : (c v : ℕ) → charset_index c ≡ some v → (v < 32) × (byte_at charset v ≡ c)
unfolding charset_index
charset_index-found c v e =
    let t = index_from-found charset 0 c v e in
    let q : t.0 ≡ v = omega (arith, t.1) in
    (omega (arith, t.1, t.2), subst (λ k. byte_at charset k ≡ c) q t.3)

-- The decoded values are those whose characters in the charset spell the text.
pub decode_chars-charset :
    (cs vs : List ℕ) (vlen : ℕ)
    → decode_chars vlen cs ≡ some vs
    → (map (byte_at charset) vs ≡ cs) × All (λ v. v < 32) vs
unfolding decode_chars
decode_chars-charset [] vs vlen e =
    subst (λ (v : List ℕ). (map (byte_at charset) v ≡ []) × All (λ x. x < 32) v) (some-injective e)
      (refl, tt)
decode_chars-charset (c ∷ cs) vs vlen e = elim (Option-cases (charset_index c)) [
  | inl n ↦ absurd (none≢some (simp (n, decode_chars) at e))
  | inr (v, f) ↦ elim (Bool-cases (leb 128 vlen)) [
    | inl l ↦ absurd (none≢some (simp (f, l, decode_chars) at e))
    | inr l ↦ elim (Option-cases (decode_chars (vlen + 1) cs)) [
      | inl n ↦ absurd (none≢some (simp (f, l, n, decode_chars) at e))
      | inr (rest, n) ↦
          let q : some (u8 v ∷ rest) ≡ some vs = simp (f, l, n, decode_chars) at e in
          let found = charset_index-found c v f in
          let same : u8 v ≡ v = omega (arith, found.0) in
          let t = decode_chars-charset cs rest (vlen + 1) n in
          subst (λ (w : List ℕ). (map (byte_at charset) w ≡ c ∷ cs) × All (λ x. x < 32) w)
            (some-injective q)
            (ap₂ ◌∷◌ (ap (byte_at charset) same ∙ found.1) t.0, (omega (arith, found.0), t.1))
    ]
  ]
]

-- The index found is that of the character: it splits the text.
last_index-found :
    (c k : ℕ) (found : Option ℕ) (xs : List ℕ) (i : ℕ)
    → last_index c found xs i ≡ some k
    → (found ≡ some k) ⊎ ((m : ℕ) × (k ≡ i + m) × (xs ≡ take m xs ++ (c ∷ drop (suc m) xs)))
unfolding last_index
last_index-found c k found [] i e = inl e
last_index-found c k found (x ∷ xs) i e =
    elim (last_index-found c k (if x == c then some i else found) xs (i + 1) e) [
      | inr (m, at, split) ↦ inr (suc m, omega (arith, at), ap (◌∷◌ x) split)
      | inl f ↦ elim (Bool-cases (x == c)) [
        | inr n ↦ inl (simp n at f)
        | inl y ↦
            let q : some i ≡ some k = simp y at f in
            inr (0, omega (arith, some-injective q), ap (λ (t : ℕ). t ∷ xs) ((==_iff x c).0 y))
      ]
    ]

-- The text is what stands before the separator, the separator, and what stands behind it.
pub last_index-split :
    (c k : ℕ) (xs : List ℕ)
    → last_index c none xs 0 ≡ some k
    → xs ≡ take k xs ++ (c ∷ drop (k + 1) xs)
last_index-split c k xs e = elim (last_index-found c k none xs 0 e) [
  | inl f ↦ absurd (none≢some f)
  | inr (m, at, split) ↦
      let q : m ≡ k = omega (arith, at) in
      subst (λ t. xs ≡ take t xs ++ (c ∷ drop (t + 1) xs)) q
        (split ∙ ap (λ (t : ℕ). take m xs ++ (c ∷ drop t xs)) {x = suc m} {y = m + 1} (omega arith))
]
