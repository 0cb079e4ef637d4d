-- ===== src/Dns/Names.antt =====
-- miner/dns.c, `encode_qname`: an encoded name is the labels of the host name.
pub mod Skipped
use osprey_blake2b.Base.{
  ℕ, zero, suc, ◌+◌, ◌-◌, ◌≤◌, ◌<◌, ◌≡◌, ◌≢◌, ◌⊎◌, inl, inr, refl, sym, ap, ◌∙◌, arith, Bool, true,
  false, ◌||◌, ◌&&◌, not, List, [], ◌∷◌, ◌++◌, some, ltb, ◌==◌, ==_iff, Bool-cases, Option-cases,
  none≢some, some-injective, length, length-append, drop-append, append_assoc, All, All-append,
  append-nil, ap₂, u8, bit_and,
}
use mathlib.Core.Path.{subst}
use osprey_blake2b.Dns.Message.{
  value, put_label, put_root, encode_from, encode_qname, byte, skip_from, skip_name,
}

-- A name as it is sent: each label behind its length, and the empty one at the end.
abbrev pub wire : List (List ℕ) → List ℕ
wire [] = 0 ∷ []
wire (l ∷ ls) = length l ∷ (l ++ wire ls)

abbrev pub IsLabel : List ℕ → Type 0
IsLabel l = (0 < length l) × (length l < 64) × All (λ c. c ≢ b'.') l

-- A text is labels with a dot between two of them; one more dot at the end is allowed.
abbrev pub Spells : List (List ℕ) → List ℕ → Type 0
Spells [] t = t ≡ []
Spells (l ∷ ls) t =
    ((t ≡ l) × (ls ≡ [])) ⊎ ((rest : List ℕ) × (t ≡ l ++ (b'.' ∷ rest)) × Spells ls rest)

pub record Encodes (buflen o : ℕ) (text q : List ℕ) : Type 0 where
  pub labels : List (List ℕ)
  pub sent : q ≡ wire labels
  pub sizes : All IsLabel labels
  pub spelt : Spells labels text
  pub fits : o + length q ≤ buflen

put_label-some :
    (buflen o : ℕ) (l bs : List ℕ)
    → put_label buflen o l ≡ some bs
    → (bs ≡ length l ∷ l) × (0 < length l) × (length l < 64)
unfolding put_label
put_label-some buflen o l bs e = elim (Bool-cases ((length l == 0) || ltb 63 (length l))) [
  | inl a ↦ absurd (none≢some (simp (a, put_label) at e))
  | inr a ↦ elim (Bool-cases (ltb buflen (o + 1 + length l + 1))) [
    | inl b ↦ absurd (none≢some (simp (a, b, put_label) at e))
    | inr b ↦
        let some_left : 0 < length l = ground arith in
        let short : length l < 64 = ground arith in
        let same : u8 (length l) ≡ length l = omega arith in
        (
          sym (some-injective (simp (a, b, put_label) at e)) ∙ ap (λ x. x ∷ l) same,
          some_left,
          short,
        )
  ]
]

put_root-some :
    (buflen o : ℕ) (bs : List ℕ) → put_root buflen o ≡ some bs → (bs ≡ 0 ∷ []) × (o + 1 ≤ buflen)
unfolding put_root
put_root-some buflen o bs e = elim (Bool-cases (ltb buflen (o + 1))) [
  | inl b ↦ absurd (none≢some (simp (b, put_root) at e))
  | inr b ↦ (sym (some-injective (simp (b, put_root) at e)), ground arith)
]

abbrev IsPlain : List ℕ → Type 0
IsPlain l = All (λ c. c ≢ b'.') l

-- The last label, and a label with a dot behind it, before what is encoded already.
last_label :
    (buflen o : ℕ) (l bs end : List ℕ)
    → put_label buflen o l ≡ some bs
    → put_root buflen (o + 1 + length l) ≡ some end
    → IsPlain l
    → Encodes buflen o (l ++ []) (bs ++ end)
last_label buflen o l bs end a b plain =
    let size = put_label-some buflen o l bs a in
    let root = put_root-some buflen (o + 1 + length l) end b in
    record {
      labels = l ∷ [];
      sent = ap₂ ◌++◌ size.0 root.0;
      sizes = ((size.1, size.2, plain), tt);
      spelt = inl (append-nil l, refl);
      fits = omega (arith, root.1, ap length size.0, ap length root.0, length-append bs end);
    }

dotted_label :
    (buflen o : ℕ) (l bs p more : List ℕ)
    → put_label buflen o l ≡ some bs
    → Encodes buflen (o + 1 + length l) p more
    → IsPlain l
    → Encodes buflen o (l ++ (b'.' ∷ p)) (bs ++ more)
dotted_label buflen o l bs p more a h plain =
    let size = put_label-some buflen o l bs a in
    record {
      labels = l ∷ h.labels;
      sent = ap₂ ◌++◌ size.0 h.sent;
      sizes = ((size.1, size.2, plain), h.sizes);
      spelt = inr (p, refl, h.spelt);
      fits = omega (arith, h.fits, ap length size.0, length-append bs more);
    }

pub encode_from-Encodes :
    (buflen o : ℕ) (label p q : List ℕ)
    → IsPlain label
    → encode_from buflen o label p ≡ some q
    → Encodes buflen o (label ++ p) q
unfolding encode_from
encode_from-Encodes buflen o [] [] q h e =
    let r = put_root-some buflen o q e in
    record {
      labels = [];
      sent = r.0;
      sizes = tt;
      spelt = refl;
      fits = omega (arith, r.1, ap length r.0);
    }
encode_from-Encodes buflen o (l ∷ label) [] q h e =
    elim (Option-cases (put_label buflen o (l ∷ label))) [
      | inl a ↦ absurd (none≢some (simp (a, encode_from) at e))
      | inr (bs, a) ↦ elim (Option-cases (put_root buflen (o + 1 + length (l ∷ label)))) [
        | inl b ↦ absurd (none≢some (simp (a, b, encode_from) at e))
        | inr (end, b) ↦
            subst (Encodes buflen o ((l ∷ label) ++ []))
              (some-injective (simp (a, b, encode_from) at e))
              (last_label buflen o (l ∷ label) bs end a b h)
      ]
    ]
encode_from-Encodes buflen o label (c ∷ p) q h e = elim (Bool-cases (c == b'.')) [
  | inr d ↦
      let plain : IsPlain (c ∷ []) = ((λ k. absurd (grind (arith, d, k))), tt) in
      subst (λ t. Encodes buflen o t q) (append_assoc label (c ∷ []) p)
        (encode_from-Encodes buflen o (label ++ (c ∷ [])) p q
          (All-append (λ c. c ≢ b'.') label (c ∷ []) h plain) (simp (d, encode_from) at e))
  | inl d ↦ elim (Option-cases (put_label buflen o label)) [
    | inl a ↦ absurd (none≢some (simp (d, a, encode_from) at e))
    | inr (bs, a) ↦ elim (Option-cases (encode_from buflen (o + 1 + length label) [] p)) [
      | inl b ↦ absurd (none≢some (simp (d, a, b, encode_from) at e))
      | inr (more, b) ↦
          let dot : b'.' ≡ c = sym ((==_iff c b'.').0 d) in
          subst (λ x. Encodes buflen o (label ++ (x ∷ p)) q) dot
            (subst (Encodes buflen o (label ++ (b'.' ∷ p)))
              (some-injective (simp (d, a, b, encode_from) at e))
              (dotted_label buflen o label bs p more a
                (encode_from-Encodes buflen (o + 1 + length label) [] p more tt b) h))
    ]
  ]
]
