-- ===== src/Dns/Bounds.antt =====
-- miner/dns.c: the reading of a reply ends, and stays inside of the datagram.
use osprey_blake2b.Base.{
  ℕ, zero, suc, ◌+◌, ◌*◌, ◌-◌, ◌^◌, ◌≤◌, ◌<◌, ◌≡◌, ◌⊎◌, inl, inr, refl, ap, ◌∙◌, arith, true, false,
  ◌&&◌, List, Option, none, some, ltb, leb, ◌==◌, Bool-cases, List-cases, length, take, drop,
  length-drop, bit_and, bit_or,
}
use osprey_blake2b.Dns.Message.{
  Failure, Parsed, value, refused, malformed_question, malformed_answer, rdata_overruns,
  no_a_record, no_reply, id_mismatch, rcode, no_answer, type_a, byte, word, skip_from, skip_name,
  skip_questions, walk_answers, parse_reply,
}

byte-value : (r : List ℕ) (i : ℕ) → i < length r → (b : ℕ) × (byte r i ≡ value b)
unfolding byte
byte-value r i h = elim (List-cases (drop i r)) [
  | inl e ↦ absurd (omega (arith, length-drop i r, ap length e))
  | inr (b, bs, e) ↦ (b, simp (e, byte))
]

pub word-value : (r : List ℕ) (i : ℕ) → i + 1 < length r → (w : ℕ) × (word r i ≡ value w)
unfolding word
word-value r i h =
    let hi = byte-value r i (omega arith) in
    let lo = byte-value r (i + 1) h in (bit_or (hi.0 * 2 ^ 8) lo.0, simp (hi.1, lo.1, word))

-- Where a name ends.
abbrev pub Ends : List ℕ → ℕ → Parsed (Option ℕ) → Type 0
Ends r off m =
    (m ≡ value none) ⊎ ((past : ℕ) × (m ≡ value (some past)) × (off < past) × (past ≤ length r))

skip_from-Ends :
    (fuel : ℕ) (r : List ℕ) (off : ℕ) → length r - off < fuel → Ends r off (skip_from fuel r off)
unfolding skip_from
skip_from-Ends zero r off h = absurd (omega arith)
skip_from-Ends (suc fuel) r off h = elim (Bool-cases (ltb off (length r))) [
  | inr e ↦ simp (e, skip_from) (inl refl)
  | inl e ↦
      let inside : off < length r = ground arith in
      let l = byte-value r off inside in
      elim (Bool-cases (l.0 == 0)) [
        | inl z ↦ simp (e, l.1, z, skip_from) (inr (off + 1, refl, omega arith, omega arith))
        | inr z ↦ elim (Bool-cases (bit_and l.0 192 == 192)) [
          | inl p ↦ elim (Bool-cases (leb (off + 2) (length r))) [
            | inl k ↦
                simp (e, l.1, z, p, k, skip_from)
                  (inr (off + 2, refl, omega arith, leb-le (off + 2) (length r) k))
            | inr k ↦ simp (e, l.1, z, p, k, skip_from) (inl refl)
          ]
          | inr p ↦ elim (Bool-cases (ltb 63 l.0)) [
            | inl k ↦ simp (e, l.1, z, p, k, skip_from) (inl refl)
            | inr k ↦
                simp (e, l.1, z, p, k, skip_from)
                  (further r off l.0 (skip_from-Ends fuel r (off + (1 + l.0)) (omega arith)))
          ]
        ]
      ]
]
  where
    leb-le : (a b : ℕ) → leb a b ≡ true → a ≤ b
    leb-le a b e = ground arith

    further :
        (r : List ℕ) (off l : ℕ) {m : Parsed (Option ℕ)} → Ends r (off + (1 + l)) m → Ends r off m
    further r off l (inl e) = inl e
    further r off l (inr (past, e, f, g)) = inr (past, e, omega arith, g)

-- The skipping of a name always ends within its fuel and reads nothing outside of the message: it
-- refuses the name, or moves on and to a place that is not behind the end.
pub skip_name-Ends : (r : List ℕ) (off : ℕ) → Ends r off (skip_name r off)
unfolding skip_name
skip_name-Ends r off = skip_from-Ends (length r - off + 1) r off (omega arith)

-- A refusal, or a value of which `P` holds: never a fault.
abbrev pub Reads {ℓ κ} : {A : Type ℓ} → (A → Type κ) → Parsed A → Type (ℓ ⊔ κ)
Reads {A} P m = ((e : Failure) × (m ≡ refused e)) ⊎ ((a : A) × (m ≡ value a) × P a)

skip_questions-Reads :
    (qd : ℕ) (r : List ℕ) (off : ℕ)
    → off ≤ length r
    → Reads (λ past. (off ≤ past) × (past ≤ length r)) (skip_questions qd r off)
unfolding skip_questions
skip_questions-Reads zero r off h = inr (off, refl, (omega arith, h))
skip_questions-Reads (suc qd) r off h = elim (skip_name-Ends r off) [
  | inl e ↦ simp (e, skip_questions) (inl (malformed_question, refl))
  | inr (past, e, f, g) ↦ elim (Bool-cases (ltb (length r) (past + 4))) [
    | inl k ↦ simp (e, k, skip_questions) (inl (malformed_question, refl))
    | inr k ↦
        simp (e, k, skip_questions)
          (further r off past f (skip_questions-Reads qd r (past + 4) (ltb-le k)))
  ]
]
  where
    ltb-le : {a b : ℕ} → ltb b a ≡ false → a ≤ b
    ltb-le e = ground arith

    further :
        (r : List ℕ) (off past : ℕ) {m : Parsed ℕ}
        → off < past
        → Reads (λ p. (past + 4 ≤ p) × (p ≤ length r)) m
        → Reads (λ p. (off ≤ p) × (p ≤ length r)) m
    further r off past h (inl e) = inl e
    further r off past h (inr (p, e, (f, g))) = inr (p, e, (omega arith, g))

-- The address of an answer: four bytes inside of the message, behind the ten of a record which says
-- that it is of type A and that its data has four bytes.
pub record IsAddressOf (r a : List ℕ) : Type 0 where
  pub at : ℕ
  pub inside : at + 14 ≤ length r
  pub address : a ≡ take 4 (drop (at + 10) r)
  pub type : word r at ≡ value type_a
  pub rdlen : word r (at + 8) ≡ value 4

walk_answers-Reads : (an : ℕ) (r : List ℕ) (off : ℕ) → Reads (IsAddressOf r) (walk_answers an r off)
unfolding walk_answers
walk_answers-Reads zero r off = inl (no_a_record, refl)
walk_answers-Reads (suc an) r off = elim (skip_name-Ends r off) [
  | inl e ↦ simp (e, walk_answers) (inl (malformed_answer, refl))
  | inr (past, e, f, g) ↦ elim (Bool-cases (ltb (length r) (past + 10))) [
    | inl k ↦ simp (e, k, walk_answers) (inl (malformed_answer, refl))
    | inr k ↦
        let w = word-value r past (room past (length r) 1 k (omega arith)) in
        let l = word-value r (past + 8) (omega (arith, room past (length r) 9 k (omega arith))) in
        elim (Bool-cases (ltb (length r) (past + 10 + l.0))) [
          | inl m ↦ simp (e, k, w.1, l.1, m, walk_answers) (inl (rdata_overruns, refl))
          | inr m ↦ elim (Bool-cases ((w.0 == type_a) && (l.0 == 4))) [
            | inr b ↦
                simp (e, k, w.1, l.1, m, b, walk_answers)
                  (walk_answers-Reads an r (past + 10 + l.0))
            | inl b ↦
                let is_type : w.0 ≡ type_a = ground arith in
                let is_four : l.0 ≡ 4 = ground arith in
                let inside : past + 14 ≤ length r = ground arith in
                let test : leb (past + 10 + 4) (length r) ≡ true = ground arith in
                simp (e, k, w.1, l.1, m, b, test, walk_answers)
                  (inr (
                    take 4 (drop (past + 10) r),
                    refl,
                    record {
                      at = past;
                      inside = inside;
                      address = refl;
                      type = w.1 ∙ ap value is_type;
                      rdlen = l.1 ∙ ap value is_four;
                    },
                  ))
          ]
        ]
  ]
]
  where
    room : (a b n : ℕ) → ltb b (a + 10) ≡ false → n < 10 → a + n < b
    room a b n e h = ground arith

-- Whatever the datagram is, the reading of a reply ends without a read outside of it, in a refusal or
-- with an address: four bytes inside of the datagram, in a record of type A whose data has four.
pub parse_reply-Reads : (id : ℕ) (r : List ℕ) → Reads (IsAddressOf r) (parse_reply id r)
unfolding parse_reply
parse_reply-Reads id r = elim (Bool-cases (ltb (length r) 12)) [
  | inl e ↦ simp (e, parse_reply) (inl (no_reply, refl))
  | inr e ↦
      let long : 12 ≤ length r = ground arith in
      let a = word-value r 0 (omega arith) in
      let f = byte-value r 3 (omega arith) in
      let q = word-value r 4 (omega arith) in
      let n = word-value r 6 (omega arith) in
      elim (Bool-cases (a.0 == id)) [
        | inr b ↦ simp (e, a.1, f.1, q.1, n.1, b, parse_reply) (inl (id_mismatch, refl))
        | inl b ↦ elim (Bool-cases (bit_and f.0 15 == 0)) [
          | inr c ↦
              simp (e, a.1, f.1, q.1, n.1, b, c, parse_reply) (inl (rcode (bit_and f.0 15), refl))
          | inl c ↦ elim (Bool-cases (n.0 == 0)) [
            | inl d ↦ simp (e, a.1, f.1, q.1, n.1, b, c, d, parse_reply) (inl (no_answer, refl))
            | inr d ↦ elim (skip_questions-Reads q.0 r 12 long) [
              | inl (x, y) ↦ simp (e, a.1, f.1, q.1, n.1, b, c, d, y, parse_reply) (inl (x, refl))
              | inr (off, y, z) ↦
                  simp (e, a.1, f.1, q.1, n.1, b, c, d, y, parse_reply)
                    (walk_answers-Reads n.0 r off)
            ]
          ]
        ]
      ]
]
