-- ===== src/Dns/Resolved.antt =====
-- miner/dns.c, `query_one`: a whole reply that answers the query.
use osprey_blake2b.Base.{
  ℕ, zero, suc, ◌+◌, ◌≡◌, refl, sym, ap, ◌∙◌, arith, true, false, List, [], ◌∷◌, ◌++◌, append_assoc,
  some, ltb, ◌==◌, length, length-append, All, bit_and,
}
use osprey_blake2b.Dns.Names.{wire, IsLabel}
use osprey_blake2b.Dns.Names.Skipped.{byte-append, skip_name-wire}
use osprey_blake2b.Dns.Replies.{
  Answer, IsAnswer, joined, answer_bytes, is_address_record, word-append, walk_answers-other,
  walk_answers-address,
}
use osprey_blake2b.Dns.Message.{
  value, byte, word, skip_name, skip_questions, walk_answers, parse_reply,
}

abbrev pub all_bytes : List Answer → List ℕ
all_bytes [] = []
all_bytes (a ∷ rest) = answer_bytes a ++ all_bytes rest

abbrev pub IsOther : Answer → Type 0
IsOther a = IsAnswer a × (is_address_record a ≡ false)

length-answer_bytes : (a : Answer) → IsAnswer a → length (answer_bytes a) ≡ 12 + length a.rdata
length-answer_bytes a h =
    omega (arith, h.six, length-append a.class_and_ttl (a.rdlen_hi ∷ a.rdlen_lo ∷ a.rdata))

walk_answers-first :
    (others : List Answer) (a : Answer) (pre rest r : List ℕ) (off n more : ℕ)
    → All IsOther others
    → IsAnswer a
    → is_address_record a ≡ true
    → r ≡ pre ++ (all_bytes others ++ (answer_bytes a ++ rest))
    → length pre ≡ off
    → n ≡ length others + 1 + more
    → walk_answers n r off ≡ value a.rdata
walk_answers-first others a pre rest r off zero more h ok f q e c = absurd (omega arith)
walk_answers-first [] a pre rest r off (suc n) more h ok f q e c =
    walk_answers-address a ok pre rest r off q e n f
walk_answers-first (o ∷ others) a pre rest r off (suc n) more h ok f q e c =
    let behind = all_bytes others ++ (answer_bytes a ++ rest) in
    let here =
      q
      ∙ ap (λ z. pre ++ z)
          (append_assoc (answer_bytes o) (all_bytes others) (answer_bytes a ++ rest)) in
    walk_answers-other o h.0.0 pre behind r off here e n h.0.1
    ∙ walk_answers-first others a (pre ++ answer_bytes o) rest r (off + 2 + 10 + length o.rdata) n
        more h.1 ok f (here ∙ sym (append_assoc pre (answer_bytes o) behind))
        (omega (arith, e, length-append pre (answer_bytes o), length-answer_bytes o h.0.0))
        (omega arith)

-- A reply with one question; `question` is its type and class, `counts` the two counts that are not
-- read.
pub record Reply : Type 0 where
  pub id_hi : ℕ
  pub id_lo : ℕ
  pub flags_hi : ℕ
  pub flags_lo : ℕ
  pub an_hi : ℕ
  pub an_lo : ℕ
  pub counts : List ℕ
  pub labels : List (List ℕ)
  pub question : List ℕ
  pub others : List Answer
  pub answer : Answer
  pub rest : List ℕ

abbrev pub header : Reply → List ℕ
header m = m.id_hi ∷ m.id_lo ∷ m.flags_hi ∷ m.flags_lo ∷ 0 ∷ 1 ∷ m.an_hi ∷ m.an_lo ∷ m.counts

abbrev pub answers : Reply → List ℕ
answers m = all_bytes m.others ++ (answer_bytes m.answer ++ m.rest)

abbrev pub reply_bytes : Reply → List ℕ
reply_bytes m = header m ++ (wire m.labels ++ (m.question ++ answers m))

-- The reply answers the query numbered `n` without an error. Before its first address come `others`, and
-- behind it anything.
pub record IsReply (n : ℕ) (m : Reply) : Type 0 where
  pub id : joined m.id_hi m.id_lo ≡ n
  pub no_error : (bit_and m.flags_lo 15 == 0) ≡ true
  pub enough : (more : ℕ) × (joined m.an_hi m.an_lo ≡ length m.others + 1 + more)
  pub counts : length m.counts ≡ 4
  pub labels : All IsLabel m.labels
  pub question : length m.question ≡ 4
  pub others : All IsOther m.others
  pub answer : IsAnswer m.answer
  pub is_address : is_address_record m.answer ≡ true

module _ (id : ℕ) (m : Reply) (h : IsReply id m) where
  bytes_length : length (reply_bytes m) ≡ 12 + (length (wire m.labels) + (4 + length (answers m)))
  bytes_length = omega (
    arith,
    h.counts,
    h.question,
    length-append (header m) (wire m.labels ++ (m.question ++ answers m)),
    length-append (wire m.labels) (m.question ++ answers m),
    length-append m.question (answers m),
  )

  questions : skip_questions 1 (reply_bytes m) 12 ≡ value (12 + length (wire m.labels) + 4)
  unfolding skip_questions
  questions =
      let named : skip_name (reply_bytes m) 12 ≡ value (some (12 + length (wire m.labels))) =
        skip_name-wire m.labels (header m) (m.question ++ answers m) (reply_bytes m) 12 refl
          h.labels (omega (arith, h.counts)) in
      let inside : ltb (length (reply_bytes m)) (12 + length (wire m.labels) + 4) ≡ false =
        ground (arith, bytes_length) in
      simp (named, inside, skip_questions)

  found :
      walk_answers (joined m.an_hi m.an_lo) (reply_bytes m) (12 + length (wire m.labels) + 4)
      ≡ value m.answer.rdata
  found =
      walk_answers-first m.others m.answer ((header m ++ wire m.labels) ++ m.question) m.rest
        (reply_bytes m) (12 + length (wire m.labels) + 4) (joined m.an_hi m.an_lo) h.enough.0
        h.others h.answer h.is_address
        (sym (
          append_assoc (header m ++ wire m.labels) m.question (answers m)
          ∙ append_assoc (header m) (wire m.labels) (m.question ++ answers m)))
        (omega (
          arith,
          h.counts,
          h.question,
          length-append (header m ++ wire m.labels) m.question,
          length-append (header m) (wire m.labels),
        ))
        h.enough.1

  -- A reply to the query that repeats its question and reports no error gives the address of its first
  -- record of type A with four bytes, whatever other records come before it and whatever comes
  -- behind it; the names of the records are pointers.
  pub parse_reply-address : parse_reply id (reply_bytes m) ≡ value m.answer.rdata
  unfolding parse_reply
  parse_reply-address =
      let tail = wire m.labels ++ (m.question ++ answers m) in
      let r = reply_bytes m in
      let long : ltb (length r) 12 ≡ false = ground (arith, bytes_length) in
      let first : word r 0 ≡ value id =
        word-append [] _ r m.id_hi m.id_lo 0 refl refl ∙ ap value h.id in
      let flags : byte r 3 ≡ value m.flags_lo =
        byte-append (m.id_hi ∷ m.id_lo ∷ m.flags_hi ∷ []) _ m.flags_lo 3 refl in
      let qd : word r 4 ≡ value 1 =
        word-append (m.id_hi ∷ m.id_lo ∷ m.flags_hi ∷ m.flags_lo ∷ []) _ r 0 1 4 refl refl in
      let an : word r 6 ≡ value (joined m.an_hi m.an_lo) =
        word-append (m.id_hi ∷ m.id_lo ∷ m.flags_hi ∷ m.flags_lo ∷ 0 ∷ 1 ∷ []) _ r m.an_hi m.an_lo 6
          refl refl in
      let same : (id == id) ≡ true = ground arith in
      let some_left : (joined m.an_hi m.an_lo == 0) ≡ false = ground (arith, h.enough.1) in
      simp (long, first, flags, qd, an, same, h.no_error, some_left, questions, found, parse_reply)
