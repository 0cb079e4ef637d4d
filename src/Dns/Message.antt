-- ===== src/Dns/Message.antt =====
-- miner/dns.c: a query and the reading of its reply.
use osprey_blake2b.Base.{
  ℕ, zero, suc, ◌+◌, ◌*◌, ◌-◌, ◌^◌, true, false, ◌||◌, ◌&&◌, not, List, [], ◌∷◌, ◌++◌, Option, none,
  some, if◌then◌else◌, ltb, leb, ◌==◌, length, take, drop, u8, shr, bit_and, bit_or,
}

abbrev pub dns_buf : ℕ
dns_buf = 1500

abbrev pub type_a : ℕ
type_a = 1

abbrev pub class_in : ℕ
class_in = 1

-- The failures of a query, without the texts of `seterr`.
pub data Failure : Type 0 where
  name_too_long : Failure
  no_socket : Failure
  bad_nameserver : Failure
  not_sent : Failure
  no_reply : Failure
  id_mismatch : Failure
  rcode : ℕ → Failure
  no_answer : Failure
  malformed_question : Failure
  malformed_answer : Failure
  rdata_overruns : Failure
  no_text : Failure
  no_a_record : Failure
  empty_name : Failure
  no_nameserver : Failure

-- A result, a refusal, or a read outside of the message.
pub data Parsed {ℓ} (A : Type ℓ) : Type ℓ where
  value : A → Parsed A
  refused : Failure → Parsed A
  fault : Parsed A

infixl 5 ◌>>=◌
abbrev pub ◌>>=◌ {ℓ κ} : {A : Type ℓ} {B : Type κ} → Parsed A → (A → Parsed B) → Parsed B
value a >>= f = f a
refused e >>= f = refused e
fault >>= f = fault

-- The check of `encode_qname` before a label, and the label.
unfoldable pub put_label : ℕ → ℕ → List ℕ → Option (List ℕ)
put_label buflen o label =
    let len = length label in
    if (len == 0) || ltb 63 len
    then none
    else if ltb buflen (o + 1 + len + 1)
    then none
    else some (u8 len ∷ label)

unfoldable pub put_root : ℕ → ℕ → Option (List ℕ)
put_root buflen o = if ltb buflen (o + 1) then none else some (0 ∷ [])

-- The loop of `encode_qname`, with `o` bytes written; `label` is what stands since the last dot.
unfoldable pub encode_from : ℕ → ℕ → List ℕ → List ℕ → Option (List ℕ)
encode_from buflen o [] [] = put_root buflen o
encode_from buflen o (l ∷ label) [] = elim (put_label buflen o (l ∷ label)) [
  | none ↦ none
  | some bs ↦ elim (put_root buflen (o + 1 + length (l ∷ label))) [
    | none ↦ none
    | some end ↦ some (bs ++ end)
  ]
]
encode_from buflen o label (c ∷ p) = elim (c == b'.') [
  | false ↦ encode_from buflen o (label ++ (c ∷ [])) p
  | true ↦ elim (put_label buflen o label) [
    | none ↦ none
    | some bs ↦ elim (encode_from buflen (o + 1 + length label) [] p) [
      | none ↦ none
      | some more ↦ some (bs ++ more)
    ]
  ]
]

unfoldable pub encode_qname : List ℕ → ℕ → Option (List ℕ)
encode_qname host buflen = encode_from buflen 0 [] host

-- The query of `query_one`; the name has what the header and the last four bytes leave.
unfoldable pub make_query : List ℕ → ℕ → Option (List ℕ)
make_query host id = elim (encode_qname host (dns_buf - 12 - 4)) [
  | none ↦ none
  | some name ↦ some (
      (u8 (shr id 8) ∷ bit_and id 255 ∷ 1 ∷ 0 ∷ 0 ∷ 1 ∷ 0 ∷ 0 ∷ 0 ∷ 0 ∷ 0 ∷ 0 ∷ [])
      ++ (name ++ (0 ∷ type_a ∷ 0 ∷ class_in ∷ [])))
]

-- `r[i]`.
unfoldable pub byte : List ℕ → ℕ → Parsed ℕ
byte r i = elim (drop i r) [ [] ↦ fault | b ∷ bs ↦ value b ]

-- `(r[i] << 8) | r[i + 1]`.
unfoldable pub word : List ℕ → ℕ → Parsed ℕ
word r i = do hi ← byte r i; lo ← byte r (i + 1); value (bit_or (hi * 2 ^ 8) lo)

-- `skip_name`: the offset behind a name, none for -1. The fuel is one more than the bytes from
-- `off` on, and every round takes one at least.
unfoldable pub skip_from : ℕ → List ℕ → ℕ → Parsed (Option ℕ)
skip_from zero r off = fault
skip_from (suc fuel) r off =
    let next = byte r off >>= λ l.
    if l == 0
    then value (some (off + 1))
    else if bit_and l 192 == 192
    then value (if leb (off + 2) (length r) then some (off + 2) else none)
    else if ltb 63 l
    then value none
    else skip_from fuel r (off + (1 + l)) in
    if ltb off (length r) then next else value none

unfoldable pub skip_name : List ℕ → ℕ → Parsed (Option ℕ)
skip_name r off = skip_from (length r - off + 1) r off

-- The loop over the questions.
unfoldable pub skip_questions : ℕ → List ℕ → ℕ → Parsed ℕ
skip_questions zero r off = value off
skip_questions (suc qd) r off = skip_name r off >>= λ t. elim t [
  | none ↦ refused malformed_question
  | some past ↦
      let rest = skip_questions qd r (past + 4) in
      if ltb (length r) (past + 4) then refused malformed_question else rest
]

-- The loop over the answers: the four bytes of the first A record.
unfoldable pub walk_answers : ℕ → List ℕ → ℕ → Parsed (List ℕ)
walk_answers zero r off = refused no_a_record
walk_answers (suc an) r off = skip_name r off >>= λ t. elim t [
  | none ↦ refused malformed_answer
  | some past ↦
      let record_at = word r past >>= λ type. word r (past + 8) >>= λ rdlen.
      let rest = walk_answers an r (past + 10 + rdlen) in
      let address =
        if leb (past + 10 + 4) (length r) then value (take 4 (drop (past + 10) r)) else fault in
      if ltb (length r) (past + 10 + rdlen)
      then refused rdata_overruns
      else if (type == type_a) && (rdlen == 4)
      then address
      else rest in
      if ltb (length r) (past + 10) then refused malformed_answer else record_at
]

-- `query_one` from the reply on, up to the text of the address.
unfoldable pub parse_reply : ℕ → List ℕ → Parsed (List ℕ)
parse_reply id r =
    let body = word r 0 >>= λ reply_id. byte r 3 >>= λ flags. word r 4 >>= λ qd. word r 6 >>= λ an.
    if not (reply_id == id)
    then refused id_mismatch
    else if not (bit_and flags 15 == 0)
    then refused (rcode (bit_and flags 15))
    else if an == 0
    then refused no_answer
    else skip_questions qd r 12 >>= λ off. walk_answers an r off in
    if ltb (length r) 12 then refused no_reply else body
