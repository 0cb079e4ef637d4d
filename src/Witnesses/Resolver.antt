-- ===== src/Witnesses/Resolver.antt =====
-- The theorems about the resolver at concrete inputs.
use osprey_blake2b.Base.{arith, ℕ, ◌+◌, ◌≡◌, refl, List, [], ◌∷◌, ◌++◌, some, length}
use osprey_blake2b.Base.Text.{codes}
use osprey_blake2b.Dns.Message.{
  value, encode_qname, put_label, put_root, encode_from, byte, word, skip_from, skip_name,
  skip_questions, walk_answers, parse_reply,
}
use osprey_blake2b.Dns.Bounds
use osprey_blake2b.Dns.Bounds.{Ends, Reads, IsAddressOf}
use osprey_blake2b.Dns.Names.Skipped
use osprey_blake2b.Dns.Replies.{Answer, IsAnswer}
use osprey_blake2b.Dns.Resolved
use osprey_blake2b.Dns.Resolved.{Reply, IsReply, reply_bytes}
use osprey_blake2b.Dns.Names.{Encodes}

abbrev pool_qname : List ℕ
pool_qname = (4 ∷ codes "pool") ++ ((3 ∷ codes "net") ++ (0 ∷ []))

abbrev datagram : List ℕ
datagram =
    (0x12 ∷ 0x34 ∷ 0x81 ∷ 0x80 ∷ 0 ∷ 1 ∷ 0 ∷ 1 ∷ 0 ∷ 0 ∷ 0 ∷ 0 ∷ [])
    ++ (pool_qname
        ++ (0 ∷ 1 ∷ 0 ∷ 1 ∷ 0xc0 ∷ 12 ∷ 0 ∷ 1 ∷ 0 ∷ 1 ∷ 0 ∷ 0 ∷ 0 ∷ 60 ∷ 0 ∷ 4 ∷ 192 ∷ 0 ∷ 2 ∷ 7
            ∷ []))

parse_reply_accepts : parse_reply 0x1234 datagram ≡ value (192 ∷ 0 ∷ 2 ∷ 7 ∷ [])
unfolding parse_reply byte word skip_from skip_name skip_questions walk_answers
parse_reply_accepts = refl

skip_name-Ends_example : Ends datagram 12 (skip_name datagram 12)
skip_name-Ends_example = Bounds.skip_name-Ends datagram 12

parse_reply-Reads_example : Reads (IsAddressOf datagram) (parse_reply 0x1234 datagram)
parse_reply-Reads_example = Bounds.parse_reply-Reads 0x1234 datagram

encode_qname-skip_name_example :
    Encodes 64 0 (codes "pool.net") pool_qname
    × ((pre rest : List ℕ)
        → skip_name (pre ++ (pool_qname ++ rest)) (length pre)
          ≡ value (some (length pre + length pool_qname)))
unfolding encode_qname put_label put_root encode_from
encode_qname-skip_name_example =
    Skipped.encode_qname-skip_name (codes "pool.net") 64 pool_qname refl

abbrev alias_record : Answer
alias_record = record {
  pointer_hi = 0xc0;
  pointer_lo = 12;
  type_hi = 0;
  type_lo = 5;
  class_and_ttl = 0 ∷ 1 ∷ 0 ∷ 0 ∷ 0 ∷ 60 ∷ [];
  rdlen_hi = 0;
  rdlen_lo = 2;
  rdata = 0xc0 ∷ 17 ∷ [];
}

abbrev address_record : Answer
address_record = record alias_record { type_lo = 1; rdlen_lo = 4; rdata = 192 ∷ 0 ∷ 2 ∷ 7 ∷ [] }

abbrev aliased : Reply
aliased = record {
  id_hi = 0x12;
  id_lo = 0x34;
  flags_hi = 0x81;
  flags_lo = 0x80;
  an_hi = 0;
  an_lo = 2;
  counts = 0 ∷ 0 ∷ 0 ∷ 0 ∷ [];
  labels = codes "pool" ∷ codes "net" ∷ [];
  question = 0 ∷ 1 ∷ 0 ∷ 1 ∷ [];
  others = alias_record ∷ [];
  answer = address_record;
  rest = [];
}

abbrev alias_record-IsAnswer : IsAnswer alias_record
alias_record-IsAnswer = record { pointer = refl; nonzero = refl; six = refl; rdlen = refl }

abbrev aliased-IsReply : IsReply 0x1234 aliased
aliased-IsReply = record {
  id = refl;
  no_error = refl;
  enough = (0, refl);
  counts = refl;
  labels = (
    (
      omega arith,
      omega arith,
      (
        λ e. omega (arith, e),
        (λ e. omega (arith, e), (λ e. omega (arith, e), (λ e. omega (arith, e), tt))),
      ),
    ),
    (
      (
        omega arith,
        omega arith,
        (λ e. omega (arith, e), (λ e. omega (arith, e), (λ e. omega (arith, e), tt))),
      ),
      tt,
    ),
  );
  question = refl;
  others = ((alias_record-IsAnswer, refl), tt);
  answer = record { pointer = refl; nonzero = refl; six = refl; rdlen = refl };
  is_address = refl;
}

parse_reply-address_example :
    parse_reply 0x1234 (reply_bytes aliased) ≡ value (192 ∷ 0 ∷ 2 ∷ 7 ∷ [])
parse_reply-address_example = Resolved.parse_reply-address 0x1234 aliased aliased-IsReply
