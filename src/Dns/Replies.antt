-- ===== src/Dns/Replies.antt =====
-- miner/dns.c: a reply to the query gives the address of its first A record.
use osprey_blake2b.Base.{
  ℕ, suc, ◌+◌, ◌*◌, ◌-◌, ◌^◌, ◌≡◌, sym, ap, ◌∙◌, arith, Bool, true, false, ◌&&◌, List, [], ◌∷◌,
  ◌++◌, append_assoc, some, ltb, leb, ◌==◌, length, length-append, take, take-append, drop,
  drop-append, bit_and, bit_or,
}
use osprey_blake2b.Dns.Names.Skipped.{byte-append}
use osprey_blake2b.Dns.Message.{value, type_a, byte, word, skip_from, skip_name, walk_answers}

-- A resource record whose name is a pointer.
pub record Answer : Type 0 where
  pub pointer_hi : ℕ
  pub pointer_lo : ℕ
  pub type_hi : ℕ
  pub type_lo : ℕ
  pub class_and_ttl : List ℕ
  pub rdlen_hi : ℕ
  pub rdlen_lo : ℕ
  pub rdata : List ℕ

abbrev pub joined : ℕ → ℕ → ℕ
joined hi lo = bit_or (hi * 2 ^ 8) lo

abbrev pub answer_bytes : Answer → List ℕ
answer_bytes a =
    a.pointer_hi
    ∷ a.pointer_lo
    ∷ a.type_hi
    ∷ a.type_lo
    ∷ (a.class_and_ttl ++ (a.rdlen_hi ∷ a.rdlen_lo ∷ a.rdata))

pub record IsAnswer (a : Answer) : Type 0 where
  pub pointer : (bit_and a.pointer_hi 192 == 192) ≡ true
  pub nonzero : (a.pointer_hi == 0) ≡ false
  pub six : length a.class_and_ttl ≡ 6
  pub rdlen : joined a.rdlen_hi a.rdlen_lo ≡ length a.rdata

-- A record that is an address.
abbrev pub is_address_record : Answer → Bool
is_address_record a = (joined a.type_hi a.type_lo == type_a) && (length a.rdata == 4)

pub word-append :
    (pre bs r : List ℕ) (a b off : ℕ)
    → r ≡ pre ++ (a ∷ b ∷ bs)
    → length pre ≡ off
    → word r off ≡ value (joined a b)
unfolding word
word-append pre bs r a b off q e =
    let first : byte r off ≡ value a = rw q (byte-append pre (b ∷ bs) a off e) in
    let next : byte r (off + 1) ≡ value b =
      rw (q ∙ sym (append_assoc pre (a ∷ []) (b ∷ bs))) (
        byte-append (pre ++ (a ∷ [])) bs b (off + 1) (omega (arith, length-append pre (a ∷ [])))) in
    simp (first, next, word)

skip_from-pointer :
    (pre bs r : List ℕ) (hi lo off fuel : ℕ)
    → r ≡ pre ++ (hi ∷ lo ∷ bs)
    → length pre ≡ off
    → (bit_and hi 192 == 192) ≡ true
    → (hi == 0) ≡ false
    → skip_from (suc fuel) r off ≡ value (some (off + 2))
unfolding skip_from
skip_from-pointer pre bs r hi lo off fuel q e p z =
    let n = ap length q ∙ length-append pre (hi ∷ lo ∷ bs) in
    let first : byte r off ≡ value hi = rw q (byte-append pre (lo ∷ bs) hi off e) in
    let inside : ltb off (length r) ≡ true = ground (arith, n) in
    let both : leb (off + 2) (length r) ≡ true = ground (arith, n) in
    simp (inside, first, z, p, both, skip_from)

skip_name-pointer :
    (pre bs r : List ℕ) (hi lo off : ℕ)
    → r ≡ pre ++ (hi ∷ lo ∷ bs)
    → length pre ≡ off
    → (bit_and hi 192 == 192) ≡ true
    → (hi == 0) ≡ false
    → skip_name r off ≡ value (some (off + 2))
unfolding skip_name
skip_name-pointer pre bs r hi lo off q e p z =
    ap (λ f. skip_from f r off) {x = length r - off + 1} {y = suc (length r - off)} (omega arith)
    ∙ skip_from-pointer pre bs r hi lo off (length r - off) q e p z

-- One record of a reply, behind what stands before it.
module _ (a : Answer) (ok : IsAnswer a) (pre rest r : List ℕ) (off : ℕ)
    (q : r ≡ pre ++ (answer_bytes a ++ rest)) (e : length pre ≡ off) where
  name : List ℕ
  name = a.pointer_hi ∷ a.pointer_lo ∷ []

  fixed : List ℕ
  fixed = a.type_hi ∷ a.type_lo ∷ a.class_and_ttl

  sizes : List ℕ
  sizes = a.rdlen_hi ∷ a.rdlen_lo ∷ []

  at_type :
      r
      ≡ (pre ++ name) ++ (a.type_hi ∷ a.type_lo ∷ ((a.class_and_ttl ++ (sizes ++ a.rdata)) ++ rest))
  unfolding name sizes
  at_type =
      q
      ∙ sym (
          append_assoc pre name
            (a.type_hi ∷ a.type_lo ∷ ((a.class_and_ttl ++ (sizes ++ a.rdata)) ++ rest)))

  at_sizes : r ≡ ((pre ++ name) ++ fixed) ++ (a.rdlen_hi ∷ a.rdlen_lo ∷ (a.rdata ++ rest))
  unfolding name fixed sizes
  at_sizes =
      at_type
      ∙ (ap (λ z. (pre ++ name) ++ (a.type_hi ∷ a.type_lo ∷ z))
            (append_assoc a.class_and_ttl (sizes ++ a.rdata) rest)
          ∙ sym (append_assoc (pre ++ name) fixed (a.rdlen_hi ∷ a.rdlen_lo ∷ (a.rdata ++ rest))))

  at_data : r ≡ (((pre ++ name) ++ fixed) ++ sizes) ++ (a.rdata ++ rest)
  unfolding sizes
  at_data = at_sizes ∙ sym (append_assoc ((pre ++ name) ++ fixed) sizes (a.rdata ++ rest))

  before_sizes : length ((pre ++ name) ++ fixed) ≡ off + 2 + 8
  unfolding name fixed
  before_sizes = omega (arith, length-append (pre ++ name) fixed, length-append pre name, ok.six)

  before_data : length (((pre ++ name) ++ fixed) ++ sizes) ≡ off + 2 + 10
  unfolding sizes
  before_data = omega (arith, before_sizes, length-append ((pre ++ name) ++ fixed) sizes)

  pub whole : length r ≡ off + 2 + 10 + (length a.rdata + length rest)
  whole = omega (
    arith,
    ap length at_data,
    length-append (((pre ++ name) ++ fixed) ++ sizes) (a.rdata ++ rest),
    length-append a.rdata rest,
    before_data,
  )

  past_name : skip_name r off ≡ value (some (off + 2))
  past_name =
      skip_name-pointer pre
        (a.type_hi ∷ a.type_lo ∷ ((a.class_and_ttl ++ (a.rdlen_hi ∷ a.rdlen_lo ∷ a.rdata)) ++ rest))
        r a.pointer_hi a.pointer_lo off q e ok.pointer ok.nonzero

  type_word : word r (off + 2) ≡ value (joined a.type_hi a.type_lo)
  unfolding name
  type_word =
      word-append (pre ++ name) _ r a.type_hi a.type_lo (off + 2) at_type
        (omega (arith, length-append pre name))

  rdlen_word : word r (off + 2 + 8) ≡ value (length a.rdata)
  rdlen_word =
      word-append ((pre ++ name) ++ fixed) _ r a.rdlen_hi a.rdlen_lo (off + 2 + 8) at_sizes
        before_sizes
      ∙ ap value ok.rdlen

  header_inside : ltb (length r) (off + 2 + 10) ≡ false
  header_inside = ground (arith, whole)

  data_inside : ltb (length r) (off + 2 + 10 + length a.rdata) ≡ false
  data_inside = ground (arith, whole)

  -- A record that is no address is passed over.
  pub walk_answers-other :
      (n : ℕ)
      → is_address_record a ≡ false
      → walk_answers (suc n) r off ≡ walk_answers n r (off + 2 + 10 + length a.rdata)
  unfolding walk_answers
  walk_answers-other n f =
      simp (past_name, type_word, rdlen_word, header_inside, data_inside, f, walk_answers)

  -- The address of a record is what the loop gives.
  pub walk_answers-address :
      (n : ℕ) → is_address_record a ≡ true → walk_answers (suc n) r off ≡ value a.rdata
  unfolding walk_answers
  walk_answers-address n f =
      let four : length a.rdata ≡ 4 = ground arith in
      let inside : leb (off + 2 + 10 + 4) (length r) ≡ true = ground (arith, whole) in
      let given : take 4 (drop (off + 2 + 10) r) ≡ a.rdata =
        ap (λ z. take 4 (drop (off + 2 + 10) z)) at_data
        ∙ (ap (take 4) (
              drop-append (off + 2 + 10) (((pre ++ name) ++ fixed) ++ sizes) (a.rdata ++ rest)
                before_data)
            ∙ take-append 4 a.rdata rest four) in
      simp (
        past_name, type_word, rdlen_word, header_inside, data_inside, f, inside, given,
        walk_answers,
      )
