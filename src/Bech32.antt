-- ===== src/Bech32.antt =====
-- miner/bech32.c: the payout address is decoded, and its checksum verified.
pub mod Decoded
pub mod Spelled
use osprey_blake2b.Base.{
  ℕ, zero, suc, ◌+◌, ◌-◌, bit_and, bit_or, bit_xor, Bool, true, false, ◌&&◌, ◌||◌, not, List, [],
  ◌∷◌, ◌++◌, map, Option, none, some, if◌then◌else◌, ltb, leb, ◌==◌, u8, shr, shl32, take, drop,
  length,
}
use osprey_blake2b.Base.Bytes.{byte_at}
use osprey_blake2b.Base.Text.{codes}

abbrev pub charset : List ℕ
charset = codes "qpzry9x8gf2tvdw0s3jn54khce6mua7l"

abbrev pub bech32_const : ℕ
bech32_const = 1

abbrev pub bech32m_const : ℕ
bech32m_const = 0x2bc830a3

abbrev pub generator : List ℕ
generator = 0x3b6a57b2 ∷ 0x26508e6d ∷ 0x1ea119fa ∷ 0x3d4233dd ∷ 0x2a1462b3 ∷ []

-- `for (j = 0; j < 5; ++j) if ((top >> j) & 1) chk ^= GEN[j]`, from bit `j` on.
unfoldable pub fold_generator : ℕ → ℕ → List ℕ → ℕ → ℕ
fold_generator top j [] chk = chk
fold_generator top j (g ∷ gs) chk =
    fold_generator top (j + 1) gs (if bit_and (shr top j) 1 == 0 then chk else bit_xor chk g)

unfoldable pub polymod_step : ℕ → ℕ → ℕ
polymod_step chk value =
    fold_generator (shr chk 25) 0 generator (bit_xor (shl32 (bit_and chk 0x1ffffff) 5) value)

unfoldable pub polymod_from : ℕ → List ℕ → ℕ
polymod_from chk [] = chk
polymod_from chk (v ∷ values) = polymod_from (polymod_step chk v) values

unfoldable pub polymod : List ℕ → ℕ
polymod values = polymod_from 1 values

-- The index in the charset, from index `i` on; `none` is -1.
unfoldable pub index_from : ℕ → List ℕ → ℕ → Option ℕ
index_from i [] c = none
index_from i (x ∷ xs) c = if x == c then some i else index_from (i + 1) xs c

unfoldable pub charset_index : ℕ → Option ℕ
charset_index c = index_from 0 charset c

-- The variables of `convert5to8`.
pub record Regroup : Type 0 where
  pub acc : ℕ
  pub bits : ℕ
  pub out : List ℕ

-- `while (bits >= 8)`, with fuel; `none` is a full output buffer.
unfoldable pub drain_bits : ℕ → ℕ → Regroup → Option Regroup
drain_bits zero outsz s = some s
drain_bits (suc fuel) outsz s =
    let bits = s.bits - 8 in
    let rest =
      drain_bits fuel outsz
        (record s { bits = bits; out = s.out ++ (u8 (bit_and (shr s.acc bits) 0xff) ∷ []) }) in
    if leb 8 s.bits then (if leb outsz (length s.out) then none else rest) else some s

-- Fewer than 8 bits are kept, and 5 come in, so the inner loop has one round at most.
unfoldable pub convert_loop : ℕ → List ℕ → Regroup → Option Regroup
convert_loop outsz [] s = some s
convert_loop outsz (x ∷ xs) s =
    elim (drain_bits 2 outsz (record s { acc = bit_or (shl32 s.acc 5) x; bits = s.bits + 5 })) [
      | none ↦ none
      | some s' ↦ convert_loop outsz xs s'
    ]

unfoldable pub convert5to8 : List ℕ → ℕ → Option (List ℕ)
convert5to8 inp outsz = elim (convert_loop outsz inp (record { acc = 0; bits = 0; out = [] })) [
  | none ↦ none
  | some s ↦
      if leb 5 s.bits
      then none
      else if not (bit_and (shl32 s.acc (8 - s.bits)) 0xff == 0)
      then none
      else some s.out
]

pub record Bech32Addr : Type 0 where
  pub hrp : List ℕ
  pub witver : ℕ
  pub program : List ℕ

abbrev pub hrp_size : ℕ
hrp_size = 8

abbrev pub bech32_max_program : ℕ
bech32_max_program = 40

unfoldable pub is_lower : ℕ → Bool
is_lower c = leb b'a' c && leb c b'z'

unfoldable pub is_upper : ℕ → Bool
is_upper c = leb b'A' c && leb c b'Z'

unfoldable pub to_lower : ℕ → ℕ
to_lower c = if is_upper c then c - b'A' + b'a' else c

-- The first loop: every character is printable, and not both cases occur.
unfoldable pub any : (ℕ → Bool) → List ℕ → Bool
any p [] = false
any p (c ∷ cs) = if p c then true else any p cs

unfoldable pub is_unprintable : ℕ → Bool
is_unprintable c = ltb c 33 || ltb 126 c

-- `strrchr(buf, '1')` as an index: `found` is the last one seen before index `i`.
unfoldable pub last_index : ℕ → Option ℕ → List ℕ → ℕ → Option ℕ
last_index c found [] i = found
last_index c found (x ∷ xs) i = last_index c (if x == c then some i else found) xs (i + 1)

-- The data characters as 5-bit values; `vlen` is the length of `values` so far.
unfoldable pub decode_chars : ℕ → List ℕ → Option (List ℕ)
decode_chars vlen [] = some []
decode_chars vlen (c ∷ cs) = elim (charset_index c) [
  | none ↦ none
  | some v ↦
      if leb 128 vlen
      then none
      else elim (decode_chars (vlen + 1) cs) [ none ↦ none | some vs ↦ some (u8 v ∷ vs) ]
]

-- What the checksum runs over: the high bits of the prefix, a zero, the low bits, the data.
unfoldable pub expand_hrp : List ℕ → List ℕ
expand_hrp hrp = map (λ c. u8 (shr c 5)) hrp ++ (0 ∷ map (λ c. u8 (bit_and c 31)) hrp)

-- The part behind the checksum test. With 6 data characters the length `datalen - 1 - 6` wraps
-- around in C: the conversion then runs into the end of its output and the address is refused, as
-- it is here, where the program is empty.
unfoldable pub decode_program : List ℕ → List ℕ → Option Bech32Addr
decode_program hrp payload =
    let witver = byte_at payload 0 in
    if ltb 16 witver
    then none
    else elim (convert5to8 (take (length payload - 1 - 6) (drop 1 payload)) bech32_max_program) [
      | none ↦ none
      | some program ↦
          if ltb (length program) 2 || ltb 40 (length program)
          then none
          else if witver == 0 && (not (length program == 20) && not (length program == 32))
          then none
          else some (record { hrp = hrp; witver = witver; program = program })
    ]

unfoldable pub checksum_for : ℕ → ℕ
checksum_for witver = if witver == 0 then bech32_const else bech32m_const

-- The part behind the separator: `hrp` before it, `chars` after it.
unfoldable pub decode_parts : List ℕ → List ℕ → Option Bech32Addr
decode_parts hrp chars =
    if ltb (length hrp) 1 || leb hrp_size (length hrp)
    then none
    else if ltb (length chars) 6
    then none
    else elim (decode_chars (length hrp + 1 + length hrp) chars) [
      | none ↦ none
      | some payload ↦
          if not (polymod (expand_hrp hrp ++ payload) == checksum_for (byte_at payload 0))
          then none
          else decode_program hrp payload
    ]

unfoldable pub bech32_decode_addr : List ℕ → Option Bech32Addr
bech32_decode_addr addr =
    if ltb (length addr) 8 || ltb 90 (length addr)
    then none
    else if any is_unprintable addr
    then none
    else if any is_lower addr && any is_upper addr
    then none
    else let buf = map to_lower addr in
      elim (last_index b'1' none buf 0) [
        | none ↦ none
        | some sep ↦ decode_parts (take sep buf) (drop (sep + 1) buf)
      ]

unfoldable pub bech32_scriptpubkey : Bech32Addr → ℕ → Option (List ℕ)
bech32_scriptpubkey a outsz =
    if ltb outsz (length a.program + 2)
    then none
    else some (
        (if a.witver == 0 then 0x00 else u8 (0x50 + a.witver))
        ∷ (u8 (length a.program) ∷ a.program))
