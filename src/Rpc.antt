-- ===== src/Rpc.antt =====
-- miner/miner.c: the scanning of a JSON reply with the string functions of C, the base64 of the
-- authorization and the reading of a reply. A text is the list of its bytes up to its NUL, and a
-- pointer into a text is the rest of the text from there on. Numbers of type `long long` are their
-- bit patterns.
pub mod Base64
pub mod Hex
pub mod Reply
use osprey_blake2b.Base.{
  ℕ, zero, suc, ◌+◌, ◌-◌, ◌*◌, ◌/◌, ◌%◌, ◌^◌, ◌<◌, bit_and, bit_or, Bool, true, false, ◌&&◌, ◌||◌,
  not, List, [], ◌∷◌, ◌++◌, Option, none, some, if◌then◌else◌, ltb, leb, ◌==◌, ◌>>=◌, ◌>>◌, guard,
  u8, u64, shr, length, get_or, take, drop,
}
use osprey_blake2b.Base.Text.{codes}
use osprey_blake2b.Coinbase.{hexval}

-- Whether a text starts with another.
unfoldable pub starts : List ℕ → List ℕ → Bool
starts s [] = true
starts [] (p ∷ pat) = false
starts (c ∷ s) (p ∷ pat) = if c == p then starts s pat else false

unfoldable pub strstr : List ℕ → List ℕ → Option (List ℕ)
strstr [] pat = if starts [] pat then some [] else none
strstr (c ∷ s) pat = let rest = strstr s pat in if starts (c ∷ s) pat then some (c ∷ s) else rest

unfoldable pub strchr : List ℕ → ℕ → Option (List ℕ)
strchr [] c = none
strchr (d ∷ s) c = let rest = strchr s c in if d == c then some (d ∷ s) else rest

unfoldable pub isspace : ℕ → Bool
isspace c = (c == 32) || (leb 9 c && leb c 13)

unfoldable pub skip_space : List ℕ → List ℕ
skip_space [] = []
skip_space (c ∷ s) = let rest = skip_space s in if isspace c then rest else c ∷ s

-- The digits at the front of a text; the value stops at `top`.
unfoldable pub decimal : ℕ → ℕ → List ℕ → ℕ
decimal top v [] = v
decimal top v (c ∷ s) =
    let rest = decimal top (if leb top (v * 10 + (c - b'0')) then top else v * 10 + (c - b'0')) s in
    if leb b'0' c && leb c b'9' then rest else v

unfoldable pub strtoll : List ℕ → ℕ
strtoll s = elim (skip_space s) [
  | [] ↦ 0
  | c ∷ t ↦
      if c == b'-'
      then u64 (2 ^ 64 - decimal (2 ^ 63) 0 t)
      else decimal (2 ^ 63 - 1) 0 (if c == b'+' then t else c ∷ t)
]

unfoldable pub hexadecimal : ℕ → ℕ → List ℕ → ℕ
hexadecimal top v [] = v
hexadecimal top v (c ∷ s) = elim (hexval c) [
  | none ↦ v
  | some d ↦ hexadecimal top (if leb top (v * 16 + d) then top else v * 16 + d) s
]

-- A prefix `0x` counts only in front of a digit.
unfoldable pub skip_0x : List ℕ → List ℕ
skip_0x (z ∷ (x ∷ (d ∷ s))) = elim (hexval d) [
  | none ↦ z ∷ (x ∷ (d ∷ s))
  | some v ↦ if (z == b'0') && ((x == b'x') || (x == b'X')) then d ∷ s else z ∷ (x ∷ (d ∷ s))
]
skip_0x s = s

-- `(uint32_t)strtoul(s, NULL, 16)` with an `unsigned long` of 32 bits; 2^32 stands for a number too
-- large, which gives the largest.
unfoldable pub strtoul_16 : List ℕ → ℕ
strtoul_16 s = elim (skip_space s) [
  | [] ↦ 0
  | c ∷ t ↦
      let u = if (c == b'+') || (c == b'-') then t else c ∷ t in
      let v = hexadecimal (2 ^ 32) 0 (skip_0x u) in
      if v == 2 ^ 32 then 2 ^ 32 - 1 else if c == b'-' then (2 ^ 32 - v) % 2 ^ 32 else v
]

-- `sscanf(s, "%2x", &v)`: two characters behind the space, a sign among them; `0x` alone is no number.
-- None is a result other than 1.
unfoldable pub scan_2x : List ℕ → Option ℕ
scan_2x s = elim (skip_space s) [
  | [] ↦ none
  | c ∷ t ↦ elim t [
    | [] ↦ hexval c
    | d ∷ u ↦
        if (c == b'+') || (c == b'-')
        then (elim (hexval d) [
          | none ↦ none
          | some v ↦ some (if c == b'-' then (2 ^ 32 - v) % 2 ^ 32 else v)
        ])
        else if (c == b'0') && ((d == b'x') || (d == b'X'))
        then none
        else elim (hexval c) [
          | none ↦ none
          | some hi ↦ elim (hexval d) [ none ↦ some hi | some lo ↦ some (hi * 16 + lo) ]
        ]
  ]
]

-- The loop over the bytes, each read two characters on.
unfoldable pub hex2bin_n : List ℕ → ℕ → Option (List ℕ)
hex2bin_n hex zero = some []
hex2bin_n hex (suc nbytes) = elim (scan_2x hex) [
  | none ↦ none
  | some v ↦ elim (hex2bin_n (drop 2 hex) nbytes) [ none ↦ none | some out ↦ some (u8 v ∷ out) ]
]

unfoldable pub hex2bin : List ℕ → ℕ → Option (List ℕ)
hex2bin hex outlen = if length hex == outlen * 2 then hex2bin_n hex outlen else none

-- `"key"`, cut to the 63 characters of `pat`.
unfoldable pub quoted : List ℕ → List ℕ
quoted key = take 63 (b'"' ∷ (key ++ (b'"' ∷ [])))

-- The text behind the colon of a key.
unfoldable pub value_of : List ℕ → List ℕ → Option (List ℕ)
value_of s key = do
  p ← strstr s (quoted key)
  q ← strchr (drop (length (quoted key)) p) b':'
  some (drop 1 q)

unfoldable pub json_num : List ℕ → List ℕ → Option ℕ
json_num s key = do p ← value_of s key; some (strtoll p)

-- The text up to a character that it has; none where it has none.
unfoldable pub up_to : ℕ → List ℕ → Option (List ℕ)
up_to c [] = none
up_to c (d ∷ s) =
    let rest = up_to c s in
    if d == c then some [] else elim rest [ none ↦ none | some t ↦ some (d ∷ t) ]

-- The search for the quote starts at the colon.
unfoldable pub json_str : List ℕ → List ℕ → ℕ → Option (List ℕ)
json_str s key outsz = do
  p ← value_of s key
  q ← strchr p b'"'
  t ← up_to b'"' (drop 1 q)
  guard (ltb (length t) outsz)
  some t

abbrev pub b64_alphabet : List ℕ
b64_alphabet = codes "ABCDEFGHIJKLMNOPQRSTUVWXYZabcdefghijklmnopqrstuvwxyz0123456789+/"

unfoldable pub b64_char : ℕ → ℕ
b64_char v = get_or b64_alphabet (bit_and v 63) 0

-- The loop of `b64`, where `o` characters are written.
unfoldable pub b64_from : ℕ → ℕ → List ℕ → List ℕ
b64_from outsz o [] = []
b64_from outsz o (a ∷ []) =
    let v = a * 2 ^ 16 in
    if ltb (o + 4) outsz
    then b64_char (shr v 18) ∷ (b64_char (shr v 12) ∷ (b'=' ∷ (b'=' ∷ [])))
    else []
b64_from outsz o (a ∷ (b ∷ [])) =
    let v = bit_or (a * 2 ^ 16) (b * 2 ^ 8) in
    if ltb (o + 4) outsz
    then b64_char (shr v 18) ∷ (b64_char (shr v 12) ∷ (b64_char (shr v 6) ∷ (b'=' ∷ [])))
    else []
b64_from outsz o (a ∷ (b ∷ (c ∷ rest))) =
    let v = bit_or (bit_or (a * 2 ^ 16) (b * 2 ^ 8)) c in
    let more = b64_from outsz (o + 4) rest in
    if ltb (o + 4) outsz
    then b64_char (shr v 18) ∷ (b64_char (shr v 12) ∷ (b64_char (shr v 6) ∷ (b64_char v ∷ more)))
    else []

unfoldable pub b64 : List ℕ → ℕ → List ℕ
b64 text outsz = b64_from outsz 0 text

-- The size of the array `resp`.
abbrev pub resp_size : ℕ
resp_size = 4194304

-- The loop that reads a reply: `got` bytes so far, and what each `read` gives, none or nothing at the
-- end. The bytes, and whether they are cut off.
unfoldable pub read_reply : List ℕ → List (Option (List ℕ)) → List ℕ × Bool
read_reply resp [] = (resp, false)
read_reply resp (none ∷ reads) = (resp, false)
read_reply resp (some k ∷ reads) =
    let more = resp ++ take (resp_size - length resp - 1) k in
    let next = read_reply more reads in
    if length k == 0
    then (resp, false)
    else if leb (resp_size - 1) (length more)
    then (more, true)
    else next
