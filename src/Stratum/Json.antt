-- ===== src/Stratum/Json.antt =====
-- miner/stratum.c: the JSON scanner. A pointer into a text is the rest of the text from there on,
-- up to the terminating NUL; `none` is NULL, and -1 for the functions that return a number.
pub mod Hex
use osprey_blake2b.Base.{
  ℕ, zero, suc, ◌+◌, ◌-◌, ◌*◌, ◌/◌, ◌%◌, ◌^◌, Bool, true, false, ◌&&◌, ◌||◌, not, List, [], ◌∷◌,
  Option, none, some, if◌then◌else◌, ltb, leb, ◌==◌, shr, bit_and, get_or, take, length,
}
use osprey_blake2b.Base.Text.{codes}
use osprey_blake2b.Coinbase.{hex_pairs}

abbrev pub quote : ℕ
quote = 34

abbrev pub backslash : ℕ
backslash = 92

unfoldable pub is_space : ℕ → Bool
is_space c = c == 32 || c == 9 || c == 13 || c == 10

unfoldable pub js_ws : List ℕ → List ℕ
js_ws [] = []
js_ws (c ∷ p) = elim (is_space c) [ true ↦ js_ws p | false ↦ c ∷ p ]

-- `while (*p && *p != '"') p += (*p == '\\' && p[1]) ? 2 : 1`.
unfoldable pub to_quote : List ℕ → List ℕ
to_quote [] = []
to_quote (c ∷ []) = elim (c == quote) [ true ↦ c ∷ [] | false ↦ [] ]
to_quote (c ∷ (d ∷ p)) = elim (c == quote) [
  | true ↦ c ∷ d ∷ p
  | false ↦ elim (c == backslash) [ true ↦ to_quote p | false ↦ to_quote (d ∷ p) ]
]

-- The text behind a string, from behind its opening quote on.
unfoldable pub skip_string : List ℕ → Option (List ℕ)
skip_string p = elim (to_quote p) [ [] ↦ none | q ∷ r ↦ some r ]

-- The loop over a bracketed value, with fuel: each round takes one character at least.
unfoldable pub skip_nested : ℕ → ℕ → ℕ → ℕ → List ℕ → Option (List ℕ)
skip_nested zero opening closing depth p = none
skip_nested (suc fuel) opening closing depth [] = none
skip_nested (suc fuel) opening closing depth (c ∷ p) = elim (c == quote) [
  | true ↦ elim (skip_string p) [ none ↦ none | some r ↦ skip_nested fuel opening closing depth r ]
  | false ↦
      let inside = if c == opening then depth + 1 else depth in
      elim (c == closing) [
        | true ↦ elim (inside - 1 == 0) [
          | true ↦ some p
          | false ↦ skip_nested fuel opening closing (inside - 1) p
        ]
        | false ↦ skip_nested fuel opening closing inside p
      ]
]

-- The end of a number, `true`, `false` or `null`.
unfoldable pub is_delimiter : ℕ → Bool
is_delimiter c = c == b',' || c == b']' || c == b'}' || is_space c

unfoldable pub skip_word : List ℕ → List ℕ
skip_word [] = []
skip_word (c ∷ p) = elim (is_delimiter c) [ true ↦ c ∷ p | false ↦ skip_word p ]

-- The value at the first character behind the white space.
unfoldable pub skip_value : List ℕ → Option (List ℕ)
skip_value [] = none
skip_value (c ∷ p) =
    if c == quote
    then skip_string p
    else if c == b'['
    then skip_nested (length p + 1) b'[' b']' 0 (c ∷ p)
    else if c == b'{'
    then skip_nested (length p + 1) b'{' b'}' 0 (c ∷ p)
    else if is_delimiter c
    then none
    else some (skip_word p)

unfoldable pub js_skip : List ℕ → Option (List ℕ)
js_skip p = skip_value (js_ws p)

-- `match` of `js_get`: the key against the text from `ks` to `ke`, and the text from `ke` on.
unfoldable pub match_key : List ℕ → List ℕ → Bool
match_key [] [] = true
match_key [] (y ∷ key) = false
match_key (x ∷ text) [] = false
match_key (x ∷ text) (y ∷ key) = if x == y then match_key text key else false

unfoldable pub before : List ℕ → List ℕ → List ℕ
before p rest = take (length p - length rest) p

-- The rest behind an expected character, with the white space behind it skipped.
unfoldable pub expect : ℕ → List ℕ → Option (List ℕ)
expect want [] = none
expect want (c ∷ p) = if c == want then some (js_ws p) else none

-- One member: whether its key is the one asked for, and the text at its value.
unfoldable pub js_member : List ℕ → List ℕ → Option (Bool × List ℕ)
js_member key p = elim (js_ws p) [
  | [] ↦ none
  | c ∷ ks ↦ elim (c == quote) [
    | false ↦ none
    | true ↦ elim (to_quote ks) [
      | [] ↦ none
      | q ∷ after ↦ elim (expect b':' (js_ws after)) [
        | none ↦ none
        | some v ↦ some (match_key (before ks (q ∷ after)) key, v)
      ]
    ]
  ]
]

unfoldable pub get_loop : ℕ → List ℕ → List ℕ → Option (List ℕ)
get_loop zero key p = none
get_loop (suc fuel) key p = elim (js_member key p) [
  | none ↦ none
  | some m ↦ elim m.0 [
    | true ↦ some m.1
    | false ↦ elim (js_skip m.1) [
      | none ↦ none
      | some r ↦ elim (js_ws r) [
        | [] ↦ none
        | c ∷ next ↦ elim (c == b',') [ true ↦ get_loop fuel key next | false ↦ none ]
      ]
    ]
  ]
]

unfoldable pub js_get : List ℕ → List ℕ → Option (List ℕ)
js_get obj key = elim (expect b'{' (js_ws obj)) [
  | none ↦ none
  | some p ↦ elim (expect b'}' p) [ some r ↦ none | none ↦ get_loop (length p + 1) key p ]
]

-- `idx` is at least 0.
unfoldable pub elem_loop : ℕ → List ℕ → Option (List ℕ)
elem_loop zero p = some p
elem_loop (suc idx) p = elim (js_skip p) [
  | none ↦ none
  | some r ↦ elim (expect b',' (js_ws r)) [ none ↦ none | some q ↦ elem_loop idx q ]
]

unfoldable pub js_elem : List ℕ → ℕ → Option (List ℕ)
js_elem arr idx = elim (expect b'[' (js_ws arr)) [
  | none ↦ none
  | some p ↦ elim (expect b']' p) [ some r ↦ none | none ↦ elem_loop idx p ]
]

-- The number of elements from `p` on, with fuel.
unfoldable pub count_loop : ℕ → List ℕ → Option ℕ
count_loop zero p = none
count_loop (suc fuel) p = elim (js_skip p) [
  | none ↦ none
  | some r ↦ elim (expect b',' (js_ws r)) [
    | some q ↦ elim (count_loop fuel q) [ none ↦ none | some n ↦ some (suc n) ]
    | none ↦ elim (expect b']' (js_ws r)) [ none ↦ none | some q ↦ some 1 ]
  ]
]

unfoldable pub js_count : List ℕ → Option ℕ
js_count arr = elim (expect b'[' (js_ws arr)) [
  | none ↦ none
  | some p ↦ elim (expect b']' p) [ some r ↦ some 0 | none ↦ count_loop (length p + 1) p ]
]

-- The characters up to the next quote; `o` of them are in the buffer already.
unfoldable pub copy_string : ℕ → ℕ → List ℕ → Option (List ℕ)
copy_string o outlen [] = none
copy_string o outlen (c ∷ v) =
    if c == quote
    then some []
    else if leb outlen (o + 1)
    then none
    else elim (copy_string (o + 1) outlen v) [ none ↦ none | some s ↦ some (c ∷ s) ]

unfoldable pub js_str : List ℕ → ℕ → Option (List ℕ)
js_str v outlen = elim (js_ws v) [
  | [] ↦ none
  | c ∷ p ↦ if c == quote then copy_string 0 outlen p else none
]

-- The size of `buf` in `js_hex`.
abbrev pub hex_buf_size : ℕ
hex_buf_size = 1028

unfoldable pub js_hex : List ℕ → ℕ → Option (List ℕ)
js_hex v maxlen = elim (js_str v hex_buf_size) [
  | none ↦ none
  | some buf ↦
      if not ((length buf % 2) == 0)
      then none
      else if ltb maxlen (length buf / 2)
      then none
      else hex_pairs buf
]

unfoldable pub js_true : List ℕ → Bool
js_true v = match_key (take 4 (js_ws v)) (codes "true")

abbrev pub hex_digits : List ℕ
hex_digits = codes "0123456789abcdef"

unfoldable pub bin2hex : List ℕ → List ℕ
bin2hex [] = []
bin2hex (b ∷ bs) = get_or hex_digits (shr b 4) 0 ∷ get_or hex_digits (bit_and b 15) 0 ∷ bin2hex bs
