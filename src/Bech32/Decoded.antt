-- ===== src/Bech32/Decoded.antt =====
-- What an accepted address is, and the script that it gives.
use osprey_blake2b.Base.{
  ℕ, ◌+◌, ◌-◌, ◌≤◌, ◌≡◌, ◌⊎◌, inl, inr, sym, ap, All, ◌<◌, ◌∙◌, arith, false, ◌&&◌, ◌||◌, not, List,
  ◌∷◌, length, none, some, ◌==◌, ltb, leb, if◌then◌else◌, Bool-cases, Option-cases, none≢some,
  some-injective, le→ltb-false, take, drop, ◌++◌, ==_iff, u8, map,
}
use mathlib.Core.Path.{subst}
use osprey_blake2b.Base.Bytes.{byte_at}
use osprey_blake2b.Bech32.Spelled.{decode_chars-charset, last_index-split}
use osprey_blake2b.Bech32.{
  charset, Bech32Addr, convert5to8, decode_program, decode_parts, decode_chars, any, is_unprintable,
  is_lower, is_upper, to_lower, last_index, bech32_decode_addr, bech32_scriptpubkey, polymod,
  expand_hrp, checksum_for,
}

-- What the code promises of an address that it accepts.
pub record IsAddr (a : Bech32Addr) : Type 0 where
  pub version : a.witver ≤ 16
  pub size_min : 2 ≤ length a.program
  pub size_max : length a.program ≤ 40
  pub size_v0 : a.witver ≡ 0 → (length a.program ≡ 20) ⊎ (length a.program ≡ 32)

size_ok : (n : ℕ) → ltb n 2 || ltb 40 n ≡ false → (2 ≤ n) × (n ≤ 40)
size_ok n e = ground arith

v0_ok : (w n : ℕ) → w == 0 && (not (n == 20) && not (n == 32)) ≡ false → w ≡ 0 → (n ≡ 20) ⊎ (n ≡ 32)
v0_ok w n e z = ground arith

version_ok : (w : ℕ) → ltb 16 w ≡ false → w ≤ 16
version_ok w e = ground arith

-- The data that a payload of five-bit values carries between its version and its checksum of six.
abbrev pub data_of : List ℕ → List ℕ
data_of payload = take (length payload - 1 - 6) (drop 1 payload)

-- An address that is read off a text: in lower case the text is the prefix, the separator and the
-- characters of the payload. The checksum covers the prefix and the payload, by the constant of the
-- version, which comes first in the payload; the program is what the data behind it carries.
pub record IsRead (text : List ℕ) (a : Bech32Addr) : Type 0 where
  pub payload : List ℕ
  pub spelled : map to_lower text ≡ a.hrp ++ (b'1' ∷ map (byte_at charset) payload)
  pub values : All (λ v. v < 32) payload
  pub checksum : polymod (expand_hrp a.hrp ++ payload) ≡ checksum_for a.witver
  pub version : byte_at payload 0 ≡ a.witver
  pub program : convert5to8 (data_of payload) 40 ≡ some a.program

decode_program-IsAddr :
    (hrp payload : List ℕ) (a : Bech32Addr)
    → decode_program hrp payload ≡ some a
    → IsAddr a
      × (a.hrp ≡ hrp)
      × (byte_at payload 0 ≡ a.witver)
      × (convert5to8 (data_of payload) 40 ≡ some a.program)
unfolding decode_program
decode_program-IsAddr hrp payload a e =
    let w = byte_at payload 0 in
    elim (Bool-cases (ltb 16 w)) [
      | inl v ↦ absurd (none≢some (simp (v, decode_program) at e))
      | inr v ↦
          elim (Option-cases (convert5to8 (take (length payload - 1 - 6) (drop 1 payload)) 40)) [
            | inl n ↦ absurd (none≢some (simp (v, n, decode_program) at e))
            | inr (prog, n) ↦ elim (Bool-cases (ltb (length prog) 2 || ltb 40 (length prog))) [
              | inl s ↦ absurd (none≢some (simp (v, n, s, decode_program) at e))
              | inr s ↦
                  elim (Bool-cases
                    (w == 0 && (not (length prog == 20) && not (length prog == 32)))) [
                      | inl z ↦ absurd (none≢some (simp (v, n, s, z, decode_program) at e))
                      | inr z ↦
                          let q : record { hrp = hrp; witver = w; program = prog } ≡ a =
                            some-injective (simp (v, n, s, z, decode_program) at e) in
                          let sizes = size_ok (length prog) s in
                          (
                            subst IsAddr q (record {
                              version = version_ok w v;
                              size_min = sizes.0;
                              size_max = sizes.1;
                              size_v0 = v0_ok w (length prog) z;
                            }),
                            sym (ap (λ t. t.hrp) q),
                            ap (λ t. t.witver) q,
                            n ∙ ap (λ t. some t.program) q,
                          )
                    ]
            ]
          ]
    ]

decode_parts-IsRead :
    (text hrp chars : List ℕ) (a : Bech32Addr)
    → map to_lower text ≡ hrp ++ (b'1' ∷ chars)
    → decode_parts hrp chars ≡ some a
    → IsAddr a × IsRead text a
unfolding decode_parts
decode_parts-IsRead text hrp chars a split e =
    elim (Bool-cases (ltb (length hrp) 1 || leb 8 (length hrp))) [
      | inl l ↦ absurd (none≢some (simp (l, decode_parts) at e))
      | inr l ↦ elim (Bool-cases (ltb (length chars) 6)) [
        | inl c ↦ absurd (none≢some (simp (l, c, decode_parts) at e))
        | inr c ↦ elim (Option-cases (decode_chars (length hrp + 1 + length hrp) chars)) [
          | inl d ↦ absurd (none≢some (simp (l, c, d, decode_parts) at e))
          | inr (payload, d) ↦
              elim (Bool-cases
                (polymod (expand_hrp hrp ++ payload) == checksum_for (byte_at payload 0))) [
                  | inr k ↦ absurd (none≢some (simp (l, c, d, k, decode_parts) at e))
                  | inl k ↦
                      let q =
                        decode_program-IsAddr hrp payload a
                          (simp (l, c, d, k, decode_parts) at e) in
                      let chars_of =
                        decode_chars-charset chars payload (length hrp + 1 + length hrp) d in
                      (
                        q.0,
                        record {
                          payload = payload;
                          spelled =
                              split
                              ∙ ap (λ (t : List ℕ). hrp ++ (b'1' ∷ t)) (sym chars_of.0)
                              ∙ ap (λ (t : List ℕ). t ++ (b'1' ∷ map (byte_at charset) payload))
                                  (sym q.1);
                          values = chars_of.1;
                          checksum =
                              ap (λ t. polymod (expand_hrp t ++ payload)) q.1
                              ∙ (==_iff (polymod (expand_hrp hrp ++ payload))
                                    (checksum_for (byte_at payload 0))).0
                                  k
                              ∙ ap checksum_for q.2;
                          version = q.2;
                          program = q.3;
                        },
                      )
                ]
        ]
      ]
    ]

-- The four tests in front of the separator.
bech32_decode_addr-IsRead :
    (addr : List ℕ) (a : Bech32Addr) → bech32_decode_addr addr ≡ some a → IsAddr a × IsRead addr a
unfolding bech32_decode_addr
bech32_decode_addr-IsRead addr a e =
    let buf = map to_lower addr in
    elim (Bool-cases (ltb (length addr) 8 || ltb 90 (length addr))) [
      | inl l ↦ absurd (none≢some (simp (l, bech32_decode_addr) at e))
      | inr l ↦ elim (Bool-cases (any is_unprintable addr)) [
        | inl u ↦ absurd (none≢some (simp (l, u, bech32_decode_addr) at e))
        | inr u ↦ elim (Bool-cases (any is_lower addr && any is_upper addr)) [
          | inl m ↦ absurd (none≢some (simp (l, u, m, bech32_decode_addr) at e))
          | inr m ↦ elim (Option-cases (last_index b'1' none buf 0)) [
            | inl n ↦ absurd (none≢some (simp (l, u, m, n, bech32_decode_addr) at e))
            | inr (sep, n) ↦
                decode_parts-IsRead addr (take sep buf) (drop (sep + 1) buf) a
                  (last_index-split b'1' sep buf n) (simp (l, u, m, n, bech32_decode_addr) at e)
          ]
        ]
      ]
    ]

-- An address that is decoded has a witness version of at most 16 and a program of 2 to 40 bytes,
-- of 20 or 32 for version 0. Its text, in lower case, is its prefix, the separator and the characters
-- of a payload of five-bit values. The payload begins with the version, its program is what the values
-- between the version and the last six carry, and behind the prefix it has the checksum that belongs
-- to the version. It gives a script of 4 to 42 bytes, which fits the buffer of the coinbase.
pub bech32_decode_addr-scriptpubkey :
    (addr : List ℕ) (a : Bech32Addr)
    → bech32_decode_addr addr ≡ some a
    → IsAddr a
      × IsRead addr a
      × ((script : List ℕ) × (bech32_scriptpubkey a 64 ≡ some script)
          × (length script ≡ length a.program + 2)
          × (4 ≤ length script)
          × (length script ≤ 42))
unfolding bech32_scriptpubkey
bech32_decode_addr-scriptpubkey addr a e =
    let t = bech32_decode_addr-IsRead addr a e in
    let max = t.0.size_max in
    (
      t.0,
      t.1,
      (
        (if a.witver == 0 then 0x00 else u8 (0x50 + a.witver))
            ∷ (u8 (length a.program) ∷ a.program),
        simp (le→ltb-false 64 (length a.program + 2) (omega (arith, max))),
        omega arith,
        omega (arith, t.0.size_min),
        omega (arith, max),
      ),
    )
