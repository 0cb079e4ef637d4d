-- ===== src/WorkItem/Layout.antt =====
-- When the stage messages are built, and where each field lies in them.
use osprey_blake2b.Base.{
  ℕ, zero, suc, ◌+◌, ◌-◌, ◌*◌, ◌/◌, ◌%◌, ◌^◌, ◌≤◌, ◌<◌, ◌≡◌, refl, sym, ap, ap₂, ◌∙◌, arith, Bool,
  true, false, List, [], ◌∷◌, ◌++◌, ◌==◌, length, take, drop, replicate, set, All, IsByte, bit_and,
  min, not, length-append, length-take, length-set, Bool-cases, inl, inr, eq→==, ne→==-false,
  take_all, if◌then◌else◌,
}
use osprey_blake2b.Base.Slices.{take-append_le}
use osprey_blake2b.Sha256.{tagged_hash}
use osprey_blake2b.Sha256.Reference.{tagged_hash-IsDigest}
use osprey_blake2b.Blake2b.{blake2b_nokey}
use osprey_blake2b.Blake2b.Shape.{length-blake2b_nokey}
use osprey_blake2b.WorkItem.{
  KnotsHeader, Stages, ok, err, bad_mode, put_le32, reversed32, clear_from, h1_payload, h2_hash,
  stage3_message, stage4_message, prev_hidden, stage_inputs, stage3_len,
}

-- The fixed arrays of the struct have their sizes.
pub record IsHeader (h : KnotsHeader) : Type 0 where
  pub prev_size : length h.hash_prev_block ≡ 32
  pub root_size : length h.hash_merkle_root ≡ 32
  pub extranonce_size : length h.m_extranonce ≡ 16
  pub key_size : length h.m_xor_key ≡ 16
  pub rhs_size : length h.m_mm_rhs ≡ 32

pub length-reversed32 : (p : List ℕ) → length (reversed32 p) ≡ 32
unfolding reversed32
length-reversed32 p = refl

pub length-put_le32 : (v : ℕ) → length (put_le32 v) ≡ 4
unfolding put_le32
length-put_le32 v = refl

pub length-clear_from : (i n : ℕ) (buf : List ℕ) → length (clear_from i n buf) ≡ length buf
unfolding clear_from
length-clear_from i zero buf = refl
length-clear_from i (suc n) buf = length-clear_from (i + 1) n (set buf i 0) ∙ length-set buf i 0

pub tagged_hash-size : (tag payload : List ℕ) → length (tagged_hash tag payload) ≡ 32
tagged_hash-size tag payload = (tagged_hash-IsDigest tag payload).size

pub ruleset lengths = (
  length-append, length-take, length-put_le32, length-reversed32, tagged_hash-size,
  length-clear_from, length-blake2b_nokey,
)

-- The mode bits select the only mode that the bitstream implements.
abbrev pub IsMode0 : KnotsHeader → Type 0
IsMode0 h = bit_and h.m_flags 3 ≡ 0

-- The stages of a header, with no copy cut short.
abbrev pub hash_a_of : KnotsHeader → List ℕ
hash_a_of h = blake2b_nokey (stage3_message h) 32

abbrev pub stages_of : KnotsHeader → Stages
stages_of h = record {
  ss3 = stage3_message h;
  ss4 = stage4_message h (hash_a_of h);
  hash_a = hash_a_of h;
}

module _ (h : KnotsHeader) (v : IsHeader h) where
  pub length-h1_payload : length (h1_payload h) ≡ 119
  unfolding h1_payload
  length-h1_payload = simp (lengths, v.root_size)

  pub length-stage3_message : length (stage3_message h) ≡ 52
  unfolding stage3_message h2_hash
  length-stage3_message = simp (lengths, v.extranonce_size)

  pub length-stage4_message : (a : List ℕ) → length a ≡ 32 → length (stage4_message h a) ≡ 80
  unfolding stage4_message prev_hidden
  length-stage4_message a size = simp (lengths, size)

  stage3_whole : take stage3_len (stage3_message h) ≡ stage3_message h
  stage3_whole = take_all 52 (stage3_message h) length-stage3_message

  -- In mode 0 none of the length checks fires.
  pub stage_inputs_mode0 : IsMode0 h → stage_inputs h ≡ ok (stages_of h)
  unfolding stage_inputs
  stage_inputs_mode0 m = rw (
    eq→== (bit_and h.m_flags 3) 0 m,
    length-h1_payload,
    stage3_whole,
    length-stage4_message (hash_a_of h) (length-blake2b_nokey (stage3_message h) 32),
  )

pub stage_inputs_bad_mode : (h : KnotsHeader) → ¬ (IsMode0 h) → stage_inputs h ≡ err bad_mode
unfolding stage_inputs
stage_inputs_bad_mode h m = rw (ne→==-false (bit_and h.m_flags 3) 0 m)

-- The first bytes of a list that is long enough are cleared.
clear_six : (xs : List ℕ) → length xs ≡ 32 → take 6 (take 32 (clear_from 0 6 xs)) ≡ replicate 6 0
unfolding clear_from
clear_six (a ∷ (b ∷ (c ∷ (d ∷ (e ∷ (f ∷ xs)))))) h = refl
clear_six xs h = absurd (omega arith)

hidden_prefix : (h : KnotsHeader) (a : List ℕ) → take 6 (stage4_message h a) ≡ replicate 6 0
unfolding stage4_message prev_hidden
hidden_prefix h a =
    take-append_le 6 _ _ (simp lengths (omega arith)) ∙ clear_six _ (tagged_hash-size _ _)

-- Of a header with its arrays in size, `stage_inputs` fails exactly when the mode bits are not 0,
-- and then with the mode error. In mode 0 it gives 52, 80 and 32 bytes, and the first six bytes
-- of the stage-4 message are 0.
pub stage_inputs_outcome :
    (h : KnotsHeader)
    → IsHeader h
    → (IsMode0 h
        → (st : Stages) × (stage_inputs h ≡ ok st)
          × (length st.ss3 ≡ 52)
          × (length st.ss4 ≡ 80)
          × (length st.hash_a ≡ 32)
          × (take 6 st.ss4 ≡ replicate 6 0))
      × (¬ (IsMode0 h) → stage_inputs h ≡ err bad_mode)
stage_inputs_outcome h v = (
  λ m. (
    stages_of h,
    stage_inputs_mode0 h v m,
    length-stage3_message h v,
    length-stage4_message h v (hash_a_of h) (length-blake2b_nokey (stage3_message h) 32),
    length-blake2b_nokey (stage3_message h) 32,
    hidden_prefix h (hash_a_of h),
  ),
  stage_inputs_bad_mode h,
)
