-- ===== src/Mining/Assembled.antt =====
-- miner/miner.c, the mining loop of `main`: what the bytes that arrive become.
use osprey_blake2b.Base.{
  ℕ, ◌+◌, ◌*◌, ◌^◌, ◌<◌, ◌≡◌, refl, sym, ap, ◌∙◌, arith, Bool, true, false, List, [], ◌∷◌, ◌++◌,
  if◌then◌else◌, ◌==◌, length, length-append, append_assoc, eq→==, ne→==-false, All,
}
use osprey_blake2b.Base.Bytes.{store_le}
use osprey_blake2b.Gbt.{Candidate, bad, reproduces, solution}
use osprey_blake2b.WorkItem.{FpgaResult}
use osprey_blake2b.WorkItem.Item.{framing_make, parse_result-framing_make}
use osprey_blake2b.Mining.{Source, Loop, unparsed, judged, parsed, whole_frame, take_byte, drain}

-- A nonce and a hash word that an FPGA sends.
abbrev pub IsReply : ℕ × ℕ → Type 0
IsReply r = (r.0 < 2 ^ 64) × (r.1 < 2 ^ 64)

-- The bytes of replies, one frame behind the other.
abbrev pub frames : List (ℕ × ℕ) → List ℕ
frames [] = []
frames ((n, h) ∷ replies) = framing_make n h ++ frames replies

pub length-framing_make : (n h : ℕ) → length (framing_make n h) ≡ 17
unfolding framing_make store_le
length-framing_make n h = refl

pub length-frames : (replies : List (ℕ × ℕ)) → length (frames replies) ≡ 17 * length replies
length-frames [] = refl
length-frames ((n, h) ∷ replies) = omega (
  arith,
  length-append (framing_make n h) (frames replies),
  length-framing_make n h,
  length-frames replies,
)

module _ (S : Source) (nonce_offset : ℕ) where
  -- The replies handed to the source in turn, and what it says of them counted.
  abbrev pub parsed_each : Loop S → List (ℕ × ℕ) → Loop S
  parsed_each l [] = l
  parsed_each l ((n, h) ∷ replies) =
      parsed_each (parsed S nonce_offset l record { success = true; nonce = n; hash_top64 = h })
        replies

  pub drain_step :
      (l : Loop S) (b : ℕ) (bytes : List ℕ)
      → l.synced ≡ true
      → drain S nonce_offset l (b ∷ bytes)
        ≡ drain S nonce_offset (take_byte S nonce_offset l b) bytes
  unfolding drain
  drain_step l b bytes y = simp (y, drain) refl

  pub drain_stop :
      (l : Loop S) (bytes : List ℕ) → l.synced ≡ false → drain S nonce_offset l bytes ≡ (l, bytes)
  unfolding drain
  drain_stop l [] y = refl
  drain_stop l (b ∷ bytes) y = simp (y, drain) refl

  pub take_byte-last :
      (l : Loop S) (b : ℕ)
      → length l.frame ≡ 16
      → take_byte S nonce_offset l b ≡ whole_frame S nonce_offset l (l.frame ++ (b ∷ []))
  unfolding take_byte
  take_byte-last l b e =
      let t : (length (l.frame ++ (b ∷ [])) == 17) ≡ true =
        eq→== (length (l.frame ++ (b ∷ []))) 17
          (length-append l.frame (b ∷ []) ∙ omega (arith, e)) in
      ap
        (λ (c : Bool).
          if c
          then whole_frame S nonce_offset l (l.frame ++ (b ∷ []))
          else record l { frame = l.frame ++ (b ∷ []) })
        t

  pub take_byte-more :
      (l : Loop S) (b : ℕ)
      → length l.frame < 16
      → take_byte S nonce_offset l b ≡ record l { frame = l.frame ++ (b ∷ []) }
  unfolding take_byte
  take_byte-more l b e =
      let n : length (l.frame ++ (b ∷ [])) ≡ length l.frame + 1 = length-append l.frame (b ∷ []) in
      let t : (length (l.frame ++ (b ∷ [])) == 17) ≡ false =
        ne→==-false (length (l.frame ++ (b ∷ []))) 17 (λ k. absurd (omega (arith, n, e, k))) in
      ap
        (λ (c : Bool).
          if c
          then whole_frame S nonce_offset l (l.frame ++ (b ∷ []))
          else record l { frame = l.frame ++ (b ∷ []) })
        t

  whole_frame-frame :
      (l : Loop S) (f g : List ℕ)
      → whole_frame S nonce_offset (record l { frame = g }) f ≡ whole_frame S nonce_offset l f
  unfolding whole_frame
  whole_frame-frame l f g = refl

  -- The bytes that make a frame whole.
  drain-frame :
      (l : Loop S) (s rest : List ℕ)
      → l.synced ≡ true
      → length l.frame + length s ≡ 17
      → 0 < length s
      → drain S nonce_offset l (s ++ rest)
        ≡ drain S nonce_offset (whole_frame S nonce_offset l (l.frame ++ s)) rest
  drain-frame l [] rest y e h = absurd (omega arith)
  drain-frame l (b ∷ []) rest y e h =
      drain_step l b rest y
      ∙ ap (λ m. drain S nonce_offset m rest) (take_byte-last l b (omega arith))
  drain-frame l (b ∷ c ∷ s) rest y e h =
      let n : length (l.frame ++ (b ∷ [])) ≡ length l.frame + 1 = length-append l.frame (b ∷ []) in
      let m : Loop S = record l { frame = l.frame ++ (b ∷ []) } in
      drain_step l b ((c ∷ s) ++ rest) y
      ∙ ap (λ k. drain S nonce_offset k ((c ∷ s) ++ rest)) (take_byte-more l b (omega arith))
      ∙ drain-frame m (c ∷ s) rest y (omega (arith, n)) (omega arith)
      ∙ ap (λ k. drain S nonce_offset k rest)
          (whole_frame-frame l ((l.frame ++ (b ∷ [])) ++ (c ∷ s)) (l.frame ++ (b ∷ [])))
      ∙ ap (λ f. drain S nonce_offset (whole_frame S nonce_offset l f) rest)
          (append_assoc l.frame (b ∷ []) (c ∷ s))

  judged_kept :
      (l : Loop S) (c : S.State × Candidate)
      → ((judged S l c).synced ≡ l.synced) × ((judged S l c).frame ≡ l.frame)
  unfolding judged
  judged_kept l (s, bad) = (refl, refl)
  judged_kept l (s, reproduces) = (refl, refl)
  judged_kept l (s, solution b) = (refl, refl)

  parsed_kept :
      (l : Loop S) (r : FpgaResult)
      → ((parsed S nonce_offset l r).synced ≡ l.synced)
        × ((parsed S nonce_offset l r).frame ≡ l.frame)
  unfolding parsed
  parsed_kept l r = judged_kept _ _

  whole_frame-framing_make :
      (l : Loop S) (n h : ℕ)
      → l.frame ≡ []
      → n < 2 ^ 64
      → h < 2 ^ 64
      → whole_frame S nonce_offset l (framing_make n h)
        ≡ parsed S nonce_offset l record { success = true; nonce = n; hash_top64 = h }
  unfolding whole_frame
  whole_frame-framing_make l n h e p q =
      ap
        (λ r.
          if r.success
          then parsed S nonce_offset (record l { frame = [] }) r
          else unparsed S (record l { frame = [] }))
        (parse_result-framing_make n h p q)
      ∙ λ i.
          parsed S nonce_offset (record l { frame = sym e i })
            record { success = true; nonce = n; hash_top64 = h }

  -- From the start of a frame on, the frames of any replies are judged each once, in their order, and
  -- what follows them is drained behind them.
  pub drain-frames :
      (l : Loop S) (replies : List (ℕ × ℕ)) (rest : List ℕ)
      → l.synced ≡ true
      → l.frame ≡ []
      → All IsReply replies
      → drain S nonce_offset l (frames replies ++ rest)
        ≡ drain S nonce_offset (parsed_each l replies) rest
  drain-frames l [] rest y e w = refl
  drain-frames l ((n, h) ∷ replies) rest y e w =
      let r : FpgaResult = record { success = true; nonce = n; hash_top64 = h } in
      let k = parsed_kept l r in
      ap (drain S nonce_offset l) (append_assoc (framing_make n h) (frames replies) rest)
      ∙ drain-frame l (framing_make n h) (frames replies ++ rest) y
          (omega (arith, ap length e, length-framing_make n h))
          (omega (arith, length-framing_make n h))
      ∙ ap (λ f. drain S nonce_offset (whole_frame S nonce_offset l f) (frames replies ++ rest))
          (ap (λ f. f ++ framing_make n h) e)
      ∙ ap (λ m. drain S nonce_offset m (frames replies ++ rest))
          (whole_frame-framing_make l n h e w.0.0 w.0.1)
      ∙ drain-frames (parsed S nonce_offset l r) replies rest (k.0 ∙ y) (k.1 ∙ e) w.1
