-- ===== src/Mining/Accounts.antt =====
-- miner/miner.c, the mining loop of `main`: every byte and every whole frame is accounted for.
use osprey_blake2b.Base.{
  ℕ, ◌+◌, ◌*◌, ◌<◌, ◌≡◌, ◌⊎◌, inl, inr, refl, sym, ap, ◌∙◌, arith, true, false, List, [], ◌∷◌, ◌++◌,
  ◌==◌, ==_iff, length, length-append, Bool-cases, u64,
}
use mathlib.Core.Path.{subst}
use osprey_blake2b.Gbt.{Candidate, bad, reproduces, solution}
use osprey_blake2b.WorkItem.{FpgaResult, parse_result}
use osprey_blake2b.Mining.{Source, Loop, unparsed, judged, parsed, whole_frame, drain}
use osprey_blake2b.Mining.Assembled.{drain_step, drain_stop, take_byte-last, take_byte-more}

module _ {S : Source} where
  -- The state between two bytes: less than a frame is kept, less than three bad ones came in a row,
  -- and an alignment is there only after work was sent.
  pub record IsBetween (l : Loop S) : Type 0 where
    pub short : length l.frame < 17
    pub run : l.bad_run < 3
    pub ready : l.synced ≡ true → l.have_work ≡ true

  -- A frame was judged: it is gone, and one of two counters, which wrap at 2^64, has moved.
  record IsJudged (l m : Loop S) : Type 0 where
    gone : m.frame ≡ []
    run : m.bad_run < 3
    work : m.have_work ≡ l.have_work
    aligned : m.synced ≡ true → l.synced ≡ true
    one :
        u64 (m.frames_bad + m.candidates_verified) ≡ u64 (l.frames_bad + l.candidates_verified + 1)

  -- `k` whole frames among the bytes, from the first state to the second, and the bytes left.
  pub record IsAccounted (l m : Loop S) (bytes left : List ℕ) (k : ℕ) : Type 0 where
    pub whole : length l.frame + length bytes ≡ 17 * k + length m.frame + length left
    pub verdicts :
        u64 (m.frames_bad + m.candidates_verified) ≡ u64 (l.frames_bad + l.candidates_verified + k)
    pub between : IsBetween m
    pub stop : (left ≡ []) ⊎ (m.synced ≡ false)

module _ (S : Source) (nonce_offset : ℕ) where
  judged-IsJudged :
      (l : Loop S) (c : S.State × Candidate)
      → l.frame ≡ []
      → l.bad_run < 3
      → IsJudged l (judged S l c)
  unfolding judged
  judged-IsJudged l (s, bad) e h = record {
    gone = e;
    run = h;
    work = refl;
    aligned = λ y. y;
    one = omega arith;
  }
  judged-IsJudged l (s, reproduces) e h = record {
    gone = e;
    run = h;
    work = refl;
    aligned = λ y. y;
    one = omega arith;
  }
  judged-IsJudged l (s, solution b) e h = record {
    gone = e;
    run = h;
    work = refl;
    aligned = λ y. y;
    one = omega arith;
  }

  unparsed-IsJudged : (l : Loop S) → l.frame ≡ [] → l.bad_run < 3 → IsJudged l (unparsed S l)
  unfolding unparsed
  unparsed-IsJudged l e h = record {
    gone = e;
    run = ground arith;
    work = refl;
    aligned = λ y. ground arith;
    one = omega arith;
  }

  parsed-IsJudged :
      (l : Loop S) (r : FpgaResult) → l.frame ≡ [] → IsJudged l (parsed S nonce_offset l r)
  unfolding parsed
  parsed-IsJudged l r e =
      let m : Loop S = record l { bad_run = 0; frames_ok = u64 (l.frames_ok + 1) } in
      let c = S.on_candidate l.source l.ctx (u64 (r.nonce + nonce_offset)) r.hash_top64 in
      let w = judged-IsJudged m c e (omega arith) in
      record { gone = w.gone; run = w.run; work = w.work; aligned = w.aligned; one = w.one }

  whole_frame-IsJudged :
      (l : Loop S) (f : List ℕ) → l.bad_run < 3 → IsJudged l (whole_frame S nonce_offset l f)
  unfolding whole_frame
  whole_frame-IsJudged l f h =
      let m : Loop S = record l { frame = [] } in
      elim (Bool-cases (parse_result f).success) [
        | inl e ↦
            let w = parsed-IsJudged m (parse_result f) refl in
            simp e (record {
              gone = w.gone;
              run = w.run;
              work = w.work;
              aligned = w.aligned;
              one = w.one;
            })
        | inr e ↦
            let w = unparsed-IsJudged m refl h in
            simp e (record {
              gone = w.gone;
              run = w.run;
              work = w.work;
              aligned = w.aligned;
              one = w.one;
            })
      ]

  abbrev Rest : Loop S → Loop S → List ℕ → List ℕ → Type 0
  Rest l m bytes more =
      (k : ℕ) × IsAccounted l (drain S nonce_offset m more).0 bytes (drain S nonce_offset m more).1
        k

  behind_frame :
      (l m : Loop S) (b : ℕ) (bytes : List ℕ)
      → length l.frame ≡ 16
      → IsBetween l
      → IsJudged l m
      → (IsBetween m → Rest m m bytes bytes)
      → Rest l m (b ∷ bytes) bytes
  behind_frame l m b bytes e v w ih =
      let n : length m.frame ≡ 0 = ap length w.gone in
      let r = ih record {
        short = omega (arith, n);
        run = w.run;
        ready = λ y. w.work ∙ v.ready (w.aligned y);
      } in
      (
        r.0 + 1,
        record {
          whole = omega (arith, r.1.whole, n, e);
          verdicts = omega (arith, r.1.verdicts, w.one);
          between = r.1.between;
          stop = r.1.stop;
        },
      )

  behind_byte :
      (l : Loop S) (b : ℕ) (bytes : List ℕ)
      → length l.frame < 16
      → IsBetween l
      → (IsBetween (record l { frame = l.frame ++ (b ∷ []) })
          → Rest
              (record l { frame = l.frame ++ (b ∷ []) })
              (record l { frame = l.frame ++ (b ∷ []) })
              bytes
              bytes)
      → Rest l (record l { frame = l.frame ++ (b ∷ []) }) (b ∷ bytes) bytes
  behind_byte l b bytes e v ih =
      let n : length (l.frame ++ (b ∷ [])) ≡ length l.frame + 1 = length-append l.frame (b ∷ []) in
      let r = ih record { short = omega (arith, n, e); run = v.run; ready = v.ready } in
      (
        r.0,
        record {
          whole = omega (arith, r.1.whole, n);
          verdicts = r.1.verdicts;
          between = r.1.between;
          stop = r.1.stop;
        },
      )

  -- What is drained is less than a frame and whole frames, each of which moves one of two counters by
  -- one; bytes are left only where the alignment is lost.
  pub drain-IsAccounted :
      (l : Loop S) (bytes : List ℕ)
      → IsBetween l
      → (k : ℕ) × IsAccounted l
          (drain S nonce_offset l bytes).0
          bytes
          (drain S nonce_offset l bytes).1
          k
  unfolding drain
  drain-IsAccounted l [] v =
      (0, record { whole = omega arith; verdicts = omega arith; between = v; stop = inl refl })
  drain-IsAccounted l (b ∷ bytes) v = elim (Bool-cases l.synced) [
    | inr y ↦ (
      0,
      subst (λ (p : Loop S × List ℕ). IsAccounted l p.0 (b ∷ bytes) p.1 0)
          (sym (drain_stop S nonce_offset l (b ∷ bytes) y))
          record { whole = omega arith; verdicts = omega arith; between = v; stop = inr y },
    )
    | inl y ↦
        subst (λ (p : Loop S × List ℕ). (k : ℕ) × IsAccounted l p.0 (b ∷ bytes) p.1 k)
          (sym (drain_step S nonce_offset l b bytes y))
          (elim (Bool-cases (length l.frame == 16)) [
            | inl e ↦
                subst (λ m. Rest l m (b ∷ bytes) bytes)
                  (sym (take_byte-last S nonce_offset l b ((==_iff (length l.frame) 16).0 e)))
                  (behind_frame l (whole_frame S nonce_offset l (l.frame ++ (b ∷ []))) b bytes
                    ((==_iff (length l.frame) 16).0 e) v
                    (whole_frame-IsJudged l (l.frame ++ (b ∷ [])) v.run)
                    (drain-IsAccounted (whole_frame S nonce_offset l (l.frame ++ (b ∷ []))) bytes))
            | inr e ↦
                subst (λ m. Rest l m (b ∷ bytes) bytes)
                  (sym (take_byte-more S nonce_offset l b (ground (arith, e, v.short))))
                  (behind_byte l b bytes (ground (arith, e, v.short)) v
                    (drain-IsAccounted (record l { frame = l.frame ++ (b ∷ []) }) bytes))
          ])
  ]
