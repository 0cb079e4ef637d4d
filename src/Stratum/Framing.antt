-- ===== src/Stratum/Framing.antt =====
-- miner/stratum.c, `stratum_poll`: the loop over the lines of a text that comes in two parts.
use osprey_blake2b.Base.{
  true≢false, ℕ, ◌≡◌, refl, sym, ap, ◌∙◌, true, false, List, [], ◌∷◌, ◌++◌, append-nil,
  append_assoc, inl, inr, ◌==◌, Bool-cases, All, All-append,
}
use mathlib.Core.Path.{subst}
use osprey_blake2b.Stratum.Floats.{Floats}
use osprey_blake2b.Stratum.Session.{Session}
use osprey_blake2b.Stratum.Framed.{with_rx, on_line-rx}
use osprey_blake2b.Stratum.Link.{newline, c_text, take_line, run_lines}

abbrev pub IsLine : List ℕ → Type 0
IsLine line = All (λ c. (c == newline) ≡ false) line

with_rx-live : (x : List ℕ) (t : Session) → t.connected ≡ true → with_rx x t ≡ record t { rx = x }
with_rx-live x t k = simp k

with_rx-lost : (x : List ℕ) (t : Session) → t.connected ≡ false → with_rx x t ≡ t
with_rx-lost x t k = simp k

module _ (F : Floats) where
  take_line-rx :
      (x : List ℕ) (s : Session) (line : List ℕ) (now : ℕ)
      → s.connected ≡ true
      → take_line F (record s { rx = x }) line now ≡ with_rx x (take_line F s line now)
  unfolding take_line
  take_line-rx x s [] now c = simp (c, take_line)
  take_line-rx x s (d ∷ line) now c = on_line-rx F x s (c_text (d ∷ line)) now c

  -- The three steps of the loop.
  module _ (s : Session) (now : ℕ) (line : List ℕ) (d : ℕ) (text : List ℕ) where
    pub step_within :
        (d == newline) ≡ false
        → run_lines F s now line (d ∷ text) ≡ run_lines F s now (line ++ (d ∷ [])) text
    unfolding run_lines
    step_within n = simp (n, run_lines)

    pub step_line :
        (d == newline) ≡ true
        → (take_line F s line now).connected ≡ true
        → run_lines F s now line (d ∷ text) ≡ run_lines F (take_line F s line now) now [] text
    unfolding run_lines
    step_line n k = simp (n, k, run_lines)

    pub step_lost :
        (d == newline) ≡ true
        → (take_line F s line now).connected ≡ false
        → run_lines F s now line (d ∷ text) ≡ take_line F s line now
    unfolding run_lines
    step_lost n k = simp (n, k, run_lines)

  -- The loop over the lines does not read the buffer that it replaces.
  pub run_lines-rx :
      (x : List ℕ) (s : Session) (now : ℕ) (line text : List ℕ)
      → s.connected ≡ true
      → run_lines F (record s { rx = x }) now line text ≡ run_lines F s now line text
  unfolding run_lines
  run_lines-rx x s now line [] c = refl
  run_lines-rx x s now line (d ∷ text) c =
      let r : Session = record s { rx = x } in
      let t = take_line F s line now in
      elim (Bool-cases (d == newline)) [
        | inr n ↦
            step_within r now line d text n
            ∙ (run_lines-rx x s now (line ++ (d ∷ [])) text c
                ∙ sym (step_within s now line d text n))
        | inl n ↦ elim (Bool-cases (take_line F s line now).connected) [
          | inl k ↦
              let q = take_line-rx x s line now c ∙ with_rx-live x t k in
              step_line r now line d text n (ap (λ z. z.connected) q ∙ k)
              ∙ (ap (λ z. run_lines F z now [] text) q
                  ∙ (run_lines-rx x t now [] text k ∙ sym (step_line s now line d text n k)))
          | inr k ↦
              let q = take_line-rx x s line now c ∙ with_rx-lost x t k in
              step_lost r now line d text n (ap (λ z. z.connected) q ∙ k)
              ∙ (q ∙ sym (step_lost s now line d text n k))
        ]
      ]

  -- Characters of a line that are read again behind what stands.
  pub run_lines-line :
      (s : Session) (now : ℕ) (line l b : List ℕ)
      → IsLine l
      → run_lines F s now line (l ++ b) ≡ run_lines F s now (line ++ l) b
  run_lines-line s now line [] b h = ap (λ t. run_lines F s now t b) (sym (append-nil line))
  run_lines-line s now line (d ∷ l) b h =
      step_within s now line d (l ++ b) h.0
      ∙ (run_lines-line s now (line ++ (d ∷ [])) l b h.1
          ∙ ap (λ t. run_lines F s now t b) (append_assoc line (d ∷ []) l))

  -- What a session that is still connected has left over is less than a line.
  pub run_lines-left :
      (s : Session) (now : ℕ) (line text : List ℕ)
      → s.connected ≡ true
      → IsLine line
      → (run_lines F s now line text).connected ≡ true
      → IsLine (run_lines F s now line text).rx
  unfolding run_lines
  run_lines-left s now line [] c h k = h
  run_lines-left s now line (d ∷ text) c h k = elim (Bool-cases (d == newline)) [
    | inr n ↦
        let q = step_within s now line d text n in
        subst (λ z. IsLine z.rx) (sym q)
          (run_lines-left s now (line ++ (d ∷ [])) text c
            (All-append (λ c. (c == newline) ≡ false) line (d ∷ []) h (n, tt))
            (sym (ap (λ z. z.connected) q) ∙ k))
    | inl n ↦ elim (Bool-cases (take_line F s line now).connected) [
      | inl e ↦
          let q = step_line s now line d text n e in
          subst (λ z. IsLine z.rx) (sym q)
            (run_lines-left (take_line F s line now) now [] text e tt
              (sym (ap (λ z. z.connected) q) ∙ k))
      | inr e ↦
          absurd
            (true≢false (sym k ∙ (ap (λ z. z.connected) (step_lost s now line d text n e) ∙ e)))
    ]
  ]

  -- Reading a text is reading its first part, and then the second behind what that left.
  abbrev pub Continues : Session → ℕ → List ℕ → Session → Type 0
  Continues whole now b t = whole ≡ run_lines F t now t.rx b

  pub run_lines-append :
      (s : Session) (now : ℕ) (line a b : List ℕ)
      → s.connected ≡ true
      → (run_lines F s now line a).connected ≡ true
      → Continues (run_lines F s now line (a ++ b)) now b (run_lines F s now line a)
  unfolding run_lines
  run_lines-append s now line [] b c k = sym (run_lines-rx line s now line b c)
  run_lines-append s now line (d ∷ a) b c k = elim (Bool-cases (d == newline)) [
    | inr n ↦
        let q = step_within s now line d a n in
        step_within s now line d (a ++ b) n
        ∙ subst (Continues (run_lines F s now (line ++ (d ∷ [])) (a ++ b)) now b) (sym q)
            (run_lines-append s now (line ++ (d ∷ [])) a b c (sym (ap (λ z. z.connected) q) ∙ k))
    | inl n ↦ elim (Bool-cases (take_line F s line now).connected) [
      | inl e ↦
          let t = take_line F s line now in
          let q = step_line s now line d a n e in
          step_line s now line d (a ++ b) n e
          ∙ subst (Continues (run_lines F t now [] (a ++ b)) now b) (sym q)
              (run_lines-append t now [] a b e (sym (ap (λ z. z.connected) q) ∙ k))
      | inr e ↦
          absurd (true≢false (sym k ∙ (ap (λ z. z.connected) (step_lost s now line d a n e) ∙ e)))
    ]
  ]
