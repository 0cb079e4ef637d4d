-- ===== src/Stratum/Cuts.antt =====
-- miner/stratum.c, `stratum_poll`: how the bytes of the pool are cut makes no difference.
use osprey_blake2b.Base.{
  true≢false, ℕ, ◌+◌, ◌-◌, ◌≤◌, ◌<◌, ◌≡◌, sym, ap, ◌∙◌, arith, true, false, List, [], ◌∷◌, ◌++◌,
  append-nil, inl, inr, ◌==◌, Bool-cases, length, take, take-append-drop, length-append,
}
use osprey_blake2b.Base.Slices.{drop_all}
use osprey_blake2b.Stratum.Floats.{Floats}
use osprey_blake2b.Stratum.Session.{Session}
use osprey_blake2b.Stratum.Framing.{
  run_lines-rx, run_lines-line, run_lines-left, run_lines-append, step_within, step_line, step_lost,
}
use osprey_blake2b.Stratum.Link.{
  DialOutcome, Recv, bytes, newline, rx_size, is_full, receive, take_line, run_lines, stratum_poll,
}

take_long : (n : ℕ) (xs : List ℕ) → length xs ≤ n → take n xs ≡ xs
take_long n xs h =
    sym (append-nil (take n xs))
    ∙ (ap (λ z. take n xs ++ z) (sym (drop_all n xs h)) ∙ take-append-drop n xs)

is_full-room : (s : Session) → length s.rx + 1 < rx_size → is_full s ≡ false
unfolding is_full
is_full-room s h = ground arith

receive-bytes :
    (s : Session) (a : List ℕ) (answers : List Recv)
    → length s.rx + length a + 1 < rx_size
    → receive s (bytes a ∷ answers) ≡ receive (record s { rx = s.rx ++ a }) answers
unfolding receive
receive-bytes s a answers h =
    simp
      (is_full-room s (omega arith), take_long (rx_size - length s.rx - 1) a (omega arith), receive)

receive-nil : (s : Session) → length s.rx + 1 < rx_size → receive s [] ≡ (s, true)
unfolding receive
receive-nil s h = simp (is_full-room s h, receive)

module _ (F : Floats) where
  run_lines-short :
      (s : Session) (now : ℕ) (line text : List ℕ)
      → s.connected ≡ true
      → (run_lines F s now line text).connected ≡ true
      → length (run_lines F s now line text).rx ≤ length line + length text
  unfolding run_lines
  run_lines-short s now line [] c k = omega arith
  run_lines-short s now line (d ∷ text) c k = elim (Bool-cases (d == newline)) [
    | inr n ↦
        let q = step_within F s now line d text n in
        let h =
          run_lines-short s now (line ++ (d ∷ [])) text c (sym (ap (λ z. z.connected) q) ∙ k) in
        omega (arith, h, ap (λ z. length z.rx) q, length-append line (d ∷ []))
    | inl n ↦ elim (Bool-cases (take_line F s line now).connected) [
      | inl e ↦
          let q = step_line F s now line d text n e in
          let h =
            run_lines-short (take_line F s line now) now [] text e
              (sym (ap (λ z. z.connected) q) ∙ k) in
          omega (arith, h, ap (λ z. length z.rx) q)
      | inr e ↦
          absurd
            (true≢false (sym k ∙ (ap (λ z. z.connected) (step_lost F s now line d text n e) ∙ e)))
    ]
  ]

  polled_once :
      (o : DialOutcome) (s t : Session) (answers : List Recv) (now : ℕ)
      → s.connected ≡ true
      → receive s answers ≡ (t, true)
      → t.connected ≡ true
      → stratum_poll F o answers s now ≡ run_lines F t now [] t.rx
  unfolding stratum_poll
  polled_once o s t answers now c r k = simp (c, r, stratum_poll)

  -- A poll that receives one piece.
  poll-bytes :
      (o : DialOutcome) (s : Session) (a : List ℕ) (now : ℕ)
      → s.connected ≡ true
      → length s.rx + length a + 1 < rx_size
      → stratum_poll F o (bytes a ∷ []) s now ≡ run_lines F s now [] (s.rx ++ a)
  poll-bytes o s a now c h =
      let t : Session = record s { rx = s.rx ++ a } in
      polled_once o s t (bytes a ∷ []) now c
        (receive-bytes s a [] h ∙ receive-nil t (omega (arith, length-append s.rx a))) c
      ∙ run_lines-rx F (s.rx ++ a) s now [] (s.rx ++ a) c

  poll-bytes-bytes :
      (o : DialOutcome) (s : Session) (a b : List ℕ) (now : ℕ)
      → s.connected ≡ true
      → length s.rx + (length a + length b) + 1 < rx_size
      → stratum_poll F o (bytes a ∷ (bytes b ∷ [])) s now ≡ run_lines F s now [] ((s.rx ++ a) ++ b)
  poll-bytes-bytes o s a b now c h =
      let t : Session = record s { rx = s.rx ++ a } in
      let u : Session = record s { rx = (s.rx ++ a) ++ b } in
      let e = length-append s.rx a in
      polled_once o s u (bytes a ∷ (bytes b ∷ [])) now c
        (receive-bytes s a (bytes b ∷ []) (omega arith)
          ∙ (receive-bytes t b [] (omega (arith, e))
              ∙ receive-nil u (omega (arith, e, length-append (s.rx ++ a) b))))
        c
      ∙ run_lines-rx F ((s.rx ++ a) ++ b) s now [] ((s.rx ++ a) ++ b) c

  -- Two pieces of what a pool sends that come in two polls leave the session as they do in one poll,
  -- wherever the cut is, when the buffer has room for both and the first leaves the connection.
  pub stratum_poll-stratum_poll :
      (o : DialOutcome) (s : Session) (a b : List ℕ) (now : ℕ)
      → s.connected ≡ true
      → length s.rx + (length a + length b) + 1 < rx_size
      → (stratum_poll F o (bytes a ∷ []) s now).connected ≡ true
      → stratum_poll F o (bytes b ∷ []) (stratum_poll F o (bytes a ∷ []) s now) now
        ≡ stratum_poll F o (bytes a ∷ (bytes b ∷ [])) s now
  stratum_poll-stratum_poll o s a b now c h k =
      let t = run_lines F s now [] (s.rx ++ a) in
      let first = poll-bytes o s a now c (omega arith) in
      let live : t.connected ≡ true = sym (ap (λ z. z.connected) first) ∙ k in
      let short = run_lines-short s now [] (s.rx ++ a) c live in
      ap (λ z. stratum_poll F o (bytes b ∷ []) z now) first
      ∙ (poll-bytes o t b now live (omega (arith, short, length-append s.rx a))
          ∙ (run_lines-line F t now [] t.rx b (run_lines-left F s now [] (s.rx ++ a) c tt live)
              ∙ (sym (run_lines-append F s now [] (s.rx ++ a) b c live)
                  ∙ sym (poll-bytes-bytes o s a b now c h))))
