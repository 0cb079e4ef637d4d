-- ===== src/Mining/Reached.antt =====
-- miner/miner.c, the mining loop of `main`: what holds after any number of passes.
use osprey_blake2b.Base.{
  ℕ, ◌-◌, ◌*◌, ◌/◌, ◌≡◌, inl, inr, refl, sym, ap, ◌∙◌, arith, Bool, true, ◌&&◌, not, List, [], ◌∷◌,
  ◌++◌, Option, none, some, ltb, ◌==◌, length, drop, ◌>>=◌, Bool-cases, Option-cases, none≢some,
  some-injective,
}
use mathlib.Core.Path.{subst}
use osprey_blake2b.Worksrc.{worksrc_pack_item}
use osprey_blake2b.FrameSync.{SyncCounts, frame_sync}
use osprey_blake2b.Mining.{
  Source, Line, Loop, loop_start, drain, push_work, wants_work, find_frame, sync_and_drain, pass,
}
use osprey_blake2b.Mining.Accounts.{IsBetween, drain-IsAccounted}

module _ (S : Source) (nonce_offset : ℕ) where
  -- Passes one after the other, each at a time of the clock.
  abbrev pub passes : Loop S → List (ℕ × Line) → Option (Loop S)
  passes l [] = some l
  passes l ((t, line) ∷ lines) = pass S nonce_offset l t line >>= (λ m. passes m lines)

  loop_start-IsBetween : (s : S.State) → IsBetween (loop_start S s)
  unfolding loop_start
  loop_start-IsBetween s = record { short = omega arith; run = omega arith; ready = λ y. y }

  push_work-IsBetween :
      (l : Loop S) (t : ℕ) (written : Bool) → IsBetween l → IsBetween (push_work S l t written).0
  unfolding push_work
  push_work-IsBetween l t written v = elim (Option-cases (S.get_work l.source t).1) [
    | inl e ↦ simp (e, push_work) record { short = v.short; run = v.run; ready = v.ready }
    | inr (next, e) ↦ elim (Bool-cases ((worksrc_pack_item next S.item_len).0 == 0)) [
      | inl z ↦ simp (e, z, push_work) record { short = v.short; run = v.run; ready = v.ready }
      | inr z ↦ elim (Bool-cases written) [
        | inl w ↦
            simp (e, z, w, push_work) record { short = omega arith; run = v.run; ready = λ y. refl }
        | inr w ↦ simp (e, z, w, push_work) record { short = v.short; run = v.run; ready = v.ready }
      ]
    ]
  ]

  find_frame-IsBetween :
      (l : Loop S) (line : Line) (r : Loop S × List ℕ)
      → IsBetween l
      → l.have_work ≡ true
      → find_frame S l line ≡ some r
      → IsBetween r.0
  unfolding find_frame
  find_frame-IsBetween l line r v w e =
      let found : SyncCounts × Option (List ℕ) =
        frame_sync l.sync true true line.polls line.skip_polls line.read_polls in
      elim (Option-cases found.1) [
        | inl n ↦
            let f : find_frame S l line ≡ some (record l { frame = []; sync = found.0 }, []) =
              simp (n, find_frame) refl in
            subst (λ (p : Loop S × List ℕ). IsBetween p.0) (some-injective (sym f ∙ e))
              record { short = omega arith; run = v.run; ready = v.ready }
        | inr (buf, n) ↦ elim (Bool-cases (ltb 136 (length buf))) [
          | inl o ↦
              let f : find_frame S l line ≡ none = simp (n, o, find_frame) refl in
              absurd (none≢some (sym f ∙ e))
          | inr o ↦
              let f : find_frame S l line
                  ≡ some (
                    record l { frame = []; sync = found.0; synced = true },
                    drop (length buf - length buf / 17 * 17) buf,
                  ) =
                simp (n, o, find_frame) refl in
              subst (λ (p : Loop S × List ℕ). IsBetween p.0) (some-injective (sym f ∙ e))
                record { short = omega arith; run = v.run; ready = λ y. w }
        ]
      ]

  drain-IsBetween :
      (l : Loop S) (bytes : List ℕ) → IsBetween l → IsBetween (drain S nonce_offset l bytes).0
  drain-IsBetween l bytes v = (drain-IsAccounted S nonce_offset l bytes v).1.between

  sync_and_drain-IsBetween :
      (l m : Loop S) (line : Line)
      → IsBetween l
      → sync_and_drain S nonce_offset l line ≡ some m
      → IsBetween m
  unfolding sync_and_drain
  sync_and_drain-IsBetween l m line v e = elim (Bool-cases (not l.synced && l.have_work)) [
    | inr c ↦
        subst IsBetween (some-injective (sym (simp (c, sync_and_drain) refl) ∙ e))
          (drain-IsBetween l line.arriving v)
    | inl c ↦ elim (Option-cases (find_frame S l line)) [
      | inl f ↦ absurd (none≢some (sym (simp (c, f, sync_and_drain) refl) ∙ e))
      | inr (r, f) ↦ subst IsBetween (some-injective (sym (simp (c, f, sync_and_drain) refl) ∙ e)) (
          drain-IsBetween r.0 (r.1 ++ line.arriving)
            (find_frame-IsBetween l line r v (ground (arith, c)) f))
    ]
  ]

  pass-IsBetween :
      (l m : Loop S) (t : ℕ) (line : Line)
      → IsBetween l
      → pass S nonce_offset l t line ≡ some m
      → IsBetween m
  unfolding pass
  pass-IsBetween l0 m t line v e =
      let l : Loop S = record l0 { source = S.poll l0.source t } in
      let u : IsBetween l = record { short = v.short; run = v.run; ready = v.ready } in
      let p = push_work-IsBetween l t line.written u in
      elim (Bool-cases (wants_work S l t)) [
        | inr w ↦ sync_and_drain-IsBetween l m line u (sym (simp (w, pass) refl) ∙ e)
        | inl w ↦ elim (Bool-cases (push_work S l t line.written).1) [
          | inl g ↦
              sync_and_drain-IsBetween (push_work S l t line.written).0 m line p
                (sym (simp (w, g, pass) refl) ∙ e)
          | inr g ↦ subst IsBetween (some-injective (sym (simp (w, g, pass) refl) ∙ e)) p
        ]
      ]

  passes-IsBetween :
      (l m : Loop S) (lines : List (ℕ × Line)) → IsBetween l → passes l lines ≡ some m → IsBetween m
  passes-IsBetween l m [] v e = subst IsBetween (some-injective e) v
  passes-IsBetween l m ((t, line) ∷ lines) v e =
      elim (Option-cases (pass S nonce_offset l t line)) [
        | inl n ↦ absurd (none≢some (sym (stopped n) ∙ e))
        | inr (k, n) ↦
            passes-IsBetween k m lines (pass-IsBetween l k t line v n) (sym (goes k n) ∙ e)
      ]
    where
      stopped : pass S nonce_offset l t line ≡ none → passes l ((t, line) ∷ lines) ≡ none
      stopped n = ap (λ o. o >>= (λ m. passes m lines)) n

      goes :
          (k : Loop S)
          → pass S nonce_offset l t line ≡ some k
          → passes l ((t, line) ∷ lines) ≡ passes k lines
      goes k n = ap (λ o. o >>= (λ m. passes m lines)) n

  -- After any passes from the start of the loop on in which `syncbuf` is not overrun, less than a frame
  -- is kept, fewer than three bad frames came in a row, and an alignment is there only where work was
  -- sent.
  pub passes-loop_start :
      (s : S.State) (m : Loop S) (lines : List (ℕ × Line))
      → passes (loop_start S s) lines ≡ some m
      → IsBetween m
  passes-loop_start s m lines e =
      passes-IsBetween (loop_start S s) m lines (loop_start-IsBetween s) e
