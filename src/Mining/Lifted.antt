-- ===== src/Mining/Lifted.antt =====
-- miner/miner.c, the mining loop of `main`: what every operation of a source keeps, the loop keeps.
use osprey_blake2b.Base.{
  ℕ, ◌+◌, ◌-◌, ◌*◌, ◌/◌, ◌≡◌, inl, inr, refl, sym, ◌∙◌, Bool, true, ◌&&◌, not, List, [], ◌∷◌, ◌++◌,
  Option, none, some, ltb, ◌==◌, length, drop, Bool-cases, Option-cases, none≢some, some-injective,
  u64, >>=-some,
}
use mathlib.Core.Path.{subst}
use osprey_blake2b.Gbt.{Candidate, bad, reproduces, solution}
use osprey_blake2b.WorkItem.{parse_result}
use osprey_blake2b.Worksrc.{WorkCtx, worksrc_pack_item}
use osprey_blake2b.FrameSync.{SyncCounts, frame_sync}
use osprey_blake2b.Mining.{
  Source, Line, Loop, unparsed, judged, parsed, whole_frame, take_byte, drain, push_work,
  wants_work, find_frame, sync_and_drain, pass,
}
use osprey_blake2b.Mining.Assembled.{drain_step, drain_stop}
use osprey_blake2b.Mining.Reached.{passes}

-- What holds of a source's state and is kept by each of its operations.
pub record IsKept (S : Source) (P : S.State → Type 0) : Type 0 where
  pub by_poll : (s : S.State) (t : ℕ) → P s → P (S.poll s t)
  pub by_get_work : (s : S.State) (t : ℕ) → P s → P (S.get_work s t).0
  pub by_candidate :
      (s : S.State) (ctx : WorkCtx) (nonce top : ℕ) → P s → P (S.on_candidate s ctx nonce top).0

module _ (S : Source) (nonce_offset : ℕ) (P : S.State → Type 0) (k : IsKept S P) where
  judged-source : (l : Loop S) (c : S.State × Candidate) → (judged S l c).source ≡ c.0
  unfolding judged
  judged-source l (s, bad) = refl
  judged-source l (s, reproduces) = refl
  judged-source l (s, solution b) = refl

  whole_frame_kept :
      (l : Loop S) (f : List ℕ) → P l.source → P (whole_frame S nonce_offset l f).source
  unfolding whole_frame parsed unparsed
  whole_frame_kept l f h = elim (Bool-cases (parse_result f).success) [
    | inr e ↦ simp (e, whole_frame) h
    | inl e ↦
        let r = parse_result f in
        let v = k.by_candidate l.source l.ctx (u64 (r.nonce + nonce_offset)) r.hash_top64 h in
        simp (e, whole_frame) (subst P (sym (judged-source _ _)) v)
  ]

  take_byte_kept : (l : Loop S) (b : ℕ) → P l.source → P (take_byte S nonce_offset l b).source
  unfolding take_byte
  take_byte_kept l b h = elim (Bool-cases (length (l.frame ++ (b ∷ [])) == 17)) [
    | inl e ↦ simp (e, take_byte) (whole_frame_kept l (l.frame ++ (b ∷ [])) h)
    | inr e ↦ simp (e, take_byte) h
  ]

  drain_kept :
      (l : Loop S) (bytes : List ℕ) → P l.source → P (drain S nonce_offset l bytes).0.source
  unfolding drain
  drain_kept l [] h = h
  drain_kept l (b ∷ bytes) h = elim (Bool-cases l.synced) [
    | inr y ↦
        subst (λ (p : Loop S × List ℕ). P p.0.source)
          (sym (drain_stop S nonce_offset l (b ∷ bytes) y)) h
    | inl y ↦
        subst (λ (p : Loop S × List ℕ). P p.0.source) (sym (drain_step S nonce_offset l b bytes y))
          (drain_kept (take_byte S nonce_offset l b) bytes (take_byte_kept l b h))
  ]

  find_frame_kept :
      (l : Loop S) (line : Line) (r : Loop S × List ℕ)
      → P l.source
      → find_frame S l line ≡ some r
      → P r.0.source
  unfolding find_frame
  find_frame_kept l line r h e =
      let found : SyncCounts × Option (List ℕ) =
        frame_sync l.sync true true line.polls line.skip_polls line.read_polls in
      elim (Option-cases found.1) [
        | inl n ↦
            let f : find_frame S l line ≡ some (record l { frame = []; sync = found.0 }, []) =
              simp (n, find_frame) refl in
            subst (λ (p : Loop S × List ℕ). P p.0.source) (some-injective (sym f ∙ e)) h
        | inr (buf, n) ↦ elim (Bool-cases (ltb 136 (length buf))) [
          | inl o ↦
              let f : find_frame S l line ≡ none = simp (n, o, find_frame) refl in
              absurd (none≢some (sym f ∙ e))
          | inr o ↦
              let f : find_frame S l line
                  ≡ some (
                    record l { frame = []; sync = found.0; synced = true },
                    drop (length buf - length buf / 17 * 17) buf,
                  ) =
                simp (n, o, find_frame) refl in
              subst (λ (p : Loop S × List ℕ). P p.0.source) (some-injective (sym f ∙ e)) h
        ]
      ]

  Holds : Loop S → Type 0
  Holds l = P l.source

  sync_and_drain_kept :
      (l m : Loop S) (line : Line)
      → P l.source
      → sync_and_drain S nonce_offset l line ≡ some m
      → P m.source
  unfolding sync_and_drain Holds
  sync_and_drain_kept l m line h e = elim (Bool-cases (not l.synced && l.have_work)) [
    | inr c ↦
        subst Holds {x = (drain S nonce_offset l line.arriving).0} {y = m}
          (some-injective (sym (simp (c, sync_and_drain) refl) ∙ e)) (drain_kept l line.arriving h)
    | inl c ↦ elim (Option-cases (find_frame S l line)) [
      | inl f ↦ absurd (none≢some (sym (simp (c, f, sync_and_drain) refl) ∙ e))
      | inr (r, f) ↦
          subst Holds {x = (drain S nonce_offset r.0 (r.1 ++ line.arriving)).0} {y = m}
            (some-injective (sym (simp (c, f, sync_and_drain) refl) ∙ e))
            (drain_kept r.0 (r.1 ++ line.arriving) (find_frame_kept l line r h f))
    ]
  ]

  push_work_kept :
      (l : Loop S) (t : ℕ) (written : Bool) → P l.source → P (push_work S l t written).0.source
  unfolding push_work
  push_work_kept l t written h =
      let v = k.by_get_work l.source t h in
      elim (Option-cases (S.get_work l.source t).1) [
        | inl e ↦ simp (e, push_work) v
        | inr (next, e) ↦ elim (Bool-cases ((worksrc_pack_item next S.item_len).0 == 0)) [
          | inl z ↦ simp (e, z, push_work) v
          | inr z ↦ elim (Bool-cases written) [
            | inl w ↦ simp (e, z, w, push_work) v
            | inr w ↦ simp (e, z, w, push_work) v
          ]
        ]
      ]

  pass_kept :
      (l m : Loop S) (t : ℕ) (line : Line)
      → P l.source
      → pass S nonce_offset l t line ≡ some m
      → P m.source
  unfolding pass Holds
  pass_kept l0 m t line h e =
      let l : Loop S = record l0 { source = S.poll l0.source t } in
      let u : P l.source = k.by_poll l0.source t h in
      let p = push_work_kept l t line.written u in
      elim (Bool-cases (wants_work S l t)) [
        | inr w ↦ sync_and_drain_kept l m line u (sym (simp (w, pass) refl) ∙ e)
        | inl w ↦ elim (Bool-cases (push_work S l t line.written).1) [
          | inl g ↦
              sync_and_drain_kept (push_work S l t line.written).0 m line p
                (sym (simp (w, g, pass) refl) ∙ e)
          | inr g ↦
              subst Holds {x = (push_work S l t line.written).0} {y = m}
                (some-injective (sym (simp (w, g, pass) refl) ∙ e)) p
        ]
      ]

  -- A fact that each operation of a source keeps holds after any passes of the loop.
  pub passes_kept :
      (l m : Loop S) (lines : List (ℕ × Line))
      → P l.source
      → passes S nonce_offset l lines ≡ some m
      → P m.source
  passes_kept l m [] h e = subst (λ (n : Loop S). P n.source) (some-injective e) h
  passes_kept l m ((t, line) ∷ lines) h e =
      let v = >>=-some (pass S nonce_offset l t line) (λ n. passes S nonce_offset n lines) m e in
      passes_kept v.0 m lines (pass_kept l v.0 t line h v.1) v.2
