-- ===== src/FrameSync/Locked.antt =====
-- miner/miner.c, `frame_sync`: what a lock on the flag of the frames means.
use osprey_blake2b.Base.{
  true≢false, ℕ, zero, suc, ◌+◌, ◌-◌, ◌*◌, ◌/◌, ◌%◌, ◌≤◌, ◌<◌, ◌≡◌, ◌≢◌, ◌⊎◌, inl, inr, refl, sym,
  ap, ◌∙◌, arith, false, List, [], ◌∷◌, Option, none, some, if◌then◌else◌, ltb, ◌==◌, ==_iff,
  Bool-cases, none≢some, some-injective, length, get_or, set, replicate, length-set,
  get_or-set_self, get_or-set_ne,
}
use mathlib.Core.Path.{subst}
use osprey_blake2b.FrameSync.{count_flags, best_from, lock}

-- How many of the bytes, the first of which has index `i`, are flags at a residue `r`.
abbrev pub flags_at : ℕ → ℕ → List ℕ → ℕ
flags_at r i [] = 0
flags_at r i (b ∷ buf) =
    (if b == 1 then (if i % 17 == r then 1 else 0) else 0) + flags_at r (i + 1) buf

count_flags-flags_at :
    (i r : ℕ) (buf bucket : List ℕ)
    → length bucket ≡ 17
    → r < 17
    → get_or (count_flags i buf bucket) r 0 ≡ get_or bucket r 0 + flags_at r i buf
unfolding count_flags
count_flags-flags_at i r [] bucket h l = omega arith
count_flags-flags_at i r (b ∷ buf) bucket h l = elim (Bool-cases (b == 1)) [
  | inr e ↦ simp (e, count_flags) (count_flags-flags_at (i + 1) r buf bucket h l ∙ omega arith)
  | inl e ↦
      let v = get_or bucket (i % 17) 0 + 1 in
      let t = set bucket (i % 17) v in
      let ih = count_flags-flags_at (i + 1) r buf t (length-set bucket (i % 17) v ∙ h) l in
      elim (Bool-cases (i % 17 == r)) [
        | inl f ↦
            let k : i % 17 ≡ r = (==_iff (i % 17) r).0 f in
            let inside : i % 17 < length bucket = omega (arith, h) in
            let now =
              subst (λ x. get_or t x 0 ≡ v) k (get_or-set_self bucket (i % 17) v 0 inside) in
            let before : get_or bucket (i % 17) 0 ≡ get_or bucket r 0 =
              ap (λ x. get_or bucket x 0) k in
            simp (e, f, count_flags) (ih ∙ omega (arith, now, before))
        | inr f ↦
            let apart : i % 17 ≢ r = λ k. true≢false (sym ((==_iff (i % 17) r).1 k) ∙ f) in
            let now = get_or-set_ne bucket (i % 17) r v 0 apart in
            simp (e, f, count_flags) (ih ∙ omega (arith, now))
      ]
]

-- The fullest bucket of a range and of the one found before.
record IsBest (bucket : List ℕ) (i n best m : ℕ) : Type 0 where
  found : (m ≡ best) ⊎ ((i ≤ m) × (m < i + n))
  before : get_or bucket best 0 ≤ get_or bucket m 0
  fullest : (j : ℕ) → i ≤ j → j < i + n → get_or bucket j 0 ≤ get_or bucket m 0

best_from-IsBest :
    (bucket : List ℕ) (i n best : ℕ) → IsBest bucket i n best (best_from bucket i n best)
unfolding best_from
best_from-IsBest bucket i zero best = record {
  found = inl refl;
  before = omega arith;
  fullest = λ j h k. absurd (omega arith);
}
best_from-IsBest bucket i (suc n) best =
    elim (Bool-cases (ltb (get_or bucket best 0) (get_or bucket i 0))) [
      | inl e ↦
          let v = best_from-IsBest bucket (i + 1) n i in
          simp (e, best_from)
            (onward best i (best_from bucket (i + 1) n i) (inr refl) (ground arith) (omega arith) v)
      | inr e ↦
          let v = best_from-IsBest bucket (i + 1) n best in
          simp (e, best_from)
            (onward best best (best_from bucket (i + 1) n best) (inl refl) (omega arith)
              (ground arith) v)
    ]
  where
    onward :
        (best chosen m : ℕ)
        → (chosen ≡ best) ⊎ (chosen ≡ i)
        → get_or bucket best 0 ≤ get_or bucket chosen 0
        → get_or bucket i 0 ≤ get_or bucket chosen 0
        → IsBest bucket (i + 1) n chosen m
        → IsBest bucket i (suc n) best m
    onward best chosen m w p q v = record {
      found = elim v.found [
        | inr x ↦ inr (omega (arith, x.0), omega (arith, x.1))
        | inl x ↦ elim w [
          | inl y ↦ inl (x ∙ y)
          | inr y ↦ inr (omega (arith, x, y), omega (arith, x, y))
        ]
      ];
      before = omega (arith, p, v.before);
      fullest = λ j h k. elim (Bool-cases (j == i)) [
        | inl x ↦
            subst (λ z. get_or bucket z 0 ≤ get_or bucket m 0) (sym ((==_iff j i).0 x))
              (omega (arith, q, v.before))
        | inr x ↦ v.fullest j (ground (arith, h, x)) (omega arith)
      ];
    }

get_or-replicate : (n : ℕ) (r : ℕ) → get_or {A = ℕ} (replicate n 0) r 0 ≡ 0
get_or-replicate zero r = refl
get_or-replicate (suc n) zero = refl
get_or-replicate (suc n) (suc r) = get_or-replicate n r

module _ (buf : List ℕ) where
  bucket : List ℕ
  bucket = count_flags 0 buf (replicate 17 0)

  best : ℕ
  best = best_from bucket 1 16 0

  skip : ℕ
  skip = (best + 17 - length buf % 17) % 17

  bucket-flags : (r : ℕ) → r < 17 → get_or bucket r 0 ≡ flags_at r 0 buf
  unfolding bucket
  bucket-flags r h =
      count_flags-flags_at 0 r buf (replicate 17 0) refl h ∙ omega (arith, get_or-replicate 17 r)

  best-IsBest : IsBest bucket 1 16 0 best
  unfolding best
  best-IsBest = best_from-IsBest bucket 1 16 0

  best-lt : best < 17
  best-lt = elim best-IsBest.found [ inl e ↦ omega (arith, e) | inr e ↦ omega (arith, e.1) ]

  best-fullest : (r : ℕ) → r < 17 → flags_at r 0 buf ≤ flags_at best 0 buf
  best-fullest r h = elim (Bool-cases (r == 0)) [
    | inl z ↦ omega (
      arith,
      best-IsBest.before,
      bucket-flags 0 (omega arith),
      bucket-flags best best-lt,
      ap (λ x. flags_at x 0 buf) ((==_iff r 0).0 z),
    )
    | inr z ↦ omega (
      arith,
      best-IsBest.fullest r (ground (arith, z)) (omega arith),
      bucket-flags r h,
      bucket-flags best best-lt,
    )
  ]

  skip-lands : (skip < 17) × ((length buf + skip) % 17 ≡ best)
  unfolding skip
  skip-lands = (omega arith, omega (arith, best-lt))

  abbrev decision : ℕ → Option (ℕ × ℕ)
  decision flags =
      if ltb (length buf) 68
      then none
      else if ltb (flags * 2) (length buf / 17)
      then none
      else some (best, skip)

  lock_lem : lock buf ≡ decision (flags_at best 0 buf)
  unfolding lock best bucket skip
  lock_lem = same ∙ ap decision (bucket-flags best best-lt)
    where
      same : lock buf ≡ decision (get_or bucket best 0)
      same = refl

-- A residue to which a burst locks, and the bytes to skip from its end on.
pub record IsLock (buf : List ℕ) (best skip : ℕ) : Type 0 where
  pub long : 68 ≤ length buf
  pub best_lt : best < 17
  pub skip_lt : skip < 17
  pub lands : (length buf + skip) % 17 ≡ best
  pub fullest : (r : ℕ) → r < 17 → flags_at r 0 buf ≤ flags_at best 0 buf
  pub dominant : length buf / 17 ≤ flags_at best 0 buf * 2

module _ (buf : List ℕ) (l : ltb (length buf) 68 ≡ false)
    (f : ltb (flags_at (best buf) 0 buf * 2) (length buf / 17) ≡ false) where
  locks : lock buf ≡ some (best buf, skip buf)
  locks = lock_lem buf ∙ simp (l, f)

  best-IsLock : IsLock buf (best buf) (skip buf)
  best-IsLock = record {
    long = ground arith;
    best_lt = best-lt buf;
    skip_lt = (skip-lands buf).0;
    lands = (skip-lands buf).1;
    fullest = best-fullest buf;
    dominant = ground arith;
  }

-- A burst that locks has four frames at least. No residue modulo 17 has more flags in it than the
-- one that is found, which has one in every second frame at least; and the byte behind those that
-- are skipped, fewer than 17, stands at that residue.
pub lock-IsLock : (buf : List ℕ) (b k : ℕ) → lock buf ≡ some (b, k) → IsLock buf b k
lock-IsLock buf b k e = elim (Bool-cases (ltb (length buf) 68)) [
  | inl l ↦ absurd (none≢some (sym (lock_lem buf ∙ simp l) ∙ e))
  | inr l ↦ elim (Bool-cases (ltb (flags_at (best buf) 0 buf * 2) (length buf / 17))) [
    | inl f ↦ absurd (none≢some (sym (lock_lem buf ∙ simp (l, f)) ∙ e))
    | inr f ↦
        subst (λ p. IsLock buf p.0 p.1) {x = (best buf, skip buf)} {y = (b, k)}
          (some-injective (sym (locks buf l f) ∙ e)) (best-IsLock buf l f)
  ]
]

-- A burst of four frames at least locks to a residue modulo 17 that has the flag in one frame of two
-- at least, and more flags than every other residue; and the byte behind those that are skipped
-- stands at that residue.
pub lock-framed :
    (buf : List ℕ) (p : ℕ)
    → 68 ≤ length buf
    → p < 17
    → length buf / 17 ≤ flags_at p 0 buf * 2
    → ((r : ℕ) → r < 17 → r ≢ p → flags_at r 0 buf < flags_at p 0 buf)
    → (k : ℕ) × (lock buf ≡ some (p, k)) × ((length buf + k) % 17 ≡ p)
lock-framed buf p h lt d others = elim (Bool-cases (best buf == p)) [
  | inr e ↦ absurd (omega (arith, others (best buf) (best-lt buf) (apart e), best-fullest buf p lt))
  | inl e ↦
      let q : best buf ≡ p = (==_iff (best buf) p).0 e in
      let l : ltb (length buf) 68 ≡ false = ground (arith, h) in
      let f : ltb (flags_at (best buf) 0 buf * 2) (length buf / 17) ≡ false =
        ground (arith, d, ap (λ x. flags_at x 0 buf) q) in
      (skip buf, locks buf l f ∙ ap (λ x. some (x, skip buf)) q, (skip-lands buf).1 ∙ q)
]
  where
    apart : (best buf == p) ≡ false → best buf ≢ p
    apart e k = true≢false (sym ((==_iff (best buf) p).1 k) ∙ e)
