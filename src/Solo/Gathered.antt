-- ===== src/Solo/Gathered.antt =====
-- miner/miner.c, `get_template`: the transactions that the loop gathers fit into the arrays.
use osprey_blake2b.Base.{
  ℕ, zero, suc, ◌+◌, ◌/◌, ◌≤◌, ◌≡◌, ◌⊎◌, inl, inr, refl, sym, ap, ◌∙◌, arith, List, [], ◌∷◌, ◌++◌,
  some, if◌then◌else◌, ltb, Bool-cases, Option-cases, none≢some, some-injective, length,
  length-append, All, All-append, u8, drop,
}
use mathlib.Core.Path.{subst}
use osprey_blake2b.Base.Text.{codes}
use osprey_blake2b.WorkItem.{reversed32}
use osprey_blake2b.Merkle.Level.{IsRow}
use osprey_blake2b.Rpc.{hex2bin_n, scan_2x, strstr, up_to}
use osprey_blake2b.Rpc.Reply.{Round, too_large, found, keep_tx, read_tx, Gathering, gather_txs}

pub length-hex2bin_n :
    (hex : List ℕ) (n : ℕ) (out : List ℕ) → hex2bin_n hex n ≡ some out → length out ≡ n
unfolding hex2bin_n
length-hex2bin_n hex zero out e = sym (ap length (some-injective e))
length-hex2bin_n hex (suc n) out e = elim (Option-cases (scan_2x hex)) [
  | inl s ↦ absurd (none≢some (sym (simp (s, hex2bin_n) refl) ∙ e))
  | inr (v, s) ↦ elim (Option-cases (hex2bin_n (drop 2 hex) n)) [
    | inl r ↦ absurd (none≢some (sym (simp (s, r, hex2bin_n) refl) ∙ e))
    | inr (t, r) ↦
        let f : hex2bin_n hex (suc n) ≡ some (u8 v ∷ t) = simp (s, r, hex2bin_n) refl in
        sym (ap length (some-injective (sym f ∙ e))) ∙ ap suc (length-hex2bin_n (drop 2 hex) n t r)
  ]
]

-- A round that finds a transaction.
pub record IsFound (data_len : ℕ) (txid raw : List ℕ) : Type 0 where
  row : IsRow txid
  room : data_len + length raw ≤ 4194304

too_large≢found : {i r n : List ℕ} → ¬ (too_large ≡ found i r n)
too_large≢found e = cc

IsFound-found :
    (d : ℕ) (a b c i r n : List ℕ) → IsFound d a b → found a b c ≡ found i r n → IsFound d i r
IsFound-found d a b c i r n v e = subst (λ x. IsFoundAt x) e v
  where
    IsFoundAt : Round → Type 0
    IsFoundAt too_large = Unit {0}
    IsFoundAt (found x y z) = IsFound d x y

keep_tx-IsFound :
    (d : ℕ) (id tx dt : List ℕ) (n : ℕ) (txid raw next : List ℕ)
    → IsRow id
    → keep_tx d id tx dt n ≡ some (found txid raw next)
    → IsFound d txid raw
unfolding keep_tx
keep_tx-IsFound d id tx dt n txid raw next w e = elim (Bool-cases (ltb 4194304 (d + n))) [
  | inl l ↦ absurd (too_large≢found (some-injective (sym (simp (l, keep_tx) refl) ∙ e)))
  | inr l ↦ elim (Option-cases (hex2bin_n dt n)) [
    | inl h ↦ absurd (none≢some (sym (simp (l, h, keep_tx) refl) ∙ e))
    | inr (r, h) ↦
        IsFound-found d id r (if ltb (length tx) (length dt) then tx else dt) txid raw next
          record { row = w; room = ground (arith, l, length-hex2bin_n dt n r h) }
          (some-injective (sym (simp (l, h, keep_tx) refl) ∙ e))
  ]
]

length-reversed32 : (p : List ℕ) → length (reversed32 p) ≡ 32
unfolding reversed32
length-reversed32 p = refl

read_tx-IsFound :
    (d : ℕ) (p txid raw next : List ℕ)
    → read_tx d p ≡ some (found txid raw next)
    → IsFound d txid raw
unfolding read_tx
read_tx-IsFound d p txid raw next e = elim (Option-cases (strstr p (codes "\"txid\":\""))) [
  | inl a ↦ absurd (none≢some (sym (simp (a, read_tx) refl) ∙ e))
  | inr (tx, a) ↦ elim (Option-cases (hex2bin_n (drop 8 tx) 32)) [
    | inl b ↦ absurd (none≢some (sym (simp (a, b, read_tx) refl) ∙ e))
    | inr (disp, b) ↦ elim (Option-cases (strstr p (codes "\"data\":\""))) [
      | inl c ↦ absurd (none≢some (sym (simp (a, b, c, read_tx) refl) ∙ e))
      | inr (dt, c) ↦ elim (Option-cases (up_to b'"' (drop 8 dt))) [
        | inl f ↦ absurd (none≢some (sym (simp (a, b, c, f, read_tx) refl) ∙ e))
        | inr (t, f) ↦
            keep_tx-IsFound d (reversed32 disp) (drop 8 tx) (drop 8 dt) (length t / 2) txid raw next
              (length-reversed32 disp) (sym (simp (a, b, c, f, read_tx) refl) ∙ e)
      ]
    ]
  ]
]

Round-cases :
    (r : Round)
    → (r ≡ too_large)
      ⊎ ((txid : List ℕ) × (raw : List ℕ) × (next : List ℕ) × (r ≡ found txid raw next))
Round-cases too_large = inl refl
Round-cases (found txid raw next) = inr (txid, raw, next, refl)

-- The rows and the bytes that fit into the arrays.
pub record IsGathered (n : ℕ) (ids : List (List ℕ)) (g : Gathering) : Type 0 where
  pub rows : All IsRow g.ids
  pub count : length g.ids ≤ length ids + n
  pub room : length g.txs ≤ 4194304

pub gather_txs-IsGathered :
    (n : ℕ) (p : List ℕ) (ids : List (List ℕ)) (txs : List ℕ)
    → All IsRow ids
    → length txs ≤ 4194304
    → IsGathered n ids (gather_txs n p ids txs)
unfolding gather_txs
gather_txs-IsGathered zero p ids txs h k = record { rows = h; count = omega arith; room = k }
gather_txs-IsGathered (suc n) p ids txs h k = elim (Option-cases (read_tx (length txs) p)) [
  | inl e ↦ simp (e, gather_txs) record { rows = h; count = omega arith; room = k }
  | inr (r, e) ↦ elim (Round-cases r) [
    | inl f ↦ simp (e ∙ ap some f, gather_txs) record { rows = h; count = omega arith; room = k }
    | inr (txid, raw, next, f) ↦
        let w = read_tx-IsFound (length txs) p txid raw next (e ∙ ap some f) in
        let v =
          gather_txs-IsGathered n next (ids ++ (txid ∷ [])) (txs ++ raw)
            (All-append IsRow ids (txid ∷ []) h (w.row, tt))
            (omega (arith, w.room, length-append txs raw)) in
        simp (e ∙ ap some f, gather_txs)
          record {
            rows = v.rows;
            count = omega (arith, v.count, length-append ids (txid ∷ []));
            room = v.room;
          }
  ]
]
