-- ===== src/Solo/Scanned.antt =====
-- miner/miner.c, `get_template`: the scan of a reply for its transactions, against the text that a
-- node writes, in which each transaction has its bytes before its id.
use osprey_blake2b.Base.{
  ℕ, zero, suc, ◌+◌, ◌/◌, ◌≤◌, ◌≡◌, refl, sym, ap, ◌∙◌, arith, true, List, [], ◌∷◌, ◌++◌, none,
  some, ltb, lt→ltb, le→ltb-false, length, length-append, append_assoc, append-nil, All, IsByte,
}
use osprey_blake2b.Base.Text.{codes}
use osprey_blake2b.WorkItem.{reversed32}
use osprey_blake2b.Rpc.{starts, strstr, up_to, hex2bin_n}
use osprey_blake2b.Rpc.Hex.{
  hex_text, length-hex_text, hex2bin_n-hex_text, strstr-hex_text, strstr-quoted_hex, up_to-hex_text,
}
use osprey_blake2b.Rpc.Reply.{found, keep_tx, read_tx, gather_txs}

abbrev txid_key : List ℕ
txid_key = codes "\"txid\":\""

abbrev data_key : List ℕ
data_key = codes "\"data\":\""

-- A transaction in the reply: its bytes, its id in the order of display, and what stands between
-- the two and behind the id, the closing quotes left out.
pub record TxText : Type 0 where
  pub raw : List ℕ
  pub disp : List ℕ
  pub between : List ℕ
  pub behind : List ℕ

abbrev pub tx_text : TxText → List ℕ → List ℕ
tx_text t rest =
    data_key
    ++ (hex_text t.raw
        ++ (b'"' ∷ (t.between ++ (txid_key ++ (hex_text t.disp ++ (t.behind ++ rest))))))

abbrev pub txs_text : List TxText → List ℕ → List ℕ
txs_text [] rest = rest
txs_text (t ∷ ts) rest = tx_text t (txs_text ts rest)

-- No key starts in the text, whatever follows it.
pub record IsSkipped (g : List ℕ) : Type 0 where
  pub no_txid : (s : List ℕ) → strstr (g ++ s) txid_key ≡ strstr s txid_key
  pub no_data : (s : List ℕ) → strstr (g ++ s) data_key ≡ strstr s data_key

pub record IsTxText (t : TxText) : Type 0 where
  pub bytes : All IsByte t.raw × All IsByte t.disp
  pub size : length t.disp ≡ 32
  pub between : IsSkipped (b'"' ∷ t.between)
  pub behind : IsSkipped t.behind

key-found :
    (s : List ℕ)
    → (strstr (txid_key ++ s) txid_key ≡ some (txid_key ++ s))
      × (strstr (data_key ++ s) data_key ≡ some (data_key ++ s))
unfolding strstr starts
key-found s = (refl, refl)

to_quote : (s : List ℕ) → strstr (data_key ++ s) txid_key ≡ strstr (b'"' ∷ s) txid_key
unfolding strstr starts
to_quote s = refl

quote_quote : (s : List ℕ) → strstr (b'"' ∷ b'"' ∷ s) txid_key ≡ strstr (b'"' ∷ s) txid_key
unfolding strstr starts
quote_quote s = refl

-- The key of the bytes does not run into one of the id.
data_key-skipped :
    (raw s : List ℕ)
    → All IsByte raw
    → strstr (data_key ++ (hex_text raw ++ (b'"' ∷ s))) txid_key ≡ strstr (b'"' ∷ s) txid_key
unfolding hex_text
data_key-skipped [] s w = to_quote (b'"' ∷ s) ∙ quote_quote s
data_key-skipped (b ∷ raw) s w =
    to_quote (hex_text (b ∷ raw) ++ (b'"' ∷ s))
    ∙ strstr-quoted_hex b raw (b'"' ∷ s) (codes "xid\":\"") w

hex_text-IsSkipped :
    (bytes g : List ℕ) → All IsByte bytes → IsSkipped g → IsSkipped (hex_text bytes ++ g)
hex_text-IsSkipped bytes g w v = record {
  no_txid = λ s.
      ap (λ x. strstr x txid_key) (append_assoc (hex_text bytes) g s)
      ∙ strstr-hex_text bytes (g ++ s) (codes "txid\":\"") w
      ∙ v.no_txid s;
  no_data = λ s.
      ap (λ x. strstr x data_key) (append_assoc (hex_text bytes) g s)
      ∙ strstr-hex_text bytes (g ++ s) (codes "data\":\"") w
      ∙ v.no_data s;
}

module _ (g : List ℕ) (t : TxText) (rest : List ℕ) (v : IsSkipped g) (w : IsTxText t) where
  abbrev behind_id : List ℕ
  behind_id = hex_text t.disp ++ (t.behind ++ rest)

  txid_at : strstr (g ++ tx_text t rest) txid_key ≡ some (txid_key ++ behind_id)
  txid_at =
      v.no_txid (tx_text t rest)
      ∙ data_key-skipped t.raw (t.between ++ (txid_key ++ behind_id)) w.bytes.0
      ∙ w.between.no_txid (txid_key ++ behind_id)
      ∙ (key-found behind_id).0

  abbrev behind_data : List ℕ
  behind_data = hex_text t.raw ++ (b'"' ∷ (t.between ++ (txid_key ++ behind_id)))

  data_at : strstr (g ++ tx_text t rest) data_key ≡ some (data_key ++ behind_data)
  data_at = v.no_data (tx_text t rest) ∙ (key-found behind_data).1

  id_read : hex2bin_n behind_id 32 ≡ some t.disp
  id_read =
      ap (hex2bin_n behind_id) (sym w.size) ∙ hex2bin_n-hex_text t.disp (t.behind ++ rest) w.bytes.1

  raw_read : hex2bin_n behind_data (length t.raw) ≡ some t.raw
  raw_read = hex2bin_n-hex_text t.raw (b'"' ∷ (t.between ++ (txid_key ++ behind_id))) w.bytes.0

  raw_ends : up_to b'"' behind_data ≡ some (hex_text t.raw)
  raw_ends = up_to-hex_text t.raw (t.between ++ (txid_key ++ behind_id)) w.bytes.0

  id_behind : ltb (length behind_id) (length behind_data) ≡ true
  id_behind =
      let a = length-append (hex_text t.raw) (b'"' ∷ (t.between ++ (txid_key ++ behind_id))) in
      let b = length-append t.between (txid_key ++ behind_id) in
      lt→ltb (length behind_id) (length behind_data) (omega (arith, a, b))

  keep_tx-text :
      (d : ℕ) (id : List ℕ)
      → d + length t.raw ≤ 4194304
      → keep_tx d id behind_id behind_data (length t.raw) ≡ some (found id t.raw behind_id)
  unfolding keep_tx
  keep_tx-text d id h =
      simp (le→ltb-false 4194304 (d + length t.raw) h, raw_read, id_behind, keep_tx) refl

  read_tx-text :
      (d : ℕ)
      → d + length t.raw ≤ 4194304
      → read_tx d (g ++ tx_text t rest) ≡ some (found (reversed32 t.disp) t.raw behind_id)
  unfolding read_tx
  read_tx-text d h =
      let n : length (hex_text t.raw) / 2 ≡ length t.raw = omega (arith, length-hex_text t.raw) in
      simp (txid_at, id_read, data_at, raw_ends, read_tx)
        (ap (keep_tx d (reversed32 t.disp) behind_id behind_data) n
          ∙ keep_tx-text d (reversed32 t.disp) h)

-- The bytes of the transactions of a reply.
abbrev pub raws : List TxText → List ℕ
raws [] = []
raws (t ∷ ts) = t.raw ++ raws ts

abbrev pub ids_of : List TxText → List (List ℕ)
ids_of [] = []
ids_of (t ∷ ts) = reversed32 t.disp ∷ ids_of ts

read_tx-end : (d : ℕ) (p : List ℕ) → strstr p txid_key ≡ none → read_tx d p ≡ none
unfolding read_tx
read_tx-end d p e = simp (e, read_tx) refl

gather_txs-end :
    (n : ℕ) (p : List ℕ) (ids : List (List ℕ)) (txs : List ℕ)
    → strstr p txid_key ≡ none
    → gather_txs n p ids txs ≡ record { ids = ids; txs = txs; fits = true }
unfolding gather_txs
gather_txs-end zero p ids txs e = refl
gather_txs-end (suc n) p ids txs e = simp (read_tx-end (length txs) p e, gather_txs) refl

gather_txs-step :
    (n : ℕ) (p : List ℕ) (ids : List (List ℕ)) (txs id raw next : List ℕ)
    → read_tx (length txs) p ≡ some (found id raw next)
    → gather_txs (suc n) p ids txs ≡ gather_txs n next (ids ++ (id ∷ [])) (txs ++ raw)
unfolding gather_txs
gather_txs-step n p ids txs id raw next e = simp (e, gather_txs) refl

gathered_from :
    (n : ℕ) (g : List ℕ) (ts : List TxText) (rest : List ℕ) (ids : List (List ℕ)) (txs : List ℕ)
    → IsSkipped g
    → All IsTxText ts
    → strstr rest txid_key ≡ none
    → length ts ≤ n
    → length txs + length (raws ts) ≤ 4194304
    → gather_txs n (g ++ txs_text ts rest) ids txs
      ≡ record { ids = ids ++ ids_of ts; txs = txs ++ raws ts; fits = true }
gathered_from n g [] rest ids txs v w e h k =
    gather_txs-end n (g ++ rest) ids txs (v.no_txid rest ∙ e) ∙ λ i. record {
      ids = sym (append-nil ids) i;
      txs = sym (append-nil txs) i;
      fits = true;
    }
gathered_from zero g (t ∷ ts) rest ids txs v w e h k = absurd (omega arith)
gathered_from (suc n) g (t ∷ ts) rest ids txs v w e h k =
    let a = length-append t.raw (raws ts) in
    let b = length-append txs t.raw in
    let id = reversed32 t.disp in
    gather_txs-step n (g ++ txs_text (t ∷ ts) rest) ids txs id t.raw
      (hex_text t.disp ++ (t.behind ++ txs_text ts rest))
      (read_tx-text g t (txs_text ts rest) v w.0 (length txs) (omega (arith, a)))
    ∙ ap (λ p. gather_txs n p (ids ++ (id ∷ [])) (txs ++ t.raw))
        (sym (append_assoc (hex_text t.disp) t.behind (txs_text ts rest)))
    ∙ gathered_from n (hex_text t.disp ++ t.behind) ts rest (ids ++ (id ∷ [])) (txs ++ t.raw)
        (hex_text-IsSkipped t.disp t.behind w.0.bytes.1 w.0.behind) w.1 e (omega arith)
        (omega (arith, a, b))
    ∙ λ i. record {
      ids = append_assoc ids (id ∷ []) (ids_of ts) i;
      txs = append_assoc txs t.raw (raws ts) i;
      fits = true;
    }

-- Out of a reply with at most 8192 transactions of at most 4 MiB, each written with its bytes before
-- its id, and with no other key of either kind in it, the scan takes the ids, in internal order, and
-- the bytes of exactly these transactions, in their order.
pub gather_txs-txs_text :
    (leading : List ℕ) (ts : List TxText) (rest : List ℕ)
    → IsSkipped leading
    → All IsTxText ts
    → strstr rest (codes "\"txid\":\"") ≡ none
    → length ts ≤ 8192
    → length (raws ts) ≤ 4194304
    → gather_txs 8192 (leading ++ txs_text ts rest) [] []
      ≡ record { ids = ids_of ts; txs = raws ts; fits = true }
gather_txs-txs_text g ts rest v w e h k =
    gathered_from 8192 g ts rest [] [] v w e h (omega (arith, k))
