-- ===== src/Witnesses/Solo.antt =====
-- The theorems about the solo source, and the texts of its calls at concrete inputs.
use osprey_blake2b.Base.{
  ℕ, ◌≡◌, ◌⊎◌, refl, arith, true, false, List, [], ◌∷◌, ◌++◌, none, some, replicate,
}
use osprey_blake2b.Base.Text.{codes}
use osprey_blake2b.WorkItem.{KnotsHeader, knots_header_init}
use osprey_blake2b.Merkle.Tree.{single}
use osprey_blake2b.Devfee.{devfee_address, devfee_reset}
use osprey_blake2b.Mining.{no_work}
use osprey_blake2b.Gbt.{gbt_on_candidate, with_nonce}
use osprey_blake2b.Rpc.{strstr, starts, b64}
use osprey_blake2b.Rpc.Base64
use osprey_blake2b.Rpc.Base64.{b64_read}
use osprey_blake2b.Rpc.Reply.{gather_txs}
use osprey_blake2b.Solo.{Solo, no_coinbase, get_template, on_candidate}
use osprey_blake2b.Solo.Scanned
use osprey_blake2b.Solo.Scanned.{TxText, IsSkipped, txs_text, ids_of, raws}
use osprey_blake2b.Solo.Filled
use osprey_blake2b.Solo.Filled.{IsFilled}
use osprey_blake2b.Solo.Coherent
use osprey_blake2b.Solo.Offered
use osprey_blake2b.Solo.Coherent.{IsCoherent}
use osprey_blake2b.Solo.Offered.{OffersOrNot}
use osprey_blake2b.Loopback.{loopback_verify}
use osprey_blake2b.Loopback.Calibrated
use osprey_blake2b.Loopback.Calibrated.{IsWindow}

abbrev one_tx : TxText
one_tx = record {
  raw = 0xab ∷ 0xcd ∷ [];
  disp = replicate 32 0x1f;
  between = codes ",";
  behind = codes "\"},{";
}

opening : IsSkipped (codes "{\"height\":7,\"transactions\":[{")
unfolding strstr starts
opening = record { no_txid = λ s. refl; no_data = λ s. refl }

between : IsSkipped (codes "\",")
unfolding strstr starts
between = record { no_txid = λ s. refl; no_data = λ s. refl }

behind : IsSkipped (codes "\"},{")
unfolding strstr starts
behind = record { no_txid = λ s. refl; no_data = λ s. refl }

gather_txs-txs_text_example :
    gather_txs 8192
      (codes "{\"height\":7,\"transactions\":[{" ++ txs_text (one_tx ∷ one_tx ∷ []) (codes "}]}"))
      []
      []
    ≡ record {
      ids = ids_of (one_tx ∷ one_tx ∷ []);
      txs = 0xab ∷ 0xcd ∷ 0xab ∷ 0xcd ∷ [];
      fits = true;
    }
unfolding strstr starts
gather_txs-txs_text_example =
    Scanned.gather_txs-txs_text (codes "{\"height\":7,\"transactions\":[{") (one_tx ∷ one_tx ∷ [])
      (codes "}]}") opening
      (
        record {
          bytes = (omega arith, omega arith);
          size = refl;
          between = between;
          behind = behind;
        },
        (
          record {
            bytes = (omega arith, omega arith);
            size = refl;
            between = between;
            behind = behind;
          },
          tt,
        ),
      )
      refl (omega arith) (omega arith)

abbrev pub header : KnotsHeader
unfolding knots_header_init
header = record knots_header_init { hash_merkle_root = replicate 32 7; m_txcount = 1 }

abbrev reply : List ℕ
reply =
    codes
      "{\"result\":{\"transactions\":[],\"height\":7,\"curtime\":9,\"version\":1,\"bits\":\"1d00ffff\",\"coinbasevalue\":50,\"previousblockhash\":\"000000000000000000000000000000000000000000000000000000000000000a\"}}"

abbrev pub solo : Solo
solo = record {
  tpl = record {
    hdr = header;
    cb = record no_coinbase { raw = 1 ∷ []; txid = replicate 32 7 };
    tx_count = 0;
    tx_data = [];
    valid = true;
  };
  fee = devfee_reset;
  gbt_hdr = header;
  blocks_submitted = 0;
  blocks_accepted = 0;
  last_template_height = 0;
  replies = some reply ∷ [];
  sent = [];
}

get_template-outcome_example :
    (((h : KnotsHeader) × ((get_template (some devfee_address) solo).1 ≡ some h)
        × IsFilled (some devfee_address) solo (get_template (some devfee_address) solo).0 h)
      ⊎ (((get_template (some devfee_address) solo).1 ≡ none)
          × ((get_template (some devfee_address) solo).0.tpl.valid ≡ true)))
    × ((get_template (some devfee_address) solo).0.gbt_hdr ≡ header)
get_template-outcome_example = Filled.get_template-outcome (some devfee_address) solo

solo-IsCoherent : IsCoherent solo
unfolding header knots_header_init
solo-IsCoherent = record {
  valid = refl;
  ids = [];
  root = single (replicate 32 7);
  held = refl;
  count = refl;
  size = omega arith;
}

on_candidate-outcome_example :
    OffersOrNot solo
      (on_candidate false 22 solo no_work 3 9).0
      (with_nonce header 3)
      (gbt_on_candidate header false 22 3 9)
    × IsCoherent (on_candidate false 22 solo no_work 3 9).0
on_candidate-outcome_example =
    Offered.on_candidate-outcome false 22 solo no_work 3 9 solo-IsCoherent (omega arith)

b64_read-b64_example : b64_read (b64 (codes "user:pass") 512) ≡ codes "user:pass"
b64_read-b64_example = Base64.b64_read-b64 (codes "user:pass") 512 (omega arith) (omega arith)

loopback_verify-IsWindow_example :
    (loopback_verify header (replicate 20 1) ≡ some (3, 5)
      → (w : ℕ) × IsWindow header (replicate 20 1) 3 5 w)
    × (loopback_verify header (replicate 20 1) ≡ none
        → (w : ℕ) → ¬ IsWindow header (replicate 20 1) 3 5 w)
loopback_verify-IsWindow_example = Calibrated.loopback_verify-IsWindow header (replicate 20 1) 3 5
