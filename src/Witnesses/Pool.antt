-- ===== src/Witnesses/Pool.antt =====
-- The theorems about pools, addresses and the coinbase at concrete inputs.
use osprey_blake2b.Base.{
  ◌-◌, ◌⊎◌, if◌then◌else◌, ℕ, ◌+◌, ◌%◌, ◌≤◌, ◌<◌, ◌≡◌, ◌≢◌, ◌↔◌, refl, arith, true, false, ◌&&◌,
  List, [], ◌∷◌, ◌++◌, none, some, ◌==◌, length, replicate, u64,
}
use osprey_blake2b.Worksrc.{WorkCtx, worksrc_pack_item}
use osprey_blake2b.Devfee.{devfee_address}
use osprey_blake2b.Gbt.{bad, reproduces, solution}
use osprey_blake2b.PoolSource.{
  PoolState, sia, make_en2, st_get_work, st_on_candidate, session_of, chain_expected, wants_push,
}
use osprey_blake2b.PoolSource.Verdict as PoolVerdict
use osprey_blake2b.PoolSource.Verdict.{IsShare}
use osprey_blake2b.PoolSource.Fee as PoolFee
use osprey_blake2b.PoolSource.Fee.{dev_ready}
use osprey_blake2b.Base.Text.{codes}
use osprey_blake2b.Base.Bytes.{le_value, byte_at}
use osprey_blake2b.Coinbase.{push_height}
use osprey_blake2b.Coinbase.Height
use osprey_blake2b.Coinbase.Height.{IsMinimal}
use osprey_blake2b.Bech32.{
  Bech32Addr, bech32_decode_addr, bech32_scriptpubkey, any, is_unprintable, is_lower, is_upper,
  to_lower, last_index, decode_parts, decode_chars, charset_index, index_from, expand_hrp, polymod,
  polymod_from, polymod_step, fold_generator, checksum_for, decode_program, convert5to8,
  convert_loop, drain_bits,
}
use osprey_blake2b.Bech32.Decoded
use osprey_blake2b.Bech32.Decoded.{IsAddr, IsRead}
use osprey_blake2b.PoolSource.Built
use osprey_blake2b.PoolSource.{build_from, chain_messages, roll_en2, worksrc_stratum_backend}
use osprey_blake2b.SiaStratum.{
  header_of, sia_merkle_root, sia_arbtx_leaf, sia_arbtx, sia_build_header,
}
use osprey_blake2b.Stratum.Target.{stratum_target_top64}
use osprey_blake2b.Stratum.Session.{Session, stratum_init, stratum_ready}
use osprey_blake2b.Witnesses.{zero_hash, two_bytes, one_byte, sample_ctx}

abbrev sample_session : Session
unfolding stratum_init
sample_session = record (stratum_init two_bytes 3333 two_bytes one_byte) {
  connected = true;
  subscribed = true;
  authorized = true;
  have_job = true;
  extranonce1 = two_bytes ++ replicate 30 0;
  en1_len = 2;
  job = record {
    job_id = one_byte;
    prevhash = zero_hash;
    coinb1 = two_bytes;
    coinb2 = [];
    branches = [];
    ntime = replicate 8 0;
    nbits = 0x1903c2d4;
    clean = true;
    seq = 1;
  };
}

abbrev sample_pool : PoolState
sample_pool = record {
  chain = sia;
  main = sample_session;
  dev = sample_session;
  dev_configured = true;
  cur = record {
    job_id = one_byte;
    en2 = two_bytes;
    ntime = replicate 8 0;
    target = replicate 32 255;
    job_seq = 1;
    is_dev = false;
    valid = true;
  };
  en2_counter = 0;
  last_prevhash = zero_hash;
  have_pushed = false;
  last_push_at = 0;
  fee = record {
    total = 0;
    dev = 0;
    current_is_dev = false;
    pool_jobs = 19;
    pool_dev_jobs = 0;
    pool_skipped = 0;
    pool_shares = 0;
  };
}

st_get_work-fee_example :
    (stratum_ready sample_pool.main && wants_push sample_pool 100 ≡ false
      → st_get_work sample_pool 100 ≡ (sample_pool, none))
    × (stratum_ready sample_pool.main && wants_push sample_pool 100 ≡ true
        → u64 (sample_pool.fee.pool_jobs + 1) % 20 ≢ 0
        → (st_get_work sample_pool 100).0.fee
          ≡ record sample_pool.fee { pool_jobs = u64 (sample_pool.fee.pool_jobs + 1) })
    × (stratum_ready sample_pool.main && wants_push sample_pool 100 ≡ true
        → u64 (sample_pool.fee.pool_jobs + 1) % 20 ≡ 0
        → ((dev_ready sample_pool ≡ true)
            × ((ctx : WorkCtx) × ((build_from sample_pool sample_pool.dev true).1 ≡ some ctx)
                × ((st_get_work sample_pool 100).1 ≡ some ctx))
            × ((st_get_work sample_pool 100).0.fee ≡ record sample_pool.fee {
              pool_jobs = u64 (sample_pool.fee.pool_jobs + 1);
              pool_dev_jobs = u64 (sample_pool.fee.pool_dev_jobs + 1);
            })
            × ((st_get_work sample_pool 100).0.cur.is_dev ≡ true))
          ⊎ (((dev_ready sample_pool ≡ false)
                ⊎ ((build_from sample_pool sample_pool.dev true).1 ≡ none))
              × ((st_get_work sample_pool 100).0.fee ≡ record sample_pool.fee {
                pool_jobs = u64 (sample_pool.fee.pool_jobs + 1);
                pool_dev_jobs = u64 (sample_pool.fee.pool_dev_jobs + 1);
                pool_skipped = u64 (sample_pool.fee.pool_skipped + 1);
              })))
st_get_work-fee_example = PoolFee.st_get_work-fee sample_pool 100

st_on_candidate_cases_example :
    (¬ IsShare sample_pool sample_ctx 5 0
      → (st_on_candidate true sample_pool sample_ctx 5 0).0 ≡ sample_pool)
    × ((chain_expected sample_pool.chain sample_ctx.ss4 5 ≡ 0)
        ↔ ((st_on_candidate true sample_pool sample_ctx 5 0).1 ≢ bad))
    × (IsShare sample_pool sample_ctx 5 0
        → true ≡ true
        → (session_of sample_pool.cur.is_dev sample_pool).connected ≡ true
        → ((st_on_candidate true sample_pool sample_ctx 5 0).1 ≡ solution true)
          × ((st_on_candidate true sample_pool sample_ctx 5 0).0.fee.pool_shares ≡ (
              if sample_pool.cur.is_dev
              then u64 (sample_pool.fee.pool_shares + 1)
              else sample_pool.fee.pool_shares))
          × ((session_of sample_pool.cur.is_dev
                (st_on_candidate true sample_pool sample_ctx 5 0).0).shares_submitted
              ≡ u64 ((session_of sample_pool.cur.is_dev sample_pool).shares_submitted + 1)))
    × (IsShare sample_pool sample_ctx 5 0
        → true && (session_of sample_pool.cur.is_dev sample_pool).connected ≡ false
        → ((st_on_candidate true sample_pool sample_ctx 5 0).1 ≡ reproduces)
          × ((st_on_candidate true sample_pool sample_ctx 5 0).0.fee ≡ sample_pool.fee))
st_on_candidate_cases_example = PoolVerdict.st_on_candidate_cases true sample_pool sample_ctx 5 0

abbrev sample_arbtx : List ℕ
sample_arbtx = two_bytes ++ (two_bytes ++ (make_en2 1 8 ++ []))

abbrev built_ctx : WorkCtx
built_ctx = record {
  ss3 = replicate 52 0;
  ss4 =
      header_of sample_session.job
        (sia_merkle_root sample_session.job (sia_arbtx_leaf sample_arbtx));
  target_top64 = stratum_target_top64 0x100000000;
  valid = true;
}

built_lem : (build_from sample_pool sample_session false).1 ≡ some built_ctx
unfolding stratum_init build_from chain_messages sia_build_header sia_arbtx make_en2 roll_en2
built_lem = refl

build_from-pack_item_example :
    (length built_ctx.ss3 ≡ 52)
    × (length built_ctx.ss4 ≡ 80)
    × ((worksrc_pack_item built_ctx (worksrc_stratum_backend sample_pool.chain).item_len).0
        ≡ (worksrc_stratum_backend sample_pool.chain).item_len)
    × ((build_from sample_pool sample_session false).0.cur.en2
        ≡ make_en2
            (u64 (sample_pool.en2_counter + 1))
            (if sample_session.en2_size == 0 then 8 else sample_session.en2_size))
build_from-pack_item_example =
    Built.build_from-pack_item sample_pool sample_session false built_ctx built_lem

push_height-le_value_example :
    (bytes : List ℕ) × (push_height 969912 ≡ length bytes ∷ bytes)
    × (1 ≤ length bytes)
    × (length bytes ≤ 5)
    × (le_value bytes ≡ 969912)
    × (byte_at bytes (length bytes - 1) < 128)
    × IsMinimal bytes
push_height-le_value_example = Height.push_height-le_value 969912 (omega arith)

abbrev dev_addr : Bech32Addr
dev_addr = record {
  hrp = codes "bc";
  witver = 0;
  program =
      18 ∷ 224 ∷ 35 ∷ 215 ∷ 115 ∷ 171 ∷ 206 ∷ 196 ∷ 219 ∷ 228 ∷ 235 ∷ 233 ∷ 4 ∷ 36 ∷ 236 ∷ 172 ∷ 148
      ∷ 229 ∷ 164 ∷ 112 ∷ [];
}

dev_addr_lem : bech32_decode_addr devfee_address ≡ some dev_addr
unfolding bech32_decode_addr any is_unprintable is_lower is_upper to_lower last_index decode_parts
    decode_chars charset_index index_from expand_hrp polymod polymod_from polymod_step
    fold_generator checksum_for decode_program convert5to8 convert_loop drain_bits
dev_addr_lem = refl

bech32_decode_addr-scriptpubkey_example :
    IsAddr dev_addr
    × IsRead devfee_address dev_addr
    × ((script : List ℕ) × (bech32_scriptpubkey dev_addr 64 ≡ some script)
        × (length script ≡ length dev_addr.program + 2)
        × (4 ≤ length script)
        × (length script ≤ 42))
bech32_decode_addr-scriptpubkey_example =
    Decoded.bech32_decode_addr-scriptpubkey devfee_address dev_addr dev_addr_lem
