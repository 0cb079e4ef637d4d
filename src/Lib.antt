-- ===== src/Lib.antt =====
-- The osprey-blake2b miner (miner/*.c): a host program that builds work for a BLAKE2b hashing
-- FPGA, sends it over a UART, and judges the candidates that come back.
--
-- The parts and their files:
--   Base          shared helpers: tests on numbers, lists as arrays, words, bytes, bits
--   Sha256        miner/sha256.c; Sha256/Rounds has the transform, the others the refinement
--   Blake2b       miner/blake2b.c
--   WorkItem      miner/work_item.c: `stage_inputs`, `build_work_item`, `get_pow_hash`,
--                 `parse_result`; WorkItem/Target has `compact_to_target_shifted`,
--                 `target_top64_from_bits` and `hash_meets_target`
--   Worksrc       miner/worksrc.c: the packing of a work context and the registry of sources
--   Block         miner/block.c: the v2 header and the block for submitblock
--   Devfee        miner/devfee.c: the counters of the developer's fee
--   UioUart       miner/uio_uart.c and uio_uart.h: the UART, `uart_write` and the waits;
--                 UioUart/Written has the proof
--   FrameSync     miner/miner.c: `frame_sync`, the search for the start of a reply frame;
--                 FrameSync/Locked and Gap have the proofs
--   Merkle        miner/merkle.c: the merkle root, computed in place
--   Bech32        miner/bech32.c: the payout address; Bech32/Spelled and Decoded have proofs
--   Coinbase      miner/coinbase.c: the coinbase transaction; Coinbase/Height has a proof
--   Stratum       miner/stratum.c and stratum.h: Stratum/Job, Json and Target have the job, the JSON
--                 scanner and the share target, Session the state and its start, Lines the job of
--                 a `mining.notify`, Dispatch `on_line` and the other handlers, Link `dial` and
--                 `stratum_poll`; Parsed, Invariant, Connecting, Reached, Backoff, Framed,
--                 Framing and Cuts have proofs
--   Dns           miner/dns.c: Dns/Message has the query and the reading of a reply, Dns the name
--                 servers and `dns_resolve_a`; Dns/Bounds, Names, Replies and Resolved
--                 have proofs
--   SiaStratum    miner/sia_stratum.c: a pool's job as stage messages, and the words to compare
--   Gbt           miner/miner.c: the synthetic template, `gbt_build` and `gbt_on_candidate`
--   Mining        miner/miner.c, the loop of `main`: work pushed, frames assembled and judged;
--                 Mining/Assembled, Accounts, Sparse, Reached and Lifted have proofs
--   Rpc           miner/miner.c: the scanning of texts, base64 and the reading loop; Rpc/Reply what
--                 `get_template` reads out of a reply; Rpc/Hex and Base64 have proofs
--   Solo          miner/miner.c: `get_template`, `submit_block` and the two solo sources;
--                 Solo/Gathered, Filled, Coherent, Offered, Scanned and Sent have proofs
--   Loopback      miner/miner.c: `selftest_loopback` and `loopback_verify`;
--                 Loopback/Calibrated and Phases have proofs
--   Options       miner/miner.c: the command line and the choice of the source; Options/Dry,
--                 Silent, Offline and Chosen have proofs
--   PoolSource    miner/worksrc_stratum.c: work from a pool's job, and its candidates;
--                 PoolSource/Sessions has the configuration, the polling and the status
--   Witnesses     concrete instances
-- A work source (Solo with Gbt, or PoolSource through SiaStratum) fills a `WorkCtx`, Worksrc packs
-- it into the item for the FPGA, WorkItem parses the reply, and the source judges the candidate with the
-- hashes of Sha256 and Blake2b. The interface between the loop and a source is
-- `Mining.Source`, which `worksrc_gbt` and `worksrc_synthetic` of Solo fill.
--
-- Bytes and words are natural numbers with the wrap-around of their C type written out (`u8`,
-- `u32`, `u64`); a buffer is a list. Arguments that C checks against NULL are always present.
-- Loops whose end depends on data take fuel: the merkle loop takes the number of rows, which at
-- least halves, rounded up, in each round; `height_bytes` takes 5 rounds for a number of 32 bits,
-- which has 4 bytes; `drain_bits` takes 2 rounds for fewer than 13 bits;
-- the JSON loops take the length of the text, of which each round consumes a character at least;
-- `skip_name` takes one more than the bytes that are left, and each round consumes one at least;
-- the waiting loops of the UART take as many rounds as the caller gives, which is enough where that
-- many rounds take longer than the timeout.
--
-- Not modelled: the sockets of JSON-RPC, the mapping of the UART and its scripted device for tests,
-- logging and status files, which are I/O; the selftests but for the loopback, and the modes
-- --submit-test and --stratum-probe of `main`; the VHDL cores and the Python scripts,
-- which are in other languages. What the node replies to each call is part of the state of Solo;
-- whether the socket takes a line is an argument of `stratum_submit`; what the resolver, the
-- connection and `recv` answer are arguments of `stratum_poll`; the C library's doubles are the
-- argument `Floats` of the handlers, and the conversion of a pool's difficulty to the 64-bit
-- divisor of `stratum_target_full` is a part of it; `inet_pton`, `inet_ntop`, the lines of
-- resolv.conf and the exchange with a name server are arguments of `dns_resolve_a`; the registers
-- of the UART and the clock are the argument `Device`; what the polls of the UART give before a
-- deadline is an argument of `frame_sync`, and of a pass of the loop. The functions of the C
-- library on texts are written out for texts up to their NUL, `long` and `unsigned long` with the
-- 32 bits of the device, and `sscanf` without the prefix 0x, which the format %2x cannot
-- complete. What a refused job leaves in the arrays of a work context is not modelled.
pub mod Base
pub mod Sha256
pub mod Blake2b
pub mod WorkItem
pub mod Worksrc
pub mod Block
pub mod UioUart
pub mod FrameSync
pub mod Devfee
pub mod Dns
pub mod Merkle
pub mod Bech32
pub mod Coinbase
pub mod Stratum
pub mod SiaStratum
pub mod Gbt
pub mod PoolSource
pub mod Loopback
pub mod Rpc
pub mod Options
pub mod Solo
pub mod Mining
pub mod Witnesses
