-- ===== src/Stratum.antt =====
-- miner/stratum.c and stratum.h: the Sia-dialect Stratum v1 client.
pub mod Job
pub mod Json
pub mod Dispatch
pub mod Floats
pub mod Invariant
pub mod Lines
pub mod Link
pub mod Parsed
pub mod Connecting
pub mod Backoff
pub mod Framed
pub mod Framing
pub mod Cuts
pub mod Reached
pub mod Target
pub mod Session
