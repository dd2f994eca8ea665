-- ===== src/Chains/Ethereum.antt =====
-- trezor-core/src/chains/ethereum.rs.
pub mod Rlp
pub mod Encoder
pub mod BigEndian
pub mod Headers
pub mod RoundTrip
pub mod Envelope
pub mod Messages
mod Runs
