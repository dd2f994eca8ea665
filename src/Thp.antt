-- ===== src/Thp.antt =====
-- trezor-core/src/thp: the Trezor Host Protocol, from the wire up.
pub mod Control
pub mod Crc
pub mod Framing
pub mod Aead
pub mod Keys
pub mod Session
pub mod Channel
pub mod Noise
pub mod Connection
pub mod Elligator2
pub mod Cpace
pub mod Pairing
pub mod Toy
mod Runs
