-- ===== src/Chains.antt =====
-- trezor-core/src/chains: the messages of each chain over a seeded session.
pub mod Reply
pub mod Ethereum
pub mod Bitcoin
pub mod Solana
pub mod Tron
pub mod Toy
mod Runs
