-- ===== src/Examples.antt =====
-- Tests, and the theorems at concrete inputs.
pub mod Wallets
pub mod Sharing
pub mod TokenTexts
pub mod States
pub mod Splits
pub mod Chains
pub mod LongChains
pub mod Signing
