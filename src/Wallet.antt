-- ===== src/Wallet.antt =====
-- core/wallet/: the wallet of a node.
pub mod Token
pub mod Tokens
pub mod Release
pub mod Moves
pub mod Locking
pub mod LockLoop
pub mod WholeTokens
pub mod Releasing
pub mod Pledging
pub mod Calls
pub mod StateHashes
pub mod StateHistory
pub mod Settling
pub mod Closest
