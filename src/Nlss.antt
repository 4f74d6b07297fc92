-- ===== src/Nlss.antt =====
-- nlss/: the non-linear secret sharing that splits an identity's picture into a private and a
-- public share.
pub mod Bits
pub mod Tables
pub mod Share
pub mod Tree
pub mod Combine
