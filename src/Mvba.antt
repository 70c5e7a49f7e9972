-- ===== src/Mvba.antt =====
-- src/mvba: multi-valued Byzantine agreement, with its sub-protocols.
pub mod Tag
pub mod Hash
pub mod VoteMessage
pub mod Broadcaster
pub mod Vcbc
pub mod Mvba
pub mod Abba
pub mod Consensus
