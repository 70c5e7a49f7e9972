-- ===== src/Vote.antt =====
-- The crate's root modules on votes: src/vote.rs, src/vote_count.rs, src/fault.rs, src/decision.rs.
pub mod Types
pub mod Compare
pub mod Extern
pub mod Ballots
pub mod Count
pub mod Validity
pub mod Decision
pub mod Supersedes
pub mod Simplify
pub mod Candidates
pub mod Majority
pub mod Backing
pub mod Proofs
pub mod Evidence
