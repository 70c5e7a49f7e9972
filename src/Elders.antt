-- ===== src/Elders.antt =====
-- The agreement of the elders on the votes of one generation, src/consensus.rs, and its two users,
-- src/sn_membership.rs and src/sn_handover.rs.
pub mod Generation
pub mod Handlers
pub mod Induction
pub mod History
pub mod Records
pub mod Growth
pub mod Outcome
pub mod Membership
pub mod Generations
pub mod Members
pub mod Handover
pub mod Choice
