-- ===== src/Mvba/Consensus.antt =====
-- src/mvba/consensus.rs: the multi-valued agreement that the components are put together to.
pub mod State
pub mod Bundles
pub mod Induction
pub mod Preservation
pub mod History
pub mod Decision
pub mod Outcome
