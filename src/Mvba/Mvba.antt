-- ===== src/Mvba/Mvba.antt =====
-- src/mvba/mvba: the votes that choose, proposer by proposer, whose proposal to agree on.
pub mod Message
pub mod State
pub mod Checks
pub mod Voting
pub mod Induction
pub mod Ballots
pub mod Rounds
