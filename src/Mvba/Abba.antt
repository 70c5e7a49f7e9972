-- ===== src/Mvba/Abba.antt =====
-- src/mvba/abba: asynchronous binary agreement on whether to take one proposer's proposal.
pub mod Message
pub mod State
pub mod Checks
pub mod Store
pub mod Protocol
pub mod Induction
pub mod Preservation
pub mod History
pub mod Decision
pub mod Stability
pub mod Refusals
pub mod OwnVote
pub mod Conflict
pub mod Progress
pub mod Abstention
pub mod Unanimity
pub mod Network
pub mod Unison
pub mod Checking
pub mod Nesting
pub mod Termination
