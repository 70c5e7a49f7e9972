-- ===== src/Mvba/Vcbc.antt =====
-- src/mvba/vcbc: verifiable consistent broadcast, one instance for each proposer.
pub mod Message
pub mod State
pub mod Handlers
pub mod Induction
pub mod Delivery
pub mod Quorum
pub mod Parking
pub mod Termination
pub mod Calls
