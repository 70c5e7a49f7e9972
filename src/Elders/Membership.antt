-- ===== src/Elders/Membership.antt =====
-- src/sn_membership.rs: the agreement on who joins and who leaves, generation after generation.
mod State
mod Checks
mod Handlers
unfoldable pub use State.*
unfoldable pub use Checks.*
unfoldable pub use Handlers.*
