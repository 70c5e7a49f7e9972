-- ===== src/Examples.antt =====
-- Concrete runs of the components, with small stand-ins for the third-party code.
mod Toy
mod Broadcasts
mod Votes
mod Agreements
mod Quorum
mod Networks
mod KeyTypes
mod Hashes
mod Nodes
mod Ballots
mod Elders
mod Sections
