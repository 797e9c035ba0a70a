-- ===== src/Consensus/Invariants.antt =====
-- src/consensus.rs: what holds of the engine after every message.
pub mod Height
pub mod Authority
pub mod Power
pub mod Votes
