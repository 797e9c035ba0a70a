-- ===== src/Consensus.antt =====
-- src/consensus.rs: the engine between the network, the node's `ConsensusSupport` and `bft-core`.
pub mod Outside
pub mod State
pub mod Checks
pub mod Handlers
pub mod Process
pub mod Replay
pub mod Steps
pub mod Invariants
pub mod Accepts
pub mod Effects
