-- ===== src/Consensus/Accepts.antt =====
-- src/consensus.rs: what holds of a message that a handler or a check accepts.
pub mod SignedVote
pub mod LockVotes
pub mod Proofs
pub mod SignedProposal
