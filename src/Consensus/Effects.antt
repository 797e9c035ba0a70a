-- ===== src/Consensus/Effects.antt =====
-- src/consensus.rs: what the handlers do to the state of the engine.
pub mod RichStatus
pub mod Commit
pub mod CommitProof
