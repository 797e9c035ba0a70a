-- ===== src/Util.antt =====
-- src/util.rs: the framing of a proposal with its block, the weights of a vote, and the independent
-- check of a proof.
pub mod Framing
pub mod Weights
pub mod CheckProof
