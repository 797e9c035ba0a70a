-- ===== src/Tests.antt =====
-- Concrete crates, a concrete node, and runs of the code on them.
pub mod RlpCase
pub mod LruCase
pub mod NodeCase
mod Engine
mod Messages
mod Framing
mod Caches
mod Proofs
mod LogFile
mod StatusLog
