-- ===== src/Lib.antt =====
-- consensus-bft: the engine that runs bft-core for a node, its messages, its caches and its log.
--
-- The node (`ConsensusSupport`, lib.rs) hands signed proposals, signed votes and statuses to the
-- engine (`Consensus`, consensus.rs). The engine checks them, keeps votes and proposals
-- (collection.rs), writes them to a log (wal.rs), passes them on to bft-core, and signs, sends and
-- commits what bft-core puts out. types.rs has the messages with their RLP encoding, util.rs the
-- framing of a proposal with its block and the check of a proof.
--
-- Files, with paths of the repository:
--   Prelude: numbers and tests on them, lists, maps (`HashMap` as association lists), machine words,
--     UTF-8, and methods that change a state and may fail (Exec), with rules for what they keep
--     (Exec.Keeps), for how a success has run (Exec.Runs) and for what succeeds (Exec.Succeeds).
--   Error: src/error.rs. BftCore: the message types of the crate bft-core.
--   Rlp, Lru: interfaces of the crates rlp and lru-cache, with the laws that they document as fields.
--   Types: src/types.rs. Types.Convert has the conversions to bft-core, Types.Authority the
--     `AuthorityManage`, Types.Codec the encoders and decoders, and its children their round trips.
--   Util: src/util.rs. Framing has `combine`, `extract`, `encode_block` and `decode_block`, Weights the
--     sums of weights, CheckProof the public `check_proof`.
--   Collection: src/collection.rs, with what is stored (Lookup, Votes), what is dropped (Recency) and
--     the proposals.
--   Wal: src/wal.rs. Disk has the operations of `std::fs`, each of which may fail or stop early as an
--     oracle says, Decimal the printed heights, Log the methods of `Wal`, Log.Frames the
--     records, Log.Append and Log.Reload what `save` writes and `load` reads back, Log.Works the runs
--     of `save` and `set_height` on a device that works, Log.Index and Log.Restart what `new` finds
--     after them.
--   Consensus: src/consensus.rs. Outside has the traits of src/lib.rs and the other calls, State the
--     struct with what was sent so far, Checks and Handlers the methods of these names, Process the
--     three `.._process`, Replay `new`, `load_wal_log` and the loop of `start`. Steps says what each
--     change of the state has to keep and walks through every method, Invariants has what holds after
--     any messages, Accepts what an accepted message has passed, Effects what a
--     status and a commit do.
--   Tests: concrete crates and a node, on which the theorems are applied.
--
-- A method is a function from a state to a result and a state: what was written before an error stays
-- written. A result is a value, an error or a panic. A field of the engine that the code only sends
-- through (the channels) is the list of what was sent. `unwrap`, a slice out of range and `expect`
-- panic; `u64` sums wrap, as in a release build, where the code adds without a check.
--
-- Fuel: `read_frames` takes the length of the file, and each round reads five bytes or more;
-- `digits_of` takes 20, the number of digits of the largest `u64`. All other loops are over lists.
--
-- Not modelled: the state machine of bft-core, which takes messages and may refuse them; threads, since
-- the scopes of `check_proposal` and `ask_for_proposal` join before they return; logging; the
-- executor and `SendMsg`, which pass messages to channels; the examples and benches.
pub mod Prelude
pub mod Error
pub mod BftCore
pub mod Rlp
pub mod Types
pub mod Util
pub mod Lru
pub mod Collection
pub mod Wal
pub mod Consensus
pub mod Tests
