-- ===== src/Consensus/Outside.antt =====
-- What the engine of src/consensus.rs calls and does not implement: the traits of src/lib.rs, the
-- core of `bft-core`, and the crates `rlp`, `lru-cache` and `serde_json`. A call that need not answer
-- alike every time is given the number of such calls before it.
use consensus_bft.Prelude.{ℕ, Bool, Option}
use consensus_bft.Prelude.Words.{Bytes}
use consensus_bft.BftCore as bft
use consensus_bft.Lru.{LruCrate}
use consensus_bft.Rlp.{RlpCrate}
use consensus_bft.Types.{
  Address, Hash, Signature, Commit, ConsensusOutput, Status, Feed, VerifyResp, SignedProposal,
  SignedVote,
}

-- src/lib.rs: `ConsensusSupport`. An error carries no more than that there was one.
pub record ConsensusSupport (F : Type 0) : Type 0 where
  pub get_content : ℕ → ℕ → Option F
  pub transmit : ℕ → ConsensusOutput F → Bool
  pub check_proposal : ℕ → Bytes → F → Bytes → Bool → Bool → Bool
  pub commit : ℕ → Commit F → Option Status
  pub sign : ℕ → Bytes → Option Signature
  pub verify_signature : Bytes → Bytes → Option Address
  pub hash : Bytes → Hash

-- src/lib.rs: `Content`
pub record Content (F : Type 0) : Type 0 where
  pub encode : F → Option Bytes
  pub decode : Bytes → Option F
  pub hash : F → Bytes

-- `serde_json::to_string` and `serde_json::from_slice` at a type
pub record Json (A : Type 0) : Type 0 where
  pub to_string : A → Option Bytes
  pub from_slice : Bytes → Option A

pub record Outside (F : Type 0) : Type 1 where
  -- the feature `wal_on`
  pub wal_on : Bool
  pub rlp : RlpCrate
  pub lru : LruCrate
  pub support : ConsensusSupport F
  pub content : Content F
  -- `Core::send_bft_msg(..).is_ok()`
  pub core_takes : ℕ → bft.CoreInput → Bool
  pub json_signed_proposal : Json SignedProposal
  pub json_signed_vote : Json SignedVote
  pub json_status : Json Status
  pub json_feed : Json (Feed F)
  pub json_verify_resp : Json VerifyResp
  pub json_bft_proposal : Json bft.Proposal
  pub json_bft_vote : Json bft.Vote
  pub json_bft_commit : Json bft.Commit
