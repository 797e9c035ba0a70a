-- ===== src/Types.antt =====
-- src/types.rs: the data that nodes exchange, and the conversions to the types of `bft-core`.
pub mod Authority
pub mod Convert
pub mod Codec
use consensus_bft.Prelude.{ℕ, ◌≡◌, ◌↔◌, Bool, true, false, Option, List, Eq, arith}
use consensus_bft.Prelude.Map.{Map}
use consensus_bft.Prelude.Words.{Bytes}

abbrev pub Address : Type 0
Address = Bytes

abbrev pub Hash : Type 0
Hash = Bytes

abbrev pub Signature : Type 0
Signature = Bytes

pub data VoteType : Type 0 where
  prevote precommit : VoteType

pub record Vote : Type 0 where
  pub vote_type : VoteType
  pub height : ℕ
  pub round : ℕ
  pub proposal : Hash
  pub voter : Address

pub record SignedVote : Type 0 where
  pub vote : Vote
  pub signature : Signature

pub record Proof : Type 0 where
  pub block_hash : Hash
  pub height : ℕ
  pub round : ℕ
  pub precommit_votes : Map Address Signature

pub record Proposal : Type 0 where
  pub height : ℕ
  pub round : ℕ
  pub hash : Hash
  pub proof : Proof
  pub lock_round : Option ℕ
  pub lock_votes : List SignedVote
  pub proposer : Address

pub record SignedProposal : Type 0 where
  pub proposal : Proposal
  pub signature : Signature

pub record Commit (F : Type 0) : Type 0 where
  pub height : ℕ
  pub result : F
  pub proof : Proof
  pub address : Address

-- The weights are `u32`.
pub record Node : Type 0 where
  pub address : Address
  pub proposal_weight : ℕ
  pub vote_weight : ℕ

pub record Status : Type 0 where
  pub height : ℕ
  pub interval : Option ℕ
  pub authority_list : List Node

pub record Feed (F : Type 0) : Type 0 where
  pub height : ℕ
  pub content : F

pub record VerifyResp : Type 0 where
  pub is_pass : Bool
  pub proposal : Hash

pub data ConsensusInput : Type 0 where
  signed_proposal : Bytes → ConsensusInput
  signed_vote : Bytes → ConsensusInput
  status : Status → ConsensusInput

pub data AsyncMsg (F : Type 0) : Type 0 where
  verify_resp : VerifyResp → AsyncMsg F
  feed : Feed F → AsyncMsg F

pub data ConsensusOutput (F : Type 0) : Type 0 where
  signed_proposal : Bytes → ConsensusOutput F
  signed_vote : Bytes → ConsensusOutput F
  commit : Commit F → ConsensusOutput F

-- `Node::new`
unfoldable pub new_node : Address → Node
new_node address = record { address = address; proposal_weight = 1; vote_weight = 1 }

-- The derived equality of `VoteType`, by which it is a key of a `HashMap`.
abbrev pub vote_type_beq : VoteType → VoteType → Bool
vote_type_beq prevote prevote = true
vote_type_beq precommit precommit = true
vote_type_beq _ _ = false

pub vote_type_beq_iff : (a b : VoteType) → (vote_type_beq a b ≡ true) ↔ (a ≡ b)
vote_type_beq_iff a b = ground arith

instance abbrev pub vote_type_eq : Eq VoteType
vote_type_eq = record { beq = vote_type_beq; beq_iff = vote_type_beq_iff }
