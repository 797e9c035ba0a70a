-- ===== src/BftCore.antt =====
-- The message types of the crate `bft-core`, as the struct literals, the patterns and the field
-- reads of src/types.rs and src/consensus.rs show them. The state machine itself is not modelled.
use mathlib.Core.Logic.{◌↔◌}
use consensus_bft.Prelude.{ℕ, ◌≡◌, Bool, true, false, ◌&&◌, Option, List, arith, Eq, ◌==◌, nat_eq}
use consensus_bft.Prelude.Words.{Bytes, bytes_eq}

pub data VoteType : Type 0 where
  prevote precommit : VoteType

pub record Vote : Type 0 where
  pub vote_type : VoteType
  pub height : ℕ
  pub round : ℕ
  pub proposal : Bytes
  pub voter : Bytes

pub record Proposal : Type 0 where
  pub height : ℕ
  pub round : ℕ
  pub content : Bytes
  pub lock_round : Option ℕ
  pub lock_votes : List Vote
  pub proposer : Bytes

pub record Commit : Type 0 where
  pub height : ℕ
  pub round : ℕ
  pub proposal : Bytes
  pub lock_votes : List Vote
  pub address : Bytes

pub record Status : Type 0 where
  pub height : ℕ
  pub interval : Option ℕ
  pub authority_list : List Bytes

pub record Feed : Type 0 where
  pub height : ℕ
  pub proposal : Bytes

pub record VerifyResp : Type 0 where
  pub is_pass : Bool
  pub proposal : Bytes

pub data CoreInput : Type 0 where
  proposal : Proposal → CoreInput
  vote : Vote → CoreInput
  feed : Feed → CoreInput
  verify_resp : VerifyResp → CoreInput
  status : Status → CoreInput
  start pause : CoreInput

pub data CoreOutput : Type 0 where
  proposal : Proposal → CoreOutput
  vote : Vote → CoreOutput
  commit : Commit → CoreOutput
  get_proposal_request : ℕ → CoreOutput

-- The derived equality of a vote, by which it is a key of a `HashMap`.
abbrev pub vote_type_beq : VoteType → VoteType → Bool
vote_type_beq prevote prevote = true
vote_type_beq precommit precommit = true
vote_type_beq _ _ = false

abbrev pub vote_beq : Vote → Vote → Bool
vote_beq a b =
    vote_type_beq a.vote_type b.vote_type
    && (a.height == b.height)
    && (a.round == b.round)
    && (a.proposal == b.proposal)
    && (a.voter == b.voter)

pub vote_beq_iff : (a b : Vote) → (vote_beq a b ≡ true) ↔ (a ≡ b)
vote_beq_iff a b =
    ground (arith, bytes_eq.beq_iff a.proposal b.proposal, bytes_eq.beq_iff a.voter b.voter)

instance abbrev pub vote_eq : Eq Vote
vote_eq = record { beq = vote_beq; beq_iff = vote_beq_iff }
