-- ===== src/Types/Convert.antt =====
-- src/types.rs: the functions that convert to and from the types of `bft-core`, and the number of a
-- vote type on the wire.
use consensus_bft.Prelude.{
  ℕ, zero, suc, none, some, [], map, Outcome, ok, panic, ◌==◌, if◌then◌else◌,
}
use consensus_bft.BftCore as bft
use consensus_bft.Types.{
  VoteType, prevote, precommit, Vote, Proposal, Status, VerifyResp, Hash, vote_type_eq,
}

-- `impl From<u8> for VoteType` panics on any other number.
unfoldable pub vote_type_of_u8 : {E : Type 0} → ℕ → Outcome E VoteType
vote_type_of_u8 zero = ok prevote
vote_type_of_u8 (suc zero) = ok precommit
vote_type_of_u8 _ = panic

unfoldable pub vote_type_to_u8 : VoteType → ℕ
vote_type_to_u8 prevote = 0
vote_type_to_u8 precommit = 1

-- `Vote::to_bft_vote`
unfoldable pub to_bft_vote : Vote → bft.Vote
to_bft_vote v = record {
  vote_type = if v.vote_type == prevote then bft.VoteType.prevote else bft.VoteType.precommit;
  height = v.height;
  round = v.round;
  proposal = v.proposal;
  voter = v.voter;
}

-- `Vote::from_bft_vote`
unfoldable pub from_bft_vote : bft.Vote → VoteType → Vote
from_bft_vote v vtype = record {
  vote_type = vtype;
  height = v.height;
  round = v.round;
  proposal = v.proposal;
  voter = v.voter;
}

-- `Proposal::to_bft_proposal`
unfoldable pub to_bft_proposal : Proposal → Hash → bft.Proposal
unfolding to_bft_vote
to_bft_proposal p hash = record {
  height = p.height;
  round = p.round;
  content = hash;
  lock_round = p.lock_round;
  lock_votes = elim p.lock_round [
    | some _ ↦ map (λ v. to_bft_vote v.vote) p.lock_votes
    | none ↦ []
  ];
  proposer = p.proposer;
}

-- `Status::to_bft_status`
unfoldable pub to_bft_status : Status → bft.Status
to_bft_status s = record {
  height = s.height;
  interval = s.interval;
  authority_list = map (λ node. node.address) s.authority_list;
}

-- `VerifyResp::to_bft_resp`
unfoldable pub to_bft_resp : VerifyResp → bft.VerifyResp
to_bft_resp r = record { is_pass = r.is_pass; proposal = r.proposal }
