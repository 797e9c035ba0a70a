-- ===== src/Tests/Messages.antt =====
-- A vote, a proposal with a lock, and a proof, taken by a node at height 5.
use consensus_bft.Prelude.{some, ◌≡◌, refl, ◌⊎◌, ◌↔◌, true, [], ◌∷◌, Option, none, ok}
use consensus_bft.Prelude.Exec.{◌>>=◌}
use consensus_bft.Prelude.Words.{add_u64, dec_u64}
use consensus_bft.BftCore as bft
use consensus_bft.Types.{VerifyResp}
use consensus_bft.Types.Authority.{set_insert, is_above_threshold, contains_sender, to_set}
use consensus_bft.Types.Convert.{to_bft_vote, to_bft_proposal, vote_type_to_u8}
use consensus_bft.Types.Codec.{encode_vote, encode_proposal, encode_proof, encode_signed_vote, sort}
use consensus_bft.Util.Weights.{into_addr_set}
use consensus_bft.Consensus.State.{log_json, check_proposal}
use consensus_bft.Consensus.Checks.{
  check_proposer, check_lock_votes, check_votes, check_signed_vote, add_prevote, check_proof,
  verify_proof, votes_verified, set_proof, check_vote_sender,
}
use consensus_bft.Consensus.Handlers.{
  handle_signed_vote, keep_future, add_to_votes, handle_signed_proposal, add_to_proposals,
  answer_proposal, verify_resp_of,
}
use consensus_bft.Consensus.Accepts.SignedVote.{IsTaken, handle_signed_vote_ok}
use consensus_bft.Consensus.Accepts.SignedProposal.{IsTakenProposal, handle_signed_proposal_ok}
use consensus_bft.Consensus.Accepts.LockVotes.{IsLock, check_lock_votes_ok}
use consensus_bft.Consensus.Accepts.Proofs.{IsAccepted, verify_proof_iff}
use consensus_bft.Types.{Commit}
use consensus_bft.Prelude.Words.{Bytes}
use consensus_bft.Collection.{
  add_vote, add_to_round, add_to_step, add_to_set, get_vote_set, get_round_set, get_step_set,
}
use consensus_bft.Consensus.Handlers.Core.{
  handle_commit, generate_proof, read_vote_set, collect_signatures,
}
use consensus_bft.Consensus.Effects.Commit.{IsCommit, handle_commit_ok}
use consensus_bft.Prelude.{inl}
use consensus_bft.Types.{precommit}
use consensus_bft.Consensus.Steps.{Verifies}
use consensus_bft.Consensus.Invariants.Votes.{VotesFit, VotesFit-add_vote, VotesFit-new}
use consensus_bft.Consensus.Effects.CommitProof.{IsOf, proof-handle_commit}
use consensus_bft.Tests.NodeCase.{
  bft_precommit, two_votes, bft_commit, signed_precommit, outside, state, signed, nodes, proof,
  proposal, signed_proposal,
}

vote_taken :
    handle_signed_vote outside (signed 2) true state
    ≡ (ok (to_bft_vote (signed 2).vote), (handle_signed_vote outside (signed 2) true state).1)
unfolding handle_signed_vote keep_future add_to_votes check_vote_sender encode_vote log_json ◌>>=◌
    dec_u64 vote_type_to_u8
vote_taken = refl

handle_signed_vote_ok_example :
    IsTaken outside
      (signed 2)
      state
      (handle_signed_vote outside (signed 2) true state).1
      (to_bft_vote (signed 2).vote)
handle_signed_vote_ok_example =
    handle_signed_vote_ok outside (signed 2) true state
      (handle_signed_vote outside (signed 2) true state).1 (to_bft_vote (signed 2).vote) vote_taken

lock_taken :
    check_lock_votes outside signed_proposal (7 ∷ []) state
    ≡ (ok tt, (check_lock_votes outside signed_proposal (7 ∷ []) state).1)
unfolding check_lock_votes check_votes check_signed_vote add_prevote set_insert is_above_threshold
    contains_sender encode_vote dec_u64 ◌>>=◌ vote_type_to_u8
lock_taken = refl

check_lock_votes_ok_example : IsLock outside 5 (7 ∷ []) state.authority proposal.lock_votes
check_lock_votes_ok_example =
    check_lock_votes_ok outside signed_proposal (7 ∷ []) 0 state
      (check_lock_votes outside signed_proposal (7 ∷ []) state).1 tt refl lock_taken

abbrev answer : bft.Proposal × Option VerifyResp
answer = (to_bft_proposal proposal (7 ∷ []), none)

proposal_taken :
    handle_signed_proposal outside signed_proposal true [] state
    ≡ (ok answer, (handle_signed_proposal outside signed_proposal true [] state).1)
unfolding handle_signed_proposal log_json add_to_proposals check_proposer check_lock_votes
    check_votes check_signed_vote add_prevote set_insert is_above_threshold contains_sender
    answer_proposal verify_resp_of check_proposal check_proof verify_proof votes_verified set_proof
    into_addr_set to_set encode_vote encode_proposal encode_proof encode_signed_vote sort add_u64
    dec_u64 ◌>>=◌ vote_type_to_u8 to_bft_proposal to_bft_vote
proposal_taken = refl

handle_signed_proposal_ok_example :
    IsTakenProposal outside signed_proposal state.authority 5 (to_bft_proposal proposal (7 ∷ []))
handle_signed_proposal_ok_example =
    handle_signed_proposal_ok outside signed_proposal true [] state
      (handle_signed_proposal outside signed_proposal true [] state).1 answer proposal_taken

verify_proof_iff_example :
    (verify_proof outside proof 4 nodes ≡ true)
    ↔ ((proof.height ≡ 0) ⊎ IsAccepted outside proof 4 nodes)
verify_proof_iff_example = verify_proof_iff outside proof 4 nodes

abbrev commit_done : Commit Bytes
commit_done = record {
  height = 5;
  result = 7 ∷ [];
  proof = record {
    block_hash = 7 ∷ [];
    height = 5;
    round = 0;
    precommit_votes =
        (1 ∷ [], (signed_precommit 1).signature) ∷ (2 ∷ [], (signed_precommit 2).signature) ∷ [];
  };
  address = 2 ∷ [];
}

commit_made :
    handle_commit outside bft_commit true two_votes
    ≡ (ok commit_done, (handle_commit outside bft_commit true two_votes).1)
unfolding handle_commit generate_proof read_vote_set collect_signatures set_proof log_json add_vote
    add_to_round add_to_step add_to_set get_vote_set get_round_set get_step_set ◌>>=◌
commit_made = refl

handle_commit_ok_example :
    IsCommit outside bft_commit two_votes commit_done
    × ((handle_commit outside bft_commit true two_votes).1.proof ≡ some commit_done.proof)
handle_commit_ok_example =
    handle_commit_ok outside bft_commit true two_votes
      (handle_commit outside bft_commit true two_votes).1 commit_done commit_made

precommit_verifies_1 : Verifies outside (signed_precommit 1)
unfolding encode_vote vote_type_to_u8
precommit_verifies_1 = refl

precommit_verifies_2 : Verifies outside (signed_precommit 2)
unfolding encode_vote vote_type_to_u8
precommit_verifies_2 = refl

two_votes-VotesFit : VotesFit outside two_votes.votes
unfolding to_bft_vote
two_votes-VotesFit =
    VotesFit-add_vote outside _ 5 0 precommit (bft_precommit 2) (signed_precommit 2)
      (record { vote = refl; by = inl precommit_verifies_2 })
      (VotesFit-add_vote outside _ 5 0 precommit (bft_precommit 1) (signed_precommit 1)
        (record { vote = refl; by = inl precommit_verifies_1 }) (VotesFit-new outside))

proof-handle_commit_example : IsOf outside bft_commit (1 ∷ []) (signed_precommit 1).signature
proof-handle_commit_example =
    proof-handle_commit outside bft_commit true two_votes
      (handle_commit outside bft_commit true two_votes).1 commit_done (1 ∷ [])
      (signed_precommit 1).signature two_votes-VotesFit commit_made refl
