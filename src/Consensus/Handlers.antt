-- ===== src/Consensus/Handlers.antt =====
-- src/consensus.rs: the handlers of the messages of the network and of the node.
pub mod Core
use Prim.Native.String.{String}
use consensus_bft.Prelude.{
  ℕ, ◌-◌, Bool, true, false, ◌&&◌, Option, none, some, List, [], ◌∷◌, ◌++◌, Outcome, ok, err, panic,
  if◌then◌else◌, ltb, leb, ◌==◌, nat_eq, not,
}
use consensus_bft.Prelude.Exec.{◌>>=◌, ◌>>◌, pure, raise, raise_if, gets, modify, on_some}
use consensus_bft.Prelude.Map
use consensus_bft.Prelude.Map.{or_keep}
use consensus_bft.Prelude.Words.{Bytes, bytes_eq, add_u64, dec_u64}
use consensus_bft.BftCore as bft
use consensus_bft.Error.{ConsensusError, obsolete_msg, signature_err, future_msg, lose_block}
use consensus_bft.Lru.{is_some}
use consensus_bft.Types
use consensus_bft.Types.{Hash, VerifyResp, Status}
use consensus_bft.Types.Authority.{update_authority}
use consensus_bft.Types.Convert.{to_bft_vote, to_bft_proposal, to_bft_status}
use consensus_bft.Types.Codec.{encode_proposal}
use consensus_bft.Collection.{cache_number, add_vote, add_proposal}
use consensus_bft.Wal.Log.{set_height}
use consensus_bft.Consensus.Outside.{Outside}
use consensus_bft.Consensus.State.{
  Consensus, Method, check_proposal, on_wal, log_json, log_type_signed_proposal, log_type_raw_bytes,
  log_type_rich_status,
}
use consensus_bft.Consensus.Checks.{
  vote_hash, verify_signature, check_proposer, check_lock_votes, check_proof, check_vote_sender,
}

module _ {F : Type 0} (x : Outside F) where
  -- `self.function.hash(&proposal.rlp_bytes())`
  abbrev pub proposal_hash : Types.Proposal → Hash
  proposal_hash p = x.support.hash (x.rlp.to_bytes (encode_proposal x.rlp p))

  abbrev pub resp : Bool → Hash → VerifyResp
  resp is_pass hash = record { is_pass = is_pass; proposal = hash }

  unfoldable pub add_to_proposals : ℕ → ℕ → Types.SignedProposal → Method x (Unit {0})
  add_to_proposals height round msg =
      modify (λ s. record s { proposals = (add_proposal x.lru s.proposals height round msg).0 })

  -- What is known of a block: its verdict, or its content, which is then checked.
  unfoldable pub verify_resp_of : Types.Proposal → Bytes → Method x (Option VerifyResp)
  verify_resp_of proposal signed_proposal_hash = do
    s ← gets (λ s. s)
    on_some (Map.get proposal.hash s.verified_block)
        (λ is_pass. pure (some (resp is_pass proposal.hash)))
        (on_some (Map.get proposal.hash s.block_origin_cache)
          (λ content. do
            check_proposal x proposal.hash content signed_proposal_hash
                (is_some proposal.lock_round) false
            pure none)
          (raise lose_block))

  -- What follows the checks of the sender, the lock and the proposer.
  unfoldable pub answer_proposal :
      Types.Proposal → Bytes → Method x (bft.Proposal × Option VerifyResp)
  answer_proposal proposal signed_proposal_hash = do
    now ← gets (λ s. s.height)
    if proposal.height == dec_u64 now
        then pure (to_bft_proposal proposal proposal.hash, some (resp true proposal.hash))
        else (do
          verify_resp ← verify_resp_of proposal signed_proposal_hash
          check_proof x proposal.height proposal.proof
          pure (to_bft_proposal proposal proposal.hash, verify_resp))

  unfoldable pub handle_signed_proposal :
      Types.SignedProposal → Bool → Bytes → Method x (bft.Proposal × Option VerifyResp)
  handle_signed_proposal msg need_wal signed_proposal_hash = do
    let proposal = msg.proposal
    address ← verify_signature x msg.signature (proposal_hash proposal)
    raise_if (not (proposal.proposer == address)) signature_err
    now ← gets (λ s. s.height)
    raise_if (ltb proposal.height (dec_u64 now)) obsolete_msg
    log_json x need_wal proposal.height log_type_signed_proposal
        (x.json_signed_proposal.to_string msg) "SignedProposal"
    add_to_proposals proposal.height proposal.round msg
    check_proposer x proposal.height proposal.round proposal.proposer
    check_lock_votes x msg proposal.hash
    answer_proposal proposal signed_proposal_hash

  unfoldable pub cache_vote : ℕ → Types.SignedVote → Method x (Unit {0})
  cache_vote height msg = modify (λ s. record s {
    vote_cache =
        Map.insert height (or_keep (Map.get height s.vote_cache) [] ++ msg ∷ []) s.vote_cache;
  })

  unfoldable pub add_to_votes : Types.SignedVote → Method x (Unit {0})
  add_to_votes msg = modify (λ s. record s {
    votes =
        (add_vote x.lru s.votes msg.vote.height msg.vote.round msg.vote.vote_type
          (to_bft_vote msg.vote) msg).0;
  })

  -- The part under `if height >= self.height`.
  unfoldable pub keep_future : Types.SignedVote → Bool → Method x (Unit {0})
  keep_future msg need_wal = do
    let height = msg.vote.height
    now ← gets (λ s. s.height)
    if leb now height
        then (do
          log_json x (ltb (height - now) cache_number && need_wal) height log_type_raw_bytes
              (x.json_signed_vote.to_string msg) "SignedVote"
          if ltb now height then (do cache_vote height msg; raise future_msg) else pure tt)
        else pure tt

  unfoldable pub handle_signed_vote : Types.SignedVote → Bool → Method x bft.Vote
  handle_signed_vote msg need_wal = do
    let vote = msg.vote
    address ← verify_signature x msg.signature (vote_hash x vote)
    now ← gets (λ s. s.height)
    raise_if (ltb vote.height (dec_u64 now)) obsolete_msg
    raise_if (not (vote.voter == address)) signature_err
    keep_future msg need_wal
    add_to_votes msg
    check_vote_sender x vote.height vote.voter
    pure (to_bft_vote vote)

  unfoldable pub enter_height : ℕ → Method x (Unit {0})
  enter_height height = modify (λ s. record s {
    verified_block = [];
    block_origin_cache = [];
    block = none;
    height = height;
  })

  unfoldable pub goto_new_height : ℕ → Method x (Unit {0})
  goto_new_height height = do
    enter_height (add_u64 height 1)
    on_wal x (set_height (add_u64 height 1)) "CreateNewHeight"

  unfoldable pub new_authority : Status → Method x (Unit {0})
  new_authority rich_status = modify (λ s. record s {
    authority = update_authority s.authority s.height rich_status.authority_list;
  })

  unfoldable pub handle_rich_status : Status → Bool → Method x bft.Status
  handle_rich_status rich_status need_wal = do
    now ← gets (λ s. s.height)
    raise_if (ltb rich_status.height now) obsolete_msg
    log_json x need_wal rich_status.height log_type_rich_status
        (x.json_status.to_string rich_status) "Status"
    new_authority rich_status
    goto_new_height rich_status.height
    pure (to_bft_status rich_status)
