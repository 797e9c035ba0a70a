-- ===== src/Consensus/Checks.antt =====
-- src/consensus.rs: the checks of what other nodes send.
use consensus_bft.Prelude.{
  ℕ, ◌*◌, ◌%◌, Bool, true, false, ◌&&◌, ◌||◌, Option, none, some, List, [], ◌∷◌, map, if◌then◌else◌,
  ltb, leb, ◌==◌, nat_eq, not, contains, length, get_elem?,
}
use consensus_bft.Prelude.Exec.{◌>>=◌, ◌>>◌, pure, abort, raise_if, gets, modify, or_raise, on_some}
use consensus_bft.Prelude.Words.{Bytes, bytes_eq, add_u64, dec_u64}
use consensus_bft.Error.{
  support_err, obsolete_msg, signature_err, block_verify_diff, invalid_voter, no_authority_list,
  invalid_proposer, illegal_proposal_lock, proof_err,
}
use consensus_bft.Types.{
  Address, Signature, Hash, Node, Proof, Vote, SignedVote, SignedProposal, prevote,
}
use consensus_bft.Types.Authority.{AuthorityManage, set_insert, is_above_threshold, contains_sender}
use consensus_bft.Types.Convert.{to_bft_vote}
use consensus_bft.Types.Codec.{encode_vote}
use consensus_bft.Util.Weights.{into_addr_set}
use consensus_bft.Util.CheckProof.{precommit_of}
use consensus_bft.Collection.{add_vote}
use consensus_bft.Consensus.Outside.{Outside}
use consensus_bft.Consensus.State.{Method}

-- The list and the set of a height: the old ones at the height of the old authority.
abbrev pub authorities_at : AuthorityManage → ℕ → List Node
authorities_at m height = if height == m.authority_h_old then m.authorities_old else m.authorities

abbrev pub address_set_at : AuthorityManage → ℕ → List Address
address_set_at m height = if height == m.authority_h_old then m.address_set_old else m.address_set

module _ {F : Type 0} (x : Outside F) where
  -- `self.function.hash(&vote.rlp_bytes())`
  abbrev pub vote_hash : Vote → Hash
  vote_hash v = x.support.hash (x.rlp.to_bytes (encode_vote x.rlp v))

  -- `self.function.verify_signature(sig, &hash).map_err(..)?`
  abbrev pub verify_signature : Bytes → Bytes → Method x Address
  verify_signature sig hash =
      or_raise (x.support.verify_signature sig hash) (support_err "Verify signature error")

  unfoldable pub check_proposer : ℕ → ℕ → Address → Method x (Unit {0})
  check_proposer height round address = do
    authority ← gets (λ s. s.authority)
    let auth_list = map (λ node. node.address) (authorities_at authority height)
    raise_if (length auth_list == 0) no_authority_list
    on_some (get_elem? auth_list (add_u64 height round % length auth_list))
        (λ proposer. raise_if (not (proposer == address)) invalid_proposer) abort

  unfoldable pub add_prevote : ℕ → ℕ → SignedVote → Method x (Unit {0})
  add_prevote height round signed_vote = modify (λ s. record s {
    votes =
        (add_vote x.lru s.votes height round prevote (to_bft_vote signed_vote.vote) signed_vote).0;
  })

  unfoldable pub check_signed_vote : ℕ → ℕ → Hash → SignedVote → Method x Address
  check_signed_vote height round proposal_hash signed_vote = do
    let vote = signed_vote.vote
    now ← gets (λ s. s.height)
    raise_if (ltb height (dec_u64 now)) obsolete_msg
    raise_if (not (vote.proposal == proposal_hash)) block_verify_diff
    authority ← gets (λ s. s.authority)
    raise_if (not (contains (address_set_at authority height) vote.voter)) invalid_voter
    address ← verify_signature signed_vote.signature (vote_hash vote)
    raise_if (not (address == vote.voter)) signature_err
    add_prevote height round signed_vote
    pure vote.voter

  -- The loop of `check_lock_votes`: the senders so far are in `set`.
  unfoldable pub check_votes :
      ℕ → ℕ → Hash → List SignedVote → List Address → Method x (List Address)
  check_votes height lock_round proposal_hash [] set = pure set
  check_votes height lock_round proposal_hash (vote ∷ votes) set = do
    sender ← check_signed_vote height lock_round proposal_hash vote
    raise_if (not (set_insert set sender).1) block_verify_diff
    check_votes height lock_round proposal_hash votes (set_insert set sender).0

  unfoldable pub check_lock_votes : SignedProposal → Hash → Method x (Unit {0})
  check_lock_votes signed_proposal proposal_hash =
      let proposal = signed_proposal.proposal in
      on_some proposal.lock_round
        (λ lock_round. do
          set ← check_votes proposal.height lock_round proposal_hash proposal.lock_votes []
          authority ← gets (λ s. s.authority)
          let is_old = proposal.height == authority.authority_h_old
          raise_if
              (not (
                is_above_threshold authority (length set) is_old
                && contains_sender authority set is_old))
              illegal_proposal_lock)
        (pure tt)

  -- The loop of `verify_proof`: a signature that recovers to no address is passed over.
  unfoldable pub votes_verified : Proof → List Address → List (Address × Signature) → Bool
  votes_verified proof authority [] = true
  votes_verified proof authority ((sender, sig) ∷ votes) =
      let rest = votes_verified proof authority votes in
      if contains authority sender
      then elim (x.support.verify_signature sig (vote_hash (precommit_of proof sender))) [
        | some address ↦ if not (address == sender) then false else rest
        | none ↦ rest
      ]
      else false

  unfoldable pub verify_proof : Proof → ℕ → List Node → Bool
  verify_proof proof h authority =
      if h == 0
      then true
      else let addresses = into_addr_set authority in
        if not (h == proof.height) || leb (3 * length proof.precommit_votes) (2 * length addresses)
        then false
        else votes_verified proof addresses proof.precommit_votes

  unfoldable pub set_proof : Proof → Method x (Unit {0})
  set_proof proof = modify (λ s. record s { proof = some proof })

  -- `self.proof.is_none() || self.proof.height != height - 1`
  abbrev pub is_stale : Option Proof → ℕ → Bool
  is_stale none h = true
  is_stale (some p) h = not (p.height == h)

  -- The authorities of the height before, at a height.
  abbrev pub proof_authorities : AuthorityManage → ℕ → List Node
  proof_authorities m before =
      if m.authority_h_old == before then m.authorities_old else m.authorities

  unfoldable pub check_proof : ℕ → Proof → Method x (Unit {0})
  check_proof height proof = do
    s ← gets (λ s. s)
    let before = dec_u64 height
    raise_if (not (height == s.height)) proof_err
    raise_if (not (verify_proof proof before (proof_authorities s.authority before))) proof_err
    if is_stale s.proof before then set_proof proof else pure tt

  unfoldable pub check_vote_sender : ℕ → Address → Method x (Unit {0})
  check_vote_sender height sender = do
    authority ← gets (λ s. s.authority)
    raise_if (not (contains (address_set_at authority height) sender)) invalid_voter
