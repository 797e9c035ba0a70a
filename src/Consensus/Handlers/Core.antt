-- ===== src/Consensus/Handlers/Core.antt =====
-- src/consensus.rs: the handlers of what the core puts out: proposals, votes and commits of this node.
use consensus_bft.Prelude.{
  ℕ, Bool, true, false, ◌&&◌, Option, none, some, List, [], ◌∷◌, Outcome, ok, err, panic,
  if◌then◌else◌, ltb, ◌==◌, nat_eq, not,
}
use consensus_bft.Prelude.Exec.{◌>>=◌, ◌>>◌, pure, lift, raise_if, gets, modify, or_raise, on_some}
use consensus_bft.Prelude.Map
use consensus_bft.Prelude.Map.{Map}
use consensus_bft.Prelude.Words.{Bytes, bytes_eq}
use consensus_bft.BftCore as bft
use consensus_bft.BftCore.{vote_eq}
use consensus_bft.Error.{
  ConsensusError, bft_core_err, missing_proof, no_voteset, lose_signed_vote, lose_block, encode_err,
}
use consensus_bft.Types
use consensus_bft.Types.{Hash, Proof, Address, Signature, Commit, prevote, precommit}
use consensus_bft.Types.Convert.{from_bft_vote}
use consensus_bft.Types.Codec.{encode_proposal, encode_signed_proposal}
use consensus_bft.Util.Framing.{combine, encode_block}
use consensus_bft.Collection.{add_vote, VoteSet, get_vote_set}
use consensus_bft.Consensus.Outside.{Outside}
use consensus_bft.Consensus.State.{
  Method, sign, check_proposal, log_json, log_type_proposal, log_type_vote, log_type_commit,
}
use consensus_bft.Consensus.Checks.{vote_hash, set_proof}
use consensus_bft.Consensus.Handlers.{add_to_proposals}

-- `for vote in lock_votes { if let Some(v) = vote_set.vote_pair.get(&vote) { .. } else { return Err } }`
unfoldable pub find_votes :
    Map bft.Vote Types.SignedVote → List bft.Vote → Outcome ConsensusError (List Types.SignedVote)
find_votes pairs [] = ok []
find_votes pairs (v ∷ vs) =
    let rest = find_votes pairs vs in
    elim (Map.get v pairs) [
      | none ↦ err lose_signed_vote
      | some sv ↦ elim rest [ ok svs ↦ ok (sv ∷ svs) | err e ↦ err e | panic ↦ panic ]
    ]

-- The loop of `generate_proof`: the first signature of a voter stays.
unfoldable pub collect_signatures :
    Map bft.Vote Types.SignedVote
    → List bft.Vote
    → Map Address Signature
    → Outcome ConsensusError (Map Address Signature)
collect_signatures pairs [] tmp = ok tmp
collect_signatures pairs (v ∷ vs) tmp = elim (Map.get v pairs) [
  | none ↦ err lose_signed_vote
  | some sv ↦ collect_signatures pairs vs (Map.or_insert v.voter sv.signature tmp)
]

abbrev pub vote_type_of : bft.VoteType → Types.VoteType
vote_type_of bft.VoteType.prevote = prevote
vote_type_of bft.VoteType.precommit = precommit

abbrev pub first_proof : Hash → Proof
first_proof hash = record { block_hash = hash; height = 0; round = 0; precommit_votes = [] }

-- `self.proof`, which the guard of `build_signed_proposal` requires above height 1.
abbrev pub proof_of : Hash → ℕ → Option Proof → Outcome ConsensusError Proof
proof_of hash height found =
    if height == 1 then ok (first_proof hash) else elim found [ some p ↦ ok p | none ↦ panic ]

abbrev pub is_none : {A : Type 0} → Option A → Bool
is_none none = true
is_none (some a) = false

module _ {F : Type 0} (x : Outside F) where
  -- `self.votes.get_vote_set(..)`
  unfoldable pub read_vote_set : ℕ → ℕ → Types.VoteType → Method x (Option VoteSet)
  read_vote_set height round vote_type s =
      let (votes, found) = get_vote_set x.lru s.votes height round vote_type in
      (ok found, record s { votes = votes })

  unfoldable pub generate_proof : ℕ → ℕ → Hash → List bft.Vote → Method x Proof
  generate_proof height round block_hash votes = do
    found ← read_vote_set height round precommit
    set ← or_raise found no_voteset
    signatures ← lift (collect_signatures set.vote_pair votes [])
    pure (record {
      block_hash = block_hash;
      height = height;
      round = round;
      precommit_votes = signatures;
    })

  unfoldable pub handle_commit : bft.Commit → Bool → Method x (Commit F)
  handle_commit commit need_wal = do
    now ← gets (λ s. s.height)
    raise_if (ltb commit.height now) bft_core_err
    log_json x need_wal commit.height log_type_commit (x.json_bft_commit.to_string commit)
        "BftCommit"
    cache ← gets (λ s. s.block_origin_cache)
    content ← or_raise (Map.get commit.proposal cache) lose_block
    proof ← generate_proof commit.height commit.round commit.proposal commit.lock_votes
    set_proof x proof
    pure (record {
      height = commit.height;
      result = content;
      proof = proof;
      address = commit.address;
    })

  unfoldable pub add_own_vote : bft.Vote → Types.SignedVote → Method x (Unit {0})
  add_own_vote vote res = modify (λ s. record s {
    votes =
        (add_vote x.lru s.votes vote.height vote.round (vote_type_of vote.vote_type) vote res).0;
  })

  unfoldable pub handle_vote : bft.Vote → Bool → Method x Types.SignedVote
  handle_vote vote need_wal = do
    now ← gets (λ s. s.height)
    raise_if (ltb vote.height now) bft_core_err
    log_json x need_wal vote.height log_type_vote (x.json_bft_vote.to_string vote) "BftVote"
    let vtype = vote_type_of vote.vote_type
    let signed_vote = from_bft_vote vote vtype
    signature ← sign x (vote_hash x signed_vote) "Sign vote error"
    let res : Types.SignedVote = record { vote = signed_vote; signature = signature }
    add_own_vote vote res
    pure res

  -- The lock votes of `build_signed_proposal`, from the stored prevotes of the proposal's round.
  unfoldable pub lock_votes_of : bft.Proposal → Method x (List Types.SignedVote)
  lock_votes_of proposal =
      on_some proposal.lock_round
        (λ _. do
          found ← read_vote_set proposal.height proposal.round prevote
          set ← or_raise found no_voteset
          lift (find_votes set.vote_pair proposal.lock_votes))
        (pure [])

  unfoldable pub build_signed_proposal : bft.Proposal → Method x Types.SignedProposal
  build_signed_proposal proposal = do
    s ← gets (λ s. s)
    raise_if (is_none s.proof && not (s.height == 1)) missing_proof
    lock_votes ← lock_votes_of proposal
    s ← gets (λ s. s)
    proof ← lift (proof_of proposal.content s.height s.proof)
    let signed_proposal : Types.Proposal = record {
      height = proposal.height;
      round = proposal.round;
      hash = proposal.content;
      proof = proof;
      lock_round = proposal.lock_round;
      lock_votes = lock_votes;
      proposer = proposal.proposer;
    }
    sig ←
        sign x (x.support.hash (x.rlp.to_bytes (encode_proposal x.rlp signed_proposal)))
          "Sign proposal error"
    pure (record { proposal = signed_proposal; signature = sig })

  unfoldable pub handle_proposal : bft.Proposal → Bool → Method x Bytes
  handle_proposal proposal need_wal = do
    now ← gets (λ s. s.height)
    raise_if (not (proposal.height == now)) bft_core_err
    let hash = proposal.content
    let is_lock = not (is_none proposal.lock_round)
    log_json x need_wal proposal.height log_type_proposal (x.json_bft_proposal.to_string proposal)
        "BftProposal"
    signed_proposal ← build_signed_proposal proposal
    add_to_proposals x proposal.height proposal.round signed_proposal
    s ← gets (λ s. s)
    content ← or_raise (Map.get hash s.block_origin_cache) lose_block
    content_encode ← or_raise (x.content.encode content) encode_err
    let encode =
        combine (x.rlp.to_bytes (encode_signed_proposal x.rlp signed_proposal))
          (encode_block s.height content_encode hash)
    check_proposal x hash content encode is_lock true
    pure encode
