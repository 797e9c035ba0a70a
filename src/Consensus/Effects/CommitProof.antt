-- ===== src/Consensus/Effects/CommitProof.antt =====
-- src/consensus.rs: whose signatures the proof of a commit holds.
use consensus_bft.Prelude.{◌≡◌, true, contains, subst, ap, ◌∙◌, ◌⊎◌, Bool, ok, some}
use consensus_bft.Prelude.Map
use consensus_bft.Prelude.Words.{bytes_eq}
use consensus_bft.BftCore as bft
use consensus_bft.BftCore.{vote_eq}
use consensus_bft.Types
use consensus_bft.Types.{Address, Signature, SignedVote, precommit}
use consensus_bft.Types.Convert.{to_bft_vote}
use consensus_bft.Consensus.Outside.{Outside}
use consensus_bft.Consensus.State.{Consensus}
use consensus_bft.Consensus.Handlers.Core.{handle_commit}
use consensus_bft.Consensus.Steps.{Verifies, Signs}
use consensus_bft.Consensus.Invariants.Votes.{VotesFit}
use consensus_bft.Consensus.Effects.Commit.{handle_commit_ok}

module _ {F : Type 0} (x : Outside F) where
  -- A signature of an address is that of a signed vote of this voter, which is one of the lock votes of
  -- the commit, and which the voter or this node has signed.
  pub record IsOf (c : bft.Commit) (a : Address) (sig : Signature) : Type 0 where
    pub signed : SignedVote
    pub signature : sig ≡ signed.signature
    pub voter : a ≡ signed.vote.voter
    pub listed : contains c.lock_votes (to_bft_vote signed.vote) ≡ true
    pub by : Verifies x signed ⊎ Signs x signed

  -- When the stored votes are authentic, every signature in the proof of a commit that `handle_commit`
  -- makes is that of a lock vote of the commit, whose voter is the address beside it, and it recovers to
  -- this address or this node has made it.
  pub proof-handle_commit :
      (c : bft.Commit) (b : Bool) (s t : Consensus x) (done : Types.Commit F) (a : Address)
      (sig : Signature)
      → VotesFit x s.votes
      → handle_commit x c b s ≡ (ok done, t)
      → Map.get a done.proof.precommit_votes ≡ some sig
      → IsOf c a sig
  unfolding to_bft_vote
  proof-handle_commit c b s t done a sig fit e q =
      let (commit, _) = handle_commit_ok x c b s t done e in
      let f = commit.proof.votes a sig q in
      let known = fit.signed c.height c.round precommit f.vote f.signed f.found in
      record {
        signed = f.signed;
        signature = f.signature;
        voter = f.voter ∙ ap (λ v. v.voter) known.vote;
        listed = subst (λ v. contains c.lock_votes v ≡ true) known.vote f.listed;
        by = known.by;
      }
