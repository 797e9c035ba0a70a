-- ===== src/Consensus/Steps/Received.antt =====
-- src/consensus.rs: what the checks and the handlers of received messages keep.
use Prim.Native.String.{String}
use consensus_bft.Prelude.{ℕ, ◌≡◌, Bool, false, Option, some, List, [], ◌∷◌, not, ◌==◌, arith}
use consensus_bft.Prelude.Exec.Keeps.{
  Keeps, keeps_rules, Keeps-bind, Keeps-verified, Keeps-guard, Keeps-gets, Keeps-raise_if,
}
use consensus_bft.Prelude.Words.{Bytes, bytes_eq}
use consensus_bft.Types
use consensus_bft.Types.{Hash, Address, Proof, Status, Commit, AsyncMsg, ConsensusOutput}
use consensus_bft.Consensus.Outside.{Outside}
use consensus_bft.Consensus.State.{Consensus, save_json, log_json}
use consensus_bft.Consensus.Checks
use consensus_bft.Consensus.Checks.{vote_hash}
use consensus_bft.Consensus.Handlers
use consensus_bft.Consensus.Steps.{Steps}

verified : (o : Option Address) (a b : Address) → o ≡ some a → not (a == b) ≡ false → o ≡ some b
verified o a b e p = ground (arith, bytes_eq.beq_iff a b)

module _ {F : Type 0} (x : Outside F) {Q : Status → Type 0} {P : Consensus x → Type 0}
    (st : Steps x Q P) where
  Keeps-save_json : (h t : ℕ) (j : Option Bytes) (n : String) → Keeps P (save_json x h t j n)
  unfolding save_json
  Keeps-save_json h t j n = search (keeps_rules, st.logs)

  pub Keeps-log_json :
      (b : Bool) (h t : ℕ) (j : Option Bytes) (n : String) → Keeps P (log_json x b h t j n)
  unfolding log_json
  Keeps-log_json b h t j n = search (keeps_rules, Keeps-save_json)

  Keeps-check_proposer : (h r : ℕ) (a : Address) → Keeps P (Checks.check_proposer x h r a)
  unfolding Checks.check_proposer
  Keeps-check_proposer h r a = search keeps_rules

  Keeps-verified_prevote :
      (h r : ℕ) (sv : Types.SignedVote) (a : Address)
      → x.support.verify_signature sv.signature (vote_hash x sv.vote) ≡ some a
      → not (a == sv.vote.voter) ≡ false
      → Keeps P (Checks.add_prevote x h r sv)
  Keeps-verified_prevote h r sv a e p = st.prevote h r sv (verified _ a sv.vote.voter e p)

  Keeps-check_signed_vote :
      (h r : ℕ) (p : Hash) (sv : Types.SignedVote) → Keeps P (Checks.check_signed_vote x h r p sv)
  unfolding Checks.check_signed_vote
  Keeps-check_signed_vote h r p sv = Keeps-bind _ _ (Keeps-gets _) λ now.
      Keeps-bind _ _ (Keeps-raise_if _ _) λ _. Keeps-bind _ _ (Keeps-raise_if _ _) λ _.
        Keeps-bind _ _ (Keeps-gets _) λ authority. Keeps-bind _ _ (Keeps-raise_if _ _) λ _.
          Keeps-verified _ _ _
            λ a e. Keeps-guard _ _ _ λ p. search (keeps_rules, Keeps-verified_prevote h r sv a e p)

  Keeps-check_votes :
      (h r : ℕ) (p : Hash) (svs : List Types.SignedVote) (set : List Address)
      → Keeps P (Checks.check_votes x h r p svs set)
  unfolding Checks.check_votes
  Keeps-check_votes h r p [] set = search keeps_rules
  Keeps-check_votes h r p (sv ∷ svs) set =
      search (keeps_rules, Keeps-check_signed_vote, Keeps-check_votes h r p svs)

  Keeps-check_lock_votes :
      (sp : Types.SignedProposal) (h : Hash) → Keeps P (Checks.check_lock_votes x sp h)
  unfolding Checks.check_lock_votes
  Keeps-check_lock_votes sp h = search (keeps_rules, Keeps-check_votes)

  Keeps-check_proof : (h : ℕ) (p : Proof) → Keeps P (Checks.check_proof x h p)
  unfolding Checks.check_proof
  Keeps-check_proof h p = search (keeps_rules, st.proof)

  Keeps-check_vote_sender : (h : ℕ) (a : Address) → Keeps P (Checks.check_vote_sender x h a)
  unfolding Checks.check_vote_sender
  Keeps-check_vote_sender h a = search keeps_rules

  Keeps-verify_resp_of : (p : Types.Proposal) (h : Bytes) → Keeps P (Handlers.verify_resp_of x p h)
  unfolding Handlers.verify_resp_of
  Keeps-verify_resp_of p h = search (keeps_rules, st.checks)

  Keeps-answer_proposal :
      (p : Types.Proposal) (h : Bytes) → Keeps P (Handlers.answer_proposal x p h)
  unfolding Handlers.answer_proposal
  Keeps-answer_proposal p h = search (keeps_rules, Keeps-verify_resp_of, Keeps-check_proof)

  pub Keeps-handle_signed_proposal :
      (sp : Types.SignedProposal) (b : Bool) (h : Bytes)
      → Keeps P (Handlers.handle_signed_proposal x sp b h)
  unfolding Handlers.handle_signed_proposal
  Keeps-handle_signed_proposal sp b h =
      search
        (
          keeps_rules, Keeps-log_json, st.proposal, Keeps-check_proposer, Keeps-check_lock_votes,
          Keeps-answer_proposal,
        )
        depth 16

  Keeps-verified_vote :
      (sv : Types.SignedVote) (a : Address)
      → x.support.verify_signature sv.signature (vote_hash x sv.vote) ≡ some a
      → not (sv.vote.voter == a) ≡ false
      → Keeps P (Handlers.add_to_votes x sv)
  Keeps-verified_vote sv a e p = st.vote sv (ground (arith, bytes_eq.beq_iff sv.vote.voter a))

  Keeps-keep_future : (sv : Types.SignedVote) (b : Bool) → Keeps P (Handlers.keep_future x sv b)
  unfolding Handlers.keep_future
  Keeps-keep_future sv b = search (keeps_rules, Keeps-log_json, st.future_vote) depth 12

  pub Keeps-handle_signed_vote :
      (sv : Types.SignedVote) (b : Bool) → Keeps P (Handlers.handle_signed_vote x sv b)
  unfolding Handlers.handle_signed_vote
  Keeps-handle_signed_vote sv b = Keeps-verified _ _ _ λ a e. Keeps-bind _ _ (Keeps-gets _) λ now.
      Keeps-bind _ _ (Keeps-raise_if _ _) λ _. Keeps-guard _ _ _ λ p.
        Keeps-bind _ _ (Keeps-keep_future sv b) λ _.
          Keeps-bind _ _ (Keeps-verified_vote sv a e p)
            λ _. search (keeps_rules, Keeps-check_vote_sender)
