-- ===== src/Consensus/Accepts/SignedProposal.antt =====
-- src/consensus.rs: `handle_signed_proposal`, when it succeeds.
use consensus_bft.Prelude.{
  ℕ, ◌≡◌, ap, sym, ◌∙◌, subst, inl, inr, Bool, false, Option, some, ltb, ◌==◌, map, arith,
}
use consensus_bft.Prelude.Exec.{◌>>=◌}
use consensus_bft.Prelude.Words.{Bytes, add_u64}
use consensus_bft.BftCore as bft
use consensus_bft.Types
use consensus_bft.Types.{Address, Status}
use consensus_bft.Types.Authority.{AuthorityManage}
use consensus_bft.Consensus.Outside.{Outside}
use consensus_bft.Consensus.State.{Consensus}
use consensus_bft.Consensus.Steps.Frame.{Agree}
use consensus_bft.Prelude.{not, ltb, ok, Option-cases, nat_eq}
use consensus_bft.Prelude.Words.{bytes_eq, dec_u64}
use consensus_bft.Prelude.Exec.Runs.{
  branch_inv, bind_inv, guard_inv, verified_inv, read_inv, write_inv, pure_inv,
}
use consensus_bft.Types.{Hash, VoteType, SignedVote, SignedProposal, Proof, Vote, vote_type_eq}
use consensus_bft.Types.Convert.{to_bft_proposal}
use consensus_bft.BftCore.{vote_eq}
use consensus_bft.Consensus.State.{log_json}
use consensus_bft.Consensus.Checks.{authorities_at, check_proposer, check_lock_votes}
use consensus_bft.Consensus.Handlers.{handle_signed_proposal}
use consensus_bft.Consensus.Effects.RichStatus.{Agree-log_json}
use consensus_bft.Prelude.{length, get_elem?, ◌%◌}
use consensus_bft.Types.{VerifyResp}
use consensus_bft.Consensus.State.{log_type_signed_proposal}
use consensus_bft.Consensus.Checks.{check_proof}
use consensus_bft.Consensus.Handlers.{
  proposal_hash, add_to_proposals, answer_proposal, verify_resp_of,
}
use consensus_bft.Consensus.Accepts.LockVotes.{IsLock, check_lock_votes_ok}

-- The authority whose turn it is at a height and a round.
abbrev pub turn : AuthorityManage → ℕ → ℕ → Option Address
turn m height round =
    let addresses = map (λ node. node.address) (authorities_at m height) in
    get_elem? addresses (add_u64 height round % length addresses)

same_address : (a b : Address) → not (a == b) ≡ false → a ≡ b
same_address a b p = ground (arith, bytes_eq.beq_iff a b)

module _ {F : Type 0} (x : Outside F) where
  check_proposer_ok :
      (h r : ℕ) (a : Address) (s t : Consensus x) (u : Unit {0})
      → check_proposer x h r a s ≡ (ok u, t)
      → (turn s.authority h r ≡ some a) × (s ≡ t)
  unfolding check_proposer ◌>>=◌
  check_proposer_ok h r a s t u p = elim (Option-cases (turn s.authority h r)) [
    | inl e ↦ ground (arith, e)
    | inr (b, e) ↦ (ground (arith, e, bytes_eq.beq_iff b a), ground (arith, e))
  ]

  answer_proposal_ok :
      (p : Types.Proposal) (h : Bytes) (s t : Consensus x) (r : bft.Proposal × Option VerifyResp)
      → answer_proposal x p h s ≡ (ok r, t)
      → r.0 ≡ to_bft_proposal p p.hash
  unfolding answer_proposal
  answer_proposal_ok p h s t r q =
      let q = read_inv _ _ s _ q in
      elim (branch_inv (p.height == dec_u64 s.height) _ _ s _ q) [
        | inl (_, q) ↦ let (f, _) = pure_inv _ r s t q in ap (λ z. z.0) f
        | inr (_, q) ↦
            let (_, m, _, q) = bind_inv (verify_resp_of x p h) _ s t r q in
            let (_, n, _, q) = bind_inv (check_proof x p.height p.proof) _ m t r q in
            let (f, _) = pure_inv _ r n t q in ap (λ z. z.0) f
      ]

  -- What a proposal that is taken has passed.
  pub record IsTakenProposal (sp : SignedProposal) (m : AuthorityManage) (now : ℕ)
      (answer : bft.Proposal) : Type 0 where
    pub result : answer ≡ to_bft_proposal sp.proposal sp.proposal.hash
    pub signed :
        x.support.verify_signature sp.signature (proposal_hash x sp.proposal)
        ≡ some sp.proposal.proposer
    pub not_obsolete : ltb sp.proposal.height (dec_u64 now) ≡ false
    pub rightful : turn m sp.proposal.height sp.proposal.round ≡ some sp.proposal.proposer
    pub lock :
        (r : ℕ)
        → sp.proposal.lock_round ≡ some r
        → IsLock x sp.proposal.height sp.proposal.hash m sp.proposal.lock_votes

  -- A proposal that `handle_signed_proposal` takes is signed by its proposer, whose turn it is at the
  -- height and the round, is not below the height before the present one, and, when it is locked, has
  -- lock votes that have passed `check_lock_votes`. What goes to the core is this proposal.
  pub handle_signed_proposal_ok :
      (sp : SignedProposal) (b : Bool) (h : Bytes) (s t : Consensus x)
      (r : bft.Proposal × Option VerifyResp)
      → handle_signed_proposal x sp b h s ≡ (ok r, t)
      → IsTakenProposal sp s.authority s.height r.0
  unfolding handle_signed_proposal add_to_proposals
  handle_signed_proposal_ok sp b h s t r p =
      let (a, e, p) = verified_inv _ _ _ s t r p in
      let (same, p) = guard_inv _ _ _ s t r p in
      let p = read_inv _ _ s _ p in
      let (not_obsolete, p) = guard_inv _ _ _ s t r p in
      let log =
        log_json x b sp.proposal.height log_type_signed_proposal
          (x.json_signed_proposal.to_string sp) "SignedProposal" in
      let (_, m, logged, p) = bind_inv log _ s t r p in
      let agreed = subst (λ z. Agree x s z.1) logged (Agree-log_json x b _ _ _ _ s) in
      let p = write_inv _ _ m _ p in
      let (u, n, checked, p) =
        bind_inv (check_proposer x sp.proposal.height sp.proposal.round sp.proposal.proposer) _ _ t
          r p in
      let (rightful, at) =
        check_proposer_ok sp.proposal.height sp.proposal.round sp.proposal.proposer _ n u checked in
      let (v, o, locked, p) = bind_inv (check_lock_votes x sp sp.proposal.hash) _ n t r p in
      let authority = ap (λ z. z.authority) (sym at) ∙ agreed.authority in
      record {
        result = answer_proposal_ok sp.proposal h o t r p;
        signed = e ∙ ap some (sym (same_address sp.proposal.proposer a same));
        not_obsolete = not_obsolete;
        rightful =
            ap (λ z. turn z sp.proposal.height sp.proposal.round) (sym agreed.authority) ∙ rightful;
        lock = λ k is_lock.
            subst (λ z. IsLock x sp.proposal.height sp.proposal.hash z sp.proposal.lock_votes)
              authority (check_lock_votes_ok x sp sp.proposal.hash k n o v is_lock locked);
      }
