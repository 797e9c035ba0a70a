-- ===== src/Collection/Proposals.antt =====
-- src/collection.rs: `ProposalCollector`. The first proposal of a height and a round stays.
use consensus_bft.Prelude.{ℕ, ◌≡◌, ap, ◌∙◌, inl, inr, Option, none, some, arith, Option-cases}
use consensus_bft.Prelude.Map.{or_keep}
use consensus_bft.Lru.{LruCrate, is_some}
use consensus_bft.Lru.Upsert.{get-new}
use consensus_bft.Types.{SignedProposal}
use consensus_bft.Collection.{
  cache_number, ProposalRoundCollector, ProposalCollector, new_proposal_round_collector,
  add_round_proposal, add_proposal,
}

module _ (lru : LruCrate) where
  unfoldable pub proposal_in_round : ProposalRoundCollector lru → ℕ → Option SignedProposal
  proposal_in_round c r = lru.get r c.round_proposals

  unfoldable pub stored_proposal : ProposalCollector lru → ℕ → ℕ → Option SignedProposal
  stored_proposal c h r = elim (lru.get h c.proposals) [
    | some rc ↦ proposal_in_round rc r
    | none ↦ none
  ]

  pub record ProposalsFit (c : ProposalCollector lru) : Type 0 where
    pub capacity : lru.capacity c.proposals ≡ cache_number
    pub rounds :
        (h : ℕ) (rc : ProposalRoundCollector lru)
        → lru.get h c.proposals ≡ some rc
        → lru.capacity rc.round_proposals ≡ cache_number

  proposal-add_round_proposal :
      (c : ProposalRoundCollector lru) (r : ℕ) (p : SignedProposal)
      → lru.capacity c.round_proposals ≡ cache_number
      → proposal_in_round (add_round_proposal lru c r p).0 r
        ≡ some (or_keep (proposal_in_round c r) p)
  unfolding add_round_proposal proposal_in_round
  proposal-add_round_proposal c r p h = elim (Option-cases (lru.get r c.round_proposals)) [
    | inl e ↦
        rw (e, add_round_proposal) (lru.get-insert_self r p c.round_proposals (rw h (omega arith)))
    | inr (q, e) ↦ rw (e, add_round_proposal) e
  ]

  -- In a collector whose caches have their capacity, the first proposal of a height and a round is the
  -- one that is kept.
  pub stored_proposal-add_proposal :
      (c : ProposalCollector lru) (h r : ℕ) (p : SignedProposal)
      → ProposalsFit c
      → stored_proposal (add_proposal lru c h r p).0 h r ≡ some (or_keep (stored_proposal c h r) p)
  unfolding add_proposal stored_proposal proposal_in_round
  stored_proposal-add_proposal c h r p fit = elim (Option-cases (lru.get h c.proposals)) [
    | inl e ↦
        let rc = (add_round_proposal lru (new_proposal_round_collector lru) r p).0 in
        rw (e, add_proposal, stored_proposal)
          (rw (lru.get-insert_self h rc c.proposals (rw fit.capacity (omega arith))) (
            proposal-add_round_proposal (new_proposal_round_collector lru) r p
              (lru.capacity-new SignedProposal cache_number)
            ∙ ap (λ (o : Option SignedProposal). some (or_keep o p))
                (get-new lru SignedProposal cache_number r)))
    | inr (rc, e) ↦
        let rc' = (add_round_proposal lru rc r p).0 in
        rw (e, add_proposal, stored_proposal)
          (rw (lru.get-update_self h rc' c.proposals (ap is_some e))
            (proposal-add_round_proposal rc r p (fit.rounds h rc e)))
  ]
