-- ===== src/Collection/Votes.antt =====
-- src/collection.rs: `VoteCollector`. A vote is stored once, the first signed vote of it stays, and
-- nothing else appears.
use consensus_bft.Prelude.{
  ℕ, ◌≡◌, ◌≢◌, ap, sym, subst, ◌∙◌, ◌⊎◌, inl, inr, ◌&&◌, some, ◌==◌, nat_eq, arith, some_eq,
  Option-cases, if◌then◌else◌,
}
use mathlib.Core.Path.{subst₂}
use native.Mathlib.Decide.{ℕ_discrete}
use consensus_bft.Prelude.Map.{or_keep}
use consensus_bft.BftCore as bft
use consensus_bft.BftCore.{vote_eq}
use consensus_bft.Lru.{LruCrate}
use consensus_bft.Lru.Upsert.{capacity-upsert, get-upsert_self, get-upsert_ne, get-new}
use consensus_bft.Types.{VoteType, vote_type_eq, SignedVote}
use consensus_bft.Collection.{
  cache_number, StepCollector, RoundCollector, VoteCollector, new_round_collector,
  new_vote_collector, add_to_round, add_vote,
}
use consensus_bft.Collection.Lookup.{
  stored, RoundFits, IsWellFormed, votes-add_vote, add_to_round-Fits, stored_in_round_self,
  stored_in_round-ne, stored-some, stored_inv, stored-keep, none≢some,
}

module _ (lru : LruCrate) where
  pub new_vote_collector-IsWellFormed : IsWellFormed lru (new_vote_collector lru)
  new_vote_collector-IsWellFormed = record {
    capacity = lru.capacity-new (RoundCollector lru) cache_number;
    rounds =
        λ h rc e. absurd (none≢some (sym (get-new lru (RoundCollector lru) cache_number h) ∙ e));
  }

  kept-Fits :
      (c : VoteCollector lru) (h : ℕ)
      → IsWellFormed lru c
      → RoundFits lru (or_keep (lru.get h c.votes) (new_round_collector lru))
  kept-Fits c h wf = elim (Option-cases (lru.get h c.votes)) [
    | inl e ↦ rw e (record { capacity = lru.capacity-new StepCollector cache_number })
    | inr (rc, e) ↦ rw e (wf.rounds h rc e)
  ]

  module _ (c : VoteCollector lru) (h r : ℕ) (t : VoteType) (v : bft.Vote) (sv : SignedVote) where
    -- The round collector that an `add` writes.
    abbrev written : RoundCollector lru
    written = (add_to_round lru (or_keep (lru.get h c.votes) (new_round_collector lru)) r t v sv).0

    get-add_vote_self :
        IsWellFormed lru c → lru.get h (add_vote lru c h r t v sv).0.votes ≡ some written
    get-add_vote_self wf =
        ap (lru.get h) (votes-add_vote lru c h r t v sv)
        ∙ get-upsert_self lru h written c.votes (rw wf.capacity (omega arith))

    get-add_vote_ne :
        (k : ℕ) (rc : RoundCollector lru)
        → k ≢ h
        → lru.get k (add_vote lru c h r t v sv).0.votes ≡ some rc
        → lru.get k c.votes ≡ some rc
    get-add_vote_ne k rc ne e =
        get-upsert_ne lru k h written c.votes rc ne
          (sym (ap (lru.get k) (votes-add_vote lru c h r t v sv)) ∙ e)

    -- `add` keeps every cache of a collector at its capacity.
    pub add_vote-IsWellFormed : IsWellFormed lru c → IsWellFormed lru (add_vote lru c h r t v sv).0
    add_vote-IsWellFormed wf = record {
      capacity =
          ap lru.capacity (votes-add_vote lru c h r t v sv)
          ∙ capacity-upsert lru h written c.votes
          ∙ wf.capacity;
      rounds = λ k rc e. elim (ℕ_discrete k h) [
        | no ne ↦ wf.rounds k rc (get-add_vote_ne k rc ne e)
        | yes same ↦
            let at_h : lru.get h (add_vote lru c h r t v sv).0.votes ≡ some rc =
              subst (λ j. lru.get j (add_vote lru c h r t v sv).0.votes ≡ some rc) same e in
            subst (λ z. RoundFits lru z) (some_eq (sym (get-add_vote_self wf) ∙ at_h))
              (add_to_round-Fits lru (or_keep (lru.get h c.votes) (new_round_collector lru)) r t v
                sv (kept-Fits c h wf))
      ];
    }

    -- In a well-formed collector, at the height and the round of an `add`, the vote that is added has the
    -- signed vote that it had, or else the new one, and every other vote has what it had.
    pub stored-add_vote_here :
        (u : VoteType) (w : bft.Vote)
        → IsWellFormed lru c
        → stored lru (add_vote lru c h r t v sv).0 h r u w ≡ (
            if (t == u) && (v == w)
            then some (or_keep (stored lru c h r t v) sv)
            else stored lru c h r u w)
    stored-add_vote_here u w wf =
        stored-some lru (add_vote lru c h r t v sv).0 h r u w written (get-add_vote_self wf)
        ∙ stored_in_round_self lru (or_keep (lru.get h c.votes) (new_round_collector lru)) r t u v w
            sv (kept-Fits c h wf)
        ∙ (λ i.
            if (t == u) && (v == w)
            then some (or_keep (stored-keep lru c h r t v i) sv)
            else stored-keep lru c h r u w i)

    -- The votes of another height or of another round stay, or go with their cache entry.
    stored-add_vote_other_height :
        (k q : ℕ) (u : VoteType) (w : bft.Vote) (x : SignedVote)
        → k ≢ h
        → stored lru (add_vote lru c h r t v sv).0 k q u w ≡ some x
        → stored lru c k q u w ≡ some x
    stored-add_vote_other_height k q u w x ne p =
        let (rc, found, at_round) = stored_inv lru (add_vote lru c h r t v sv).0 k q u w x p in
        stored-some lru c k q u w rc (get-add_vote_ne k rc ne found) ∙ at_round

    stored-add_vote_other_round :
        (q : ℕ) (u : VoteType) (w : bft.Vote) (x : SignedVote)
        → IsWellFormed lru c
        → q ≢ r
        → stored lru (add_vote lru c h r t v sv).0 h q u w ≡ some x
        → stored lru c h q u w ≡ some x
    stored-add_vote_other_round q u w x wf ne p =
        let at_round =
          sym (stored-some lru (add_vote lru c h r t v sv).0 h q u w written (get-add_vote_self wf))
          ∙ p in
        sym (stored-keep lru c h q u w)
        ∙ stored_in_round-ne lru (or_keep (lru.get h c.votes) (new_round_collector lru)) r q t u v w
            sv x ne at_round

    stored-add_vote_same :
        (u : VoteType) (w : bft.Vote) (x : SignedVote)
        → IsWellFormed lru c
        → stored lru (add_vote lru c h r t v sv).0 h r u w ≡ some x
        → (stored lru c h r u w ≡ some x) ⊎ ((u ≡ t) × (w ≡ v) × (x ≡ sv))
    stored-add_vote_same u w x wf p =
        ground (arith, stored-add_vote_here u w wf, vote_type_eq.beq_iff t u, vote_eq.beq_iff v w)

    -- Whatever is stored after an `add` to a well-formed collector was stored before, or is the signed vote that was added.
    pub stored-add_vote_inv :
        (k q : ℕ) (u : VoteType) (w : bft.Vote) (x : SignedVote)
        → IsWellFormed lru c
        → stored lru (add_vote lru c h r t v sv).0 k q u w ≡ some x
        → (stored lru c k q u w ≡ some x) ⊎ ((k ≡ h) × (q ≡ r) × (u ≡ t) × (w ≡ v) × (x ≡ sv))
    stored-add_vote_inv k q u w x wf p = elim (ℕ_discrete k h) [
      | no ne ↦ inl (stored-add_vote_other_height k q u w x ne p)
      | yes same ↦ elim (ℕ_discrete q r) [
        | no ne ↦
            let here =
              subst (λ j. stored lru (add_vote lru c h r t v sv).0 j q u w ≡ some x) same p in
            inl (
              subst (λ j. stored lru c j q u w ≡ some x) (sym same)
                (stored-add_vote_other_round q u w x wf ne here))
        | yes same_round ↦
            let here =
              subst₂ (λ j n. stored lru (add_vote lru c h r t v sv).0 j n u w ≡ some x) same
                same_round p in
            elim (stored-add_vote_same u w x wf here) [
              | inl old ↦
                  inl
                    (subst₂ (λ j n. stored lru c j n u w ≡ some x) (sym same) (sym same_round) old)
              | inr (e, f, g) ↦ inr (same, same_round, e, f, g)
            ]
      ]
    ]
