-- ===== src/Collection/Lookup.antt =====
-- src/collection.rs: what is stored where after an `add`.
use consensus_bft.Prelude.{
  ℕ, ◌≡◌, ◌≢◌, refl, ap, sym, ◌∙◌, inl, inr, ◌&&◌, Option, none, some, ◌==◌, nat_eq, arith,
  Option-cases, if◌then◌else◌,
}
use consensus_bft.Prelude.Map
use consensus_bft.Prelude.Map.{get-or_insert, get-insert, or_keep}
use consensus_bft.BftCore as bft
use consensus_bft.BftCore.{vote_eq}
use consensus_bft.Lru.{LruCrate}
use consensus_bft.Lru.Upsert.{upsert, capacity-upsert, get-upsert_self, get-upsert_ne, get-new}
use consensus_bft.Types.{VoteType, vote_type_eq, SignedVote}
use consensus_bft.Collection.{
  cache_number, StepCollector, new_vote_set, new_step_collector, add_to_set, add_to_step,
  RoundCollector, VoteCollector, new_round_collector, add_to_round, add_vote,
}

unfoldable pub stored_in_step : StepCollector → VoteType → bft.Vote → Option SignedVote
stored_in_step c t v = elim (Map.get t c.step_votes) [
  | some s ↦ Map.get v s.vote_pair
  | none ↦ none
]

-- A vote that is there already stays; every other vote is as it was.
pub stored-add_to_step :
    (c : StepCollector) (t u : VoteType) (v w : bft.Vote) (sv : SignedVote)
    → stored_in_step (add_to_step c t v sv).0 u w ≡ (
        if (t == u) && (v == w)
        then some (or_keep (stored_in_step c t v) sv)
        else stored_in_step c u w)
unfolding stored_in_step add_to_step add_to_set
stored-add_to_step c t u v w sv = ground (
  arith,
  get-insert u t (add_to_set (or_keep (Map.get t c.step_votes) new_vote_set) v sv).0 c.step_votes,
  get-or_insert w v sv (or_keep (Map.get t c.step_votes) new_vote_set).vote_pair,
  vote_type_eq.beq_iff t u,
  vote_eq.beq_iff v w,
)

pub none≢some : {A : Type 0} {a : A} → ◌≡◌ {A = Option A} none (some a) → ⊥
none≢some p = cc

module _ (lru : LruCrate) where
  unfoldable pub stored_in_round : RoundCollector lru → ℕ → VoteType → bft.Vote → Option SignedVote
  stored_in_round c r t v = elim (lru.get r c.round_votes) [
    | some sc ↦ stored_in_step sc t v
    | none ↦ none
  ]

  unfoldable pub stored : VoteCollector lru → ℕ → ℕ → VoteType → bft.Vote → Option SignedVote
  stored c h r t v = elim (lru.get h c.votes) [ some rc ↦ stored_in_round rc r t v | none ↦ none ]

  -- Every cache has the capacity with which it is made.
  pub record RoundFits (c : RoundCollector lru) : Type 0 where
    pub capacity : lru.capacity c.round_votes ≡ cache_number

  pub record IsWellFormed (c : VoteCollector lru) : Type 0 where
    pub capacity : lru.capacity c.votes ≡ cache_number
    pub rounds : (h : ℕ) (rc : RoundCollector lru) → lru.get h c.votes ≡ some rc → RoundFits rc

  -- `add` writes one entry: the old one, or a new one, with the vote added.
  round_votes-add_to_round :
      (c : RoundCollector lru) (r : ℕ) (t : VoteType) (v : bft.Vote) (sv : SignedVote)
      → (add_to_round lru c r t v sv).0.round_votes
        ≡ upsert lru r
            (add_to_step (or_keep (lru.get r c.round_votes) new_step_collector) t v sv).0
            c.round_votes
  unfolding add_to_round upsert
  round_votes-add_to_round c r t v sv = elim (Option-cases (lru.get r c.round_votes)) [
    | inl e ↦ rw (e, add_to_round, upsert) (rw e)
    | inr (sc, e) ↦ rw (e, add_to_round, upsert) (rw e)
  ]

  pub votes-add_vote :
      (c : VoteCollector lru) (h r : ℕ) (t : VoteType) (v : bft.Vote) (sv : SignedVote)
      → (add_vote lru c h r t v sv).0.votes
        ≡ upsert lru h
            (add_to_round lru (or_keep (lru.get h c.votes) (new_round_collector lru)) r t v sv).0
            c.votes
  unfolding add_vote upsert
  votes-add_vote c h r t v sv = elim (Option-cases (lru.get h c.votes)) [
    | inl e ↦ rw (e, add_vote, upsert) (rw e)
    | inr (rc, e) ↦ rw (e, add_vote, upsert) (rw e)
  ]

  pub add_to_round-Fits :
      (c : RoundCollector lru) (r : ℕ) (t : VoteType) (v : bft.Vote) (sv : SignedVote)
      → RoundFits c
      → RoundFits (add_to_round lru c r t v sv).0
  add_to_round-Fits c r t v sv h = record {
    capacity =
        ap lru.capacity (round_votes-add_to_round c r t v sv)
        ∙ capacity-upsert lru r _ c.round_votes
        ∙ h.capacity;
  }

  stored_in_round-keep :
      (c : RoundCollector lru) (r : ℕ) (t : VoteType) (v : bft.Vote)
      → stored_in_step (or_keep (lru.get r c.round_votes) new_step_collector) t v
        ≡ stored_in_round c r t v
  unfolding stored_in_round stored_in_step
  stored_in_round-keep c r t v = elim (Option-cases (lru.get r c.round_votes)) [
    | inl e ↦ rw (e, stored_in_round)
    | inr (sc, e) ↦ rw (e, stored_in_round)
  ]

  stored_in_round-some :
      (c : RoundCollector lru) (r : ℕ) (t : VoteType) (v : bft.Vote) (sc : StepCollector)
      → lru.get r c.round_votes ≡ some sc
      → stored_in_round c r t v ≡ stored_in_step sc t v
  unfolding stored_in_round
  stored_in_round-some c r t v sc e = rw (e, stored_in_round)

  pub stored_in_round_self :
      (c : RoundCollector lru) (r : ℕ) (t u : VoteType) (v w : bft.Vote) (sv : SignedVote)
      → RoundFits c
      → stored_in_round (add_to_round lru c r t v sv).0 r u w ≡ (
          if (t == u) && (v == w)
          then some (or_keep (stored_in_round c r t v) sv)
          else stored_in_round c r u w)
  stored_in_round_self c r t u v w sv h =
      let sc = or_keep (lru.get r c.round_votes) new_step_collector in
      let written =
        ap (lru.get r) (round_votes-add_to_round c r t v sv)
        ∙ get-upsert_self lru r (add_to_step sc t v sv).0 c.round_votes
            (rw h.capacity (omega arith)) in
      stored_in_round-some (add_to_round lru c r t v sv).0 r u w (add_to_step sc t v sv).0 written
      ∙ stored-add_to_step sc t u v w sv
      ∙ (λ i.
          if (t == u) && (v == w)
          then some (or_keep (stored_in_round-keep c r t v i) sv)
          else stored_in_round-keep c r u w i)

  stored_in_round_inv :
      (c : RoundCollector lru) (r : ℕ) (t : VoteType) (v : bft.Vote) (x : SignedVote)
      → stored_in_round c r t v ≡ some x
      → (sc : StepCollector) × (lru.get r c.round_votes ≡ some sc)
        × (stored_in_step sc t v ≡ some x)
  unfolding stored_in_round
  stored_in_round_inv c r t v x p = elim (Option-cases (lru.get r c.round_votes)) [
    | inl e ↦ absurd (none≢some (sym (rw (e, stored_in_round) refl) ∙ p))
    | inr (sc, e) ↦ (sc, e, sym (stored_in_round-some c r t v sc e) ∙ p)
  ]

  -- The votes of another round stay, or go with their round.
  pub stored_in_round-ne :
      (c : RoundCollector lru) (r q : ℕ) (t u : VoteType) (v w : bft.Vote) (sv x : SignedVote)
      → q ≢ r
      → stored_in_round (add_to_round lru c r t v sv).0 q u w ≡ some x
      → stored_in_round c q u w ≡ some x
  stored_in_round-ne c r q t u v w sv x ne p =
      let (sc, found, at_step) = stored_in_round_inv (add_to_round lru c r t v sv).0 q u w x p in
      let before =
        get-upsert_ne lru q r
          (add_to_step (or_keep (lru.get r c.round_votes) new_step_collector) t v sv).0
          c.round_votes sc ne
          (sym (ap (lru.get q) (round_votes-add_to_round c r t v sv)) ∙ found) in
      stored_in_round-some c q u w sc before ∙ at_step

  pub stored-some :
      (c : VoteCollector lru) (h r : ℕ) (t : VoteType) (v : bft.Vote) (rc : RoundCollector lru)
      → lru.get h c.votes ≡ some rc
      → stored c h r t v ≡ stored_in_round rc r t v
  unfolding stored
  stored-some c h r t v rc e = rw (e, stored)

  pub stored_inv :
      (c : VoteCollector lru) (h r : ℕ) (t : VoteType) (v : bft.Vote) (x : SignedVote)
      → stored c h r t v ≡ some x
      → (rc : RoundCollector lru) × (lru.get h c.votes ≡ some rc)
        × (stored_in_round rc r t v ≡ some x)
  unfolding stored
  stored_inv c h r t v x p = elim (Option-cases (lru.get h c.votes)) [
    | inl e ↦ absurd (none≢some (sym (rw (e, stored) refl) ∙ p))
    | inr (rc, e) ↦ (rc, e, sym (stored-some c h r t v rc e) ∙ p)
  ]

  pub stored-keep :
      (c : VoteCollector lru) (h r : ℕ) (t : VoteType) (v : bft.Vote)
      → stored_in_round (or_keep (lru.get h c.votes) (new_round_collector lru)) r t v
        ≡ stored c h r t v
  unfolding stored stored_in_round
  stored-keep c h r t v = elim (Option-cases (lru.get h c.votes)) [
    | inl e ↦ rw (e, stored, stored_in_round, get-new lru StepCollector cache_number r)
    | inr (rc, e) ↦ rw (e, stored)
  ]
