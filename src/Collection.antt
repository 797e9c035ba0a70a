-- ===== src/Collection.antt =====
-- src/collection.rs: the votes and proposals that a node has seen, by height, round and step, in
-- caches of `CACHE_NUMBER` entries. `contains_key` followed by `get_mut(..).unwrap()` is one match on
-- what the cache holds.
pub mod Lookup
pub mod Votes
pub mod Recency
pub mod Proposals
use consensus_bft.Prelude.{ℕ, Bool, true, false, Option, none, some, [], Eq}
use consensus_bft.Prelude.Map
use consensus_bft.Prelude.Map.{Map}
use consensus_bft.BftCore as bft
use consensus_bft.BftCore.{vote_eq}
use consensus_bft.Lru.{LruCrate}
use consensus_bft.Types.{VoteType, vote_type_eq, SignedVote, SignedProposal}

abbrev pub cache_number : ℕ
cache_number = 16

pub record VoteSet : Type 0 where
  pub vote_pair : Map bft.Vote SignedVote

pub record StepCollector : Type 0 where
  pub step_votes : Map VoteType VoteSet

abbrev pub new_vote_set : VoteSet
new_vote_set = record { vote_pair = [] }

abbrev pub new_step_collector : StepCollector
new_step_collector = record { step_votes = [] }

-- `VoteSet::add`: the set, and whether the vote is new.
unfoldable pub add_to_set : VoteSet → bft.Vote → SignedVote → VoteSet × Bool
add_to_set s bft_vote signed_vote = (
  record { vote_pair = Map.or_insert bft_vote signed_vote s.vote_pair },
  elim (Map.get bft_vote s.vote_pair) [ none ↦ true | some _ ↦ false ],
)

-- `StepCollector::add`: `entry(vote_type).or_insert_with(VoteSet::new).add(..)`
unfoldable pub add_to_step : StepCollector → VoteType → bft.Vote → SignedVote → StepCollector × Bool
add_to_step c vote_type bft_vote signed_vote =
    let set = Map.or_keep (Map.get vote_type c.step_votes) new_vote_set in
    let (set', added) = add_to_set set bft_vote signed_vote in
    (record { step_votes = Map.insert vote_type set' c.step_votes }, added)

module _ (lru : LruCrate) where
  pub record RoundCollector : Type 0 where
    pub round_votes : lru.Lru StepCollector

  pub record VoteCollector : Type 0 where
    pub votes : lru.Lru RoundCollector

  pub record ProposalRoundCollector : Type 0 where
    pub round_proposals : lru.Lru SignedProposal

  pub record ProposalCollector : Type 0 where
    pub proposals : lru.Lru ProposalRoundCollector

  abbrev pub new_round_collector : RoundCollector
  new_round_collector = record { round_votes = lru.new StepCollector cache_number }

  abbrev pub new_vote_collector : VoteCollector
  new_vote_collector = record { votes = lru.new RoundCollector cache_number }

  abbrev pub new_proposal_round_collector : ProposalRoundCollector
  new_proposal_round_collector = record { round_proposals = lru.new SignedProposal cache_number }

  abbrev pub new_proposal_collector : ProposalCollector
  new_proposal_collector = record { proposals = lru.new ProposalRoundCollector cache_number }

  -- `RoundCollector::add`
  unfoldable pub add_to_round :
      RoundCollector → ℕ → VoteType → bft.Vote → SignedVote → RoundCollector × Bool
  add_to_round c round vote_type bft_vote signed_vote = elim (lru.get round c.round_votes) [
    | some step_votes ↦
        let (step_votes', added) = add_to_step step_votes vote_type bft_vote signed_vote in
        (record { round_votes = lru.update round step_votes' c.round_votes }, added)
    | none ↦
        let (step_votes, _) = add_to_step new_step_collector vote_type bft_vote signed_vote in
        (record { round_votes = lru.insert round step_votes c.round_votes }, true)
  ]

  -- `VoteCollector::add`
  unfoldable pub add_vote :
      VoteCollector → ℕ → ℕ → VoteType → bft.Vote → SignedVote → VoteCollector × Bool
  add_vote c height round vote_type bft_vote signed_vote = elim (lru.get height c.votes) [
    | some round_votes ↦
        let (round_votes', added) = add_to_round round_votes round vote_type bft_vote signed_vote in
        (record { votes = lru.update height round_votes' c.votes }, added)
    | none ↦
        let (round_votes, _) =
          add_to_round new_round_collector round vote_type bft_vote signed_vote in
        (record { votes = lru.insert height round_votes c.votes }, true)
  ]

  -- `get_mut(..)` that only reads makes the key the most recently used one.
  abbrev pub touch : {V : Type 0} → ℕ → lru.Lru V → lru.Lru V
  touch k c = elim (lru.get k c) [ some v ↦ lru.update k v c | none ↦ c ]

  -- `StepCollector::get_vote_set`, `RoundCollector::get_vote_set` and `VoteCollector::get_vote_set`
  unfoldable pub get_step_set : StepCollector → VoteType → Option VoteSet
  get_step_set c vote_type = Map.get vote_type c.step_votes

  unfoldable pub get_round_set : RoundCollector → ℕ → VoteType → RoundCollector × Option VoteSet
  get_round_set c round vote_type = (
    record { round_votes = touch round c.round_votes },
    elim (lru.get round c.round_votes) [ some sc ↦ get_step_set sc vote_type | none ↦ none ],
  )

  unfoldable pub get_vote_set : VoteCollector → ℕ → ℕ → VoteType → VoteCollector × Option VoteSet
  get_vote_set c height round vote_type = elim (lru.get height c.votes) [
    | some rc ↦
        let (rc', found) = get_round_set rc round vote_type in
        (record { votes = lru.update height rc' c.votes }, found)
    | none ↦ (c, none)
  ]

  -- `ProposalRoundCollector::add`
  unfoldable pub add_round_proposal :
      ProposalRoundCollector → ℕ → SignedProposal → ProposalRoundCollector × Bool
  add_round_proposal c round proposal = elim (lru.get round c.round_proposals) [
    | some _ ↦ (c, false)
    | none ↦ (record { round_proposals = lru.insert round proposal c.round_proposals }, true)
  ]

  -- `ProposalCollector::add`
  unfoldable pub add_proposal :
      ProposalCollector → ℕ → ℕ → SignedProposal → ProposalCollector × Bool
  add_proposal c height round proposal = elim (lru.get height c.proposals) [
    | some round_proposals ↦
        let (round_proposals', added) = add_round_proposal round_proposals round proposal in
        (record { proposals = lru.update height round_proposals' c.proposals }, added)
    | none ↦
        let (round_proposals, _) = add_round_proposal new_proposal_round_collector round proposal in
        (record { proposals = lru.insert height round_proposals c.proposals }, true)
  ]
