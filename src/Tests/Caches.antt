-- ===== src/Tests/Caches.antt =====
-- The caches of votes and proposals on concrete data.
use consensus_bft.Prelude.{ℕ, ◌≡◌, refl, ◌⊎◌, ◌&&◌, ◌∷◌, some, take, arith, if◌then◌else◌, ◌==◌}
use consensus_bft.Prelude.Map.{or_keep}
use consensus_bft.Prelude.Words.{bytes_eq}
use consensus_bft.BftCore.{vote_eq}
use consensus_bft.Lru.{without}
use consensus_bft.Types.{vote_type_eq, prevote}
use consensus_bft.Types.Convert.{to_bft_vote}
use consensus_bft.Collection.{
  VoteCollector, add_to_round, add_to_step, add_to_set, add_vote, new_vote_collector, get_vote_set,
  add_proposal, new_proposal_collector, cache_number,
}
use consensus_bft.Collection.Lookup.{
  stored, stored_in_round, stored_in_step, IsWellFormed, none≢some,
}
use consensus_bft.Collection.Votes.{
  new_vote_collector-IsWellFormed, add_vote-IsWellFormed, stored-add_vote_here, stored-add_vote_inv,
}
use consensus_bft.Collection.Recency.{keys-add_vote, stored-add_vote_kept, stored-get_vote_set}
use consensus_bft.Collection.Proposals.{stored_proposal, stored_proposal-add_proposal}
use consensus_bft.Tests.LruCase.{lru}
use consensus_bft.Tests.NodeCase.{signed, signed_proposal}

abbrev empty : VoteCollector lru
empty = new_vote_collector lru

-- Node 1 has voted at height 5 and round 0.
abbrev one_vote : VoteCollector lru
one_vote = (add_vote lru empty 5 0 prevote (to_bft_vote (signed 1).vote) (signed 1)).0

one_vote-IsWellFormed : IsWellFormed lru one_vote
one_vote-IsWellFormed =
    add_vote-IsWellFormed lru empty 5 0 prevote (to_bft_vote (signed 1).vote) (signed 1)
      (new_vote_collector-IsWellFormed lru)

add_vote-IsWellFormed_example :
    IsWellFormed lru (add_vote lru one_vote 5 0 prevote (to_bft_vote (signed 2).vote) (signed 2)).0
add_vote-IsWellFormed_example =
    add_vote-IsWellFormed lru one_vote 5 0 prevote (to_bft_vote (signed 2).vote) (signed 2)
      one_vote-IsWellFormed

stored-add_vote_here_example :
    stored lru
      (add_vote lru one_vote 5 0 prevote (to_bft_vote (signed 2).vote) (signed 2)).0
      5
      0
      prevote
      (to_bft_vote (signed 1).vote)
    ≡ (if (prevote == prevote) && (to_bft_vote (signed 2).vote == to_bft_vote (signed 1).vote)
        then some
            (or_keep (stored lru one_vote 5 0 prevote (to_bft_vote (signed 2).vote)) (signed 2))
        else stored lru one_vote 5 0 prevote (to_bft_vote (signed 1).vote))
stored-add_vote_here_example =
    stored-add_vote_here lru one_vote 5 0 prevote (to_bft_vote (signed 2).vote) (signed 2) prevote
      (to_bft_vote (signed 1).vote) one_vote-IsWellFormed

one_vote-stored : stored lru one_vote 5 0 prevote (to_bft_vote (signed 1).vote) ≡ some (signed 1)
unfolding stored stored_in_round stored_in_step add_vote add_to_round add_to_step add_to_set
    to_bft_vote
one_vote-stored = refl

stored-add_vote_inv_example :
    (stored lru empty 5 0 prevote (to_bft_vote (signed 1).vote) ≡ some (signed 1))
    ⊎ (◌≡◌ {A = ℕ} 5 5
        × ◌≡◌ {A = ℕ} 0 0
        × (prevote ≡ prevote)
        × (to_bft_vote (signed 1).vote ≡ to_bft_vote (signed 1).vote)
        × (signed 1 ≡ signed 1))
stored-add_vote_inv_example =
    stored-add_vote_inv lru empty 5 0 prevote (to_bft_vote (signed 1).vote) (signed 1) 5 0 prevote
      (to_bft_vote (signed 1).vote) (signed 1) (new_vote_collector-IsWellFormed lru) one_vote-stored

keys-add_vote_example :
    lru.keys (add_vote lru one_vote 6 0 prevote (to_bft_vote (signed 2).vote) (signed 2)).0.votes
    ≡ take cache_number (6 ∷ without 6 (lru.keys one_vote.votes))
unfolding add_vote
keys-add_vote_example =
    keys-add_vote lru one_vote 6 0 prevote (to_bft_vote (signed 2).vote) (signed 2)
      one_vote-IsWellFormed (omega arith)

stored-add_vote_kept_example :
    stored lru
      (add_vote lru one_vote 6 0 prevote (to_bft_vote (signed 2).vote) (signed 2)).0
      5
      0
      prevote
      (to_bft_vote (signed 1).vote)
    ≡ stored lru one_vote 5 0 prevote (to_bft_vote (signed 1).vote)
unfolding add_vote
stored-add_vote_kept_example =
    stored-add_vote_kept lru one_vote 6 0 prevote (to_bft_vote (signed 2).vote) (signed 2) 5 0
      prevote (to_bft_vote (signed 1).vote) (omega arith) refl

stored-get_vote_set_example :
    stored lru (get_vote_set lru one_vote 5 0 prevote).0 5 0 prevote (to_bft_vote (signed 1).vote)
    ≡ stored lru one_vote 5 0 prevote (to_bft_vote (signed 1).vote)
stored-get_vote_set_example =
    stored-get_vote_set lru one_vote 5 0 prevote 5 0 prevote (to_bft_vote (signed 1).vote)

stored_proposal-add_proposal_example :
    stored_proposal lru (add_proposal lru (new_proposal_collector lru) 5 0 signed_proposal).0 5 0
    ≡ some (or_keep (stored_proposal lru (new_proposal_collector lru) 5 0) signed_proposal)
stored_proposal-add_proposal_example =
    stored_proposal-add_proposal lru (new_proposal_collector lru) 5 0 signed_proposal
      (record { capacity = refl; rounds = λ h rc e. absurd (none≢some e) })
