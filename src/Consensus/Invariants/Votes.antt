-- ===== src/Consensus/Invariants/Votes.antt =====
-- src/consensus.rs: the votes that the engine has stored.
use consensus_bft.Prelude.{
  ℕ, ◌≡◌, refl, sym, ◌∙◌, subst, ◌⊎◌, inl, inr, none, some, List, arith, Bool-cases,
}
use consensus_bft.Prelude.Exec.Keeps.{Keeps-modify}
use consensus_bft.Wal.Log.{Wal}
use consensus_bft.BftCore as bft
use consensus_bft.Types.{Address}
use consensus_bft.Consensus.Outside.{Outside}
use consensus_bft.Consensus.State
use consensus_bft.Consensus.State.{Consensus, Method}
use consensus_bft.Consensus.Checks
use consensus_bft.Consensus.Handlers
use consensus_bft.Consensus.Handlers.Core
use consensus_bft.Consensus.Process
use consensus_bft.Consensus.Process.{Event}
use consensus_bft.Consensus.Replay.{start, new_consensus}
use consensus_bft.Consensus.Steps.{Verifies, Signs, own_vote}
use consensus_bft.Consensus.Steps.Frame.{Agree, Inner, steps_of, Keeps-switch_power}
use consensus_bft.Consensus.Steps.Loop.Log.{Leads-start}
use consensus_bft.Consensus.Effects.RichStatus.{installed, handle_rich_status_cases}
use consensus_bft.Types.{VoteType, SignedVote, prevote}
use consensus_bft.Types.Convert.{to_bft_vote, from_bft_vote}
use consensus_bft.Lru.{LruCrate}
use consensus_bft.Lru.Upsert.{get-new}
use consensus_bft.Collection.{
  VoteCollector, RoundCollector, cache_number, add_vote, new_vote_collector,
}
use consensus_bft.Consensus.Invariants.Power.{LogGives-any, Brings-All}
use consensus_bft.Collection.Lookup.{IsWellFormed, stored, none≢some}
use consensus_bft.Collection.Votes.{
  new_vote_collector-IsWellFormed, add_vote-IsWellFormed, stored-add_vote_inv,
}
use consensus_bft.Collection.Recency.{stored-get_vote_set, get_vote_set-IsWellFormed}

to_bft_vote-from_bft_vote :
    (v : bft.Vote) → to_bft_vote (from_bft_vote v (Core.vote_type_of v.vote_type)) ≡ v
unfolding to_bft_vote from_bft_vote
to_bft_vote-from_bft_vote v = ground arith

stored-new :
    (lru : LruCrate) (h r : ℕ) (t : VoteType) (v : bft.Vote)
    → stored lru (new_vote_collector lru) h r t v ≡ none
unfolding stored
stored-new lru h r t v = rw (get-new lru (RoundCollector lru) cache_number h, stored)

module _ {F : Type 0} (x : Outside F) where
  -- A stored vote is of the signed vote, which its voter or this node has signed.
  pub record IsSigned (v : bft.Vote) (sv : SignedVote) : Type 0 where
    pub vote : v ≡ to_bft_vote sv.vote
    pub by : Verifies x sv ⊎ Signs x sv

  pub record VotesFit (c : VoteCollector x.lru) : Type 0 where
    pub well_formed : IsWellFormed x.lru c
    pub signed :
        (h r : ℕ) (t : VoteType) (v : bft.Vote) (sv : SignedVote)
        → stored x.lru c h r t v ≡ some sv
        → IsSigned v sv

  pub VotesFit-add_vote :
      (c : VoteCollector x.lru) (h r : ℕ) (t : VoteType) (v : bft.Vote) (sv : SignedVote)
      → IsSigned v sv
      → VotesFit c
      → VotesFit (add_vote x.lru c h r t v sv).0
  VotesFit-add_vote c h r t v sv new fit = record {
    well_formed = add_vote-IsWellFormed x.lru c h r t v sv fit.well_formed;
    signed = λ k q u w sw p.
        elim (stored-add_vote_inv x.lru c h r t v sv k q u w sw fit.well_formed p) [
          | inl old ↦ fit.signed k q u w sw old
          | inr (_, _, _, same_vote, same) ↦ rw (same_vote, same) new
        ];
  }

  pub VotesFit-new : VotesFit (new_vote_collector x.lru)
  VotesFit-new = record {
    well_formed = new_vote_collector-IsWellFormed x.lru;
    signed = λ h r t v sv p. absurd (none≢some (sym (stored-new x.lru h r t v) ∙ p));
  }

  abbrev pub HasVotes : Consensus x → Type 0
  HasVotes s = VotesFit s.votes

  same : (s t : Consensus x) → Agree x s t → HasVotes s → HasVotes t
  same s t a p = subst VotesFit (sym a.votes) p

  inner : Inner x (λ rs. Unit) HasVotes
  unfolding State.send_bft_msg Process.set_power Core.read_vote_set Core.add_own_vote
      Checks.add_prevote Handlers.add_to_votes
  inner = record {
    respects = same;
    reads = λ h r t. record {
      at = λ s p. record {
        well_formed = get_vote_set-IsWellFormed x.lru s.votes h r t p.well_formed;
        signed = λ k q u w sv e.
            p.signed k q u w sv (sym (stored-get_vote_set x.lru s.votes h r t k q u w) ∙ e);
      };
    };
    own = λ v sig by. Keeps-modify _ λ s p.
        VotesFit-add_vote s.votes v.height v.round (Core.vote_type_of v.vote_type) v
          (own_vote v sig) (record { vote = sym (to_bft_vote-from_bft_vote v); by = inr by }) p;
    prevote = λ h r sv by. Keeps-modify _ λ s p.
        VotesFit-add_vote s.votes h r prevote (to_bft_vote sv.vote) sv
          (record { vote = refl; by = inl by }) p;
    vote = λ sv by. Keeps-modify _ λ s p.
        VotesFit-add_vote s.votes sv.vote.height sv.vote.round sv.vote.vote_type
          (to_bft_vote sv.vote) sv (record { vote = refl; by = inl by }) p;
    power = λ b.
        Keeps-switch_power x b (λ c. Keeps-modify _ (λ s p. p))
          (λ msg name. record {
            at = λ s p. elim (Bool-cases (x.core_takes s.calls msg)) [
              | inl e ↦ rw (e, State.send_bft_msg) p
              | inr e ↦ rw (e, State.send_bft_msg) p
            ];
          });
    rich_status = λ rs b _. record {
      at = λ s p. elim (handle_rich_status_cases x rs b s) [
        | inl a ↦ same s _ a p
        | inr (c, a) ↦ same (installed x s rs) _ a p
      ];
    };
  }

  -- From the start on, every stored vote is the vote of a signed vote whose signature recovers to its
  -- voter, or that this node has signed, and every cache of the votes has its capacity.
  pub start-VotesFit :
      (address : Address) (es : List (Event x)) (w : Wal)
      → VotesFit (start x es (new_consensus x address w)).1.votes
  unfolding new_consensus
  start-VotesFit address es w =
      (Leads-start x (steps_of x inner) es (new_consensus x address w) (Brings-All x es)
        (λ _ _ _ _. tt) (LogGives-any x w) VotesFit-new).after
