-- ===== src/Tests/Engine.antt =====
-- The engine from its start: a status, a vote, and a proposal request.
use consensus_bft.Prelude.{◌≤◌, ◌≡◌, refl, subst, some_eq, false, List, [], ◌∷◌, arith, All}
use consensus_bft.Prelude.Words.{bytes_eq}
use consensus_bft.BftCore as bft
use consensus_bft.Types
use consensus_bft.Types.{Status, Commit}
use consensus_bft.Types.Codec.{encode_signed_vote}
use consensus_bft.Consensus.Process.{Event, from_core, from_outside}
use consensus_bft.Consensus.Replay.{start, run, new_consensus}
use consensus_bft.Consensus.Steps.{CommitsGive, Brings}
use consensus_bft.Consensus.Steps.Frame.{running}
use consensus_bft.Consensus.Invariants.Height.{HeightFits, height-run}
use consensus_bft.Consensus.Invariants.Power.{start-running}
use consensus_bft.Consensus.Invariants.Votes.{VotesFit, start-VotesFit}
use consensus_bft.Tests.NodeCase.{outside, log, state, status_at, signed}

abbrev events : List (Event outside)
events =
    from_outside (Types.ConsensusInput.status (status_at 5))
    ∷ from_outside (Types.ConsensusInput.signed_vote (encode_signed_vote outside.rlp (signed 2)))
    ∷ from_core (bft.CoreOutput.get_proposal_request 6)
    ∷ []

events_fit : All (Brings outside HeightFits) events
events_fit = (omega arith, (tt, (tt, tt)))

commits_give : CommitsGive outside HeightFits
commits_give n c rs e = subst HeightFits (some_eq e) (omega arith)

start-VotesFit_example :
    VotesFit outside (start outside events (new_consensus outside (1 ∷ []) log)).1.votes
start-VotesFit_example = start-VotesFit outside (1 ∷ []) events log

height-run_example : 5 ≤ (run outside events state).1.height
height-run_example = height-run outside events state events_fit commits_give

start-running_example :
    let t = (start outside events (new_consensus outside (1 ∷ []) log)).1 in
    running false t.sent ≡ t.consensus_power
start-running_example = start-running outside (1 ∷ []) events log (λ n msg. refl)
