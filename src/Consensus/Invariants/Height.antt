-- ===== src/Consensus/Invariants/Height.antt =====
-- src/consensus.rs: the height of the engine over the messages that it takes.
use consensus_bft.Prelude.{ℕ, ◌+◌, ◌≤◌, ◌<◌, inl, inr, Bool, List, arith, All}
use consensus_bft.Prelude.Exec.Keeps.{Keeps, Keeps-modify}
use consensus_bft.Prelude.Words.{u64_mod, add_u64-eq-add}
use consensus_bft.Types.{Status}
use consensus_bft.Consensus.Outside.{Outside}
use consensus_bft.Consensus.State
use consensus_bft.Consensus.State.{Consensus, Method}
use consensus_bft.Consensus.Checks
use consensus_bft.Consensus.Handlers
use consensus_bft.Consensus.Handlers.Core
use consensus_bft.Consensus.Process
use consensus_bft.Consensus.Process.{Event}
use consensus_bft.Consensus.Replay.{run}
use consensus_bft.Consensus.Steps.{CommitsGive, Brings}
use consensus_bft.Consensus.Steps.Frame.{Inner, steps_of, Keeps-switch_power}
use consensus_bft.Consensus.Steps.Loop.{Keeps-run}
use consensus_bft.Consensus.Effects.RichStatus.{handle_rich_status_cases}

-- The height after the status is a `u64` too.
abbrev pub HeightFits : Status → Type 0
HeightFits rs = rs.height + 1 < u64_mod

module _ {F : Type 0} (x : Outside F) where
  IsFrom : ℕ → Consensus x → Type 0
  IsFrom h s = h ≤ s.height

  Keeps-rich_status :
      (h : ℕ) (rs : Status) (b : Bool)
      → HeightFits rs
      → Keeps (IsFrom h) (Handlers.handle_rich_status x rs b)
  unfolding IsFrom
  Keeps-rich_status h rs b fits = record {
    at = λ s p. elim (handle_rich_status_cases x rs b s) [
      | inl a ↦ omega (arith, a.height)
      | inr (c, a) ↦ ground (arith, a.height, add_u64-eq-add rs.height 1 fits)
    ];
  }

  inner : (h : ℕ) → Inner x HeightFits (IsFrom h)
  unfolding IsFrom State.send_bft_msg Process.set_power Core.read_vote_set Core.add_own_vote
      Checks.add_prevote Handlers.add_to_votes
  inner h = record {
    respects = λ s t a p. omega (arith, a.height);
    reads = λ _ _ _. record { at = λ s p. p };
    own = λ _ _ _. Keeps-modify _ (λ s p. p);
    prevote = λ _ _ _ _. Keeps-modify _ (λ s p. p);
    vote = λ _ _. Keeps-modify _ (λ s p. p);
    power = λ b.
        Keeps-switch_power x b (λ c. Keeps-modify _ (λ s p. p))
          (λ msg name. record { at = λ s p. ground arith });
    rich_status = Keeps-rich_status h;
  }

  -- The height never falls, whatever messages the loop takes, if the height after every status that
  -- comes in or that the node answers with fits a `u64`.
  pub height-run :
      (es : List (Event x)) (s : Consensus x)
      → All (Brings x HeightFits) es
      → CommitsGive x HeightFits
      → s.height ≤ (run x es s).1.height
  unfolding IsFrom
  height-run es s all gives =
      (Keeps-run x (steps_of x (inner s.height)) es all gives).at s (omega arith)
