-- ===== src/Consensus/Invariants/Power.antt =====
-- src/consensus.rs: the power of the engine, and what it has told the core.
use consensus_bft.Prelude.{ℕ, ◌≡◌, refl, inl, inr, Bool, true, false, List, [], ◌∷◌, arith, All}
use consensus_bft.Prelude.Words.{Bytes}
use consensus_bft.Prelude.Exec.{◌>>=◌}
use consensus_bft.Prelude.Exec.Keeps.{Keeps, Keeps-modify}
use consensus_bft.Wal.Log.{Wal}
use consensus_bft.BftCore as bft
use consensus_bft.Types
use consensus_bft.Types.{Address, Status}
use consensus_bft.Consensus.Outside.{Outside}
use consensus_bft.Consensus.State
use consensus_bft.Consensus.State.{Consensus, Method}
use consensus_bft.Consensus.Checks
use consensus_bft.Consensus.Handlers
use consensus_bft.Consensus.Handlers.Core
use consensus_bft.Consensus.Process
use consensus_bft.Consensus.Process.{Event}
use consensus_bft.Consensus.Replay.{start, new_consensus}
use consensus_bft.Consensus.Steps.{Gives, LogGives, Brings}
use consensus_bft.Consensus.Steps.Frame.{Agree, Inner, steps_of, running, running-append}
use consensus_bft.Consensus.Steps.Loop.Log.{Leads-start}
use consensus_bft.Consensus.Effects.RichStatus.{installed, handle_rich_status_cases}

module _ {F : Type 0} (x : Outside F) where
  -- `Core::send_bft_msg` never fails: the core is there.
  abbrev pub CoreTakes : Type 0
  CoreTakes = (n : ℕ) (msg : bft.CoreInput) → x.core_takes n msg ≡ true

  -- The core was started last, and not paused since, just when the engine has power.
  abbrev pub PowerShown : Consensus x → Type 0
  PowerShown s = running false s.sent ≡ s.consensus_power

  same : (s t : Consensus x) → Agree x s t → PowerShown s → PowerShown t
  same s t a p = cc (a.runs, a.power, p)

  Keeps-switch_power_on : CoreTakes → (b : Bool) → Keeps PowerShown (Process.switch_power x b)
  unfolding Process.switch_power Process.set_power State.send_bft_msg ◌>>=◌ running
  Keeps-switch_power_on takes b = record {
    at = λ s p. ground (
      arith,
      takes s.calls bft.CoreInput.start,
      takes s.calls bft.CoreInput.pause,
      running-append false s.sent (bft.CoreInput.start ∷ []),
      running-append false s.sent (bft.CoreInput.pause ∷ []),
    );
  }

  inner : CoreTakes → Inner x (λ rs. Unit) PowerShown
  unfolding Core.read_vote_set Core.add_own_vote Checks.add_prevote Handlers.add_to_votes
  inner takes = record {
    respects = same;
    reads = λ _ _ _. record { at = λ s p. p };
    own = λ _ _ _. Keeps-modify _ (λ s p. p);
    prevote = λ _ _ _ _. Keeps-modify _ (λ s p. p);
    vote = λ _ _. Keeps-modify _ (λ s p. p);
    power = Keeps-switch_power_on takes;
    rich_status = λ rs b _. record {
      at = λ s p. elim (handle_rich_status_cases x rs b s) [
        | inl a ↦ same s _ a p
        | inr (c, a) ↦ same (installed x s rs) _ a p
      ];
    };
  }

  Brings-any : (e : Event x) → Brings x (λ rs. Unit) e
  Brings-any (Event.from_core m) = tt
  Brings-any (Event.from_outside (Types.ConsensusInput.signed_proposal b)) = tt
  Brings-any (Event.from_outside (Types.ConsensusInput.signed_vote b)) = tt
  Brings-any (Event.from_outside (Types.ConsensusInput.status rs)) = tt
  Brings-any (Event.from_queue m) = tt

  pub Brings-All : (es : List (Event x)) → All (Brings x (λ rs. Unit)) es
  Brings-All [] = tt
  Brings-All (e ∷ es) = (Brings-any e, Brings-All es)

  Gives-any : (l : List (ℕ × Bytes)) → All (Gives x (λ rs. Unit)) l
  Gives-any [] = tt
  Gives-any (m ∷ l) = (λ _ _ _. tt, Gives-any l)

  pub LogGives-any : (w : Wal) → LogGives x (λ rs. Unit) w
  LogGives-any w l e = Gives-any l

  -- From the start on, while the core takes what it is sent, the last of the starts and pauses that the
  -- engine sent to the core is a start just when the engine has power.
  pub start-running :
      (address : Address) (es : List (Event x)) (w : Wal)
      → CoreTakes
      → let t = (start x es (new_consensus x address w)).1 in
        running false t.sent ≡ t.consensus_power
  unfolding new_consensus running
  start-running address es w takes =
      (Leads-start x (steps_of x (inner takes)) es (new_consensus x address w) (Brings-All es)
        (λ _ _ _ _. tt) (LogGives-any w) refl).after
