-- ===== src/Consensus/Invariants/Authority.antt =====
-- src/consensus.rs and src/types.rs: the two authority lists of the engine over the messages that it
-- takes.
use consensus_bft.Prelude.{
  ℕ, ◌<◌, ◌≡◌, refl, ◌⊎◌, inl, inr, Bool, List, map, arith, All, Bool-cases,
}
use consensus_bft.Prelude.Exec.Keeps.{Keeps, Keeps-modify}
use consensus_bft.Wal.Log.{Wal}
use consensus_bft.Prelude.Words.{bytes_eq, add_u64, add_u64-eq-add}
use consensus_bft.Types
use consensus_bft.Types.{Address, Status}
use consensus_bft.Types.Authority.{AuthorityManage, update_authority, to_set}
use consensus_bft.Consensus.Outside.{Outside}
use consensus_bft.Consensus.State
use consensus_bft.Consensus.State.{Consensus, Method}
use consensus_bft.Consensus.Checks
use consensus_bft.Consensus.Handlers
use consensus_bft.Consensus.Handlers.Core
use consensus_bft.Consensus.Process
use consensus_bft.Consensus.Process.{Event}
use consensus_bft.Consensus.Replay.{start, new_consensus}
use consensus_bft.Consensus.Steps.{CommitsGive, LogGives, Brings}
use consensus_bft.Consensus.Steps.Frame.{Agree, Inner, steps_of, Keeps-switch_power}
use consensus_bft.Consensus.Steps.Loop.Log.{Leads-start}
use consensus_bft.Consensus.Effects.RichStatus.{installed, handle_rich_status_cases}
use consensus_bft.Types.Authority.{default}
use consensus_bft.Consensus.Invariants.Height.{HeightFits}

-- The sets are of the lists, and the old list is of a height below the present one.
pub record AuthorityFits (height : ℕ) (m : AuthorityManage) : Type 0 where
  pub address_set : m.address_set ≡ to_set (map (λ node. node.address) m.authorities)
  pub address_set_old : m.address_set_old ≡ to_set (map (λ node. node.address) m.authorities_old)
  pub before : (m.authority_h_old < height) ⊎ (m ≡ default)

AuthorityFits-default : (h : ℕ) → AuthorityFits h default
unfolding to_set
AuthorityFits-default h = record { address_set = refl; address_set_old = refl; before = inr refl }

AuthorityFits-update_authority :
    (m : AuthorityManage) (now h : ℕ) (l : List Types.Node)
    → AuthorityFits now m
    → now < h
    → AuthorityFits h (update_authority m now l)
unfolding update_authority
AuthorityFits-update_authority m now h l fits lt = record {
  address_set = refl;
  address_set_old = fits.address_set;
  before = inl lt;
}

module _ {F : Type 0} (x : Outside F) where
  abbrev pub HasAuthority : Consensus x → Type 0
  HasAuthority s = AuthorityFits s.height s.authority

  same : (s t : Consensus x) → Agree x s t → HasAuthority s → HasAuthority t
  same s t a p = rw (a.height, a.authority) p

  Keeps-rich_status :
      (rs : Status) (b : Bool)
      → HeightFits rs
      → Keeps HasAuthority (Handlers.handle_rich_status x rs b)
  Keeps-rich_status rs b fits = record {
    at = λ s p. elim (handle_rich_status_cases x rs b s) [
      | inl a ↦ same s _ a p
      | inr (c, a) ↦ same (installed x s rs) _ a (
          AuthorityFits-update_authority s.authority s.height (add_u64 rs.height 1)
            rs.authority_list p (ground (arith, add_u64-eq-add rs.height 1 fits)))
    ];
  }

  inner : Inner x HeightFits HasAuthority
  unfolding State.send_bft_msg Process.set_power Core.read_vote_set Core.add_own_vote
      Checks.add_prevote Handlers.add_to_votes
  inner = record {
    respects = same;
    reads = λ _ _ _. record { at = λ s p. p };
    own = λ _ _ _. Keeps-modify _ (λ s p. p);
    prevote = λ _ _ _ _. Keeps-modify _ (λ s p. p);
    vote = λ _ _. Keeps-modify _ (λ s p. p);
    power = λ b.
        Keeps-switch_power x b (λ c. Keeps-modify _ (λ s p. p))
          (λ msg name. record {
            at = λ s p. elim (Bool-cases (x.core_takes s.calls msg)) [
              | inl e ↦ rw (e, State.send_bft_msg) p
              | inr e ↦ rw (e, State.send_bft_msg) p
            ];
          });
    rich_status = Keeps-rich_status;
  }

  -- From the start on, after the log and any messages, the address sets are those of the authority
  -- lists, and the old list belongs to a height below the present one, or the authorities are those of
  -- the start. The condition is that every status is of a height that fits a `u64` with the one after:
  -- those that come in, those that the node answers a commit with, and those that the status records
  -- hold which `load` gives of the log.
  pub start-AuthorityFits :
      (address : Address) (es : List (Event x)) (w : Wal)
      → All (Brings x HeightFits) es
      → CommitsGive x HeightFits
      → LogGives x HeightFits w
      → let t = (start x es (new_consensus x address w)).1 in AuthorityFits t.height t.authority
  unfolding new_consensus
  start-AuthorityFits address es w all gives log_gives =
      (Leads-start x (steps_of x inner) es (new_consensus x address w) all gives log_gives
        (AuthorityFits-default 0)).after
