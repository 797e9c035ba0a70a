-- ===== src/Consensus/Steps/Own.antt =====
-- src/consensus.rs: what the handlers of the output of the core keep.
use Prim.Native.String.{String}
use consensus_bft.Prelude.{ℕ, ◌≡◌, Bool, some, arith}
use consensus_bft.Prelude.Exec.{◌>>=◌}
use consensus_bft.Prelude.Exec.Keeps.{Keeps, keeps_rules, Keeps-after}
use consensus_bft.Prelude.Words.{Bytes, bytes_eq}
use consensus_bft.BftCore as bft
use consensus_bft.Types.{Status}
use consensus_bft.Consensus.Outside.{Outside}
use consensus_bft.Consensus.State
use consensus_bft.Consensus.State.{Consensus, Method, save_json, log_json}
use consensus_bft.Consensus.Handlers.Core
use consensus_bft.Consensus.Steps.{Steps}
use consensus_bft.Consensus.Steps.Received.{Keeps-log_json}

module _ {F : Type 0} (x : Outside F) {Q : Status → Type 0} {P : Consensus x → Type 0}
    (st : Steps x Q P) where
  pub Keeps-handle_commit : (c : bft.Commit) (b : Bool) → Keeps P (Core.handle_commit x c b)
  unfolding Core.handle_commit Core.generate_proof
  Keeps-handle_commit c b = search (keeps_rules, Keeps-log_json x st, st.reads, st.proof) depth 16

  -- The rest knows that the signature is of this node.
  Keeps-signed :
      {B : Type 0} (h : Bytes) (n : String) (k : Bytes → Method x B)
      → ((a : Bytes) → (m : ℕ) × (x.support.sign m h ≡ some a) → Keeps P (k a))
      → Keeps P (State.sign x h n >>= k)
  unfolding State.sign ◌>>=◌
  Keeps-signed h n k kk = record {
    at = λ s p.
        (Keeps-after (State.sign x h n) k (st.signs h n)
            (λ a (s', e). kk a (s'.calls, ground (arith, e)))).at
          s p;
  }

  pub Keeps-handle_vote : (v : bft.Vote) (b : Bool) → Keeps P (Core.handle_vote x v b)
  unfolding Core.handle_vote
  Keeps-handle_vote v b = search (keeps_rules, Keeps-log_json x st, Keeps-signed, st.own) depth 16

  Keeps-lock_votes_of : (p : bft.Proposal) → Keeps P (Core.lock_votes_of x p)
  unfolding Core.lock_votes_of
  Keeps-lock_votes_of p = search (keeps_rules, st.reads) depth 12

  Keeps-build_signed_proposal : (p : bft.Proposal) → Keeps P (Core.build_signed_proposal x p)
  unfolding Core.build_signed_proposal
  Keeps-build_signed_proposal p = search (keeps_rules, Keeps-lock_votes_of, st.signs) depth 16

  pub Keeps-handle_proposal : (p : bft.Proposal) (b : Bool) → Keeps P (Core.handle_proposal x p b)
  unfolding Core.handle_proposal
  Keeps-handle_proposal p b =
      search (keeps_rules, Keeps-log_json x st, Keeps-build_signed_proposal, st.proposal, st.checks)
        depth 20
