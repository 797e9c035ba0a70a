-- ===== src/Consensus/Steps/Loop.antt =====
-- src/consensus.rs: what the branches of the three `.._process`, the log and the loop keep.
pub mod Log
use Prim.Native.String.{String}
use consensus_bft.Prelude.{
  ℕ, ◌≡◌, refl, Bool, true, false, Option, none, some, List, [], ◌∷◌, Outcome, ok, err, panic, not,
  ◌==◌, arith, All,
}
use consensus_bft.Prelude.Exec.{Exec, pure, or_raise, ◌>>=◌}
use consensus_bft.Prelude.Exec.Keeps.{
  Keeps, keeps_rules, Keeps-after, Keeps-attempt, Keeps-bind, Keeps-verified, Keeps-guard,
  Keeps-gets, Keeps-raise_if,
}
use consensus_bft.Prelude.Words.{Bytes, bytes_eq}
use consensus_bft.BftCore as bft
use consensus_bft.Error.{ConsensusError}
use consensus_bft.Types
use consensus_bft.Types.{Hash, Address, Proof, Status, Commit, AsyncMsg, ConsensusOutput}
use consensus_bft.Types.Convert.{from_bft_vote}
use consensus_bft.Wal.Disk.{IoError}
use consensus_bft.Wal.Log.{Wal}
use consensus_bft.Consensus.Outside.{Outside}
use consensus_bft.Consensus.State
use consensus_bft.Consensus.State.{Consensus, Method, save_json, log_json}
use consensus_bft.Consensus.Checks
use consensus_bft.Consensus.Checks.{vote_hash}
use consensus_bft.Consensus.Handlers
use consensus_bft.Consensus.Handlers.Core
use consensus_bft.Consensus.Process
use consensus_bft.Consensus.Process.{Event, from_core, from_outside, from_queue}
use consensus_bft.Consensus.Replay
use consensus_bft.Consensus.Steps.{
  is_power, Verifies, Signs, own_vote, Steps, CommitsGive, LogGives, Brings,
}
use consensus_bft.Consensus.Steps.Received.{
  Keeps-log_json, Keeps-handle_signed_proposal, Keeps-handle_signed_vote,
}
use consensus_bft.Consensus.Steps.Own.{
  Keeps-handle_commit, Keeps-handle_vote, Keeps-handle_proposal,
}

module _ {F : Type 0} (x : Outside F) {Q : Status → Type 0} {P : Consensus x → Type 0}
    (st : Steps x Q P) where
  pub Keeps-send_proposal :
      (r : bft.Proposal × Option Types.VerifyResp) → Keeps P (Process.send_proposal x r)
  unfolding Process.send_proposal
  Keeps-send_proposal (p, r) = search (keeps_rules, st.send) depth 12

  pub Keeps-decoded :
      {E A : Type 0} (r : Outcome E A) (n : String) → Keeps P (Process.decoded x r n)
  unfolding Process.decoded
  Keeps-decoded (ok a) n = search keeps_rules
  Keeps-decoded (err e) n = search keeps_rules
  Keeps-decoded panic n = search keeps_rules

  Keeps-read_proposal : (b : Bytes) → Keeps P (Process.read_proposal x b)
  unfolding Process.read_proposal
  Keeps-read_proposal b = search (keeps_rules, Keeps-decoded) depth 16

  Keeps-verify_resp_received : (r : Types.VerifyResp) → Keeps P (Process.verify_resp_received x r)
  unfolding Process.verify_resp_received
  Keeps-verify_resp_received r =
      search (keeps_rules, st.send, st.verdict, Keeps-log_json x st) depth 16

  Keeps-feed_received : (f : Types.Feed F) → Keeps P (Process.feed_received x f)
  unfolding Process.feed_received
  Keeps-feed_received f = search (keeps_rules, st.send, st.block, Keeps-log_json x st) depth 16

  Keeps-cache_proposal :
      (h : ℕ) (sp : Types.SignedProposal) (f : F) (b : Bytes)
      → Keeps P (Process.cache_proposal x h sp f b)
  unfolding Process.cache_proposal
  Keeps-cache_proposal h sp f b = search (keeps_rules, st.logs, st.future_proposal) depth 12

  Keeps-signed_proposal_received : (b : Bytes) → Keeps P (Process.signed_proposal_received x b)
  unfolding Process.signed_proposal_received
  Keeps-signed_proposal_received b =
      search
        (
          keeps_rules,
          Keeps-read_proposal,
          st.block,
          Keeps-cache_proposal,
          Keeps-handle_signed_proposal x st,
          Keeps-send_proposal,
        )
        depth 16

  Keeps-signed_vote_received : (b : Bytes) → Keeps P (Process.signed_vote_received x b)
  unfolding Process.signed_vote_received
  Keeps-signed_vote_received b =
      search (keeps_rules, Keeps-decoded, Keeps-handle_signed_vote x st, st.send) depth 16

  Keeps-send_proposals :
      (l : List (Types.SignedProposal × F × Bytes)) → Keeps P (Process.send_proposals x l)
  unfolding Process.send_proposals
  Keeps-send_proposals [] = search keeps_rules
  Keeps-send_proposals ((sp, f, b) ∷ l) =
      Keeps-bind _ _ (Keeps-handle_signed_proposal x st sp true b)
        λ handled. Keeps-bind _ _ (Keeps-send_proposal handled) λ _. Keeps-send_proposals l

  Keeps-send_votes : (l : List Types.SignedVote) → Keeps P (Process.send_votes x l)
  unfolding Process.send_votes
  Keeps-send_votes [] = search keeps_rules
  Keeps-send_votes (sv ∷ l) = Keeps-bind _ _ (Keeps-handle_signed_vote x st sv true) λ vote.
      Keeps-bind _ _ (st.send (bft.CoreInput.vote vote) "BftVote" refl) λ _. Keeps-send_votes l

  Keeps-send_cache_proposal : (h : ℕ) → Keeps P (Process.send_cache_proposal x h)
  unfolding Process.send_cache_proposal
  Keeps-send_cache_proposal h = search (keeps_rules, st.drop_proposals, Keeps-send_proposals)

  Keeps-send_cache_vote : (h : ℕ) → Keeps P (Process.send_cache_vote x h)
  unfolding Process.send_cache_vote
  Keeps-send_cache_vote h = search (keeps_rules, st.drop_votes, Keeps-send_votes)

  Keeps-status_received : (rs : Status) → Q rs → Keeps P (Process.status_received x rs)
  unfolding Process.status_received
  Keeps-status_received rs q = Keeps-bind _ _ (st.rich_status rs true q) λ status.
      search (keeps_rules, st.power, st.send, Keeps-send_cache_proposal, Keeps-send_cache_vote)
        depth 20

  Keeps-ask_for_proposal : (h : ℕ) → Keeps P (Process.ask_for_proposal x h)
  unfolding Process.ask_for_proposal
  Keeps-ask_for_proposal h =
      Keeps-bind _ _ (Keeps-gets _)
        λ calls. Keeps-bind _ _ st.call λ _. search (keeps_rules, st.enqueue)

  -- The rest knows that the node gave the status.
  Keeps-commit :
      {B : Type 0} (c : Commit F) (e : ConsensusError) (k : Status → Method x B)
      → ((rs : Status) → Q rs → Keeps P (k rs))
      → CommitsGive x Q
      → Keeps P (State.commit x c e >>= k)
  unfolding State.commit ◌>>=◌
  Keeps-commit c e k kk gives = record {
    at = λ s p.
        (Keeps-after (State.commit x c e) k (st.commits c e)
            (λ a (s', q). kk a (gives s'.calls c a (ground (arith, q))))).at
          s p;
  }

  Keeps-core_process : (m : bft.CoreOutput) → CommitsGive x Q → Keeps P (Process.core_process x m)
  unfolding Process.core_process Process.external_process
  Keeps-core_process (bft.CoreOutput.proposal p) gives =
      search (keeps_rules, Keeps-handle_proposal x st, st.transmits)
  Keeps-core_process (bft.CoreOutput.vote v) gives =
      search (keeps_rules, Keeps-handle_vote x st, st.transmits)
  Keeps-core_process (bft.CoreOutput.commit c) gives =
      Keeps-bind _ _ (Keeps-handle_commit x st c true)
        λ done. Keeps-commit done _ _ (λ rs q. Keeps-status_received rs q) gives
  Keeps-core_process (bft.CoreOutput.get_proposal_request h) gives = Keeps-ask_for_proposal h

  pub Keeps-process : (e : Event x) → Brings x Q e → CommitsGive x Q → Keeps P (Process.process x e)
  unfolding Process.process Process.external_process Process.async_process
  Keeps-process (from_core m) q gives = Keeps-core_process m gives
  Keeps-process (from_outside (Types.ConsensusInput.signed_proposal b)) q gives =
      Keeps-signed_proposal_received b
  Keeps-process (from_outside (Types.ConsensusInput.signed_vote b)) q gives =
      Keeps-signed_vote_received b
  Keeps-process (from_outside (Types.ConsensusInput.status rs)) q gives = Keeps-status_received rs q
  Keeps-process (from_queue (AsyncMsg.verify_resp r)) q gives = Keeps-verify_resp_received r
  Keeps-process (from_queue (AsyncMsg.feed f)) q gives = Keeps-feed_received f

  -- What the steps keep, the loop keeps.
  pub Keeps-run :
      (es : List (Event x)) → All (Brings x Q) es → CommitsGive x Q → Keeps P (Replay.run x es)
  unfolding Replay.run
  Keeps-run [] all gives = search keeps_rules
  Keeps-run (e ∷ es) (q, all) gives =
      Keeps-bind _ _ (Keeps-attempt _ (Keeps-process e q gives)) λ _. Keeps-run es all gives
