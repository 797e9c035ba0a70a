-- ===== src/Consensus/Steps/Loop/Log.antt =====
-- src/consensus.rs: what `load_wal_log` and the thread of `start` keep.
use consensus_bft.Prelude.{ℕ, ◌≡◌, false, some, ok, List, [], ◌∷◌, nat_eq, All, arith}
use consensus_bft.Wal.Log
use consensus_bft.Prelude.Exec.Keeps.{
  Keeps, keeps_rules, Keeps-attempt, Keeps-pure, Leads, Leads-bind, Leads-if, Leads-attempt,
  Leads-Keeps, Keeps-bind, Keeps-branch, Keeps-if, Keeps-verified,
}
use consensus_bft.Prelude.Words.{Bytes, bytes_eq}
use consensus_bft.Types.{Status}
use consensus_bft.Consensus.Outside.{Outside}
use consensus_bft.Consensus.State.{Consensus, log_type_rich_status}
use consensus_bft.Consensus.Process.{Event}
use consensus_bft.Consensus.Replay
use consensus_bft.Consensus.Steps.{Steps, CommitsGive, Gives, LogGives, Brings}
use consensus_bft.Consensus.Steps.Received.{Keeps-handle_signed_proposal, Keeps-handle_signed_vote}
use consensus_bft.Consensus.Steps.Own.{
  Keeps-handle_commit, Keeps-handle_vote, Keeps-handle_proposal,
}
use consensus_bft.Consensus.Steps.Loop.{Keeps-send_proposal, Keeps-decoded, Keeps-run}

module _ {F : Type 0} (x : Outside F) {Q : Status → Type 0} {P : Consensus x → Type 0}
    (st : Steps x Q P) where
  Keeps-replay_signed_proposal : (b : Bytes) → Keeps P (Replay.replay_signed_proposal x b)
  unfolding Replay.replay_signed_proposal
  Keeps-replay_signed_proposal b =
      search
        (
          keeps_rules,
          Keeps-decoded x st,
          st.block,
          st.future_proposal,
          Keeps-handle_signed_proposal x st,
          Keeps-send_proposal x st,
        )
        depth 24

  Keeps-replay_signed_vote : (b : Bytes) → Keeps P (Replay.replay_signed_vote x b)
  unfolding Replay.replay_signed_vote
  Keeps-replay_signed_vote b = search (keeps_rules, Keeps-handle_signed_vote x st, st.send) depth 16

  Keeps-replay_status :
      (b : Bytes)
      → ((rs : Status) → x.json_status.from_slice b ≡ some rs → Q rs)
      → Keeps P (Replay.replay_status x b)
  unfolding Replay.replay_status
  Keeps-replay_status b gives = Keeps-verified _ _ _ λ rs e.
      Keeps-bind _ _ (Keeps-attempt _ (st.rich_status rs false (gives rs e)))
        λ handled. search (keeps_rules, st.send) depth 12

  Keeps-replay_feed : (b : Bytes) → Keeps P (Replay.replay_feed x b)
  unfolding Replay.replay_feed
  Keeps-replay_feed b = search (keeps_rules, st.send, st.block) depth 12

  Keeps-replay_verify_resp : (b : Bytes) → Keeps P (Replay.replay_verify_resp x b)
  unfolding Replay.replay_verify_resp
  Keeps-replay_verify_resp b = search (keeps_rules, st.send, st.verdict) depth 12

  Keeps-replay_proposal : (b : Bytes) → Keeps P (Replay.replay_proposal x b)
  unfolding Replay.replay_proposal
  Keeps-replay_proposal b = search (keeps_rules, Keeps-handle_proposal x st, st.transmits) depth 12

  Keeps-replay_vote : (b : Bytes) → Keeps P (Replay.replay_vote x b)
  unfolding Replay.replay_vote
  Keeps-replay_vote b = search (keeps_rules, Keeps-handle_vote x st, st.transmits) depth 12

  Keeps-replay_commit : (b : Bytes) → Keeps P (Replay.replay_commit x b)
  unfolding Replay.replay_commit
  Keeps-replay_commit b = search (keeps_rules, Keeps-handle_commit x st, st.commits) depth 12

  Keeps-replay_message : (m : ℕ × Bytes) → Gives x Q m → Keeps P (Replay.replay_message x m.0 m.1)
  unfolding Replay.replay_message
  Keeps-replay_message (t, b) gives = Keeps-if _ _ _ (Keeps-replay_signed_proposal b) (
      Keeps-if _ _ _ (Keeps-replay_signed_vote b) (
        Keeps-branch _ _ _
          (λ e.
            Keeps-replay_status b (λ rs. gives rs ((nat_eq.beq_iff t log_type_rich_status).0 e)))
          (λ _.
            search
              (
                keeps_rules, Keeps-replay_feed, Keeps-replay_verify_resp, Keeps-replay_proposal,
                Keeps-replay_vote, Keeps-replay_commit,
              )
              depth 16)))

  Keeps-replay_messages :
      (l : List (ℕ × Bytes)) → All (Gives x Q) l → Keeps P (Replay.replay_messages x l)
  unfolding Replay.replay_messages
  Keeps-replay_messages [] gives = search keeps_rules
  Keeps-replay_messages (m ∷ l) gives =
      Keeps-bind _ _ (Keeps-replay_message m gives.0) λ _. Keeps-replay_messages l gives.1

  -- What `load_log` succeeds with is what `load` of the log succeeds with.
  load_log-load :
      (s : Consensus x) (l : List (ℕ × Bytes))
      → (Replay.load_log x s).0 ≡ ok l
      → (Log.load s.wal_log).0 ≡ ok l
  unfolding Replay.load_log
  load_log-load s l e = ground arith

  Leads-load_wal_log :
      (s : Consensus x) → LogGives x Q s.wal_log → P s → Leads P (Replay.load_wal_log x) s
  unfolding Replay.load_wal_log
  Leads-load_wal_log s gives p =
      Leads-bind _ _ s (Leads-Keeps _ s st.loads p)
        λ l e. Keeps-replay_messages l (gives l (load_log-load s l e))

  Leads-recover : (s : Consensus x) → LogGives x Q s.wal_log → P s → Leads P (Replay.recover x) s
  unfolding Replay.recover
  Leads-recover s gives p =
      Leads-if x.wal_on _ _ s
        (Leads-bind _ _ s (Leads-attempt _ s (Leads-load_wal_log s gives p)) λ _ _. Keeps-pure tt)
        (Leads-Keeps _ s (Keeps-pure tt) p)

  -- What the steps keep, the thread of the engine keeps from a state on.
  pub Leads-start :
      (es : List (Event x)) (s : Consensus x)
      → All (Brings x Q) es
      → CommitsGive x Q
      → LogGives x Q s.wal_log
      → P s
      → Leads P (Replay.start x es) s
  unfolding Replay.start
  Leads-start es s all gives log_gives p =
      Leads-bind _ _ s (Leads-recover s log_gives p) λ _ _. Keeps-run x st es all gives
