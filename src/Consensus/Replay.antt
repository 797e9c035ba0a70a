-- ===== src/Consensus/Replay.antt =====
-- src/consensus.rs: `new`, `load_wal_log` and the loop of `start`.
use consensus_bft.Prelude.{
  ℕ, ◌-◌, true, false, ◌&&◌, none, List, [], ◌∷◌, ok, panic, if◌then◌else◌, ltb, ◌==◌, nat_eq,
}
use consensus_bft.Prelude.Exec.{◌>>=◌, ◌>>◌, pure, lift, gets, or_raise, on_some, attempt}
use consensus_bft.Prelude.Words.{Bytes}
use consensus_bft.BftCore as bft
use consensus_bft.Error.{decode_err, de_json_err, send_msg_err}
use consensus_bft.Types.{Address, ConsensusOutput}
use consensus_bft.Types.Authority.{default}
use consensus_bft.Types.Convert.{to_bft_resp}
use consensus_bft.Types.Codec.{encode_signed_vote, decode_signed_proposal}
use consensus_bft.Util.Framing.{extract, decode_block}
use consensus_bft.Collection.{cache_number, new_vote_collector, new_proposal_collector}
use consensus_bft.Wal.Log
use consensus_bft.Wal.Log.{Wal}
use consensus_bft.Consensus.Outside.{Outside}
use consensus_bft.Consensus.State.{
  Consensus, Method, init_height, send_bft_msg, transmit, commit, log_type_signed_proposal,
  log_type_raw_bytes, log_type_rich_status, log_type_block_txs, log_type_verify_block_resp,
  log_type_proposal, log_type_vote, log_type_commit,
}
use consensus_bft.Consensus.Handlers.{
  handle_signed_proposal, handle_signed_vote, handle_rich_status,
}
use consensus_bft.Consensus.Handlers.Core.{handle_proposal, handle_vote, handle_commit}
use consensus_bft.Consensus.Process.{
  Event, process, decoded, note_block, note_verdict, note_proposal, send_proposal,
}

module _ {F : Type 0} (x : Outside F) where
  -- `Consensus::new`
  unfoldable pub new_consensus : Address → Wal → Consensus x
  new_consensus address wal_log = record {
    height = init_height;
    block = none;
    verified_block = [];
    address = address;
    authority = default;
    votes = new_vote_collector x.lru;
    proposals = new_proposal_collector x.lru;
    proof = none;
    wal_log = wal_log;
    block_origin_cache = [];
    proposal_cache = [];
    vote_cache = [];
    consensus_power = false;
    calls = 0;
    sent = [];
    transmitted = [];
    committed = [];
    async_queue = [];
  }

  -- `self.wal_log.load()`
  unfoldable pub load_log : Method x (List (ℕ × Bytes))
  load_log s =
      let (r, w) = Log.load s.wal_log in
      let after : Consensus x = record s { wal_log = w } in
      elim r [ ok msgs ↦ (ok msgs, after) | _ ↦ (panic, after) ]

  -- The branch of `LOG_TYPE_SIGNED_PROPOSAL`: a proposal that is cached is handled all the same.
  unfoldable pub replay_signed_proposal : Bytes → Method x (Unit {0})
  replay_signed_proposal msg = do
    (sp, block_bytes) ← lift (extract msg)
    signed_proposal ←
        decoded x (decode_signed_proposal x.rlp (x.rlp.of_bytes sp))
          "Rlp decode signed proposal error"
    (_, b, hash) ← decoded x (decode_block block_bytes) "Rlp decode block error"
    block ← or_raise (x.content.decode b) (decode_err "Rlp decode block error")
    note_block x hash block
    let height = signed_proposal.proposal.height
    now ← gets (λ s. s.height)
    if ltb now height && ltb (height - now) cache_number
        then note_proposal x height (signed_proposal, block, msg)
        else pure tt
    handled ← handle_signed_proposal x signed_proposal true msg
    send_proposal x handled

  unfoldable pub replay_signed_vote : Bytes → Method x (Unit {0})
  replay_signed_vote msg = do
    sv ← or_raise (x.json_signed_vote.from_slice msg) (de_json_err "SignedVote")
    handled ← attempt (handle_signed_vote x sv false)
    on_some handled (λ vote. send_bft_msg x (bft.CoreInput.vote vote) "BftVote") (pure tt)

  unfoldable pub replay_status : Bytes → Method x (Unit {0})
  replay_status msg = do
    rs ← or_raise (x.json_status.from_slice msg) (de_json_err "Status")
    handled ← attempt (handle_rich_status x rs false)
    on_some handled (λ status. send_bft_msg x (bft.CoreInput.status status) "BftStatus") (pure tt)

  unfoldable pub replay_feed : Bytes → Method x (Unit {0})
  replay_feed msg = do
    f ← or_raise (x.json_feed.from_slice msg) (de_json_err "Feed")
    let hash = x.content.hash f.content
    send_bft_msg x (bft.CoreInput.feed (record { height = f.height; proposal = hash })) "BftFeed"
    note_block x hash f.content

  unfoldable pub replay_verify_resp : Bytes → Method x (Unit {0})
  replay_verify_resp msg = do
    vr ← or_raise (x.json_verify_resp.from_slice msg) (de_json_err "VerifyResp")
    send_bft_msg x (bft.CoreInput.verify_resp (to_bft_resp vr)) "BftVerifyResp"
    note_verdict x vr.proposal vr.is_pass

  unfoldable pub replay_proposal : Bytes → Method x (Unit {0})
  replay_proposal msg = do
    p ← or_raise (x.json_bft_proposal.from_slice msg) (de_json_err "BftProposal")
    handled ← attempt (handle_proposal x p false)
    on_some handled
        (λ sp. transmit x (ConsensusOutput.signed_proposal sp) (send_msg_err "SignedProposal"))
        (pure tt)

  unfoldable pub replay_vote : Bytes → Method x (Unit {0})
  replay_vote msg = do
    v ← or_raise (x.json_bft_vote.from_slice msg) (de_json_err "BftVote")
    handled ← attempt (handle_vote x v false)
    on_some handled
        (λ sv.
          transmit x (ConsensusOutput.signed_vote (x.rlp.to_bytes (encode_signed_vote x.rlp sv)))
            (send_msg_err "SignedVote"))
        (pure tt)

  -- The status that the node answers with is dropped.
  unfoldable pub replay_commit : Bytes → Method x (Unit {0})
  replay_commit msg = do
    c ← or_raise (x.json_bft_commit.from_slice msg) (de_json_err "BftCommit")
    handled ← attempt (handle_commit x c true)
    on_some handled (λ done. do commit x done (send_msg_err "Commit"); pure tt) (pure tt)

  -- The `match` on the type of a message of the log.
  unfoldable pub replay_message : ℕ → Bytes → Method x (Unit {0})
  replay_message msg_type msg =
      if msg_type == log_type_signed_proposal
      then replay_signed_proposal msg
      else if msg_type == log_type_raw_bytes
      then replay_signed_vote msg
      else if msg_type == log_type_rich_status
      then replay_status msg
      else if msg_type == log_type_block_txs
      then replay_feed msg
      else if msg_type == log_type_verify_block_resp
      then replay_verify_resp msg
      else if msg_type == log_type_proposal
      then replay_proposal msg
      else if msg_type == log_type_vote
      then replay_vote msg
      else if msg_type == log_type_commit
      then replay_commit msg
      else pure tt

  unfoldable pub replay_messages : List (ℕ × Bytes) → Method x (Unit {0})
  replay_messages [] = pure tt
  replay_messages ((msg_type, msg) ∷ rest) = do replay_message msg_type msg; replay_messages rest

  -- `load_wal_log`
  unfoldable pub load_wal_log : Method x (Unit {0})
  load_wal_log = do msgs ← load_log; replay_messages msgs

  -- The loop of `start`, over the messages in the order in which they are received: an error is logged.
  unfoldable pub run : List (Event x) → Method x (Unit {0})
  run [] = pure tt
  run (e ∷ es) = do attempt (process x e); run es

  -- `#[cfg(feature = "wal_on")]`
  unfoldable pub recover : Method x (Unit {0})
  recover = if x.wal_on then (do attempt load_wal_log; pure tt) else pure tt

  -- The thread that `start` makes.
  unfoldable pub start : List (Event x) → Method x (Unit {0})
  start events = do recover; run events
