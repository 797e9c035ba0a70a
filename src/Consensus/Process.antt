-- ===== src/Consensus/Process.antt =====
-- src/consensus.rs: what the engine does with a message from the network, from the core and from its
-- own queue, and the loop that takes them as they come.
use Prim.Native.String.{String}
use consensus_bft.Prelude.{
  ℕ, suc, ◌-◌, Bool, true, false, ◌&&◌, Option, List, [], ◌∷◌, ◌++◌, Outcome, ok, err, panic,
  if◌then◌else◌, ltb, nat_eq, not, contains,
}
use consensus_bft.Prelude.Exec.{◌>>=◌, ◌>>◌, pure, raise, abort, gets, modify, or_raise, on_some}
use consensus_bft.Prelude.Map
use consensus_bft.Prelude.Map.{or_keep}
use consensus_bft.Prelude.Words.{Bytes, bytes_eq}
use consensus_bft.Prelude.Utf8.{is_utf8}
use consensus_bft.BftCore as bft
use consensus_bft.Error.{decode_err, support_err, ser_json_err}
use consensus_bft.Types
use consensus_bft.Types.{Hash, VerifyResp, Feed, Status, ConsensusInput, AsyncMsg, ConsensusOutput}
use consensus_bft.Types.Convert.{to_bft_resp}
use consensus_bft.Types.Codec.{encode_signed_vote, decode_signed_vote, decode_signed_proposal}
use consensus_bft.Util.Framing.{extract, decode_block}
use consensus_bft.Util.Weights.{into_addr_set}
use consensus_bft.Collection.{cache_number}
use consensus_bft.Wal.Log
use consensus_bft.Consensus.Outside.{Outside}
use consensus_bft.Consensus.State.{
  Method, send_bft_msg, transmit, commit, on_wal, log_json, log_type_signed_proposal,
  log_type_verify_block_resp, log_type_block_txs,
}
use consensus_bft.Consensus.Handlers.{
  handle_signed_proposal, handle_signed_vote, handle_rich_status,
}
use consensus_bft.Consensus.Handlers.Core.{handle_proposal, handle_vote, handle_commit}

module _ {F : Type 0} (x : Outside F) where
  -- `.map_err(|_| ConsensusError::DecodeErr(name))?` on a decoder's result
  unfoldable pub decoded : {E A : Type 0} → Outcome E A → String → Method x A
  decoded (ok a) name = pure a
  decoded (err e) name = raise (decode_err name)
  decoded panic name = abort

  unfoldable pub note_verdict : Hash → Bool → Method x (Unit {0})
  note_verdict hash is_pass =
      modify (λ s. record s { verified_block = Map.or_insert hash is_pass s.verified_block })

  unfoldable pub note_block : Hash → F → Method x (Unit {0})
  note_block hash block =
      modify (λ s. record s { block_origin_cache = Map.or_insert hash block s.block_origin_cache })

  unfoldable pub note_proposal : ℕ → Types.SignedProposal × F × Bytes → Method x (Unit {0})
  note_proposal height entry = modify (λ s. record s {
    proposal_cache =
        Map.insert height (or_keep (Map.get height s.proposal_cache) [] ++ entry ∷ [])
          s.proposal_cache;
  })

  unfoldable pub verify_resp_received : VerifyResp → Method x (Unit {0})
  verify_resp_received vr = do
    send_bft_msg x (bft.CoreInput.verify_resp (to_bft_resp vr)) "VerifyResp"
    note_verdict vr.proposal vr.is_pass
    now ← gets (λ s. s.height)
    log_json x true now log_type_verify_block_resp (x.json_verify_resp.to_string vr) "VerifyResp"

  unfoldable pub feed_received : Feed F → Method x (Unit {0})
  feed_received f = do
    let hash = x.content.hash f.content
    send_bft_msg x (bft.CoreInput.feed (record { height = f.height; proposal = hash })) "Feed"
    note_block hash f.content
    now ← gets (λ s. s.height)
    log_json x true now log_type_block_txs (x.json_feed.to_string f) "Feed"

  unfoldable pub async_process : AsyncMsg F → Method x (Unit {0})
  async_process (AsyncMsg.verify_resp vr) = verify_resp_received vr
  async_process (AsyncMsg.feed f) = feed_received f

  -- A proposal, and what is known of its block, handed to the core.
  unfoldable pub send_proposal : bft.Proposal × Option VerifyResp → Method x (Unit {0})
  send_proposal (proposal, verify_resp) = do
    send_bft_msg x (bft.CoreInput.proposal proposal) "BftProposal"
    on_some verify_resp
        (λ res. send_bft_msg x (bft.CoreInput.verify_resp (to_bft_resp res)) "BftVerifyResp")
        (pure tt)

  -- The part of a signed proposal's branch under `signed_proposal_height > self.height && ..`.
  unfoldable pub cache_proposal : ℕ → Types.SignedProposal → F → Bytes → Method x (Unit {0})
  cache_proposal height signed_proposal block bytes = do
    if x.wal_on
        then (if is_utf8 bytes
            then on_wal x (Log.save height log_type_signed_proposal bytes) "SignedProposal"
            else raise (ser_json_err "SignedProposal"))
        else pure tt
    note_proposal height (signed_proposal, block, bytes)

  -- The bytes of a signed proposal and its block, taken apart.
  unfoldable pub read_proposal : Bytes → Method x (Types.SignedProposal × F × Hash)
  read_proposal bytes = do
    (sp, block_bytes) ← decoded (extract bytes) "Decode signed proposal error"
    signed_proposal ←
        decoded (decode_signed_proposal x.rlp (x.rlp.of_bytes sp)) "Rlp decode block error"
    (_, b, hash) ← decoded (decode_block block_bytes) "Decode block error"
    block ← or_raise (x.content.decode b) (decode_err "Decode block error")
    pure (signed_proposal, block, hash)

  unfoldable pub signed_proposal_received : Bytes → Method x (Unit {0})
  signed_proposal_received bytes = do
    (signed_proposal, block, hash) ← read_proposal bytes
    note_block hash block
    let height = signed_proposal.proposal.height
    now ← gets (λ s. s.height)
    if ltb now height && ltb (height - now) cache_number
        then cache_proposal height signed_proposal block bytes
        else (do
          handled ← handle_signed_proposal x signed_proposal true bytes
          send_proposal handled)

  unfoldable pub signed_vote_received : Bytes → Method x (Unit {0})
  signed_vote_received bytes = do
    sv ← decoded (decode_signed_vote x.rlp (x.rlp.of_bytes bytes)) "Rlp decode signed vote error"
    vote ← handle_signed_vote x sv true
    send_bft_msg x (bft.CoreInput.vote vote) "BftVote"

  -- The loops of `send_cache_proposal` and `send_cache_vote`: an error ends them.
  unfoldable pub send_proposals : List (Types.SignedProposal × F × Bytes) → Method x (Unit {0})
  send_proposals [] = pure tt
  send_proposals ((signed_proposal, block, bytes) ∷ rest) = do
    handled ← handle_signed_proposal x signed_proposal true bytes
    send_proposal handled
    send_proposals rest

  unfoldable pub send_votes : List Types.SignedVote → Method x (Unit {0})
  send_votes [] = pure tt
  send_votes (signed_vote ∷ rest) = do
    vote ← handle_signed_vote x signed_vote true
    send_bft_msg x (bft.CoreInput.vote vote) "BftVote"
    send_votes rest

  unfoldable pub drop_proposals : ℕ → Method x (Unit {0})
  drop_proposals height =
      modify (λ s. record s { proposal_cache = Map.remove height s.proposal_cache })

  unfoldable pub send_cache_proposal : ℕ → Method x (Unit {0})
  send_cache_proposal height = do
    cache ← gets (λ s. s.proposal_cache)
    drop_proposals height
    send_proposals (or_keep (Map.get height cache) [])

  unfoldable pub drop_votes : ℕ → Method x (Unit {0})
  drop_votes height = modify (λ s. record s { vote_cache = Map.remove height s.vote_cache })

  unfoldable pub send_cache_vote : ℕ → Method x (Unit {0})
  send_cache_vote height = do
    cache ← gets (λ s. s.vote_cache)
    drop_votes height
    send_votes (or_keep (Map.get height cache) [])

  unfoldable pub set_power : Bool → Method x (Unit {0})
  set_power b = modify (λ s. record s { consensus_power = b })

  -- Whether this node takes part in the next height, told to the core when it changes.
  unfoldable pub switch_power : Bool → Method x (Unit {0})
  switch_power is_authority = do
    power ← gets (λ s. s.consensus_power)
    if is_authority
        then (if not power
            then (do set_power true; send_bft_msg x bft.CoreInput.start "BftStart")
            else pure tt)
        else if power
        then (do set_power false; send_bft_msg x bft.CoreInput.pause "BftPause")
        else pure tt

  unfoldable pub status_received : Status → Method x (Unit {0})
  status_received rs = do
    status ← handle_rich_status x rs true
    s ← gets (λ s. s)
    switch_power (contains (into_addr_set rs.authority_list) s.address)
    send_bft_msg x (bft.CoreInput.status status) "BftStatus"
    now ← gets (λ s. s.height)
    send_cache_proposal now
    now ← gets (λ s. s.height)
    send_cache_vote now

  unfoldable pub external_process : ConsensusInput → Method x (Unit {0})
  external_process (ConsensusInput.signed_proposal bytes) = signed_proposal_received bytes
  external_process (ConsensusInput.signed_vote bytes) = signed_vote_received bytes
  external_process (ConsensusInput.status rs) = status_received rs

  unfoldable pub note_call : Method x (Unit {0})
  note_call = modify (λ s. record s { calls = suc s.calls })

  unfoldable pub enqueue : AsyncMsg F → Method x (Unit {0})
  enqueue msg = modify (λ s. record s { async_queue = s.async_queue ++ msg ∷ [] })

  -- The scope joins its thread, so the feed is in the queue when this returns.
  unfoldable pub ask_for_proposal : ℕ → Method x (Unit {0})
  ask_for_proposal height = do
    calls ← gets (λ s. s.calls)
    note_call
    on_some (x.support.get_content calls height)
        (λ content. enqueue (AsyncMsg.feed (record { height = height; content = content })))
        (pure tt)

  unfoldable pub core_process : bft.CoreOutput → Method x (Unit {0})
  core_process (bft.CoreOutput.proposal p) = do
    sp ← handle_proposal x p true
    transmit x (ConsensusOutput.signed_proposal sp) (support_err "Transmit signed proposal error")
  core_process (bft.CoreOutput.vote v) = do
    sv ← handle_vote x v true
    transmit x (ConsensusOutput.signed_vote (x.rlp.to_bytes (encode_signed_vote x.rlp sv)))
        (support_err "Transmit signed vote error")
  core_process (bft.CoreOutput.commit c) = do
    done ← handle_commit x c true
    status ← commit x done (support_err "Commit proposal error")
    external_process (ConsensusInput.status status)
  core_process (bft.CoreOutput.get_proposal_request h) = ask_for_proposal h

  -- What the loop of `start` can receive.
  pub data Event : Type 0 where
    from_core : bft.CoreOutput → Event
    from_outside : ConsensusInput → Event
    from_queue : AsyncMsg F → Event

  unfoldable pub process : Event → Method x (Unit {0})
  process (from_core m) = core_process m
  process (from_outside m) = external_process m
  process (from_queue m) = async_process m
