-- ===== src/Consensus/State.antt =====
-- src/consensus.rs: the state of `Consensus`, and the calls by which it acts on the outside. Beside
-- the fields of the struct stands what went out so far: the messages to the core, to the network and
-- to the node, and the queue of `async_send`, each in order, the latest last.
use Prim.Native.String.{String}
use consensus_bft.Prelude.{
  ℕ, suc, Bool, Option, none, some, List, [], ◌∷◌, ◌++◌, ok, err, panic, if◌then◌else◌,
}
use consensus_bft.Prelude.Exec.{Exec, pure, raise, on_some}
use consensus_bft.Prelude.Map.{Map}
use consensus_bft.Prelude.Words.{Bytes}
use consensus_bft.BftCore as bft
use consensus_bft.Error.{ConsensusError, support_err, ser_json_err, save_wal_err, send_msg_err}
use consensus_bft.Types.{
  Address, Hash, SignedProposal, SignedVote, Proof, Commit, ConsensusOutput, AsyncMsg, verify_resp,
  Status,
}
use consensus_bft.Types.Authority.{AuthorityManage}
use consensus_bft.Collection.{VoteCollector, ProposalCollector}
use consensus_bft.Wal.Disk.{IoError}
use consensus_bft.Wal.Log
use consensus_bft.Wal.Log.{Wal}
use consensus_bft.Consensus.Outside.{Outside}

abbrev pub init_height : ℕ
init_height = 0

abbrev pub log_type_signed_proposal : ℕ
log_type_signed_proposal = 1

abbrev pub log_type_raw_bytes : ℕ
log_type_raw_bytes = 2

abbrev pub log_type_rich_status : ℕ
log_type_rich_status = 3

abbrev pub log_type_block_txs : ℕ
log_type_block_txs = 4

abbrev pub log_type_verify_block_resp : ℕ
log_type_verify_block_resp = 5

abbrev pub log_type_proposal : ℕ
log_type_proposal = 6

abbrev pub log_type_vote : ℕ
log_type_vote = 7

abbrev pub log_type_commit : ℕ
log_type_commit = 8

module _ {F : Type 0} (x : Outside F) where
  pub record Consensus : Type 0 where
    pub height : ℕ
    pub block : Option Bytes
    pub verified_block : Map Hash Bool
    pub address : Address
    pub authority : AuthorityManage
    pub votes : VoteCollector x.lru
    pub proposals : ProposalCollector x.lru
    pub proof : Option Proof
    pub wal_log : Wal
    pub block_origin_cache : Map Hash F
    pub proposal_cache : Map ℕ (List (SignedProposal × F × Bytes))
    pub vote_cache : Map ℕ (List SignedVote)
    pub consensus_power : Bool
    -- the outside
    pub calls : ℕ
    pub sent : List bft.CoreInput
    pub transmitted : List (ConsensusOutput F)
    pub committed : List (Commit F)
    pub async_queue : List (AsyncMsg F)

  abbrev pub Method : Type 0 → Type 0
  Method A = Exec Consensus ConsensusError A

  -- `self.bft.send_bft_msg(msg).map_err(|_| ConsensusError::SendMsgErr(name))?`
  unfoldable pub send_bft_msg : bft.CoreInput → String → Method (Unit {0})
  send_bft_msg msg name s =
      let after : Consensus = record s { calls = suc s.calls } in
      if x.core_takes s.calls msg
      then (ok tt, record after { sent = s.sent ++ msg ∷ [] })
      else (err (send_msg_err name), after)

  -- `self.function.transmit(msg).map_err(..)`
  unfoldable pub transmit : ConsensusOutput F → ConsensusError → Method (Unit {0})
  transmit msg e s =
      let after : Consensus = record s { calls = suc s.calls } in
      if x.support.transmit s.calls msg
      then (ok tt, record after { transmitted = s.transmitted ++ msg ∷ [] })
      else (err e, after)

  -- `self.function.sign(&hash).map_err(..)?`
  unfoldable pub sign : Bytes → String → Method Bytes
  sign hash name s =
      let after : Consensus = record s { calls = suc s.calls } in
      elim (x.support.sign s.calls hash) [
        | some sig ↦ (ok sig, after)
        | none ↦ (err (support_err name), after)
      ]

  -- `self.function.commit(commit).map_err(..)?`
  unfoldable pub commit : Commit F → ConsensusError → Method Status
  commit c e s =
      let after : Consensus = record s { calls = suc s.calls; committed = s.committed ++ c ∷ [] } in
      elim (x.support.commit s.calls c) [ some status ↦ (ok status, after) | none ↦ (err e, after) ]

  -- `check_proposal`: the scope joins its thread, so the answer is in the queue when it returns.
  unfoldable pub check_proposal : Bytes → F → Bytes → Bool → Bool → Method (Unit {0})
  check_proposal proposal_hash proposal signed_proposal_hash is_lock is_by_self s =
      let is_pass =
        x.support.check_proposal s.calls proposal_hash proposal signed_proposal_hash is_lock
          is_by_self in
      (
        ok tt,
        record s {
          calls = suc s.calls;
          async_queue =
              s.async_queue
              ++ verify_resp (record { is_pass = is_pass; proposal = proposal_hash }) ∷ [];
        },
      )

  -- A call of the log, of which only success counts.
  unfoldable pub on_wal : {A : Type 0} → Exec Wal IoError A → String → Method (Unit {0})
  on_wal m name s =
      let (r, w) = m s.wal_log in
      let after : Consensus = record s { wal_log = w } in
      elim r [
        | ok _ ↦ (ok tt, after)
        | err _ ↦ (err (save_wal_err name), after)
        | panic ↦ (panic, after)
      ]

  -- `if let Ok(msg) = to_string(..) { if self.wal_log.save(..).is_err() { .. } } else { .. }`
  unfoldable pub save_json : ℕ → ℕ → Option Bytes → String → Method (Unit {0})
  save_json height mtype json name =
      on_some json (λ msg. on_wal (Log.save height mtype msg) name) (raise (ser_json_err name))

  -- The same under `if cfg!(feature = "wal_on") && need_wal`.
  unfoldable pub log_json : Bool → ℕ → ℕ → Option Bytes → String → Method (Unit {0})
  log_json need_wal height mtype json name =
      if x.wal_on then (if need_wal then save_json height mtype json name else pure tt) else pure tt
