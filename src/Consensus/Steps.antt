-- ===== src/Consensus/Steps.antt =====
-- src/consensus.rs: the steps by which the handlers change the state, as a record of what each of
-- them keeps. The files below walk through the handlers, the log and the loop.
pub mod Received
pub mod Own
pub mod Loop
pub mod Frame
use Prim.Native.String.{String}
use consensus_bft.Prelude.{
  ℕ, ◌≡◌, refl, Bool, true, false, Option, none, some, List, [], ◌∷◌, Outcome, ok, err, panic, not,
  ◌==◌, arith, All,
}
use consensus_bft.Prelude.Exec.{Exec, pure, or_raise, ◌>>=◌}
use consensus_bft.Prelude.Exec.Keeps.{
  Keeps, keeps_rules, Keeps-after, Keeps-attempt, Keeps-bind, Keeps-verified, Keeps-guard,
  Keeps-gets, Keeps-raise_if,
}
use consensus_bft.Prelude.Words.{Bytes, bytes_eq}
use consensus_bft.BftCore as bft
use consensus_bft.Error.{ConsensusError}
use consensus_bft.Types
use consensus_bft.Types.{Hash, Address, Proof, Status, Commit, AsyncMsg, ConsensusOutput}
use consensus_bft.Types.Convert.{from_bft_vote}
use consensus_bft.Wal.Disk.{IoError}
use consensus_bft.Wal.Log
use consensus_bft.Wal.Log.{Wal}
use consensus_bft.Consensus.Outside.{Outside}
use consensus_bft.Consensus.State
use consensus_bft.Consensus.State.{Consensus, Method, save_json, log_json, log_type_rich_status}
use consensus_bft.Consensus.Checks
use consensus_bft.Consensus.Checks.{vote_hash}
use consensus_bft.Consensus.Handlers
use consensus_bft.Consensus.Handlers.Core
use consensus_bft.Consensus.Process
use consensus_bft.Consensus.Process.{Event, from_core, from_outside, from_queue}
use consensus_bft.Consensus.Replay

-- Whether a message tells the core to start or to stop.
abbrev pub is_power : bft.CoreInput → Bool
is_power bft.CoreInput.start = true
is_power bft.CoreInput.pause = true
is_power _ = false

abbrev pub own_vote : bft.Vote → Bytes → Types.SignedVote
own_vote v sig = record { vote = from_bft_vote v (Core.vote_type_of v.vote_type); signature = sig }

module _ {F : Type 0} (x : Outside F) where
  -- The signature of a vote recovers to its voter.
  abbrev pub Verifies : Types.SignedVote → Type 0
  Verifies sv = x.support.verify_signature sv.signature (vote_hash x sv.vote) ≡ some sv.vote.voter

  -- This node has signed the vote.
  abbrev pub Signs : Types.SignedVote → Type 0
  Signs sv = (n : ℕ) × (x.support.sign n (vote_hash x sv.vote) ≡ some sv.signature)

  -- `Q` is what is known of a status that the node gives or gets.
  pub record Steps (Q : Status → Type 0) (P : Consensus x → Type 0) : Type 1 where
    pub send :
        (msg : bft.CoreInput) (name : String)
        → is_power msg ≡ false
        → Keeps P (State.send_bft_msg x msg name)
    pub transmits :
        (msg : ConsensusOutput F) (e : ConsensusError) → Keeps P (State.transmit x msg e)
    pub signs : (hash : Bytes) (name : String) → Keeps P (State.sign x hash name)
    pub commits : (c : Commit F) (e : ConsensusError) → Keeps P (State.commit x c e)
    pub checks :
        (h : Bytes) (f : F) (sh : Bytes) (is_lock is_by_self : Bool)
        → Keeps P (State.check_proposal x h f sh is_lock is_by_self)
    pub logs :
        {A : Type 0} (m : Exec Wal IoError A) (name : String) → Keeps P (State.on_wal x m name)
    pub loads : Keeps P (Replay.load_log x)
    pub reads : (h r : ℕ) (t : Types.VoteType) → Keeps P (Core.read_vote_set x h r t)
    pub own :
        (v : bft.Vote) (sig : Bytes)
        → Signs (own_vote v sig)
        → Keeps P (Core.add_own_vote x v (own_vote v sig))
    pub prevote :
        (h r : ℕ) (sv : Types.SignedVote) → Verifies sv → Keeps P (Checks.add_prevote x h r sv)
    pub vote : (sv : Types.SignedVote) → Verifies sv → Keeps P (Handlers.add_to_votes x sv)
    pub proposal :
        (h r : ℕ) (sp : Types.SignedProposal) → Keeps P (Handlers.add_to_proposals x h r sp)
    pub proof : (p : Proof) → Keeps P (Checks.set_proof x p)
    pub verdict : (h : Hash) (b : Bool) → Keeps P (Process.note_verdict x h b)
    pub block : (h : Hash) (f : F) → Keeps P (Process.note_block x h f)
    pub future_proposal :
        (h : ℕ) (e : Types.SignedProposal × F × Bytes) → Keeps P (Process.note_proposal x h e)
    pub future_vote : (h : ℕ) (sv : Types.SignedVote) → Keeps P (Handlers.cache_vote x h sv)
    pub drop_proposals : (h : ℕ) → Keeps P (Process.drop_proposals x h)
    pub drop_votes : (h : ℕ) → Keeps P (Process.drop_votes x h)
    pub call : Keeps P (Process.note_call x)
    pub enqueue : (m : AsyncMsg F) → Keeps P (Process.enqueue x m)
    pub power : (b : Bool) → Keeps P (Process.switch_power x b)
    pub rich_status : (rs : Status) (b : Bool) → Q rs → Keeps P (Handlers.handle_rich_status x rs b)

  -- What holds of every status that the node gives in answer to a commit.
  abbrev pub CommitsGive : (Status → Type 0) → Type 0
  CommitsGive Q = (n : ℕ) (c : Commit F) (rs : Status) → x.support.commit n c ≡ some rs → Q rs

  -- What holds of every status that a message of the log holds.
  abbrev pub Gives : (Status → Type 0) → ℕ × Bytes → Type 0
  Gives Q (t, msg) =
      (rs : Status) → t ≡ log_type_rich_status → x.json_status.from_slice msg ≡ some rs → Q rs

  -- What holds of every status that `load` gives of the log.
  abbrev pub LogGives : (Status → Type 0) → Wal → Type 0
  LogGives Q w = (msgs : List (ℕ × Bytes)) → (Log.load w).0 ≡ ok msgs → All (Gives Q) msgs

  -- What holds of a status that comes from the network or the node.
  abbrev pub Brings : (Status → Type 0) → Event x → Type 0
  Brings Q (from_outside (Types.ConsensusInput.status rs)) = Q rs
  Brings Q _ = Unit
